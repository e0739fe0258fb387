-- ===== src/Prelude/Arrays.antt =====
-- Lists as C arrays: reads and writes by index, exchange of two entries, and how often a value occurs.
use Prim.Native.Nat.{ℕ, zero, suc, ◌+◌, ◌<◌}
use mathlib.Core.Path.{◌≡◌, refl}
use mathlib.Core.Logic.{inl, inr}
use mathlib.Core.List.{List, [], ◌∷◌, ◌++◌}
use mathlib.Core.Bool.{Bool, true, false, ◌||◌}
use mathlib.Core.Option.{some}
use native.Mathlib.Omega.{arith}
use cs58final_project.Prelude.Tests.{◌==◌, if◌then◌else◌, Bool-cases}
use cs58final_project.Prelude.Lists.{length, get_elem?, get_or, set, take, length-set}

module _ {ℓ} {A : Type ℓ} where
  pub get_elem?-get_or :
      (bs : List A) (i : ℕ) (d : A) → i < length bs → get_elem? bs i ≡ some (get_or bs i d)
  get_elem?-get_or [] i d h = absurd (omega arith)
  get_elem?-get_or (b ∷ bs) zero d h = refl
  get_elem?-get_or (b ∷ bs) (suc i) d h = get_elem?-get_or bs i d (omega arith)

  -- a write inside the array, read back at any index
  pub get_or-set :
      (bs : List A) (i j : ℕ) (v d : A)
      → i < length bs
      → get_or (set bs i v) j d ≡ (if j == i then v else get_or bs j d)
  get_or-set [] i j v d h = absurd (omega arith)
  get_or-set (b ∷ bs) zero zero v d h = refl
  get_or-set (b ∷ bs) zero (suc j) v d h = ground arith
  get_or-set (b ∷ bs) (suc i) zero v d h = ground arith
  get_or-set (b ∷ bs) (suc i) (suc j) v d h = ground (arith, get_or-set bs i j v d)

-- how often a number occurs in a list
unfoldable pub count : ℕ → List ℕ → ℕ
count x [] = 0
count x (y ∷ ys) = (if x == y then 1 else 0) + count x ys

pub count-cons : (x y : ℕ) (ys : List ℕ) → count x (y ∷ ys) ≡ (if x == y then 1 else 0) + count x ys
unfolding count
count-cons x y ys = refl

pub count-nil : (x : ℕ) → count x [] ≡ 0
unfolding count
count-nil x = refl

pub count-append : (x : ℕ) (xs ys : List ℕ) → count x (xs ++ ys) ≡ count x xs + count x ys
unfolding count
count-append x [] ys = omega arith
count-append x (y ∷ xs) ys = omega (arith, count-append x xs ys)

-- A write trades the old entry for the new one.
pub count-set :
    (x : ℕ) (a : List ℕ) (i v : ℕ)
    → i < length a
    → count x (set a i v) + (if x == get_or a i 0 then 1 else 0)
      ≡ count x a + (if x == v then 1 else 0)
unfolding count
count-set x [] i v h = absurd (omega arith)
count-set x (y ∷ a) zero v h = omega arith
count-set x (y ∷ a) (suc i) v h = omega (arith, count-set x a i v (omega arith))

-- the exchange of `a[i]` and `a[j]`
unfoldable pub swap : List ℕ → ℕ → ℕ → List ℕ
swap a i j = set (set a i (get_or a j 0)) j (get_or a i 0)

pub length-swap : (a : List ℕ) (i j : ℕ) → length (swap a i j) ≡ length a
unfolding swap
length-swap a i j = simp length-set

module _ (a : List ℕ) (i j : ℕ) (hi : i < length a) (hj : j < length a) where
  pub get_or-swap :
      (c : ℕ)
      → get_or (swap a i j) c 0
        ≡ (if c == j then get_or a i 0 else if c == i then get_or a j 0 else get_or a c 0)
  unfolding swap
  get_or-swap c = ground (
    arith,
    length-set a i (get_or a j 0),
    get_or-set a i c (get_or a j 0) 0,
    get_or-set (set a i (get_or a j 0)) j c (get_or a i 0) 0,
  )

  pub count-swap : (x : ℕ) → count x (swap a i j) ≡ count x a
  unfolding swap
  count-swap x =
      let b : List ℕ = set a i (get_or a j 0) in
      let kept : get_or b j 0 ≡ get_or a j 0 = ground (arith, get_or-set a i j (get_or a j 0) 0) in
      let second =
        rw kept at
          (count-set x b j (get_or a i 0) (omega (arith, length-set a i (get_or a j 0)))) in
      omega (arith, count-set x a i (get_or a j 0) hi, second)

pub index_of_count :
    (x : ℕ) (a : List ℕ) → 0 < count x a → (i : ℕ) × (i < length a) × (get_or a i 0 ≡ x)
unfolding count
index_of_count x [] h = absurd (omega arith)
index_of_count x (y ∷ a) h = elim (Bool-cases (x == y)) [
  | inl e ↦ (0, omega arith, ground arith)
  | inr ne ↦ let (i, p, q) = index_of_count x a (ground arith) in (suc i, omega arith, q)
]

pub get_or-append :
    (a : List ℕ) (p i : ℕ)
    → i < length a + 1
    → get_or (a ++ p ∷ []) i 0 ≡ (if i == length a then p else get_or a i 0)
get_or-append [] p zero h = refl
get_or-append [] p (suc i) h = absurd (omega arith)
get_or-append (y ∷ a) p zero h = ground arith
get_or-append (y ∷ a) p (suc i) h = ground (arith, get_or-append a p i)

pub get_or-take : (n : ℕ) (a : List ℕ) (i : ℕ) → i < n → get_or (take n a) i 0 ≡ get_or a i 0
get_or-take zero a i h = absurd (omega arith)
get_or-take (suc n) [] i h = refl
get_or-take (suc n) (y ∷ a) zero h = refl
get_or-take (suc n) (y ∷ a) (suc i) h = get_or-take n a i (omega arith)

-- Cutting off the last entry takes away one occurrence of it.
pub count-take :
    (x n : ℕ) (a : List ℕ)
    → length a ≡ suc n
    → count x (take n a) + (if x == get_or a n 0 then 1 else 0) ≡ count x a
unfolding count
count-take x n [] h = absurd (omega arith)
count-take x zero (y ∷ []) h = omega arith
count-take x zero (y ∷ z ∷ a) h = absurd (omega arith)
count-take x (suc n) (y ∷ a) h = omega (arith, count-take x n a (omega arith))

-- whether a number occurs in a list
unfoldable pub elem : ℕ → List ℕ → Bool
elem x [] = false
elem x (y ∷ ys) = x == y || elem x ys

pub elem-nil : (x : ℕ) → elem x [] ≡ false
unfolding elem
elem-nil x = refl

pub elem-cons : (x y : ℕ) (ys : List ℕ) → elem x (y ∷ ys) ≡ (x == y || elem x ys)
unfolding elem
elem-cons x y ys = refl

pub elem-count : (x : ℕ) (ys : List ℕ) → elem x ys ≡ (if count x ys == 0 then false else true)
unfolding elem count
elem-count x [] = refl
elem-count x (y ∷ ys) = ground (arith, elem-count x ys)

-- the entries that pass a test, in order
pub select : (ℕ → Bool) → List ℕ → List ℕ
select f [] = []
select f (y ∷ ys) = let rest = select f ys in if f y then y ∷ rest else rest

pub select-nil : (f : ℕ → Bool) → select f [] ≡ []
unfolding select
select-nil f = refl

pub select-cons :
    (f : ℕ → Bool) (y : ℕ) (ys : List ℕ)
    → select f (y ∷ ys) ≡ (if f y then y ∷ select f ys else select f ys)
unfolding select
select-cons f y ys = refl

pub count-select :
    (f : ℕ → Bool) (x : ℕ) (ys : List ℕ) → count x (select f ys) ≡ (if f x then count x ys else 0)
unfolding select count
count-select f x [] = ground arith
count-select f x (y ∷ ys) = ground (arith, count-select f x ys)

pub count_of_index : (a : List ℕ) (i : ℕ) → i < length a → 0 < count (get_or a i 0) a
unfolding count
count_of_index [] i h = absurd (omega arith)
count_of_index (y ∷ a) zero h = ground arith
count_of_index (y ∷ a) (suc i) h = omega (arith, count_of_index a i (omega arith))

module _ {ℓ} {A : Type ℓ} where
  pub inside_of_some : (bs : List A) (i : ℕ) {x : A} → get_elem? bs i ≡ some x → i < length bs
  inside_of_some [] i e = cc
  inside_of_some (b ∷ bs) zero e = omega arith
  inside_of_some (b ∷ bs) (suc i) e = omega (arith, inside_of_some bs i e)
