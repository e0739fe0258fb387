-- ===== src/Sleep/Order.antt =====
-- The order of the heap of sleepers.
use cs58final_project.Prelude.{ℕ, zero, suc, ◌-◌, ◌/◌, ◌≤◌, ◌<◌, ◌≡◌, arith, List, length}
use cs58final_project.Prelude.Arrays.{count}
use cs58final_project.Sleep.{key_at}

abbrev pub parent : ℕ → ℕ
parent c = (c - 1) / 2

module _ (key : ℕ → ℕ) where
  -- no entry wakes before its parent
  abbrev pub IsHeap : List ℕ → Type 0
  IsHeap a = (c : ℕ) → 0 < c → c < length a → key_at key a (parent c) ≤ key_at key a c

  -- the edges that pass over `i`, from its parent to its children, are in order
  abbrev pub IsBridged : List ℕ → ℕ → Type 0
  IsBridged a i =
      (c : ℕ)
      → 0 < c
      → c < length a
      → parent c ≡ i
      → 0 < i
      → key_at key a (parent i) ≤ key_at key a c

  -- `b` is a heap of the entries of `a`
  pub record Sifted (a b : List ℕ) : Type 0 where
    pub heap : IsHeap b
    pub size : length b ≡ length a
    pub items : (x : ℕ) → count x b ≡ count x a

  -- by induction on a bound of the place: the parent of a place below the root has a smaller one
  root_first :
      (a : List ℕ)
      → IsHeap a
      → (bound place : ℕ) → place ≤ bound
      → place < length a
      → key_at key a 0 ≤ key_at key a place
  root_first a ordered zero place low inside = ground (arith, low)
  root_first a ordered (suc bound) place low inside =
      ground (arith, root_first a ordered bound (parent place), ordered place)

  -- The root of a heap wakes first.
  pub root_least :
      (a : List ℕ) (place : ℕ) → IsHeap a → place < length a → key_at key a 0 ≤ key_at key a place
  root_least a place ordered inside = root_first a ordered place place (omega arith) inside
