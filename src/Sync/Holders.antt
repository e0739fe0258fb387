-- ===== src/Sync/Holders.antt =====
-- `find` on the array of holders: how often each pid occurs afterwards.
use cs58final_project.Prelude.{
  ℕ, ◌+◌, ◌≡◌, ◌<◌, refl, true, false, arith, none, some, List, [], ◌∷◌, ◌==◌, if◌then◌else◌,
  length,
}
use cs58final_project.Prelude.Arrays.{count, count-cons, count-nil}
use cs58final_project.Sync.{find}

-- the number of times that `x` is the value `y`: 0 or 1
abbrev pub one_if : ℕ → ℕ → ℕ
one_if x y = if x == y then 1 else 0

pub find-found :
    (xs : List ℕ) (p : ℕ) → (find xs p none).0 ≡ (if count p xs == 0 then false else true)
unfolding find
find-found [] p = rw count-nil
find-found (x ∷ xs) p = ground (arith, find-found xs p, count-cons p x xs)

pub length-find : (xs : List ℕ) (p r : ℕ) → length (find xs p (some r)).1 ≡ length xs
unfolding find
length-find [] p r = refl
length-find (x ∷ xs) p r = ground (arith, length-find xs p r)

-- The overwritten pid is traded for the new one.
pub count-find :
    (xs : List ℕ) (p r x : ℕ)
    → 0 < count p xs
    → count x (find xs p (some r)).1 + one_if x p ≡ count x xs + one_if x r
unfolding find
count-find [] p r x h = absurd (ground (arith, count-nil p))
count-find (y ∷ xs) p r x h = ground (
  arith,
  count-find xs p r x,
  count-cons p y xs,
  count-cons x y xs,
  count-cons x r xs,
  count-cons x y (find xs p (some r)).1,
)
