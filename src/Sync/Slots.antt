-- ===== src/Sync/Slots.antt =====
-- What the two tables of synchronization.c have in common: entries that are in use or not, and an
-- index from which the next free entry is looked for.
pub mod Laws
use cs58final_project.Prelude.{
  ℕ, zero, suc, ◌+◌, Bool, true, false, ◌||◌, List, [], ◌∷◌, if◌then◌else◌,
}

module _ {ℓ} {A : Type ℓ} (used : A → Bool) where
  -- `while (idx < size && table[idx].in_use) idx++`, over the entries from the index on
  pub skip_used : List A → ℕ → ℕ
  skip_used [] i = i
  skip_used (x ∷ xs) i = let rest = skip_used xs (i + 1) in if used x then rest else i

  -- `for (...) if (table[i].in_use) return true`
  pub any_used : List A → Bool
  any_used [] = false
  any_used (x ∷ xs) = used x || any_used xs
