-- ===== src/Sync/Slots/Laws.antt =====
-- A table as a partial map: which entries are in use under growth, writes, cuts and the search for
-- a free index.
use cs58final_project.Prelude.{
  ℕ, zero, suc, ◌+◌, ◌-◌, ◌≤◌, ◌<◌, ◌≡◌, refl, sym, ap, ◌∙◌, Bool, true, false, arith, Option, none,
  some, List, [], ◌∷◌, ◌++◌, ◌==◌, if◌then◌else◌, length, get_elem?, set, replicate, take, drop,
  Bool-cases, inl, inr,
}
use cs58final_project.Sync.Slots.{skip_used, any_used}

module _ {ℓ} {A : Type ℓ} (used : A → Bool) where
  abbrev pub keep : Option A → Option A
  keep none = none
  keep (some x) = if used x then some x else none

  -- the entry at an index, if it is in use
  abbrev pub live : List A → ℕ → Option A
  live xs i = keep (get_elem? xs i)

  abbrev pub is_some : Option A → Bool
  is_some none = false
  is_some (some x) = true

  abbrev pub is_live : List A → ℕ → Bool
  is_live xs i = is_some (live xs i)

  pub live-outside : (xs : List A) (i : ℕ) → length xs ≤ i → live xs i ≡ none
  live-outside [] i h = refl
  live-outside (x ∷ xs) zero h = absurd (omega arith)
  live-outside (x ∷ xs) (suc i) h = live-outside xs i (omega arith)

  live-replicate : (n : ℕ) (e : A) (i : ℕ) → used e ≡ false → live (replicate n e) i ≡ none
  live-replicate zero e i free = refl
  live-replicate (suc n) e zero free = rw free
  live-replicate (suc n) e (suc i) free = live-replicate n e i free

  pub live-append :
      (xs : List A) (n : ℕ) (e : A) (i : ℕ)
      → used e ≡ false
      → live (xs ++ replicate n e) i ≡ live xs i
  live-append [] n e i free = live-replicate n e i free
  live-append (x ∷ xs) n e zero free = refl
  live-append (x ∷ xs) n e (suc i) free = live-append xs n e i free

  pub live-set :
      (xs : List A) (i j : ℕ) (x : A)
      → i < length xs
      → live (set xs i x) j ≡ (if j == i then keep (some x) else live xs j)
  live-set [] i j x h = absurd (omega arith)
  live-set (y ∷ xs) zero zero x h = refl
  live-set (y ∷ xs) zero (suc j) x h = ground arith
  live-set (y ∷ xs) (suc i) zero x h = ground arith
  live-set (y ∷ xs) (suc i) (suc j) x h = ground (arith, live-set xs i j x)

  live-none_used : (xs : List A) (i : ℕ) → any_used used xs ≡ false → live xs i ≡ none
  unfolding any_used
  live-none_used [] i h = refl
  live-none_used (x ∷ xs) zero h = ground arith
  live-none_used (x ∷ xs) (suc i) h = live-none_used xs i (ground arith)

  -- Cutting off a part with no entry in use loses nothing.
  pub live-take :
      (n : ℕ) (xs : List A) (i : ℕ)
      → any_used used (drop n xs) ≡ false
      → live (take n xs) i ≡ live xs i
  live-take zero xs i h = sym (live-none_used xs i h)
  live-take (suc n) [] i h = refl
  live-take (suc n) (x ∷ xs) zero h = refl
  live-take (suc n) (x ∷ xs) (suc i) h = live-take n xs i h

  -- the number of entries in use at the front
  pub lead : List A → ℕ
  lead [] = 0
  lead (x ∷ xs) = let rest = suc (lead xs) in if used x then rest else 0

  pub skip_used-lead : (xs : List A) (i : ℕ) → skip_used used xs i ≡ i + lead xs
  unfolding skip_used lead
  skip_used-lead [] i = omega arith
  skip_used-lead (x ∷ xs) i = ground (arith, skip_used-lead xs (i + 1))

  is_live-lead : (xs : List A) → is_live xs (lead xs) ≡ false
  unfolding lead
  is_live-lead [] = refl
  is_live-lead (x ∷ xs) = elim (Bool-cases (used x)) [
    | inl taken ↦ rw taken (is_live-lead xs)
    | inr free ↦ rw free (rw free)
  ]

  is_live-before : (xs : List A) (j : ℕ) → j < lead xs → is_live xs j ≡ true
  unfolding lead
  is_live-before [] j h = absurd (omega arith)
  is_live-before (x ∷ xs) zero h = ground arith
  is_live-before (x ∷ xs) (suc j) h = is_live-before xs j (ground arith)

  live-drop : (n : ℕ) (xs : List A) (j : ℕ) → live (drop n xs) j ≡ live xs (n + j)
  live-drop zero xs j = let e : 0 + j ≡ j = omega arith in rw e
  live-drop (suc n) [] j = refl
  live-drop (suc n) (x ∷ xs) j =
      let e : suc n + j ≡ suc (n + j) = omega arith in rw e (live-drop n xs j)

  -- The search from a free index on stops at a free index, past entries in use only.
  pub skip_used_lem :
      (xs : List A) (i : ℕ)
      → let k = skip_used used (drop i xs) i in
        (i ≤ k) × (is_live xs k ≡ false) × ((j : ℕ) → i ≤ j → j < k → is_live xs j ≡ true)
  skip_used_lem xs i =
      let e = skip_used-lead (drop i xs) i in
      (
        omega (arith, e),
        rw e (ap is_some (sym (live-drop i xs (lead (drop i xs)))) ∙ is_live-lead (drop i xs)),
        λ j p q.
            let back : i + (j - i) ≡ j = omega arith in
            rw back at (
              ap is_some (sym (live-drop i xs (j - i)))
              ∙ is_live-before (drop i xs) (j - i) (omega (arith, e))),
      )
