-- ===== src/KernelMemory/StackBytes.antt =====
-- The memcpy of KCCopy: the bytes of the frames after a copy of pages.
use cs58final_project.Prelude.{
  ℕ, zero, suc, ◌+◌, ◌≤◌, ◌<◌, ◌≡◌, ◌≢◌, refl, ◌∙◌, true, false, ◌&&◌, arith, List, inl, inr, ◌==◌,
  if◌then◌else◌, Bool-cases,
}
use cs58final_project.Prelude.Run.{ok, Ensures, Ensures-map}
use cs58final_project.Pages.{Pte, entry}
use cs58final_project.KernelMemory.{KernelLayout, copy_stack}

-- `bytes` after a copy of `n` pages of `pt` from `from` to `to`
pub record HasBytes (n from to : ℕ) (pt : List Pte) (contents bytes : ℕ → List ℕ) : Type 0 where
  pub valid :
      (i : ℕ) → i < n → ((entry pt (from + i)).valid ≡ true) × ((entry pt (to + i)).valid ≡ true)
  pub copied : (i : ℕ) → i < n → bytes (entry pt (to + i)).pfn ≡ contents (entry pt (from + i)).pfn
  pub others : (f : ℕ) → ((i : ℕ) → i < n → f ≢ (entry pt (to + i)).pfn) → bytes f ≡ contents f

HasBytes-suc :
    (n from to : ℕ) (pt : List Pte) (contents bytes : ℕ → List ℕ)
    → ((i j : ℕ)
        → (entry pt i).valid ≡ true
        → (entry pt j).valid ≡ true
        → (entry pt i).pfn ≡ (entry pt j).pfn
        → i ≡ j)
    → to + suc n ≤ from
    → (entry pt from).valid ≡ true
    → (entry pt to).valid ≡ true
    → HasBytes n
        (from + 1)
        (to + 1)
        pt
        (λ f. if f == (entry pt to).pfn then contents (entry pt from).pfn else contents f)
        bytes
    → HasBytes (suc n) from to pt contents bytes
HasBytes-suc n from to pt contents bytes own le vf vt h =
    let self : ((entry pt to).pfn == (entry pt to).pfn) ≡ true = ground arith in
    let first : bytes (entry pt to).pfn ≡ contents (entry pt from).pfn =
      h.others (entry pt to).pfn
        (λ i lt e. absurd (omega (arith, own to (to + 1 + i) vt (h.valid i lt).1 e)))
      ∙ rw self refl in
    let f0 : from + 0 ≡ from = omega arith in
    let t0 : to + 0 ≡ to = omega arith in
    let fs : (i : ℕ) → from + suc i ≡ from + 1 + i = λ i. omega arith in
    let ts : (i : ℕ) → to + suc i ≡ to + 1 + i = λ i. omega arith in
    record {
      valid = elim [
        | zero ↦ λ lt. rw (f0, t0) (vf, vt)
        | suc i ↦ λ lt. rw (fs i, ts i) (h.valid i (omega arith))
      ];
      copied = elim [
        | zero ↦ λ lt. rw (f0, t0) first
        | suc i ↦ λ lt.
            let other : ((entry pt (from + 1 + i)).pfn == (entry pt to).pfn) ≡ false =
              ground (arith, own (from + 1 + i) to (h.valid i (omega arith)).0 vt, le) in
            rw (fs i, ts i) (h.copied i (omega arith) ∙ rw other refl)
      ];
      others = λ f away.
          let here : (f == (entry pt to).pfn) ≡ false =
            ground (arith, rw t0 at (away 0 (omega arith))) in
          h.others f (λ i lt. rw (ts i) at (away (suc i) (omega arith))) ∙ rw here refl;
    }

module _ (l : KernelLayout) where
  -- A copy of pages to pages below them, all with frames of their own, copies their bytes and changes no other frame.
  pub copy_stack_lem :
      (n from to : ℕ) (pt : List Pte) (contents : ℕ → List ℕ)
      → ((i j : ℕ)
          → (entry pt i).valid ≡ true
          → (entry pt j).valid ≡ true
          → (entry pt i).pfn ≡ (entry pt j).pfn
          → i ≡ j)
      → to + n ≤ from
      → Ensures (HasBytes n from to pt contents) (copy_stack l n from to pt contents)
  unfolding copy_stack
  copy_stack_lem zero from to pt contents own le = record {
    valid = λ i lt. absurd (omega arith);
    copied = λ i lt. absurd (omega arith);
    others = λ f away. refl;
  }
  copy_stack_lem (suc n) from to pt contents own le =
      let contents' =
        λ (f : ℕ). if f == (entry pt to).pfn then contents (entry pt from).pfn else contents f in
      elim (Bool-cases ((entry pt from).valid && (entry pt to).valid)) [
        | inr bad ↦ rw bad tt
        | inl good ↦ rw good (
            Ensures-map (HasBytes n (from + 1) (to + 1) pt contents')
              (HasBytes (suc n) from to pt contents)
              (copy_stack l n (from + 1) (to + 1) pt contents')
              (copy_stack_lem n (from + 1) (to + 1) pt contents' own (omega arith))
              (λ bytes h.
                HasBytes-suc n from to pt contents bytes own le (ground arith) (ground arith) h))
      ]

  -- it is no fault if the pages are valid
  pub copy_stack-ends :
      (n from to : ℕ) (pt : List Pte) (contents : ℕ → List ℕ)
      → ((i : ℕ)
          → i < n
          → ((entry pt (from + i)).valid ≡ true) × ((entry pt (to + i)).valid ≡ true))
      → (bytes : ℕ → List ℕ) × (copy_stack l n from to pt contents ≡ ok bytes)
  unfolding copy_stack
  copy_stack-ends zero from to pt contents h = (contents, refl)
  copy_stack-ends (suc n) from to pt contents h =
      let f0 : from + 0 ≡ from = omega arith in
      let t0 : to + 0 ≡ to = omega arith in
      let first : ((entry pt from).valid ≡ true) × ((entry pt to).valid ≡ true) =
        rw (f0, t0) at (h 0 (omega arith)) in
      let (bytes, run) =
        copy_stack-ends n (from + 1) (to + 1) pt
          (λ f. if f == (entry pt to).pfn then contents (entry pt from).pfn else contents f)
          (λ i lt.
            let fs : from + suc i ≡ from + 1 + i = omega arith in
            let ts : to + suc i ≡ to + 1 + i = omega arith in
            rw (fs, ts) at (h (suc i) (omega arith))) in
      (bytes, rw (first.0, first.1) run)
