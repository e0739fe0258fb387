-- ===== src/KernelMemory/Stack.antt =====
-- The mapping of a kernel stack, where `install` writes its entries over those of region 0, and the release of its frames.
use cs58final_project.Prelude.{
  ℕ, zero, suc, ◌+◌, ◌-◌, ◌≤◌, ◌<◌, ◌≡◌, ◌≢◌, refl, sym, ap, ◌∙◌, Bool, ltb, true, false, arith,
  List, [], ◌∷◌, inl, inr, ◌==◌, if◌then◌else◌, length, set, length-set, Bool-cases,
}
use cs58final_project.Prelude.Arrays.{get_or-set}
use cs58final_project.Prelude.Run.{ok, ok-injective}
use cs58final_project.Frames.{Frames, free_frame}
use cs58final_project.Frames.Tracked.{free_frame-used}
use cs58final_project.Pages.{Pte, Space, zero_pte, entry, dealloc_page, undo_allocation}
use cs58final_project.Pages.Laws.{Mapped, dealloc_page_lem, entry-outside}
use cs58final_project.Pages.Range.{within}
use cs58final_project.KernelMemory.{KernelLayout, install, free_no_unmap, free_pages}

module _ (l : KernelLayout) where
  pub length-install :
      (st : List Pte) (i : ℕ) (pt : List Pte) → length (install l st i pt) ≡ length pt
  unfolding install
  length-install [] i pt = refl
  length-install (e ∷ st) i pt = length-install st (i + 1) (set pt i e) ∙ length-set pt i e

  pub entry-install :
      (st : List Pte) (i : ℕ) (pt : List Pte)
      → i + length st ≤ length pt
      → (j : ℕ)
      → entry (install l st i pt) j
        ≡ (if within i (length st) j then entry st (j - i) else entry pt j)
  unfolding install
  entry-install [] i pt fits j = ground arith
  entry-install (e ∷ st) i pt fits j =
      let now = get_or-set pt i j e zero_pte (omega (arith, fits)) in
      let rest = entry-install st (i + 1) (set pt i e) (omega (arith, fits, length-set pt i e)) j in
      elim (Bool-cases (j == i)) [
        | inl here ↦
            let none : j - i ≡ 0 = ground arith in
            let outside : within (i + 1) (length st) j ≡ false = ground arith in
            let inside : within i (length (e ∷ st)) j ≡ true = ground arith in
            rw (inside, none) ((rw outside at rest) ∙ (rw here at now))
        | inr other ↦ elim (Bool-cases (within (i + 1) (length st) j)) [
          | inl inside ↦
              let next : j - i ≡ suc (j - (i + 1)) = ground arith in
              let inside' : within i (length (e ∷ st)) j ≡ true = ground arith in
              rw (inside', next) (rw inside at rest)
          | inr outside ↦
              let outside' : within i (length (e ∷ st)) j ≡ false = ground arith in
              rw outside' ((rw outside at rest) ∙ (rw other at now))
        ]
      ]

  -- one page: what `free_no_unmap` frees, and what unmapping it would leave
  free_page_lem :
      (vpn : ℕ) (frames : Frames) (pt pt' : List Pte)
      → Mapped l.base (record { frames = frames; pt = pt' })
      → length pt' ≡ length pt
      → entry pt' vpn ≡ entry pt vpn
      → (b : Bool) × (s : Space) × (free_no_unmap l vpn (record { frames = frames; pt = pt })
          ≡ ok (b, record { frames = s.frames; pt = pt }))
        × (dealloc_page l.base 0 vpn (record { frames = frames; pt = pt' }) ≡ ok (b, s))
        × Mapped l.base s
        × (length s.pt ≡ length pt')
        × ((j : ℕ) → j ≢ vpn → entry s.pt j ≡ entry pt' j)
  unfolding free_no_unmap dealloc_page
  free_page_lem vpn frames pt pt' m size same =
      let sp : Space = record { frames = frames; pt = pt' } in
      let e : Pte = entry pt' vpn in
      let valid_same : (entry pt vpn).valid ≡ e.valid = ap (λ (x : Pte). x.valid) (sym same) in
      elim (Bool-cases e.valid) [
        | inr unused ↦
            let unused' : (entry pt vpn).valid ≡ false = valid_same ∙ unused in
            (false, sp, ground (arith, unused'), ground (arith, unused), m, refl, λ j ne. refl)
        | inl valid ↦
            let valid' : (entry pt vpn).valid ≡ true = valid_same ∙ valid in
            let lt : vpn < length pt' = elim (Bool-cases (ltb vpn (length pt'))) [
              | inl below ↦ ground arith
              | inr beyond ↦ absurd (ground (arith, entry-outside pt' vpn, valid))
            ] in
            let (frames1, run, b) =
              free_frame-used l.base frames m.tracked e.pfn (m.above vpn valid) (m.inside vpn valid)
                (m.used vpn valid) in
            let after : Space = record {
              frames = frames1;
              pt = set pt' vpn (record e { valid = false });
            } in
            let run' : free_frame l.base frames (entry pt vpn).pfn ≡ ok (true, frames1) =
              ap (λ (x : Pte). free_frame l.base frames x.pfn) (sym same) ∙ run in
            let computed : dealloc_page l.base 0 vpn sp ≡ ok (true, after) =
              ground (arith, lt, valid, run) in
            let (s1, run1, c) = dealloc_page_lem l.base 0 vpn sp m (omega arith) in
            let is_after : s1 ≡ after =
              ap (λ (r : Bool × Space). r.1) (ok-injective (sym run1 ∙ computed)) in
            (
              true,
              after,
              ground (arith, lt, size, valid', run'),
              computed,
              rw is_after at c.mapped,
              length-set pt' vpn (record e { valid = false }),
              λ j ne.
                  ground (arith, get_or-set pt' vpn j (record e { valid = false }) zero_pte lt, ne),
            )
      ]

  -- `deallocate_kernel_stack` frees what unmapping the pages would free, and leaves the table alone.
  pub free_pages_lem :
      (n vpn : ℕ) (frames : Frames) (pt pt' : List Pte)
      → Mapped l.base (record { frames = frames; pt = pt' })
      → length pt' ≡ length pt
      → ((j : ℕ) → vpn ≤ j → entry pt' j ≡ entry pt j)
      → (s : Space) × (free_pages l n vpn (record { frames = frames; pt = pt })
          ≡ ok (record { frames = s.frames; pt = pt }))
        × (undo_allocation l.base 0 n vpn (record { frames = frames; pt = pt' }) ≡ ok s)
  unfolding free_pages undo_allocation
  free_pages_lem zero vpn frames pt pt' m size same =
      (record { frames = frames; pt = pt' }, refl, refl)
  free_pages_lem (suc n) vpn frames pt pt' m size same =
      let (b, s1, run, run', m1, size1, kept) =
        free_page_lem vpn frames pt pt' m size (same vpn (omega arith)) in
      let (s2, rest, rest') =
        free_pages_lem n (vpn + 1) s1.frames pt s1.pt m1 (size1 ∙ size)
          (λ j h. kept j (omega (arith, h)) ∙ same j (omega (arith, h))) in
      (s2, rw (free_pages, run) rest, rw (undo_allocation, run') rest')
