-- ===== src/Pages/Owners.antt =====
-- Page tables of several owners over one set of frames: no frame is reached from two pages.
use cs58final_project.Prelude.{
  ℕ, ◌+◌, ◌-◌, ◌≡◌, ◌≢◌, sym, ap, ◌∙◌, true, false, arith, List, inl, inr, Bool-cases,
}
use cs58final_project.Frames.{Frames}
use cs58final_project.Frames.Inv.{is_free}
use cs58final_project.Pages.{Pte, entry, Space}
use cs58final_project.Pages.Laws.{Mapped}
use cs58final_project.Pages.Moves.{Moves}

module _ {O : Type 0} (base : ℕ) where
  -- Each valid page of an owner has a frame in use, and no other page of any owner has it.
  pub record Owned (frames : Frames) (table : O → List Pte) : Type 0 where
    pub tables : (o : O) → Mapped base (record { frames = frames; pt = table o })
    pub apart :
        (o o' : O) (i j : ℕ)
        → (entry (table o) i).valid ≡ true
        → (entry (table o') j).valid ≡ true
        → (entry (table o) i).pfn ≡ (entry (table o') j).pfn
        → o ≡ o'

  -- One owner's pages and the frames change; its valid pages are among those of `s`.
  module _ (frames : Frames) (table table' : O → List Pte) (w : Owned frames table) (o0 : O)
      (s : Space) (a : Moves base (record { frames = frames; pt = table o0 }) s)
      (now : (j : ℕ)
        → (entry (table' o0) j).valid ≡ true
        → entry (table' o0) j ≡ entry s.pt j) where
    -- a frame of another owner stays in use
    stays :
        (o : O) (i : ℕ)
        → o ≢ o0
        → (entry (table o) i).valid ≡ true
        → is_free s.frames ((entry (table o) i).pfn - base) ≡ false
    stays o i ne h =
        let pfn : ℕ = (entry (table o) i).pfn in
        let m = w.tables o in
        let up : pfn - base + base ≡ pfn = omega (arith, m.above i h) in
        elim (Bool-cases (is_free s.frames (pfn - base))) [
          | inr used ↦ used
          | inl free ↦
              let (j, valid, same) = a.freed (pfn - base) (m.used i h) free in
              absurd (ne (w.apart o o0 i j h valid (sym (same ∙ up))))
        ]

    new-valid : (j : ℕ) → (entry (table' o0) j).valid ≡ true → (entry s.pt j).valid ≡ true
    new-valid j h = ap (λ (e : Pte). e.valid) (sym (now j h)) ∙ h

    -- a page of the owner has no frame of another one
    fresh :
        (o : O) (i j : ℕ)
        → (entry (table' o0) i).valid ≡ true
        → (entry (table o) j).valid ≡ true
        → (entry (table' o0) i).pfn ≡ (entry (table o) j).pfn
        → o0 ≡ o
    fresh o i j hi hj e =
        let at : (entry s.pt i).pfn ≡ (entry (table o) j).pfn =
          ap (λ (x : Pte). x.pfn) (sym (now i hi)) ∙ e in
        elim (a.taken i (new-valid i hi)) [
          | inl free ↦ absurd (ground (arith, (w.tables o).used j hj, free, at))
          | inr (k, valid, same) ↦ w.apart o0 o k j valid hj (same ∙ at)
        ]

    new_table : Mapped base (record { frames = s.frames; pt = table' o0 })
    new_table =
        let m = a.mapped in
        record {
          tracked = m.tracked;
          above = λ i h. ground (arith, now i h, m.above i (new-valid i h));
          inside = λ i h. ground (arith, now i h, m.inside i (new-valid i h));
          used = λ i h. ground (arith, now i h, m.used i (new-valid i h));
          apart = λ i j hi hj e.
              m.apart i j (new-valid i hi) (new-valid j hj)
                (ap (λ (x : Pte). x.pfn) (sym (now i hi)) ∙ e ∙ ap (λ (x : Pte). x.pfn) (now j hj));
        }

    old_table : (o : O) → o ≢ o0 → Mapped base (record { frames = s.frames; pt = table o })
    old_table o ne =
        let m = w.tables o in
        record {
          tracked = a.mapped.tracked;
          above = m.above;
          inside = λ i h. omega (arith, m.inside i h, a.num_frames);
          used = λ i h. stays o i ne h;
          apart = m.apart;
        }

    pub Owned-Moves : Discrete O → ((o : O) → o ≢ o0 → table' o ≡ table o) → Owned s.frames table'
    Owned-Moves same? others = record {
      tables = λ o. elim (same? o o0) [
        | yes e ↦ rw e new_table
        | no ne ↦ rw (others o ne) (old_table o ne)
      ];
      apart = λ o o' i j hi hj e. elim (same? o o0) [
        | yes p ↦ elim (same? o' o0) [
          | yes q ↦ p ∙ sym q
          | no ne' ↦
              p ∙ fresh o' i j (rw p at hi) (rw (others o' ne') at hj) (rw (p, others o' ne') at e)
        ]
        | no ne ↦ elim (same? o' o0) [
          | yes q ↦ sym (
              q
              ∙ fresh o j i (rw q at hj) (rw (others o ne) at hi) (sym (rw (q, others o ne) at e)))
          | no ne' ↦
              w.apart o o' i j (rw (others o ne) at hi) (rw (others o' ne') at hj)
                (rw (others o ne, others o' ne') at e)
        ]
      ];
    }

  -- One owner has pages, and no other.
  pub Owned-alone :
      (frames : Frames) (table : O → List Pte) (o0 : O)
      → Discrete O
      → Mapped base (record { frames = frames; pt = table o0 })
      → ((o : O) (j : ℕ) → o ≢ o0 → (entry (table o) j).valid ≡ false)
      → Owned frames table
  Owned-alone frames table o0 same? m blank =
      let is_o0 = λ (o : O) (j : ℕ) (h : (entry (table o) j).valid ≡ true).
        elim (same? o o0) as (λ _. o ≡ o0) [
          | yes e ↦ e
          | no ne ↦ absurd (ground (arith, blank o j ne, h))
        ] in
      record {
        tables = λ o. record {
          tracked = m.tracked;
          above = λ i h. rw (is_o0 o i h) (m.above i (rw (is_o0 o i h) at h));
          inside = λ i h. rw (is_o0 o i h) (m.inside i (rw (is_o0 o i h) at h));
          used = λ i h. rw (is_o0 o i h) (m.used i (rw (is_o0 o i h) at h));
          apart = λ i j hi hj e.
              m.apart i j (rw (is_o0 o i hi) at hi) (rw (is_o0 o i hi) at hj)
                (rw (is_o0 o i hi) at e);
        };
        apart = λ o o' i j hi hj e. is_o0 o i hi ∙ sym (is_o0 o' j hj);
      }

  pub same_place :
      (frames : Frames) (table : O → List Pte)
      → Owned frames table
      → (o o' : O) (i j : ℕ) → (entry (table o) i).valid ≡ true
      → (entry (table o') j).valid ≡ true
      → (entry (table o) i).pfn ≡ (entry (table o') j).pfn
      → (o ≡ o') × (i ≡ j)
  same_place frames table w o o' i j hi hj e =
      let q = w.apart o o' i j hi hj e in (q, (w.tables o').apart i j (rw q at hi) hj (rw q at e))

  -- The frames stay, and pages change hands: each valid page has its frame from one place, where no other
  -- has it from.
  pub Owned-given :
      (frames : Frames) (table table' : O → List Pte) (from back : O → ℕ → O × ℕ)
      → Owned frames table
      → ((o : O) (j : ℕ)
          → (entry (table' o) j).valid ≡ true
          → (((entry (table (from o j).0) (from o j).1).valid ≡ true)
              × ((entry (table (from o j).0) (from o j).1).pfn ≡ (entry (table' o) j).pfn))
            × ((back (from o j).0 (from o j).1).0 ≡ o)
            × ((back (from o j).0 (from o j).1).1 ≡ j))
      → Owned frames table'
  Owned-given frames table table' from back w come =
      let held = λ (o : O) (j : ℕ) (h : (entry (table' o) j).valid ≡ true). (come o j h).0.0 in
      let pfn = λ (o : O) (j : ℕ) (h : (entry (table' o) j).valid ≡ true). (come o j h).0.1 in
      let place =
        λ (o o' : O) (i j : ℕ) (hi : (entry (table' o) i).valid ≡ true)
            (hj : (entry (table' o') j).valid ≡ true)
            (e : (entry (table' o) i).pfn ≡ (entry (table' o') j).pfn).
          same_place frames table w (from o i).0 (from o' j).0 (from o i).1 (from o' j).1
            (held o i hi) (held o' j hj) (pfn o i hi ∙ e ∙ sym (pfn o' j hj)) in
      record {
        tables = λ o. record {
          tracked = (w.tables o).tracked;
          above =
              λ i h. rw (pfn o i h) at ((w.tables (from o i).0).above (from o i).1 (held o i h));
          inside =
              λ i h. rw (pfn o i h) at ((w.tables (from o i).0).inside (from o i).1 (held o i h));
          used = λ i h. rw (pfn o i h) at ((w.tables (from o i).0).used (from o i).1 (held o i h));
          apart = λ i j hi hj e.
              let (q, r) = place o o i j hi hj e in
              let x = (come o i hi).2 in let y = (come o j hj).2 in cc;
        };
        apart = λ o o' i j hi hj e.
            let (q, r) = place o o' i j hi hj e in
            let x = (come o i hi).1 in let y = (come o' j hj).1 in cc;
      }

  pub Owned-moved :
      (frames : Frames) (table table' : O → List Pte) (from back : O → ℕ → O × ℕ)
      → Owned frames table
      → ((o : O) (j : ℕ)
          → (entry (table' o) j).valid ≡ true
          → (entry (table (from o j).0) (from o j).1 ≡ entry (table' o) j)
            × ((back (from o j).0 (from o j).1).0 ≡ o)
            × ((back (from o j).0 (from o j).1).1 ≡ j))
      → Owned frames table'
  Owned-moved frames table table' from back w come =
      Owned-given frames table table' from back w (λ o j h.
        let (e, x, y) = come o j h in
        ((ap (λ (t : Pte). t.valid) e ∙ h, ap (λ (t : Pte). t.pfn) e), x, y))
