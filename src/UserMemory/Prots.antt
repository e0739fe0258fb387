-- ===== src/UserMemory/Prots.antt =====
-- The protection of pages in yalnix_framework/src/user_memory.c: a change of it leaves every page where it is.
use cs58final_project.Prelude.{
  ℕ, suc, zero, ◌+◌, ◌-◌, ◌≡◌, refl, sym, ap, ◌∙◌, true, arith, ◌||◌, ltb, leb, ◌==◌, List, inl,
  inr, length, Bool-cases,
}
use cs58final_project.Prelude.Arrays.{get_or-set}
use cs58final_project.Pages.{Prot, Pte, zero_pte, entry, Space}
use cs58final_project.Pages.Laws.{Mapped}
use cs58final_project.Pages.Moves.{Moves}
use cs58final_project.UserMemory.{
  UserMem, Layout, space_of, limit_vpn, change_prot, change_prots, prot_region,
}

-- the same pages with the same frames
abbrev pub SameFrames : List Pte → List Pte → Type 0
SameFrames pt pt' =
    (j : ℕ) → ((entry pt' j).valid ≡ (entry pt j).valid) × ((entry pt' j).pfn ≡ (entry pt j).pfn)

SameFrames-Moves :
    (base : ℕ) (s : Space) (pt : List Pte)
    → Mapped base s
    → SameFrames s.pt pt
    → Moves base s (record s { pt = pt })
SameFrames-Moves base s pt m same =
    let held = λ (j : ℕ) (h : (entry pt j).valid ≡ true). sym (same j).0 ∙ h in
    record {
      mapped = record {
        tracked = m.tracked;
        above = λ i h. rw (sym (same i).1) at (m.above i (held i h));
        inside = λ i h. rw (sym (same i).1) at (m.inside i (held i h));
        used = λ i h. rw (sym (same i).1) at (m.used i (held i h));
        apart =
            λ i j hi hj e. m.apart i j (held i hi) (held j hj) (sym (same i).1 ∙ e ∙ (same j).1);
      };
      num_frames = refl;
      taken = λ j h. inr (j, held j h, sym (same j).1);
      freed = λ n used free. absurd (ground (arith, used, free));
    }

module _ (l : Layout) where
  change_prot-same :
      (vpn : ℕ) (prot : Prot) (pt : List Pte) → SameFrames pt (change_prot l vpn prot pt)
  unfolding change_prot
  change_prot-same vpn prot pt j =
      let i : ℕ = vpn - l.first in
      elim (Bool-cases (ltb vpn l.first || leb (length pt) i)) [
        | inl outside ↦ rw outside (refl, refl)
        | inr inside ↦ elim (Bool-cases (entry pt i).valid) [
          | inr unused ↦ rw (inside, unused) (refl, refl)
          | inl valid ↦
              let e : Pte = record { valid = true; pfn = (entry pt i).pfn; prot = prot } in
              let now = get_or-set pt i j e zero_pte (ground (arith, inside)) in
              rw (inside, valid)
                (elim (Bool-cases (j == i)) [
                  | inl here ↦
                      let at : i ≡ j = ground arith in
                      let is_e = rw here at now in
                      (
                        ap (λ (x : Pte). x.valid) is_e
                            ∙ sym valid
                            ∙ ap (λ (y : ℕ). (entry pt y).valid) at,
                        ap (λ (x : Pte). x.pfn) is_e ∙ ap (λ (y : ℕ). (entry pt y).pfn) at,
                      )
                  | inr other ↦
                      let is_old = rw other at now in
                      (ap (λ (x : Pte). x.valid) is_old, ap (λ (x : Pte). x.pfn) is_old)
                ])
        ]
      ]

  change_prots-same :
      (n vpn : ℕ) (prot : Prot) (pt : List Pte) → SameFrames pt (change_prots l n vpn prot pt)
  unfolding change_prots
  change_prots-same zero vpn prot pt j = (refl, refl)
  change_prots-same (suc n) vpn prot pt j =
      let (v1, p1) = change_prot-same vpn prot pt j in
      let (v2, p2) = change_prots-same n (vpn + 1) prot (change_prot l vpn prot pt) j in
      (v2 ∙ v1, p2 ∙ p1)

  pub prot_region-Moves :
      (start end : ℕ) (prot : Prot) (m : UserMem)
      → Mapped l.base (space_of m)
      → Moves l.base (space_of m) (space_of (prot_region l start end prot m))
  unfolding prot_region
  prot_region-Moves start end prot m v =
      elim (Bool-cases (ltb start l.first || ltb (limit_vpn l m) end)) [
        | inl outside ↦
            rw outside (SameFrames-Moves l.base (space_of m) m.ctx.region1_pt v (λ j. (refl, refl)))
        | inr inside ↦
            let n = end - start in
            rw inside (
              SameFrames-Moves l.base (space_of m) (change_prots l n start prot m.ctx.region1_pt) v
                (change_prots-same n start prot m.ctx.region1_pt))
      ]
