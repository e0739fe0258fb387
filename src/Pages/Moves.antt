-- ===== src/Pages/Moves.antt =====
-- What any change of a process's pages has in common: new pages come from free frames, and only frames of the process are freed.
use cs58final_project.Prelude.{
  ℕ, zero, suc, ◌+◌, ◌-◌, ◌≡◌, refl, sym, ap, ◌∙◌, true, false, ◌&&◌, arith, List, ◌⊎◌, inl, inr,
  ◌==◌, Bool-cases,
}
use cs58final_project.Frames.Inv.{is_free}
use cs58final_project.Pages.{Prot, Pte, entry, Space}
use cs58final_project.Pages.Laws.{Mapped}
use cs58final_project.Pages.Range.{owns, owns-zero, owns-suc, within, Undone}
use cs58final_project.Pages.Fill.{Filled, Restored}

-- a valid page with frame `f`
abbrev pub Has : List Pte → ℕ → Type 0
Has pt f = (j : ℕ) × ((entry pt j).valid ≡ true) × ((entry pt j).pfn ≡ f)

pub owns-index :
    (pt : List Pte) (i n f : ℕ)
    → owns pt i n f ≡ true
    → (j : ℕ) × (within i n j ≡ true) × ((entry pt j).valid ≡ true) × ((entry pt j).pfn ≡ f)
owns-index pt i zero f h = absurd (ground (arith, owns-zero pt i f))
owns-index pt i (suc n) f h = elim (Bool-cases ((entry pt i).valid && (f == (entry pt i).pfn))) [
  | inl here ↦ (i, ground arith, ground arith, ground arith)
  | inr later ↦
      let (j, inside, valid, same) =
        owns-index pt (i + 1) n f (ground (arith, owns-suc pt i n f)) in
      (j, ground (arith, inside), valid, same)
]

pub index-owns :
    (pt : List Pte) (i n j : ℕ)
    → within i n j ≡ true
    → (entry pt j).valid ≡ true
    → owns pt i n (entry pt j).pfn ≡ true
index-owns pt i zero j h valid = absurd (ground arith)
index-owns pt i (suc n) j h valid = elim (Bool-cases (j == i)) [
  | inl here ↦
      let e : i ≡ j = ground arith in
      let valid_i : (entry pt i).valid ≡ true = ap (λ (k : ℕ). (entry pt k).valid) e ∙ valid in
      let same : (entry pt i).pfn ≡ (entry pt j).pfn = ap (λ (k : ℕ). (entry pt k).pfn) e in
      ground (arith, owns-suc pt i n (entry pt j).pfn, valid_i, same)
  | inr later ↦
      ground
        (arith, owns-suc pt i n (entry pt j).pfn, index-owns pt (i + 1) n j (ground arith) valid)
]

module _ (base : ℕ) where
  pub record Moves (s s' : Space) : Type 0 where
    pub mapped : Mapped base s'
    pub num_frames : s'.frames.num_frames ≡ s.frames.num_frames
    pub taken :
        (j : ℕ)
        → (entry s'.pt j).valid ≡ true
        → (is_free s.frames ((entry s'.pt j).pfn - base) ≡ true) ⊎ Has s.pt (entry s'.pt j).pfn
    pub freed :
        (n : ℕ) → is_free s.frames n ≡ false → is_free s'.frames n ≡ true → Has s.pt (n + base)

  pub Moves-refl : (s : Space) → Mapped base s → Moves s s
  Moves-refl s m = record {
    mapped = m;
    num_frames = refl;
    taken = λ j h. inr (j, h, refl);
    freed = λ n used free. absurd (ground arith);
  }

  -- the frame with a number that a page has was not free, so the page is one of `s`
  came_from :
      (s s1 : Space) (n : ℕ)
      → Moves s s1
      → is_free s.frames n ≡ false
      → Has s1.pt (n + base)
      → Has s.pt (n + base)
  came_from s s1 n m used (j, valid, same) = elim (m.taken j valid) [
    | inl free ↦
        let e : (entry s1.pt j).pfn - base ≡ n = omega (arith, same) in
        absurd (ground (arith, rw e at free, used))
    | inr (i, valid', same') ↦ (i, valid', same' ∙ same)
  ]

  pub Moves-trans : (s s1 s2 : Space) → Moves s s1 → Moves s1 s2 → Moves s s2
  Moves-trans s s1 s2 a b = record {
    mapped = b.mapped;
    num_frames = b.num_frames ∙ a.num_frames;
    taken = λ j h.
        let f : ℕ = (entry s2.pt j).pfn in
        let up : f - base + base ≡ f = omega (arith, b.mapped.above j h) in
        elim (Bool-cases (is_free s.frames (f - base))) [
          | inl free ↦ inl free
          | inr used ↦ inr (elim (b.taken j h) [
            | inl free1 ↦ rw up at (a.freed (f - base) used free1)
            | inr has ↦
                let has' : Has s1.pt (f - base + base) = rw up has in
                rw up at (came_from s s1 (f - base) a used has')
          ])
        ];
    freed = λ n used free2. elim (Bool-cases (is_free s1.frames n)) [
      | inl free1 ↦ a.freed n used free1
      | inr used1 ↦ came_from s s1 n a used (b.freed n used1 free2)
    ];
  }

  pub Moves-Undone : (s s' : Space) (i n : ℕ) → Undone base s s' i n → Moves s s'
  Moves-Undone s s' i n u = record {
    mapped = u.mapped;
    num_frames = u.num_frames;
    taken = λ j h.
        let same : entry s'.pt j ≡ entry s.pt j = elim (Bool-cases (within i n j)) [
          | inl inside ↦ absurd (ground (arith, u.unmapped j inside, h))
          | inr outside ↦ u.others j outside
        ] in
        inr (j, ap (λ (e : Pte). e.valid) (sym same) ∙ h, ap (λ (e : Pte). e.pfn) (sym same));
    freed = λ k used free.
        let (j, inside, valid, same) = owns-index s.pt i n (k + base) (ground (arith, u.free k)) in
        (j, valid, same);
  }

  pub Moves-Filled : (p : Prot) (s s' : Space) (i n : ℕ) → Filled base p s s' i n → Moves s s'
  Moves-Filled p s s' i n f = record {
    mapped = f.mapped;
    num_frames = f.num_frames;
    taken = λ j h. elim (Bool-cases (within i n j)) [
      | inl inside ↦
          let pfn : ℕ = (entry s'.pt j).pfn in
          let up : pfn - base + base ≡ pfn = omega (arith, f.mapped.above j h) in
          inl (f.fresh (pfn - base) (rw up (index-owns s'.pt i n j inside h)))
      | inr outside ↦
          let same = f.others j outside in
          inr (j, ap (λ (e : Pte). e.valid) (sym same) ∙ h, ap (λ (e : Pte). e.pfn) (sym same))
    ];
    freed = λ k used free. absurd (ground (arith, f.free k));
  }

  pub Moves-Restored : (s s' : Space) → Restored base s s' → Moves s s'
  Moves-Restored s s' r = record {
    mapped = r.mapped;
    num_frames = r.num_frames;
    taken = λ j h.
        let valid : (entry s.pt j).valid ≡ true = sym (r.valid j) ∙ h in
        inr (j, valid, ap (λ (e : Pte). e.pfn) (sym (r.entries j valid)));
    freed = λ k used free. absurd (ground (arith, r.free k));
  }
