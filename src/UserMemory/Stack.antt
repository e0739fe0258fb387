-- ===== src/UserMemory/Stack.antt =====
-- expand_stack: which pages it maps, and what it says when there is no frame.
use cs58final_project.Prelude.{
  ℕ, zero, suc, ◌+◌, ◌-◌, ◌≤◌, ◌<◌, ◌≡◌, refl, ◌∙◌, ◌==◌, Bool, true, false, ◌||◌, arith, ◌⊎◌, inl,
  inr, ltb, leb, length, Bool-cases,
}
use cs58final_project.Prelude.Run.{ok}
use cs58final_project.Frames.Inv.{is_free}
use cs58final_project.Frames.Tracked.{AllUsed}
use cs58final_project.Pages.{Space, entry, read_write}
use cs58final_project.Pages.Laws.{Mapped, alloc_page-cases}
use cs58final_project.UserMemory.{
  UserMem, Layout, space_of, with_space, limit_vpn, expand_loop, expand_stack,
}

-- The pages from index `i` on are valid, up to one that was valid in `s` or the end of the `n` pages.
abbrev pub FilledUp : Space → Space → ℕ → ℕ → Type 0
FilledUp s s' i n =
    (j : ℕ)
    → i ≤ j
    → j < i + n
    → ((k : ℕ) → i ≤ k → k ≤ j → (entry s.pt k).valid ≡ false)
    → (entry s'.pt j).valid ≡ true

module _ (l : Layout) where
  -- What holds of `s'` after the stack of `s` has grown: the valid pages keep their entries, and the new ones
  -- are there, unless every frame is in use.
  pub record Expanded (s s' : Space) (i n : ℕ) : Type 0 where
    pub mapped : Mapped l.base s'
    pub size : length s'.pt ≡ length s.pt
    pub num_frames : s'.frames.num_frames ≡ s.frames.num_frames
    pub kept : (j : ℕ) → (entry s.pt j).valid ≡ true → entry s'.pt j ≡ entry s.pt j
    pub less : (k : ℕ) → is_free s.frames k ≡ false → is_free s'.frames k ≡ false
    pub grown : FilledUp s s' i n ⊎ AllUsed s'.frames

  expand_loop-Expanded :
      (n vpn : ℕ) (s : Space)
      → Mapped l.base s
      → l.first ≤ vpn
      → vpn - l.first + n ≤ length s.pt
      → (s' : Space) × (expand_loop l n vpn s ≡ ok s') × Expanded s s' (vpn - l.first) n
  unfolding expand_loop
  expand_loop-Expanded zero vpn s m low fits = (
    s,
    refl,
    record {
      mapped = m;
      size = refl;
      num_frames = refl;
      kept = λ j h. refl;
      less = λ k h. h;
      grown = inl (λ j p q r. absurd (omega arith));
    },
  )
  expand_loop-Expanded (suc n) vpn s m low fits =
      elim (Bool-cases (entry s.pt (vpn - l.first)).valid) [
        | inl valid ↦ (
          s,
          rw (expand_loop, valid),
          record {
            mapped = m;
            size = refl;
            num_frames = refl;
            kept = λ j h. refl;
            less = λ k h. h;
            grown =
                inl (λ j p q r. absurd (ground (arith, valid, r (vpn - l.first) (omega arith) p)));
          },
        )
        | inr unused ↦
            elim (alloc_page-cases l.base l.first vpn s m low read_write (omega arith) unused) [
              | inl (s1, run, all, c) ↦
                  let (s2, rest, x) =
                    expand_loop-Expanded n (vpn + 1) s1 c.mapped (omega arith)
                      (omega (arith, c.size)) in
                  (
                    s2,
                    rw (expand_loop, unused, run) rest,
                    record {
                      mapped = x.mapped;
                      size = x.size ∙ c.size;
                      num_frames = x.num_frames ∙ c.num_frames;
                      kept = λ j h. ground (arith, x.kept j, c.entries j);
                      less = λ k h. x.less k (c.free k ∙ h);
                      grown = inr (λ k h.
                          x.less k
                            (c.free k ∙ all k (omega (arith, h, x.num_frames, c.num_frames))));
                    },
                  )
              | inr (f, s1, run, free, c) ↦
                  let (s2, rest, x) =
                    expand_loop-Expanded n (vpn + 1) s1 c.mapped (omega arith)
                      (omega (arith, c.size)) in
                  (
                    s2,
                    rw (expand_loop, unused, run) rest,
                    record {
                      mapped = x.mapped;
                      size = x.size ∙ c.size;
                      num_frames = x.num_frames ∙ c.num_frames;
                      kept = λ j h. ground (arith, x.kept j, c.entries j);
                      less = λ k h. x.less k (ground (arith, c.free k));
                      grown = elim x.grown [
                        | inr full ↦ inr full
                        | inl filled ↦ inl (λ j p q below. elim (Bool-cases (j == vpn - l.first)) [
                          | inl here ↦ ground (arith, here, x.kept j, c.entries j)
                          | inr above ↦
                              filled j (ground (arith, above)) (omega arith)
                                (λ k u v. ground (arith, c.entries k, below k (omega arith) v))
                        ])
                      ];
                    },
                  )
            ]
      ]

  expand_loop-full :
      (n vpn : ℕ) (s : Space)
      → Mapped l.base s
      → AllUsed s.frames
      → l.first ≤ vpn
      → vpn - l.first + n ≤ length s.pt
      → (s' : Space) × (expand_loop l n vpn s ≡ ok s')
        × ((j : ℕ) → (entry s'.pt j).valid ≡ (entry s.pt j).valid)
  unfolding expand_loop
  expand_loop-full zero vpn s m all low fits = (s, refl, λ j. refl)
  expand_loop-full (suc n) vpn s m all low fits =
      elim (Bool-cases (entry s.pt (vpn - l.first)).valid) [
        | inl valid ↦ (s, rw (expand_loop, valid), λ j. refl)
        | inr unused ↦
            elim (alloc_page-cases l.base l.first vpn s m low read_write (omega arith) unused) [
              | inl (s1, run, still, c) ↦
                  let (s2, rest, same) =
                    expand_loop-full n (vpn + 1) s1 c.mapped
                      (λ k h. c.free k ∙ all k (omega (arith, h, c.num_frames))) (omega arith)
                      (omega (arith, c.size)) in
                  (s2, rw (expand_loop, unused, run) rest, λ j. ground (arith, same j, c.entries j))
              | inr (f, s1, run, free, c) ↦ absurd (
                  ground (
                    arith,
                    all f,
                    free,
                    c.entries (vpn - l.first),
                    c.mapped.inside (vpn - l.first),
                    c.num_frames,
                  ))
            ]
      ]

  -- An address outside the memory, or below the break.
  abbrev pub is_refused : ℕ → UserMem → Bool
  is_refused sp m =
      (ltb sp l.vmem_base || leb l.vmem_limit sp) || ltb (l.page_down sp) (m.ctx.curr_brk_page + 1)

  module _ (sp : ℕ) (m : UserMem) (v : Mapped l.base (space_of m)) where
    -- With the pages of the process mapped to frames of their own, a bit to spare in the bitset of frames, and the page of an
    -- address that is accepted in region 1: `expand_stack` returns false and changes nothing for an address that is not one of the memory or
    -- whose page is not above the break. Or else it returns true, no valid page has lost its frame, and the
    -- pages from the address up to the stack are now valid, unless no frame is left.
    pub expand_stack_lem :
        (is_refused sp m ≡ false → (l.first ≤ l.page_down sp) × (l.page_down sp ≤ limit_vpn l m))
        → ((is_refused sp m ≡ true) × (expand_stack l sp m ≡ ok (false, m)))
          ⊎ ((s : Space) × (is_refused sp m ≡ false)
              × (expand_stack l sp m ≡ ok (true, with_space m s))
              × Expanded (space_of m) s (l.page_down sp - l.first) (limit_vpn l m - l.page_down sp))
    unfolding expand_stack
    expand_stack_lem in_region = elim (Bool-cases (is_refused sp m)) [
      | inl refused ↦ inl (refused, ground arith)
      | inr accepted ↦
          let (low, high) = in_region accepted in
          let inside : (ltb sp l.vmem_base || leb l.vmem_limit sp) ≡ false =
            ground (arith, accepted) in
          let above : ltb (l.page_down sp) (m.ctx.curr_brk_page + 1) ≡ false =
            ground (arith, accepted) in
          let (s, run, x) =
            expand_loop-Expanded (limit_vpn l m - l.page_down sp) (l.page_down sp) (space_of m) v
              low (omega arith) in
          inr (s, accepted, rw (expand_stack, inside, above, run), x)
    ]

    -- With the pages of the process mapped to frames of their own, and a bit in the bitset behind that of the last frame (there
    -- is none if the number of frames is a multiple of 8): if every frame is in use, `expand_stack` returns true for
    -- an address that it does not refuse and whose page is one of region 1, and the valid pages are the same as before.
    pub expand_stack_full :
        is_refused sp m ≡ false
        → l.first ≤ l.page_down sp
        → l.page_down sp ≤ limit_vpn l m
        → AllUsed m.frames
        → (s : Space) × (expand_stack l sp m ≡ ok (true, with_space m s))
          × ((j : ℕ) → (entry s.pt j).valid ≡ (entry m.ctx.region1_pt j).valid)
    unfolding expand_stack
    expand_stack_full accepted low high all =
        let inside : (ltb sp l.vmem_base || leb l.vmem_limit sp) ≡ false =
          ground (arith, accepted) in
        let above : ltb (l.page_down sp) (m.ctx.curr_brk_page + 1) ≡ false =
          ground (arith, accepted) in
        let (s, run, same) =
          expand_loop-full (limit_vpn l m - l.page_down sp) (l.page_down sp) (space_of m) v all low
            (omega arith) in
        (s, rw (expand_stack, inside, above, run), same)
