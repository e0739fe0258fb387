-- ===== src/Loader/Build.antt =====
-- The pages of a loaded program: LoadProgram gives back the old ones and builds those of text, data and stack.
use cs58final_project.Prelude.{
  ℕ, ◌+◌, ◌-◌, ◌≤◌, ◌<◌, ◌≡◌, ◌∙◌, true, false, arith, ◌⊎◌, inl, inr, length,
}
use cs58final_project.Prelude.Run.{ok}
use cs58final_project.Pages.{Space, entry, read_write}
use cs58final_project.Pages.Laws.{Mapped}
use cs58final_project.Pages.Range.{within, Undone}
use cs58final_project.Pages.Fill.{Unmapped, Filled, TooFew}
use cs58final_project.Pages.Moves.{Moves, Moves-trans, Moves-Undone, Moves-Filled, Moves-Restored}
use cs58final_project.UserMemory.{UserMem, Layout, space_of, with_space, limit_vpn, alloc_region}
use cs58final_project.UserMemory.Brk.{alloc_region_lem, deallocate_region1-Undone, none_left}
use cs58final_project.Loader.{Plan, build}

module _ (l : Layout) (p : Plan) (m : UserMem) where
  -- text, data and stack lie in the region in this order, with a page at least between data and stack
  pub record IsPlaced : Type 0 where
    pub low : l.first ≤ p.text
    pub order : p.text + p.text_npg ≤ p.start
    pub fits : p.start + p.data_npg + p.stack_npg < limit_vpn l m

  -- the index of the first page of each part
  abbrev pub text_index : ℕ
  text_index = p.text - l.first

  abbrev pub data_index : ℕ
  data_index = p.start - l.first

  abbrev pub stack_index : ℕ
  stack_index = length m.ctx.region1_pt - p.stack_npg

  -- exactly the pages of the three parts are mapped, for reading and writing
  pub record IsBuilt (s : Space) : Type 0 where
    pub text :
        (j : ℕ)
        → within text_index p.text_npg j ≡ true
        → ((entry s.pt j).valid ≡ true) × ((entry s.pt j).prot ≡ read_write)
    pub data_pages :
        (j : ℕ)
        → within data_index p.data_npg j ≡ true
        → ((entry s.pt j).valid ≡ true) × ((entry s.pt j).prot ≡ read_write)
    pub stack :
        (j : ℕ)
        → within stack_index p.stack_npg j ≡ true
        → ((entry s.pt j).valid ≡ true) × ((entry s.pt j).prot ≡ read_write)
    pub others :
        (j : ℕ)
        → within text_index p.text_npg j ≡ false
        → within data_index p.data_npg j ≡ false
        → within stack_index p.stack_npg j ≡ false
        → (entry s.pt j).valid ≡ false

  -- the state `s0` in which exactly the old pages are given back
  abbrev pub Emptied : Space → Type 0
  Emptied s0 = Undone l.base (space_of m) s0 0 (length m.ctx.region1_pt)

  -- The part for which fewer frames are free than it has pages, once the old pages are given back and the parts before it are filled.
  pub data RunsOut : Type 0 where
    no_text : (s0 : Space) → Emptied s0 → TooFew l.base s0 p.text_npg → RunsOut
    no_data :
        (s0 s1 : Space)
        → Emptied s0
        → Filled l.base read_write s0 s1 text_index p.text_npg
        → TooFew l.base s1 p.data_npg
        → RunsOut
    no_stack :
        (s0 s1 s2 : Space)
        → Emptied s0
        → Filled l.base read_write s0 s1 text_index p.text_npg
        → Filled l.base read_write s1 s2 data_index p.data_npg
        → TooFew l.base s2 p.stack_npg
        → RunsOut

  -- one region of `n` pages, in a memory with other pages
  fill :
      (start n : ℕ) (s : Space)
      → Mapped l.base s
      → l.first ≤ start
      → start + n ≤ l.first + length s.pt
      → Unmapped s (start - l.first) n
      → ((s' : Space) × (alloc_region l start (start + n) read_write (with_space m s)
            ≡ ok (true, with_space m s'))
          × Filled l.base read_write s s' (start - l.first) n)
        ⊎ ((s' : Space) × (alloc_region l start (start + n) read_write (with_space m s)
              ≡ ok (false, with_space m s'))
            × Moves l.base s s'
            × TooFew l.base s n)
  fill start n s v low fits unused =
      let e : start + n - start ≡ n = omega arith in
      elim (alloc_region_lem l (with_space m s) v start (start + n) read_write low (omega arith)
        fits (rw e unused)) [
          | inl (s', run, f) ↦ inl (s', run, rw e at f)
          | inr (s', run, r, few) ↦ inr (s', run, Moves-Restored l.base s s' r, rw e at few)
        ]

  module _ (v : Mapped l.base (space_of m)) (h : IsPlaced) where
    -- the stack, after text and data
    stack_part :
        (s0 s1 s2 : Space)
        → Emptied s0
        → ((j : ℕ) → (entry s0.pt j).valid ≡ false)
        → Filled l.base read_write s0 s1 text_index p.text_npg
        → Filled l.base read_write s1 s2 data_index p.data_npg
        → length s2.pt ≡ length m.ctx.region1_pt
        → Moves l.base (space_of m) s2
        → ((s : Space) × (alloc_region l
                (limit_vpn l (with_space m s2) - p.stack_npg)
                (limit_vpn l (with_space m s2))
                read_write
                (with_space m s2)
              ≡ ok (true, with_space m s))
            × IsBuilt s
            × Moves l.base (space_of m) s)
          ⊎ ((s : Space) × (alloc_region l
                  (limit_vpn l (with_space m s2) - p.stack_npg)
                  (limit_vpn l (with_space m s2))
                  read_write
                  (with_space m s2)
                ≡ ok (false, with_space m s))
              × RunsOut
              × Moves l.base (space_of m) s)
    stack_part s0 s1 s2 u empty f1 f2 size a =
        let start : ℕ = l.first + length s2.pt - p.stack_npg in
        let end : start + p.stack_npg ≡ l.first + length s2.pt = omega (arith, size, h.fits) in
        let at : start - l.first ≡ stack_index = omega (arith, size, h.fits) in
        elim (fill start p.stack_npg s2 a.mapped (omega (arith, size, h.low, h.order, h.fits))
          (omega (arith, end))
          (λ j q.
            ground (arith, at, size, f2.others j, f1.others j, empty j, h.low, h.order, h.fits))) [
              | inr (s3, run, a3, few) ↦ inr (
                s3,
                rw end at run,
                no_stack s0 s1 s2 u f1 f2 few,
                Moves-trans l.base (space_of m) s2 s3 a a3,
              )
              | inl (s3, run, f) ↦
                  let f3 : Filled l.base read_write s2 s3 stack_index p.stack_npg = rw at at f in
                  inl (
                    s3,
                    rw end at run,
                    record {
                      text = λ j q. ground (
                        arith,
                        f3.others j,
                        f2.others j,
                        f1.valid j,
                        f1.prot j,
                        h.low,
                        h.order,
                        h.fits,
                      );
                      data_pages = λ j q.
                          ground
                            (arith, f3.others j, f2.valid j, f2.prot j, h.low, h.order, h.fits);
                      stack = λ j q. (f3.valid j q, f3.prot j q);
                      others = λ j q0 q1 q2.
                          ground (arith, f3.others j q2, f2.others j q1, f1.others j q0, empty j);
                    },
                    Moves-trans l.base (space_of m) s2 s3 a
                        (Moves-Filled l.base read_write s2 s3 stack_index p.stack_npg f3),
                  )
            ]

    -- With a plan whose parts lie in region 1 in order, apart from each other, the pages of the process mapped to frames of
    -- their own, and a bit to spare in the bitset of frames: the page building of
    -- `LoadProgram` ends. Either exactly the pages of text, data and stack are mapped, all of them for reading and writing, and
    -- the old pages are gone; or it fails, and then, with the old pages given back and the parts before it filled, one of the three parts has
    -- more pages than frames are free. In both cases every page has a frame that was free or the process's own before, and only frames of
    -- the process were freed.
    pub build_lem :
        ((s : Space) × (build l p m ≡ ok (true, with_space m s))
          × IsBuilt s
          × Moves l.base (space_of m) s)
        ⊎ ((s : Space) × (build l p m ≡ ok (false, with_space m s))
            × RunsOut
            × Moves l.base (space_of m) s)
    unfolding build
    build_lem =
        let (s0, run0, u) = deallocate_region1-Undone l m v in
        let a0 = Moves-Undone l.base (space_of m) s0 0 (length m.ctx.region1_pt) u in
        let empty = none_left l m v s0 u in
        elim (fill p.text p.text_npg s0 a0.mapped h.low (omega (arith, u.size, h.order, h.fits))
          (λ j q. empty j)) [
            | inr (s1, run1, a1, few) ↦ inr (
              s1,
              rw (build, run0, run1),
              no_text s0 u few,
              Moves-trans l.base (space_of m) s0 s1 a0 a1,
            )
            | inl (s1, run1, f1) ↦
                let a1 =
                  Moves-trans l.base (space_of m) s0 s1 a0
                    (Moves-Filled l.base read_write s0 s1 text_index p.text_npg f1) in
                elim (fill p.start p.data_npg s1 a1.mapped (omega (arith, h.low, h.order))
                  (omega (arith, f1.size, u.size, h.fits))
                  (λ j q. ground (arith, f1.others j, empty j, h.low, h.order))) [
                    | inr (s2, run2, a2, few) ↦ inr (
                      s2,
                      rw (build, run0, run1, run2),
                      no_data s0 s1 u f1 few,
                      Moves-trans l.base (space_of m) s1 s2 a1 a2,
                    )
                    | inl (s2, run2, f2) ↦
                        let a2 =
                          Moves-trans l.base (space_of m) s1 s2 a1
                            (Moves-Filled l.base read_write s1 s2 data_index p.data_npg f2) in
                        elim (stack_part s0 s1 s2 u empty f1 f2 (f2.size ∙ f1.size ∙ u.size) a2) [
                          | inl (s3, run3, built, a3) ↦
                              inl (s3, rw (build, run0, run1, run2) run3, built, a3)
                          | inr (s3, run3, few, a3) ↦
                              inr (s3, rw (build, run0, run1, run2) run3, few, a3)
                        ]
                  ]
          ]
