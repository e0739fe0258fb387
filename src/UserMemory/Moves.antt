-- ===== src/UserMemory/Moves.antt =====
-- The calls of user_memory.c on the pages of a process: whatever they are called with, they end, take only free frames, and free
-- only frames of the process.
use cs58final_project.Prelude.{
  ℕ, zero, suc, ◌+◌, ◌-◌, ◌≡◌, refl, Bool, true, false, ◌||◌, inl, inr, ltb, leb, length,
  Bool-cases,
}
use cs58final_project.Prelude.Run.{ok}
use cs58final_project.Machine.{error, success}
use cs58final_project.Pages.{Prot, Space, entry, read_write}
use cs58final_project.Pages.Laws.{Mapped}
use cs58final_project.Pages.Moves.{Moves, Moves-refl, Moves-trans}
use cs58final_project.Pages.Steps.{alloc_page-Moves, undo_allocation-Moves, alloc_pages-Moves}
use cs58final_project.UserMemory.{
  UserMem, Layout, space_of, with_space, limit_vpn, init_region1_pt, kernel_brk_impl, expand_loop,
  expand_stack, alloc_region, deallocate_region1,
}

module _ (l : Layout) where
  -- the memory after a call
  abbrev pub Keeps : UserMem → UserMem → Type 0
  Keeps m m' = Moves l.base (space_of m) (space_of m')

  module _ (m : UserMem) (v : Mapped l.base (space_of m)) where
    pub init_region1_pt-Moves :
        (b : Bool) × (m' : UserMem) × (init_region1_pt l m ≡ ok (b, m')) × Keeps m m'
    unfolding init_region1_pt
    init_region1_pt-Moves =
        let ctx = record m.ctx {
          txt_start_page = l.first;
          data_start_page = l.first;
          orig_brk_page = l.first;
          curr_brk_page = l.first;
        } in
        let m0 : UserMem = record m { ctx = ctx } in
        let (b, s, run, a, got, size) =
          alloc_page-Moves l.base l.first (l.page_down (l.vmem_limit - 1)) read_write (space_of m)
            v in
        (b, with_space m0 s, rw (init_region1_pt, run) refl, a)

    pub kernel_brk-Moves :
        (addr sp : ℕ)
        → (r0 : ℕ) × (m' : UserMem) × (kernel_brk_impl l addr sp m ≡ ok (r0, m')) × Keeps m m'
    unfolding kernel_brk_impl
    kernel_brk-Moves addr sp =
        let heap : ℕ = l.page_up addr in
        let curr : ℕ = m.ctx.curr_brk_page in
        let moved : Space → UserMem = λ (s : Space). record {
          frames = s.frames;
          ctx = record m.ctx { region1_pt = s.pt; curr_brk_page = heap };
        } in
        elim (Bool-cases (ltb heap m.ctx.orig_brk_page || leb (l.page_down sp) (heap + 1))) [
          | inl refused ↦
              (error, m, rw (kernel_brk_impl, refused), Moves-refl l.base (space_of m) v)
          | inr accepted ↦ elim (Bool-cases (ltb curr heap)) [
            | inl up ↦
                let (b, s, run, a) =
                  alloc_pages-Moves l.base l.first read_write curr (heap - curr) curr (space_of m)
                    v in
                elim (Bool-cases b) [
                  | inl got ↦ (success, moved s, rw (kernel_brk_impl, accepted, up, run, got), a)
                  | inr full ↦
                      (error, with_space m s, rw (kernel_brk_impl, accepted, up, run, full), a)
                ]
            | inr down ↦
                let (s, run, a) =
                  undo_allocation-Moves l.base l.first (curr - heap) heap (space_of m) v in
                (success, moved s, rw (kernel_brk_impl, accepted, down, run), a)
          ]
        ]

    pub deallocate_region1-Moves :
        (s : Space) × (deallocate_region1 l m ≡ ok (with_space m s)) × Moves l.base (space_of m) s
    unfolding deallocate_region1
    deallocate_region1-Moves =
        let (s, run, a) =
          undo_allocation-Moves l.base l.first (length m.ctx.region1_pt) l.first (space_of m) v in
        (s, rw (deallocate_region1, run), a)

    pub alloc_region-Moves :
        (start end : ℕ) (prot : Prot)
        → (b : Bool) × (s : Space) × (alloc_region l start end prot m ≡ ok (b, with_space m s))
          × Moves l.base (space_of m) s
    unfolding alloc_region
    alloc_region-Moves start end prot =
        elim (Bool-cases (ltb start l.first || ltb (limit_vpn l m) end)) [
          | inl outside ↦ (false, space_of m, rw outside, Moves-refl l.base (space_of m) v)
          | inr inside ↦
              let (b, s, run, a) =
                alloc_pages-Moves l.base l.first prot start (end - start) start (space_of m) v in
              (b, s, rw (alloc_region, inside, run), a)
        ]

  expand_loop-Moves :
      (n vpn : ℕ) (s : Space)
      → Mapped l.base s
      → (s' : Space) × (expand_loop l n vpn s ≡ ok s') × Moves l.base s s'
  unfolding expand_loop
  expand_loop-Moves zero vpn s v = (s, λ i. ok s, Moves-refl l.base s v)
  expand_loop-Moves (suc n) vpn s v = elim (Bool-cases (entry s.pt (vpn - l.first)).valid) [
    | inl there ↦ (s, rw there, Moves-refl l.base s v)
    | inr missing ↦
        let (b, s1, run, a, got, size) = alloc_page-Moves l.base l.first vpn read_write s v in
        let (s2, rest, a') = expand_loop-Moves n (vpn + 1) s1 a.mapped in
        (s2, rw (expand_loop, missing, run) rest, Moves-trans l.base s s1 s2 a a')
  ]

  pub expand_stack-Moves :
      (sp : ℕ) (m : UserMem)
      → Mapped l.base (space_of m)
      → (b : Bool) × (m' : UserMem) × (expand_stack l sp m ≡ ok (b, m')) × Keeps m m'
  unfolding expand_stack
  expand_stack-Moves sp m v = elim (Bool-cases (ltb sp l.vmem_base || leb l.vmem_limit sp)) [
    | inl outside ↦ (false, m, rw outside, Moves-refl l.base (space_of m) v)
    | inr inside ↦ elim (Bool-cases (ltb (l.page_down sp) (m.ctx.curr_brk_page + 1))) [
      | inl below ↦ (false, m, rw (inside, below), Moves-refl l.base (space_of m) v)
      | inr above ↦
          let (s, run, a) =
            expand_loop-Moves (limit_vpn l m - l.page_down sp) (l.page_down sp) (space_of m) v in
          (true, with_space m s, rw (expand_stack, inside, above, run), a)
    ]
  ]
