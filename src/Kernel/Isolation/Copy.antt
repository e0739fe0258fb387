-- ===== src/Kernel/Isolation/Copy.antt =====
-- Isolation while UCCopy runs: the child's pages get frames that nobody else has, and a copy that fails gives them back.
use cs58final_project.Prelude.{
  ℕ, zero, suc, ◌+◌, ◌-◌, ◌≡◌, ◌≢◌, refl, sym, ap, ◌∙◌, Bool, true, false, ◌&&◌, arith, List, [],
  inl, inr, ltb, leb, length, Bool-cases,
}
use cs58final_project.Prelude.Run.{
  Run, ok, fault, wild, out_of_fuel, ◌>>=◌, ok-injective, Ensures, Ensures-bind,
}
use cs58final_project.Frames.{Frames, free_frame}
use cs58final_project.Pages.{
  Prot, Pte, entry, Space, in_region, read_write, read_exec, unmap_no_free,
}
use cs58final_project.Pages.Laws.{Mapped, entry-outside}
use cs58final_project.Pages.Moves.{Moves, Moves-refl}
use cs58final_project.Pages.Steps.{alloc_page-Moves, undo_allocation-Moves}
use cs58final_project.Pages.Owners.{Owned, Owned-Moves}
use cs58final_project.UserMemory.{
  MemCtx, ForkMem, space_of, copy_page, copy_pages, destroy_pt, uc_copy, limit_vpn,
}
use cs58final_project.KernelMemory.{free_pages, free_no_unmap}
use cs58final_project.KernelMemory.Stack.{free_pages_lem}
use cs58final_project.Kernel.State.{Machine, kernel_numbers}
use cs58final_project.Kernel.Isolation.{user, Owner-discrete}
use cs58final_project.Kernel.Isolation.Fork.{
  fork_tables, mine_at, IsForking, IsAlone, child_at, others_child, parent-Moves, Owned-give,
}

module _ (mc : Machine) (contexts : ℕ → MemCtx) (stacks : ℕ → List Pte) (region0 : List Pte)
    (p q : ℕ) (ne : p ≢ q) where
  abbrev Forking : ForkMem → Type 0
  Forking = IsForking mc contexts stacks region0 p q ne

  abbrev Alone : ForkMem → Type 0
  Alone = IsAlone mc contexts stacks region0 p q ne

  abbrev base : ℕ
  base = mc.layout.base

  -- whatever became of a copy
  abbrev pub Copied : Bool × ForkMem → Type 0
  Copied r = elim r.0 [ true ↦ Forking r.1 | false ↦ Alone r.1 ]

  copy_page_lem :
      (brk vpn : ℕ) (prot : Prot) (f : ForkMem)
      → Forking f
      → Ensures (λ r. Forking r.1) (copy_page mc.layout brk vpn prot f)
  unfolding copy_page unmap_no_free
  copy_page_lem brk vpn prot f w =
      let first : ℕ = mc.layout.first in
      let child = f.child_pt in
      let mapped =
        rw (mine_at mc contexts stacks region0 p q ne f.mem.ctx.region1_pt child) at
          (w.tables (user p)) in
      let (b, s, run, a, got, size) =
        alloc_page-Moves base first brk read_write (space_of f.mem) mapped in
      let w1 = parent-Moves mc contexts stacks region0 p q ne f s w a in
      elim (Bool-cases b) [
        | inr full ↦ rw (copy_page, run, full) w1
        | inl taken ↦ elim (Bool-cases (in_region base first brk s)) [
          | inr outside ↦ rw (copy_page, run, taken, outside) tt
          | inl inside ↦ elim (Bool-cases (entry f.mem.ctx.region1_pt (vpn - first)).valid) [
            | inr unused ↦ rw (copy_page, run, taken, inside, unused) tt
            | inl source ↦
                rw (copy_page, run, taken, inside, source, inside)
                  (Owned-give mc contexts stacks region0 p q ne s.pt child (brk - first)
                    (vpn - first) prot s.frames w1 (got taken))
          ]
        ]
      ]

  child_mapped :
      (f : ForkMem) → Forking f → Mapped base (record { frames = f.mem.frames; pt = f.child_pt })
  child_mapped f w =
      rw (child_at mc contexts stacks region0 p q ne f.mem.ctx.region1_pt f.child_pt) at
        (w.tables (user q))

  give_up :
      (f : ForkMem) (s : Space)
      → Forking f
      → Moves base (record { frames = f.mem.frames; pt = f.child_pt }) s
      → Owned base s.frames (fork_tables mc contexts stacks region0 p q ne f.mem.ctx.region1_pt [])
  give_up f s w a =
      let mine = f.mem.ctx.region1_pt in
      let tables = fork_tables mc contexts stacks region0 p q ne mine in
      let e = child_at mc contexts stacks region0 p q ne mine f.child_pt in
      let gone = child_at mc contexts stacks region0 p q ne mine [] in
      Owned-Moves base f.mem.frames (tables f.child_pt) (tables []) w (user q) s (rw e a)
        (λ j h. absurd (ground (arith, rw gone at h))) Owner-discrete
        (others_child mc contexts stacks region0 p q ne mine f.child_pt [])

  abbrev with_table : List Pte → Bool × Frames → Run (Bool × Space)
  with_table pt x = ok (x.0, record { frames = x.1; pt = pt })

  loop_step :
      (n i : ℕ) (pt : List Pte)
      → ((x : Bool × Frames)
          → destroy_pt mc.layout n (i + 1) pt x.1 ≡ (
              free_pages (kernel_numbers mc) n (i + 1) (record { frames = x.1; pt = pt }) >>= λ s.
              ok s.frames))
      → (r : Run (Bool × Frames))
      → (r >>= λ x. destroy_pt mc.layout n (i + 1) pt x.1) ≡ (
          (r >>= with_table pt) >>= (λ x. free_pages (kernel_numbers mc) n (i + 1) x.1) >>= λ s.
          ok s.frames)
  loop_step n i pt ih (ok x) = ih x
  loop_step n i pt ih fault = refl
  loop_step n i pt ih wild = refl
  loop_step n i pt ih out_of_fuel = refl

  -- `destroy_pt` frees what `deallocate_kernel_stack` would of this table.
  same_loop :
      (n i : ℕ) (frames : Frames) (pt : List Pte)
      → destroy_pt mc.layout n i pt frames ≡ (
          free_pages (kernel_numbers mc) n i (record { frames = frames; pt = pt }) >>= λ s.
          ok s.frames)
  unfolding destroy_pt free_pages free_no_unmap
  same_loop zero i frames pt = refl
  same_loop (suc n) i frames pt = elim (Bool-cases (entry pt i).valid) [
    | inr unused ↦
        let out : (in_region (kernel_numbers mc).base 0 i (record { frames = frames; pt = pt })
              && false)
            ≡ false =
          ground arith in
        rw (destroy_pt, free_pages, free_no_unmap, unused, out) (same_loop n (i + 1) frames pt)
    | inl valid ↦
        let lt : ltb i (length pt) ≡ true = elim (Bool-cases (ltb i (length pt))) [
          | inl below ↦ below
          | inr beyond ↦ absurd (ground (arith, entry-outside pt i, valid, beyond))
        ] in
        let here : in_region (kernel_numbers mc).base 0 i (record { frames = frames; pt = pt })
            ≡ true =
          ground (arith, lt) in
        rw (destroy_pt, free_pages, free_no_unmap, valid, here)
          (loop_step n i pt (λ x. same_loop n (i + 1) x.1 pt)
            (free_frame base frames (entry pt i).pfn))
  ]

  -- `destroy_pt` gives back what unmapping the child's pages would.
  destroy_pt_lem :
      (n i : ℕ) (f : ForkMem)
      → Forking f
      → (s : Space) × (destroy_pt mc.layout n i f.child_pt f.mem.frames ≡ ok s.frames)
        × Moves base (record { frames = f.mem.frames; pt = f.child_pt }) s
  destroy_pt_lem n i f w =
      let child : Space = record { frames = f.mem.frames; pt = f.child_pt } in
      let mapped = child_mapped f w in
      let (s, run, undone) =
        free_pages_lem (kernel_numbers mc) n i f.mem.frames f.child_pt f.child_pt mapped refl
          (λ j h. refl) in
      let (s', undone', a) = undo_allocation-Moves base 0 n i child mapped in
      let same : s' ≡ s = ok-injective (sym undone' ∙ undone) in
      (
        s,
        same_loop n i f.mem.frames f.child_pt ∙ ap (λ (r : Run Space). r >>= λ x. ok x.frames) run,
        rw same at a,
      )

  copy_pages_lem :
      (brk n vpn : ℕ) (prot : Prot) (f : ForkMem)
      → Forking f
      → Ensures Copied (copy_pages mc.layout brk n vpn prot f)
  unfolding copy_pages
  copy_pages_lem brk zero vpn prot f w = w
  copy_pages_lem brk (suc n) vpn prot f w =
      Ensures-bind (λ (r : Bool × ForkMem). Forking r.1) Copied (copy_page mc.layout brk vpn prot f)
        _ (copy_page_lem brk vpn prot f w)
        (λ r w1. elim (Bool-cases r.0) [
          | inl copied ↦ rw copied (copy_pages_lem brk n (vpn + 1) prot r.1 w1)
          | inr full ↦
              let (s, run, a) = destroy_pt_lem (vpn - mc.layout.first) 0 r.1 w1 in
              rw (full, run) (give_up r.1 s w1 a)
        ])

  -- what a fork leaves: a child with pages of its own, or none
  abbrev pub Forked : Bool × ForkMem × MemCtx → Type 0
  Forked r = elim r.0 [
    | true ↦
        Owned base r.1.mem.frames
          (fork_tables mc contexts stacks region0 p q ne r.1.mem.ctx.region1_pt r.2.region1_pt)
    | false ↦ Alone r.1
  ]

  pub uc_copy-Forked : (sp : ℕ) (f : ForkMem) → Forking f → Ensures Forked (uc_copy mc.layout sp f)
  unfolding uc_copy
  uc_copy-Forked sp f w =
      let brk = f.mem.ctx.curr_brk_page in
      let stack_at = mc.layout.page_down sp in
      elim (Bool-cases (leb stack_at brk)) [
        | inl grown ↦
            let none =
              Moves-refl base (record { frames = f.mem.frames; pt = f.child_pt })
                (child_mapped f w) in
            rw grown (give_up f (record { frames = f.mem.frames; pt = f.child_pt }) w none)
        | inr apart ↦ rw apart (
            Ensures-bind Copied Forked
              (copy_pages mc.layout brk (f.mem.ctx.data_start_page - f.mem.ctx.txt_start_page)
                f.mem.ctx.txt_start_page read_exec f)
              _
              (copy_pages_lem brk (f.mem.ctx.data_start_page - f.mem.ctx.txt_start_page)
                f.mem.ctx.txt_start_page read_exec f w)
              (λ r1 w1. elim (Bool-cases r1.0) [
                | inr full ↦ rw full (rw full at w1)
                | inl text ↦ rw text (
                    Ensures-bind Copied Forked
                      (copy_pages mc.layout brk (brk - f.mem.ctx.data_start_page)
                        f.mem.ctx.data_start_page read_write r1.1)
                      _
                      (copy_pages_lem brk (brk - f.mem.ctx.data_start_page)
                        f.mem.ctx.data_start_page read_write r1.1 (rw text at w1))
                      (λ r2 w2. elim (Bool-cases r2.0) [
                        | inr full ↦ rw full (rw full at w2)
                        | inl heap ↦ rw heap (
                            Ensures-bind Copied Forked
                              (copy_pages mc.layout brk (limit_vpn mc.layout f.mem - stack_at)
                                stack_at read_write r2.1)
                              _
                              (copy_pages_lem brk (limit_vpn mc.layout f.mem - stack_at) stack_at
                                read_write r2.1 (rw heap at w2))
                              (λ r3 w3. elim (Bool-cases r3.0) [
                                | inr full ↦ rw full (rw full at w3)
                                | inl all ↦ rw all (rw all at w3)
                              ]))
                      ]))
              ]))
      ]
