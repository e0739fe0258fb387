-- ===== src/Kernel/Isolation/Birth.antt =====
-- KernelFork keeps the invariant of the kernel's memory, for a PCB at an address that is not in use.
use mathlib.Core.Path.{subst}
use cs58final_project.Prelude.{
  ℕ, [], ◌+◌, ◌<◌, ◌≡◌, ◌≢◌, sym, ap, ◌∙◌, Bool, false, arith, Option, none, some, List, inl, inr,
  length, replicate, Bool-cases,
}
use cs58final_project.Prelude.Run.{Ensures, Ensures-bind}
use cs58final_project.Pages.Owners.{Owned}
use cs58final_project.Sched.Waiters.{running-schedule}
use cs58final_project.Process.{Pcb}
use cs58final_project.Pages.{Pte, zero_pte, entry}
use cs58final_project.Pages.Range.{within}
use cs58final_project.UserMemory.{MemCtx, ForkMem, uc_copy}
use cs58final_project.KernelMemory.{KernelMem, kc_copy}
use cs58final_project.KernelMemory.Copy.{CopiedStack, no_room, made, kc_copy-CopiedStack}
use cs58final_project.Kernel.State.{
  Kern, Machine, Library, nothing, at, running, user_mem, kernel_mem, with_kernel_mem,
  kernel_numbers,
}
use cs58final_project.Kernel.Lifecycle.{
  with_fork_mem, fork_failed, fork_sched, give_stack, fork_stack, fork_made, fork_as, fork_call,
}
use cs58final_project.Kernel.Isolation.{kernel, stack_pages, Isolated}
use cs58final_project.Kernel.Isolation.Fork.{fork_tables}
use cs58final_project.Kernel.Isolation.Copy.{Forked, uc_copy-Forked}
use cs58final_project.Kernel.Isolation.Spawn.{Owned-copied, Owned-start, Owned-failed}
use cs58final_project.Kernel.Isolation.NewStack.{Isolated-no_stack, Isolated-stack}
use cs58final_project.Kernel.Isolation.Safe.{IsSafe}

-- What the numbers of a machine have to satisfy: pages and addresses go over into each other, and there is a kernel stack.
pub record Sound (mc : Machine) : Type 0 where
  pub round : (x : ℕ) → mc.kernel_layout.page_up (mc.kernel_layout.page_address x) ≡ x
  pub some_stack : 0 < mc.kernel_layout.stack_pages

-- An address that no process has: nothing is mapped for it.
pub record Fresh (q : ℕ) (k : Kern) : Type 0 where
  pub other : running k ≢ q
  pub unused : (j : ℕ) → (entry (k.contexts q).region1_pt j).valid ≡ false

module _ (mc : Machine) (sound : Sound mc) where
  given-IsSafe :
      (q : ℕ) (k : Kern)
      → running k ≢ q
      → IsSafe mc k
      → (c : Option (List Pte × (ℕ → List ℕ)) × KernelMem)
      → CopiedStack (kernel_numbers mc) (kernel_mem k) k.contents c
      → IsSafe mc (give_stack mc q (with_kernel_mem k c.1) c.0)
  unfolding give_stack
  given-IsSafe q k ne w _ (no_room s r _) = record {
    isolated =
        Isolated-no_stack mc k.frames k.contexts k.stacks k.region0_pt (running k) q ne w.isolated s
          r;
    enabled = w.enabled;
    gap = λ j le lt. r.valid j ∙ w.gap j le lt;
  }
  given-IsSafe q k ne w _ (made s1 s2 st bytes f t below _) = record {
    isolated =
        Isolated-stack mc k.frames k.contexts k.stacks k.region0_pt (running k) q ne w.isolated
          k.current_brk_page s1 s2 st f t below;
    enabled = w.enabled;
    gap = λ j le lt. elim (Bool-cases (within k.current_brk_page (stack_pages mc) j)) [
      | inl inside ↦ t.unmapped j inside
      | inr outside ↦
          ap (λ (e : Pte). e.valid) (t.others j outside ∙ f.others j outside) ∙ w.gap j le lt
    ];
  }

  pub fork_stack-IsSafe :
      (q : ℕ) (k : Kern) → running k ≢ q → IsSafe mc k → Ensures (IsSafe mc) (fork_stack mc q k)
  unfolding fork_stack
  fork_stack-IsSafe q k ne w =
      let n = kernel_numbers mc in
      let m = kernel_mem k in
      Ensures-bind (CopiedStack n m k.contents) (IsSafe mc) (kc_copy n m k.contents) _
        (kc_copy-CopiedStack n m (w.isolated.owned.tables kernel) w.enabled
          (sound.round (k.current_brk_page + n.stack_pages)) sound.some_stack
          (omega (arith, w.isolated.room)) w.gap k.contents)
        (λ c x. given-IsSafe q k ne w c x)

  abbrev parent_at : Kern → ForkMem → ℕ → MemCtx
  parent_at k g = at k.contexts (running k) g.mem.ctx

  -- the copy has been made
  fork_made-IsSafe :
      (allocated : Bool) (q : ℕ) (child : Pcb) (ctx : MemCtx) (k : Kern) (g : ForkMem)
      (ne : running k ≢ q)
      → IsSafe mc k
      → Owned mc.layout.base g.mem.frames (
          fork_tables mc k.contexts k.stacks k.region0_pt
            (running k)
            q
            ne
            g.mem.ctx.region1_pt
            ctx.region1_pt)
      → Ensures (IsSafe mc) (fork_made mc allocated q child ctx (with_fork_mem mc k g))
  unfolding fork_made fork_sched
  fork_made-IsSafe allocated q child ctx k g ne w o =
      let p = running k in
      let k1 = with_fork_mem mc k g in
      let s = fork_sched mc allocated q child k.sched in
      let same : s.running_proc ≡ p = running-schedule q _ in
      let owned =
        Owned-copied mc k.contexts k.stacks p q ne g.mem.frames k.region0_pt g.mem.ctx ctx o in
      let isolated : Isolated mc g.mem.frames (at (parent_at k g) q ctx) k.stacks k.region0_pt p =
        record {
          owned = owned;
          mapped_stack = w.isolated.mapped_stack;
          sizes = w.isolated.sizes;
          room = w.isolated.room;
        } in
      fork_stack-IsSafe q
        (record k1 {
          contexts = at k1.contexts q ctx;
          sched = s;
          sp = at k1.sp q (k1.sp p);
          pc = at k1.pc q (k1.pc p);
          pending = at k1.pending q nothing;
        })
        (λ e. ne (sym same ∙ e))
        (record {
          isolated =
              subst (Isolated mc g.mem.frames (at (parent_at k g) q ctx) k.stacks k.region0_pt)
                (sym same) isolated;
          enabled = w.enabled;
          gap = w.gap;
        })

  -- the copy has failed
  fork_failed-IsSafe :
      (q : ℕ) (child : Pcb) (k : Kern) (g : ForkMem) (fresh : Fresh q k)
      → IsSafe mc k
      → Owned mc.layout.base g.mem.frames (
          fork_tables mc k.contexts k.stacks k.region0_pt
            (running k)
            q
            fresh.other
            g.mem.ctx.region1_pt
            [])
      → IsSafe mc (fork_failed mc q child (with_fork_mem mc k g))
  unfolding fork_failed
  fork_failed-IsSafe q child k g fresh w o = record {
    isolated = record {
      owned =
          Owned-failed mc k.contexts k.stacks (running k) q fresh.other g.mem.frames k.region0_pt 0
            fresh.unused g.mem.ctx o;
      mapped_stack = w.isolated.mapped_stack;
      sizes = w.isolated.sizes;
      room = w.isolated.room;
    };
    enabled = w.enabled;
    gap = w.gap;
  }

  fork_as-IsSafe :
      (lib : Library) (k : Kern) (x : Option Pcb)
      → Fresh lib.new_pcb k
      → IsSafe mc k
      → Ensures (IsSafe mc) (fork_as mc lib k x)
  unfolding fork_as
  fork_as-IsSafe lib k none fresh w = tt
  fork_as-IsSafe lib k (some child) fresh w =
      let p = running k in
      let q = lib.new_pcb in
      let n = length (k.contexts p).region1_pt in
      let f : ForkMem = record {
        mem = user_mem k;
        child_pt = replicate n zero_pte;
        contents = k.contents;
      } in
      let start =
        Owned-start mc k.contexts k.stacks p q fresh.other k.frames k.region0_pt n fresh.unused
          w.isolated.owned in
      Ensures-bind (Forked mc k.contexts k.stacks k.region0_pt p q fresh.other) (IsSafe mc)
        (uc_copy mc.layout (k.sp p) f) _
        (uc_copy-Forked mc k.contexts k.stacks k.region0_pt p q fresh.other (k.sp p) f start)
        (λ r x. elim (Bool-cases r.0) [
          | inl copied ↦
              rw copied
                (fork_made-IsSafe (lib.alloc 4) q child r.2 k r.1 fresh.other w (rw copied at x))
          | inr full ↦ rw full (fork_failed-IsSafe q child k r.1 fresh w (rw full at x))
        ])

  pub fork_call-IsSafe :
      (lib : Library) (k : Kern)
      → Fresh lib.new_pcb k
      → IsSafe mc k
      → Ensures (IsSafe mc) (fork_call mc lib k)
  unfolding fork_call
  fork_call-IsSafe lib k fresh w = fork_as-IsSafe lib k _ fresh w
