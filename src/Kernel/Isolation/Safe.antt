-- ===== src/Kernel/Isolation/Safe.antt =====
-- The whole invariant of the kernel's memory, and the calls that keep it by what they are made of: those of one part, `brk`, and an exit.
use cs58final_project.Prelude.{
  ℕ, ◌+◌, ◌-◌, ◌≤◌, ◌<◌, ◌≡◌, refl, sym, ap, ◌∙◌, Bool, true, false, arith, Option, List, inl, inr,
  ◌==◌, length, Bool-cases,
}
use cs58final_project.Prelude.Run.{ok-injective, Ensures, Ensures-any}
use cs58final_project.Frames.{Frames}
use cs58final_project.Pages.{Pte, entry, Space}
use cs58final_project.Pages.Laws.{Mapped}
use cs58final_project.Pages.Range.{within, Undone, Undone-at, undo_allocation_lem}
use cs58final_project.Pages.Moves.{Moves}
use cs58final_project.Sched.{Sched}
use cs58final_project.UserMemory.{MemCtx, UserMem, space_of, with_space}
use cs58final_project.UserMemory.Moves.{kernel_brk-Moves, deallocate_region1-Moves}
use cs58final_project.UserMemory.Bytes.{store}
use cs58final_project.KernelMemory.{install, kc_switch, deallocate_kernel_stack}
use cs58final_project.KernelMemory.Stack.{entry-install, free_pages_lem}
use cs58final_project.Kernel
use cs58final_project.Kernel.{ExitResult, kernel_exit}
use cs58final_project.Kernel.Memory.{kernel_brk}
use cs58final_project.Kernel.State.{
  Kern, Machine, Outcome, halted, goes_on, at, kernel_numbers, running, user_mem, with_user_mem,
  put_user, resched,
}
use cs58final_project.Kernel.Blocking.{brk_call}
use cs58final_project.Kernel.Lifecycle.{leave, exit_done, exit_call}
use cs58final_project.Kernel.Isolation.{
  user, kernel, stack_page, stack_pages, Isolated, Isolated-resched, Isolated-user,
}
use cs58final_project.Kernel.Isolation.Exit.{stacks', sizes', Isolated-exit}

module _ (mc : Machine) where
  -- Isolation, and room between the kernel's heap and its stack.
  pub record Safe (frames : Frames) (contexts : ℕ → MemCtx) (stacks : ℕ → List Pte)
      (region0 : List Pte) (r : ℕ) (vm : Bool) (brk : ℕ) : Type 0 where
    pub isolated : Isolated mc frames contexts stacks region0 r
    pub enabled : vm ≡ true
    pub gap : (j : ℕ) → brk ≤ j → j < stack_page mc → (entry region0 j).valid ≡ false

  abbrev pub IsSafe : Kern → Type 0
  IsSafe k =
      Safe k.frames k.contexts k.stacks k.region0_pt (running k) k.vm_enabled k.current_brk_page

  abbrev pub IsSafeOutcome : Outcome → Type 0
  IsSafeOutcome halted = Unit {0}
  IsSafeOutcome (goes_on k) = IsSafe k

  -- a kernel stack that is mapped stands above the gap
  gap-install :
      (region0 st : List Pte) (brk : ℕ)
      → length st ≡ stack_pages mc
      → stack_page mc + stack_pages mc ≤ length region0
      → ((j : ℕ) → brk ≤ j → j < stack_page mc → (entry region0 j).valid ≡ false)
      → (j : ℕ) → brk ≤ j
      → j < stack_page mc
      → (entry (install (kernel_numbers mc) st (stack_page mc) region0) j).valid ≡ false
  gap-install region0 st brk size room gap j le lt =
      let out : within (stack_page mc) (length st) j ≡ false = ground (arith, lt) in
      let now =
        entry-install (kernel_numbers mc) st (stack_page mc) region0 (omega (arith, size, room))
          j in
      ap (λ (e : Pte). e.valid) (rw out at now) ∙ gap j le lt

  pub Safe-resched : (k : Kern) (s : Sched) → IsSafe k → IsSafe (resched mc k s)
  unfolding resched kc_switch
  Safe-resched k s w =
      let i = Isolated-resched mc k s w.isolated in
      elim (Bool-cases (s.running_proc == running k)) [
        | inl same ↦ rw same (record { isolated = rw same at i; enabled = w.enabled; gap = w.gap })
        | inr other ↦ rw other (record {
          isolated = rw other at i;
          enabled = w.enabled;
          gap =
              gap-install k.region0_pt (k.stacks s.running_proc) k.current_brk_page
                (w.isolated.sizes s.running_proc) w.isolated.room w.gap;
        })
      ]

  pub Safe-user :
      (k : Kern) (m : UserMem)
      → IsSafe k
      → Moves mc.layout.base (space_of (user_mem k)) (space_of m)
      → IsSafe (with_user_mem k m)
  Safe-user k m w a = record {
    isolated = Isolated-user mc k m w.isolated a;
    enabled = w.enabled;
    gap = w.gap;
  }

  -- the pages of the running process
  pub own_pages : (k : Kern) → IsSafe k → Mapped mc.layout.base (space_of (user_mem k))
  own_pages k w = w.isolated.owned.tables (user (running k))

  pub put_user-IsSafe :
      (addr : ℕ) (bytes : List ℕ) (k : Kern) → IsSafe k → Ensures IsSafe (put_user mc addr bytes k)
  unfolding put_user
  put_user-IsSafe addr bytes k w =
      Ensures-any IsSafe
        (store mc.layout mc.abi.page_size (k.contexts (running k)).region1_pt addr bytes k.contents)
        _ (λ c. w)

  pub brk_call-IsSafe : (k : Kern) → IsSafe k → Ensures IsSafe (brk_call mc k)
  unfolding brk_call kernel_brk
  brk_call-IsSafe k w =
      let p = running k in
      let (r0, m, run, a) =
        kernel_brk-Moves mc.layout (user_mem k) (own_pages k w) (k.sched.procs p).reg0 (k.sp p) in
      rw run (Safe-user k m w a)

  -- The process is gone, with its pages and its kernel stack.
  leave-IsSafe : (s : Sched) (k : Kern) → IsSafe k → Ensures IsSafeOutcome (leave mc s k)
  unfolding leave deallocate_kernel_stack kc_switch
  leave-IsSafe s k w =
      let (s1, run1, a) = deallocate_region1-Moves mc.layout (user_mem k) (own_pages k w) in
      let w1 = Safe-user k (with_space (user_mem k) s1) w a in
      let old : Space = record { frames = s1.frames; pt = k.region0_pt } in
      let mapped = w1.isolated.owned.tables kernel in
      let (s2, run2, undone) =
        free_pages_lem (kernel_numbers mc) (stack_pages mc) (stack_page mc) s1.frames k.region0_pt
          k.region0_pt mapped refl (λ j h. refl) in
      let (s3, run3, u) =
        undo_allocation_lem mc.layout.base 0 (stack_pages mc) (stack_page mc) old mapped
          (omega arith) in
      let same : s3 ≡ s2 = ok-injective (sym run3 ∙ undone) in
      let first : stack_page mc - 0 ≡ stack_page mc = omega arith in
      let u' =
        Undone-at mc.layout.base old s3 (stack_page mc - 0) (stack_page mc) (stack_pages mc) first
          u in
      let u2 : Undone mc.layout.base old s2 (stack_page mc) (stack_pages mc) = rw same at u' in
      let p = running k in
      let r = s.running_proc in
      let contexts1 = at k.contexts p (record (k.contexts p) { region1_pt = s1.pt }) in
      rw (run1, run2)
        (record {
          isolated =
              Isolated-exit mc s1.frames contexts1 k.stacks k.region0_pt p r w1.isolated s2 u2;
          enabled = w.enabled;
          gap =
              gap-install k.region0_pt
                (stacks' mc s1.frames contexts1 k.stacks k.region0_pt p r w1.isolated s2 u2 r)
                k.current_brk_page
                (sizes' mc s1.frames contexts1 k.stacks k.region0_pt p r w1.isolated s2 u2 r)
                w.isolated.room w.gap;
        })

  exit_done-IsSafe :
      (k : Kern) → IsSafe k → (x : ExitResult) → Ensures IsSafeOutcome (exit_done mc k x)
  unfolding exit_done
  exit_done-IsSafe k w Kernel.halted = tt
  exit_done-IsSafe k w (Kernel.gone freed s) = leave-IsSafe s k w

  pub exit_call-IsSafe :
      (status : Option ℕ) (k : Kern) → IsSafe k → Ensures IsSafeOutcome (exit_call mc status k)
  unfolding exit_call
  exit_call-IsSafe status k w = exit_done-IsSafe k w (kernel_exit status k.sched)
