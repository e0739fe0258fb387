-- ===== src/Kernel/Fork.antt =====
-- What KernelFork of yalnix_framework/src/syscalls.c leaves: the registers, the family, the ready queue, the pages and the kernel
-- stack of the child.
use cs58final_project.Prelude.{
  ℕ, ◌+◌, ◌<◌, ◌≡◌, ◌≢◌, ◌≤◌, Bool, true, false, Option, none, some, List, [], ◌∷◌, ◌++◌, ◌⊎◌, ◌==◌,
  ◌&&◌, not, if◌then◌else◌, length, replicate,
}
use cs58final_project.Prelude.Run.{ok, fault}
use cs58final_project.Machine.{error}
use cs58final_project.Process.{Pcb, zero_pcb, ready}
use cs58final_project.Sched.{Sched}
use cs58final_project.Pages.{Pte, zero_pte, entry}
use cs58final_project.UserMemory.{MemCtx, ForkMem, uc_copy}
use cs58final_project.UserMemory.Child.{stack, CanFork, IsCopy, RunsOut}
use cs58final_project.KernelMemory.{KernelMem}
use cs58final_project.KernelMemory.Copy.{CopiedStack}
use cs58final_project.Kernel.State.{
  Kern, Machine, Library, running, user_mem, kernel_mem, kernel_numbers,
}
use cs58final_project.Kernel.Lifecycle.{no_stack, with_fork_mem, fork_call}
use cs58final_project.Kernel.Isolation.Safe.{IsSafe}
use cs58final_project.Kernel.Isolation.Birth.{Sound, Fresh}

-- the memory of the running process and the empty table of its child
abbrev pub fork_start : Kern → ForkMem
fork_start k = record {
  mem = user_mem k;
  child_pt = replicate (length (k.contexts (running k)).region1_pt) zero_pte;
  contents = k.contents;
}

-- what `KCCopy` has made of a stack, and of the bytes `bytes`
abbrev pub stack_of : Machine → Option (List Pte × (ℕ → List ℕ)) → List Pte
stack_of mc none = no_stack mc
stack_of mc (some (st, bytes)) = st

abbrev pub bytes_of : (ℕ → List ℕ) → Option (List Pte × (ℕ → List ℕ)) → ℕ → List ℕ
bytes_of bytes none = bytes
bytes_of bytes (some (st, copied)) = copied

module _ (mc : Machine) (lib : Library) (k : Kern) where
  abbrev p : ℕ
  p = running k

  abbrev q : ℕ
  q = lib.new_pcb

  -- `create_new_pcb` gets its memory
  abbrev pub has_memory : Bool
  has_memory = lib.alloc 0 && (lib.alloc 1 && (lib.alloc 2 && lib.alloc 3))

  -- The registers, the family and the queue. The child waits behind the ready processes, with the registers of its parent
  -- but for the 0 that it gets where the parent gets its identifier.
  pub record IsQueued (s : Sched) : Type 0 where
    pub running_proc : s.running_proc ≡ p
    pub parent : (s.procs p).reg0 ≡ lib.new_pid
    pub children : (s.procs p).children ≡ (
        if length (k.sched.procs p).children == (k.sched.procs p).arr_size && not (lib.alloc 4)
        then (k.sched.procs p).children
        else (k.sched.procs p).children ++ q ∷ [])
    pub child :
        ((s.procs q).reg0 ≡ 0)
        × ((s.procs q).reg1 ≡ (k.sched.procs p).reg1)
        × ((s.procs q).reg2 ≡ (k.sched.procs p).reg2)
    pub child_pid : (s.procs q).pid ≡ lib.new_pid
    pub child_state : (s.procs q).state ≡ ready
    pub queue : s.main_queue ≡ k.sched.main_queue ++ q ∷ []

  -- A fork that is made, where `UCCopy` has left `g` and the context `ctx`, and `KCCopy` has left `c`.
  pub record IsForked (g : ForkMem) (ctx : MemCtx)
      (c : Option (List Pte × (ℕ → List ℕ)) × KernelMem) (k' : Kern) : Type 0 where
    pub sched : IsQueued k'.sched
    pub stack_pointer : k'.sp q ≡ k.sp p
    pub counter : k'.pc q ≡ k.pc p
    pub child_pages : k'.contexts q ≡ ctx
    pub parent_pages : k'.contexts p ≡ g.mem.ctx
    pub kernel_stack : k'.stacks q ≡ stack_of mc c.0
    pub bytes : k'.contents ≡ bytes_of g.contents c.0
    pub frames : k'.frames ≡ c.1.space.frames

  -- a fork for which `UCCopy` has failed and left `g`
  pub record IsRefused (g : ForkMem) (k' : Kern) : Type 0 where
    pub running_proc : running k' ≡ p
    pub parent : (k'.sched.procs p).reg0 ≡ error
    pub queue : k'.sched.main_queue ≡ k.sched.main_queue
    pub parent_pages : k'.contexts p ≡ g.mem.ctx
    pub bytes : k'.contents ≡ g.contents
    pub frames : k'.frames ≡ g.mem.frames

  -- how the call ends
  pub data ForkResult : Type 0 where
    no_pcb : has_memory ≡ false → fork_call mc lib k ≡ fault → ForkResult
    refused :
        (g : ForkMem) (ctx : MemCtx) (k' : Kern)
        → uc_copy mc.layout (k.sp p) (fork_start k) ≡ ok (false, g, ctx)
        → (stack mc.layout (k.sp p) (fork_start k) ≤ (k.contexts p).curr_brk_page)
          ⊎ RunsOut mc.layout (k.sp p) (fork_start k)
        → fork_call mc lib k ≡ ok k'
        → IsRefused g k'
        → ForkResult
    made :
        (g : ForkMem) (ctx : MemCtx) (c : Option (List Pte × (ℕ → List ℕ)) × KernelMem) (k' : Kern)
        → uc_copy mc.layout (k.sp p) (fork_start k) ≡ ok (true, g, ctx)
        → IsCopy mc.layout (k.sp p) (fork_start k) g
        → ctx ≡ record (k.contexts p) { region1_pt = g.child_pt }
        → CopiedStack (kernel_numbers mc) (kernel_mem (with_fork_mem mc k g)) g.contents c
        → fork_call mc lib k ≡ ok k'
        → IsForked g ctx c k'
        → ForkResult

  module _ (sound : Sound mc) (safe : IsSafe mc k) (fresh : Fresh q k)
      (busy : q ≢ k.sched.idle_proc)
      (held : (i : ℕ)
        → i < mc.kernel_layout.stack_pages
        → (entry k.region0_pt (mc.kernel_layout.stack_page + i)).valid ≡ true)
      (can : CanFork mc.layout (k.sp p) (fork_start k)) where
    abbrev pcb : Pcb
    pcb = k.sched.procs p

    -- the PCB that `create_new_pcb` returns
    abbrev new : Pcb
    new = record zero_pcb {
      pid = lib.new_pid;
      state = ready;
      has_parent = true;
      arr_size = 10;
      reg0 = pcb.reg0;
      reg1 = pcb.reg1;
      reg2 = pcb.reg2;
    }
