-- ===== src/Kernel/Lifecycle.antt =====
-- KernelExit, KernelFork and KernelExec of yalnix_framework/src/syscalls.c on the whole state. What a freed PCB holds is
-- not looked at again.
use cs58final_project.Prelude.{
  ℕ, zero, suc, ◌+◌, Bool, true, false, ◌&&◌, Option, none, some, List, [], ◌∷◌, map, ◌==◌,
  if◌then◌else◌, length, replicate,
}
use cs58final_project.Prelude.Run.{Run, ok, fault, ◌>>=◌}
use cs58final_project.Machine.{error, bytes_at}
use cs58final_project.Process.{Pcb, update, create_new_pcb, add_child_proc, retire_pcb}
use cs58final_project.Sched.{Sched, schedule_process}
use cs58final_project.Pages.{Pte, zero_pte}
use cs58final_project.UserMemory.{MemCtx, UserMem, ForkMem, uc_copy, deallocate_region1}
use cs58final_project.UserMemory.Pointers.{check_c_string, check_argv, max_string_len, max_argv_len}
use cs58final_project.KernelMemory.{kc_copy, deallocate_kernel_stack}
use cs58final_project.Loader.{LoadResult, load_error, kill, loaded, load_program}
use cs58final_project.Kernel
use cs58final_project.Kernel.{ExitResult, kernel_exit}
use cs58final_project.Kernel.State.{
  Kern, Machine, Library, Outcome, halted, goes_on, nothing, at, running, user_mem, with_user_mem,
  kernel_mem, with_kernel_mem, kernel_numbers, user_byte, return_to, switch_stack,
}

module _ (mc : Machine) where
  -- the kernel stack of a process that has none
  abbrev pub no_stack : List Pte
  no_stack = replicate mc.kernel_layout.stack_pages zero_pte

  -- The two page tables of a process that is retired are freed: nothing is mapped for it any more.
  abbrev pub drop_tables : ℕ → Kern → Kern
  drop_tables p k = record k {
    contexts = at k.contexts p (record (k.contexts p) { region1_pt = [] });
    stacks = at k.stacks p no_stack;
  }

  -- The frames of the process and of its kernel stack are given back before the next process runs.
  unfoldable pub leave : Sched → Kern → Run Outcome
  leave s k = deallocate_region1 mc.layout (user_mem k) >>= λ m.
      deallocate_kernel_stack (kernel_numbers mc) (kernel_mem (with_user_mem k m)) >>= λ km.
      let k' = drop_tables (running k) (with_kernel_mem (with_user_mem k m) km) in
      ok (goes_on (switch_stack mc (record k' { sched = s })))

  unfoldable pub exit_done : Kern → ExitResult → Run Outcome
  exit_done k Kernel.halted = ok halted
  exit_done k (Kernel.gone freed s) = leave s k

  unfoldable pub exit_call : Option ℕ → Kern → Run Outcome
  exit_call status k = exit_done k (kernel_exit status k.sched)

  -- the memory of the process and its bytes, after a part of a fork
  abbrev pub with_fork_mem : Kern → ForkMem → Kern
  with_fork_mem k g = record (with_user_mem k g.mem) { contents = g.contents }

  -- The copy has failed: the PCB of the child is retired and freed.
  unfoldable pub fork_failed : ℕ → Pcb → Kern → Kern
  fork_failed q child k =
      let procs = (retire_pcb (update k.sched.procs q child) q).0 in
      return_to (running k) error (record k { sched = record k.sched { procs = procs } })

  -- The family and the queue. The result of `add_child_proc` is not looked at.
  unfoldable pub fork_sched : Bool → ℕ → Pcb → Sched → Sched
  fork_sched allocated q child s =
      let p = s.running_proc in
      let procs = update s.procs q (record child { reg0 = 0 }) in
      let parent = (add_child_proc allocated (record (procs p) { reg0 = child.pid }) q).1 in
      schedule_process q (record s { procs = update procs p parent })

  -- The kernel stack of the child, as `KCCopy` makes it; nobody looks at its failure, which leaves the table zero.
  unfoldable pub give_stack : ℕ → Kern → Option (List Pte × (ℕ → List ℕ)) → Kern
  give_stack q k none = record k { stacks = at k.stacks q no_stack }
  give_stack q k (some (stack, bytes)) = record k { stacks = at k.stacks q stack; contents = bytes }

  unfoldable pub fork_stack : ℕ → Kern → Run Kern
  fork_stack q k = kc_copy (kernel_numbers mc) (kernel_mem k) k.contents >>= λ c.
      ok (give_stack q (with_kernel_mem k c.1) c.0)

  -- The copy has been made: the child has the context and the registers of its parent.
  unfoldable pub fork_made : Bool → ℕ → Pcb → MemCtx → Kern → Run Kern
  fork_made allocated q child ctx k =
      let p = running k in
      fork_stack q (record k {
        contexts = at k.contexts q ctx;
        sched = fork_sched allocated q child k.sched;
        sp = at k.sp q (k.sp p);
        pc = at k.pc q (k.pc p);
        pending = at k.pending q nothing;
      })

  -- Without a PCB the code goes on with NULL. The table of region 1 has the size of that of the parent.
  unfoldable pub fork_as : Library → Kern → Option Pcb → Run Kern
  fork_as lib k none = fault
  fork_as lib k (some child) =
      let p = running k in
      let f : ForkMem = record {
        mem = user_mem k;
        child_pt = replicate (length (k.contexts p).region1_pt) zero_pte;
        contents = k.contents;
      } in
      uc_copy mc.layout (k.sp p) f >>= λ r.
      if r.0
      then fork_made (lib.alloc 4) lib.new_pcb child r.2 (with_fork_mem k r.1)
      else ok (fork_failed lib.new_pcb child (with_fork_mem k r.1))

  unfoldable pub fork_call : Library → Kern → Run Kern
  fork_call lib k =
      let pcb = k.sched.procs (running k) in
      fork_as lib k (
        create_new_pcb (lib.alloc 0) (lib.alloc 1) (lib.alloc 2) (lib.alloc 3) lib.new_pid pcb.reg0
          pcb.reg1 pcb.reg2)

  -- the string at an address, of at most `n` bytes
  unfoldable pub string_at : (ℕ → ℕ) → ℕ → ℕ → List ℕ
  string_at memory zero a = []
  string_at memory (suc n) a =
      let rest = memory a ∷ string_at memory n (a + 1) in if memory a == 0 then [] else rest

  -- the pointers of an argument vector, at most `n`
  unfoldable pub argv_at : (ℕ → ℕ) → ℕ → ℕ → List ℕ
  argv_at pointers zero a = []
  argv_at pointers (suc n) a =
      let rest = pointers a ∷ argv_at pointers n (a + mc.abi.pointer_size) in
      if pointers a == 0 then [] else rest

  unfoldable pub check_strings : UserMem → (ℕ → ℕ) → List ℕ → Bool
  check_strings m memory [] = true
  check_strings m memory (a ∷ args) =
      let rest = check_strings m memory args in
      if check_c_string mc.layout m memory a then rest else false

  abbrev pub pointer_at : Kern → ℕ → ℕ
  pointer_at k a = mc.abi.pointer_of (bytes_at (user_byte mc k) a mc.abi.pointer_size)

  unfoldable pub exec_done : Kern → LoadResult → Run Outcome
  exec_done k (load_error none) = ok (goes_on (return_to (running k) error k))
  exec_done k (load_error (some sp)) =
      ok (goes_on (return_to (running k) error (record k { sp = at k.sp (running k) sp })))
  exec_done k (kill sp m contents) =
      exit_call none
        (record (with_user_mem k m) { contents = contents; sp = at k.sp (running k) sp })
  exec_done k (loaded pc sp m contents) = ok (
      goes_on (record (with_user_mem k m) {
        contents = contents;
        sp = at k.sp (running k) sp;
        pc = at k.pc (running k) pc;
      }))

  unfoldable pub exec_call : Library → Kern → Run Outcome
  exec_call lib k =
      let p = running k in
      let filename = (k.sched.procs p).reg0 in
      let argvec = (k.sched.procs p).reg1 in
      let m = user_mem k in
      let memory = user_byte mc k in
      let argv = argv_at (pointer_at k) max_argv_len argvec in
      if check_c_string mc.layout m memory filename
        && (check_argv mc.layout m (pointer_at k) mc.abi.pointer_size argvec
            && check_strings m memory argv)
      then (load_program mc.layout mc.abi (lib.alloc 0)
            (lib.open_file (string_at memory max_string_len filename))
            (map (string_at memory max_string_len) argv) m k.contents
          >>= exec_done k)
      else ok (goes_on (return_to p error k))
