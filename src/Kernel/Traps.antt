-- ===== src/Kernel/Traps.antt =====
-- The traps of yalnix_framework/src/interrupt.c on the whole state: the dispatch of the kernel calls, the clock, the faults
-- and the terminals. The numbers of the calls are those of a header of the machine: the kernel trap gets the call that
-- the code stands for, or none.
use cs58final_project.Prelude.{ℕ, ◌+◌, ◌*◌, Option, none, some, List, if◌then◌else◌}
use cs58final_project.Prelude.Run.{Run, ok, ◌>>=◌}
use cs58final_project.Process.{update}
use cs58final_project.Tty.{tty_transmit_done, tty_receive_done}
use cs58final_project.Sync.Calls.{
  acquire_impl, release_impl, sem_down_impl, sem_up_impl, lock_init_impl, sem_init_impl,
  cvar_init_impl, cvar_wait_impl, cvar_signal_impl, cvar_broadcast_impl,
}
use cs58final_project.UserMemory.{expand_stack}
use cs58final_project.Kernel.{kernel_get_pid, trap_clock_handler}
use cs58final_project.Kernel.State.{
  Kern, Machine, Library, Outcome, goes_on, at, running, user_mem, with_user_mem, tty_sys,
  return_to, resched,
}
use cs58final_project.Kernel.Blocking.{
  with_ttys, brk_call, delay_call, wait_call, sync_call, init_call, pipe_init_call, reclaim_call,
  read_pipe, write_pipe, read_tty, write_tty,
}
use cs58final_project.Kernel.Lifecycle.{exit_call, fork_call, exec_call}

-- the cases of the `switch`
pub data Call : Type 0 where
  getpid brk delay exit fork exec wait tty_read tty_write : Call
  lock_init cvar_init lock_acquire lock_release cvar_signal cvar_broadcast cvar_wait reclaim : Call
  sem_up sem_down sem_init pipe_init pipe_read pipe_write : Call

-- What the modelled code uses of a `UserContext`.
pub record UserContext : Type 0 where
  pub regs0 : ℕ
  pub regs1 : ℕ
  pub regs2 : ℕ
  pub user_sp : ℕ
  pub user_pc : ℕ

-- `memcpy(&(curr_proc->uc), uc, sizeof(UserContext))`
unfoldable pub save_context : UserContext → Kern → Kern
save_context uc k =
    let p = running k in
    let pcb = record (k.sched.procs p) { reg0 = uc.regs0; reg1 = uc.regs1; reg2 = uc.regs2 } in
    record k {
      sched = record k.sched { procs = update k.sched.procs p pcb };
      sp = at k.sp p uc.user_sp;
      pc = at k.pc p uc.user_pc;
    }

-- `memcpy(uc, &(curr_proc->uc), sizeof(UserContext))`: with what the running process goes on
unfoldable pub load_context : Kern → UserContext
load_context k =
    let p = running k in
    let pcb = k.sched.procs p in
    record {
      regs0 = pcb.reg0;
      regs1 = pcb.reg1;
      regs2 = pcb.reg2;
      user_sp = k.sp p;
      user_pc = k.pc p;
    }

module _ (mc : Machine) (lib : Library) where
  abbrev then_on : Run Kern → Run Outcome
  then_on r = r >>= λ k. ok (goes_on k)

  unfoldable pub dispatch : Call → Kern → Run Outcome
  dispatch getpid k = ok (goes_on (return_to (running k) (kernel_get_pid k.sched) k))
  dispatch brk k = then_on (brk_call mc k)
  dispatch delay k = then_on (delay_call mc lib.alloc k)
  dispatch exit k = exit_call mc (some (k.sched.procs (running k)).reg0) k
  dispatch fork k = then_on (fork_call mc lib k)
  dispatch exec k = exec_call mc lib k
  dispatch wait k = then_on (wait_call mc lib.alloc k)
  dispatch tty_read k = then_on (read_tty mc k)
  dispatch tty_write k = then_on (write_tty mc lib.alloc k)
  dispatch lock_init k =
      then_on (
        init_call mc (lock_init_impl (lib.alloc 0) (lib.alloc 1) (k.sched.procs (running k)).reg0)
          k)
  dispatch cvar_init k =
      then_on (init_call mc (cvar_init_impl (lib.alloc 0) (k.sched.procs (running k)).reg0) k)
  dispatch lock_acquire k =
      ok (goes_on (sync_call mc (acquire_impl (k.sched.procs (running k)).reg0) k))
  dispatch lock_release k =
      ok (goes_on (sync_call mc (release_impl (k.sched.procs (running k)).reg0) k))
  dispatch cvar_signal k =
      ok (goes_on (sync_call mc (cvar_signal_impl (k.sched.procs (running k)).reg0) k))
  dispatch cvar_broadcast k =
      ok (goes_on (sync_call mc (cvar_broadcast_impl (k.sched.procs (running k)).reg0) k))
  dispatch cvar_wait k =
      let pcb = k.sched.procs (running k) in
      ok (goes_on (sync_call mc (cvar_wait_impl pcb.reg0 pcb.reg1) k))
  dispatch reclaim k = ok (goes_on (reclaim_call mc lib.alloc k))
  dispatch sem_up k = ok (goes_on (sync_call mc (sem_up_impl (k.sched.procs (running k)).reg0) k))
  dispatch sem_down k =
      ok (goes_on (sync_call mc (sem_down_impl (k.sched.procs (running k)).reg0) k))
  dispatch sem_init k =
      let pcb = k.sched.procs (running k) in
      then_on (init_call mc (sem_init_impl (lib.alloc 0) (lib.alloc 1) pcb.reg0 pcb.reg1) k)
  dispatch pipe_init k = then_on (pipe_init_call mc lib.alloc k)
  dispatch pipe_read k = then_on (read_pipe mc k)
  dispatch pipe_write k = then_on (write_pipe mc lib.alloc k)

  unfoldable pub trap_kernel : UserContext → Option Call → Kern → Run Outcome
  trap_kernel uc none k = ok (goes_on (save_context uc k))
  trap_kernel uc (some c) k = dispatch c (save_context uc k)

  -- The context is saved before and not after the sleepers are woken, which touches other processes only. The two loops that
  -- wake processes have allocations of their own.
  unfoldable pub trap_clock : UserContext → Kern → Run Kern
  trap_clock uc k =
      let k' = save_context uc k in
      trap_clock_handler (λ n. lib.alloc (2 * n)) (λ n. lib.alloc (2 * n + 1)) k'.sched >>= λ s.
      ok (resched mc k' s)

  unfoldable pub trap_memory : ℕ → Kern → Run Outcome
  trap_memory addr k = expand_stack mc.layout addr (user_mem k) >>= λ r.
      let k' = with_user_mem k r.1 in if r.0 then ok (goes_on k') else exit_call mc none k'

  unfoldable pub trap_tty_receive : UserContext → ℕ → List ℕ → Kern → Kern
  trap_tty_receive uc code line k =
      let k' = save_context uc k in
      with_ttys mc k' (tty_receive_done mc.num_terminals (lib.alloc 0) code line (tty_sys k'))

  unfoldable pub trap_tty_transmit : UserContext → ℕ → Kern → Run Kern
  trap_tty_transmit uc code k =
      let k' = save_context uc k in
      tty_transmit_done mc.max_line mc.num_terminals code (tty_sys k') >>= λ y.
      ok (with_ttys mc k' y)

-- The entries of the trap vector, with what the machine says of a trap.
pub data Trap : Type 0 where
  kernel : Option Call → Trap
  clock math illegal : Trap
  memory : ℕ → Trap
  receive : ℕ → List ℕ → Trap
  transmit : ℕ → Trap

unfoldable pub handle_trap : Machine → Library → UserContext → Trap → Kern → Run Outcome
handle_trap mc lib uc (kernel c) k = trap_kernel mc lib uc c k
handle_trap mc lib uc clock k = trap_clock mc lib uc k >>= λ k'. ok (goes_on k')
handle_trap mc lib uc math k = exit_call mc none k
handle_trap mc lib uc illegal k = exit_call mc none k
handle_trap mc lib uc (memory addr) k = trap_memory mc lib addr k
handle_trap mc lib uc (receive code line) k = ok (goes_on (trap_tty_receive mc lib uc code line k))
handle_trap mc lib uc (transmit code) k =
    trap_tty_transmit mc lib uc code k >>= λ k'. ok (goes_on k')
