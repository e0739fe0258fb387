-- ===== src/Kernel.antt =====
-- The system calls of yalnix_framework/src/syscalls.c that work on processes and time, and the clock
-- trap of src/interrupt.c. A call gets the contents of register 0 as a 32-bit pattern. The memory of
-- an exiting process is not in this state.
pub mod Clock
pub mod Memory
pub mod State
pub mod Blocking
pub mod Lifecycle
pub mod Traps
pub mod Fork
pub mod Isolation
mod Tests
use cs58final_project.Prelude.{ℕ, Bool, Option, none, some, List, ◌==◌, if◌then◌else◌}
use cs58final_project.Prelude.Run.{Run, ok, ◌>>=◌}
use cs58final_project.Machine.{error, success, is_negative, full_context_switch, switch_to_next}
use cs58final_project.Process.{update, exited, find_exited_child, retire_pcb}
use cs58final_project.Sched.{
  Sched, get_next_process, put_to_sleep, wait_block_process, schedule_process, increment_ticks,
  wake_waiters, wake_sleepers,
}

pub kernel_get_pid : Sched → ℕ
kernel_get_pid s = (s.procs s.running_proc).pid

-- register 0 after the call, and the state in which the next process runs
pub kernel_delay : Bool → ℕ → Sched → Run (ℕ × Sched)
kernel_delay allocated ticks s =
    if ticks == 0
    then ok (success, s)
    else if is_negative ticks
    then ok (error, s)
    else put_to_sleep allocated s.running_proc ticks s >>= λ r.
        ok (if r.0 then (success, switch_to_next r.1) else (error, r.1))

-- The machine halts if the first process exits; otherwise another process runs, and some PCBs are freed.
pub data ExitResult : Type 0 where
  halted : ExitResult
  gone : List ℕ → Sched → ExitResult

-- `status` is none if a fault ended the process: `uc` is NULL then.
pub kernel_exit : Option ℕ → Sched → ExitResult
kernel_exit status s =
    let p = s.running_proc in
    let (next, s1) = get_next_process s in
    let code : ℕ = elim status [ none ↦ error | some r0 ↦ r0 ] in
    let marked = update s1.procs p (record (s1.procs p) { exit_code = code; state = exited }) in
    let (procs, freed) = retire_pcb marked p in
    if (s.procs p).pid == 1
    then halted
    else gone freed (full_context_switch next (record s1 { procs = procs }))

-- A wait returns with the exit code of the child that it collected, or it has put the caller on the
-- queue of the waiting processes and another process runs.
pub data WaitResult : Type 0 where
  collected : ℕ → Sched → WaitResult
  waits : Sched → WaitResult

pub kernel_wait : Bool → Sched → WaitResult
kernel_wait allocated s = elim (find_exited_child allocated s.procs s.running_proc) [
  | some (child, procs') ↦ collected (s.procs child).exit_code (record s { procs = procs' })
  | none ↦ waits (switch_to_next (wait_block_process s.running_proc s))
]

-- What `wait` stores once the caller runs again: register 1, where the exit code was put.
pub kernel_wait_resume : Sched → ℕ
kernel_wait_resume s = (s.procs s.running_proc).reg1

-- The end of the clock trap: the running process goes behind the others that are ready.
pub take_turns : Sched → Sched
take_turns s =
    let (next, s') = get_next_process (schedule_process s.running_proc s) in
    if s.running_proc == next then s' else full_context_switch next s'

pub trap_clock_handler : (ℕ → Bool) → (ℕ → Bool) → Sched → Run Sched
trap_clock_handler memory memory' s = wake_waiters memory (increment_ticks s) >>= λ s1.
    wake_sleepers memory' s1 >>= λ s2. ok (take_turns s2)
