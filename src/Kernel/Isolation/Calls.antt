-- ===== src/Kernel/Isolation/Calls.antt =====
-- The calls that work on one part of the kernel keep the invariant of the kernel's memory.
use cs58final_project.Prelude.{ℕ, Bool, ◌==◌, Option, none, some, List, inl, inr, Bool-cases}
use cs58final_project.Prelude.Run.{Run, ok, ◌>>=◌, Ensures, Ensures-bind, Ensures-any}
use cs58final_project.Kernel
use cs58final_project.Kernel.{WaitResult, kernel_delay, kernel_wait, kernel_wait_resume}
use cs58final_project.Kernel.Memory.{tty_write_call, pipe_write_call}
use cs58final_project.Pipe.Calls
use cs58final_project.Pipe.Calls.{ReadResult, pipe_read_resume}
use cs58final_project.Tty
use cs58final_project.Tty.{TtyResult, kernel_tty_write_resume, kernel_tty_read_resume}
use cs58final_project.Sync.{Sync}
use cs58final_project.Kernel.State.{
  Kern, Machine, Pending, nothing, child_status, pipe_bytes, tty_written, tty_bytes, at, running,
  user_mem, sync_of, pipe_sys, tty_sys, user_byte, put_user, return_to, resched,
}
use cs58final_project.Kernel.Blocking.{
  with_sync, with_pipes, with_ttys, delay_call, put_status, wait_done, wait_call, sync_call,
  put_made, init_call, pipe_init_call, reclaim_call, pipe_read_done, read_pipe, write_pipe,
  tty_done, read_tty, write_tty, resume_as, resume,
}
use cs58final_project.Kernel.Isolation.Safe.{IsSafe, Safe-resched, put_user-IsSafe}

module _ (mc : Machine) where
  abbrev Keeps : Run Kern → Type 0
  Keeps = Ensures (IsSafe mc)

  -- a write, and then a change of what is not memory
  put_then :
      (addr : ℕ) (bytes : List ℕ) (k : Kern) (f : Kern → Kern)
      → IsSafe mc k
      → ((k' : Kern) → IsSafe mc k' → IsSafe mc (f k'))
      → Keeps (put_user mc addr bytes k >>= λ x. ok (f x))
  put_then addr bytes k f w step =
      Ensures-bind (IsSafe mc) (IsSafe mc) (put_user mc addr bytes k) _
        (put_user-IsSafe mc addr bytes k w) step

  pub delay_call-IsSafe :
      (alloc : ℕ → Bool) (k : Kern) → IsSafe mc k → Keeps (delay_call mc alloc k)
  unfolding delay_call
  delay_call-IsSafe alloc k w =
      Ensures-any (IsSafe mc) (kernel_delay (alloc 0) (k.sched.procs (running k)).reg0 k.sched) _
        (λ r. Safe-resched mc k r.1 w)

  put_status-IsSafe :
      (pointer code : ℕ) (k : Kern) → IsSafe mc k → Keeps (put_status mc pointer code k)
  unfolding put_status
  put_status-IsSafe pointer code k w = elim (Bool-cases (pointer == 0)) [
    | inl null ↦ rw null w
    | inr given ↦ rw given (put_user-IsSafe mc pointer (mc.int_bytes code) k w)
  ]

  wait_done-IsSafe :
      (pointer : ℕ) (k : Kern) → IsSafe mc k → (x : WaitResult) → Keeps (wait_done mc pointer k x)
  unfolding wait_done
  wait_done-IsSafe pointer k w (Kernel.collected code s) =
      Ensures-bind (IsSafe mc) (IsSafe mc) (put_status mc pointer code (resched mc k s)) _
        (put_status-IsSafe pointer code (resched mc k s) (Safe-resched mc k s w)) (λ k' w'. w')
  wait_done-IsSafe pointer k w (Kernel.waits s) =
      Safe-resched mc (record k { pending = at k.pending (running k) (child_status pointer) }) s w

  pub wait_call-IsSafe : (alloc : ℕ → Bool) (k : Kern) → IsSafe mc k → Keeps (wait_call mc alloc k)
  unfolding wait_call
  wait_call-IsSafe alloc k w =
      wait_done-IsSafe (k.sched.procs (running k)).reg0 k w (kernel_wait (alloc 0) k.sched)

  with_sync-IsSafe : (k : Kern) (y : Sync) → IsSafe mc k → IsSafe mc (with_sync mc k y)
  with_sync-IsSafe k y w =
      Safe-resched mc
        (record k {
          locks = y.locks;
          cvars = y.cvars;
          open_lock_idx = y.open_lock_idx;
          open_cvar_idx = y.open_cvar_idx;
        })
        y.sched w

  pub sync_call-IsSafe :
      (f : Sync → ℕ × Sync) (k : Kern) → IsSafe mc k → IsSafe mc (sync_call mc f k)
  unfolding sync_call
  sync_call-IsSafe f k w = with_sync-IsSafe k (f (sync_of k)).1 w

  put_made-IsSafe :
      (pointer : ℕ) (made : Option ℕ) (k : Kern) → IsSafe mc k → Keeps (put_made mc pointer made k)
  unfolding put_made
  put_made-IsSafe pointer none k w = w
  put_made-IsSafe pointer (some id) k w = put_user-IsSafe mc pointer (mc.int_bytes id) k w

  pub init_call-IsSafe :
      (f : Sync → ℕ × Option ℕ × Sync) (k : Kern) → IsSafe mc k → Keeps (init_call mc f k)
  unfolding init_call
  init_call-IsSafe f k w =
      let x = f (sync_of k) in
      put_made-IsSafe (k.sched.procs (running k)).reg0 x.1
        (return_to (running k) x.0 (with_sync mc k x.2)) (with_sync-IsSafe k x.2 w)

  pub pipe_init_call-IsSafe :
      (alloc : ℕ → Bool) (k : Kern) → IsSafe mc k → Keeps (pipe_init_call mc alloc k)
  unfolding pipe_init_call
  pipe_init_call-IsSafe alloc k w = put_made-IsSafe (k.sched.procs (running k)).reg0 _ _ w

  pub reclaim_call-IsSafe :
      (alloc : ℕ → Bool) (k : Kern) → IsSafe mc k → IsSafe mc (reclaim_call mc alloc k)
  unfolding reclaim_call
  reclaim_call-IsSafe alloc k w = Safe-resched mc _ _ w

  pipe_read_done-IsSafe :
      (p buf : ℕ) (rest : Pending) (k : Kern)
      → IsSafe mc k
      → (x : ReadResult) → Keeps (pipe_read_done mc p buf rest k x)
  unfolding pipe_read_done
  pipe_read_done-IsSafe p buf rest k w (Calls.returned r0 bytes y) =
      put_then buf bytes (with_pipes mc k y)
        (λ k'. return_to p r0 (record k' { pending = at k'.pending p nothing }))
        (Safe-resched mc (record k { pipes = y.table }) y.sched w) (λ k' w'. w')
  pipe_read_done-IsSafe p buf rest k w (Calls.blocked y) =
      Safe-resched mc (record k { pending = at k.pending p rest; pipes = y.table }) y.sched w

  pub read_pipe-IsSafe : (k : Kern) → IsSafe mc k → Keeps (read_pipe mc k)
  unfolding read_pipe
  read_pipe-IsSafe k w = pipe_read_done-IsSafe (running k) _ _ k w _

  pub write_pipe-IsSafe :
      (alloc : ℕ → Bool) (k : Kern) → IsSafe mc k → Keeps (write_pipe mc alloc k)
  unfolding write_pipe
  write_pipe-IsSafe alloc k w =
      let pcb = k.sched.procs (running k) in
      Ensures-any (IsSafe mc)
        (pipe_write_call mc.layout (user_mem k) (alloc 0) (user_byte mc k) pcb.reg0 pcb.reg1
          pcb.reg2 (pipe_sys k))
        _ (λ r. Safe-resched mc (record k { pipes = r.1.table }) r.1.sched w)

  tty_done-IsSafe :
      (p buf : ℕ) (rest : Pending) (k : Kern)
      → IsSafe mc k
      → (x : TtyResult) → Keeps (tty_done mc p buf rest k x)
  unfolding tty_done
  tty_done-IsSafe p buf rest k w (Tty.returned r0 bytes y) =
      put_then buf bytes (with_ttys mc k y) (λ k'. return_to p r0 k')
        (Safe-resched mc (record k { ttys = y.ttys; log = y.log }) y.sched w) (λ k' w'. w')
  tty_done-IsSafe p buf rest k w (Tty.blocked y) =
      Safe-resched mc (record k { pending = at k.pending p rest; ttys = y.ttys; log = y.log })
        y.sched w

  pub read_tty-IsSafe : (k : Kern) → IsSafe mc k → Keeps (read_tty mc k)
  unfolding read_tty
  read_tty-IsSafe k w = tty_done-IsSafe (running k) _ _ k w _

  pub write_tty-IsSafe : (alloc : ℕ → Bool) (k : Kern) → IsSafe mc k → Keeps (write_tty mc alloc k)
  unfolding write_tty
  write_tty-IsSafe alloc k w =
      let pcb = k.sched.procs (running k) in
      Ensures-any (IsSafe mc)
        (tty_write_call mc.layout (user_mem k) mc.max_line mc.num_terminals (alloc 0)
          (user_byte mc k) pcb.reg0 pcb.reg1 pcb.reg2 (tty_sys k))
        _ (λ r. tty_done-IsSafe (running k) pcb.reg1 tty_written k w r)

  resume_as-IsSafe : (x : Pending) (k : Kern) → IsSafe mc k → Keeps (resume_as mc x k)
  unfolding resume_as
  resume_as-IsSafe nothing k w = w
  resume_as-IsSafe (child_status pointer) k w =
      Ensures-bind (IsSafe mc) (IsSafe mc) (put_status mc pointer (kernel_wait_resume k.sched) k) _
        (put_status-IsSafe pointer (kernel_wait_resume k.sched) k w) (λ k' w'. w')
  resume_as-IsSafe (pipe_bytes i len buf) k w =
      pipe_read_done-IsSafe (running k) buf (pipe_bytes i len buf) k w
        (pipe_read_resume i len (pipe_sys k))
  resume_as-IsSafe tty_written k w =
      let y = (kernel_tty_write_resume (running k) (tty_sys k)).1 in
      Safe-resched mc (record k { ttys = y.ttys; log = y.log }) y.sched w
  resume_as-IsSafe tty_bytes k w =
      let p = running k in
      let pcb = k.sched.procs p in
      let x = kernel_tty_read_resume pcb.io_tty_id p (tty_sys k) in
      put_then pcb.io_user_buf x.1 (with_ttys mc k x.2)
        (λ k'. return_to p x.0 (record k' { pending = at k'.pending p nothing }))
        (Safe-resched mc (record k { ttys = x.2.ttys; log = x.2.log }) x.2.sched w) (λ k' w'. w')

  pub resume-IsSafe : (k : Kern) → IsSafe mc k → Keeps (resume mc k)
  unfolding resume
  resume-IsSafe k w = resume_as-IsSafe (k.pending (running k)) k w
