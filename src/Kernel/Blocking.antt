-- ===== src/Kernel/Blocking.antt =====
-- The calls that work on one part of the kernel, on the whole state: what the part returns goes to registers, user memory
-- and the running process, and a call that blocks leaves its rest behind. `alloc i` says whether the i-th allocation
-- of the call gets memory.
use cs58final_project.Prelude.{ℕ, Bool, Option, none, some, ◌==◌, if◌then◌else◌}
use cs58final_project.Prelude.Run.{Run, ok, ◌>>=◌}
use cs58final_project.Ids
use cs58final_project.Pipe.Calls
use cs58final_project.Pipe.Calls.{PipeSys, ReadResult, pipe_init, pipe_read_resume}
use cs58final_project.Tty
use cs58final_project.Tty.{
  TtySys, TtyResult, kernel_tty_write_resume, kernel_tty_read_resume, tty_transmit_done,
  tty_receive_done,
}
use cs58final_project.Sync.{Sync}
use cs58final_project.Sync.Calls.{reclaim_impl}
use cs58final_project.Kernel
use cs58final_project.Kernel.{
  WaitResult, kernel_delay, kernel_wait, kernel_wait_resume, trap_clock_handler,
}
use cs58final_project.Kernel.Memory.{
  kernel_brk, tty_read_call, tty_write_call, pipe_read_call, pipe_write_call,
}
use cs58final_project.Kernel.State.{
  Kern, Machine, Pending, nothing, child_status, pipe_bytes, tty_written, tty_bytes, at, running,
  user_mem, with_user_mem, sync_of, pipe_sys, tty_sys, user_byte, put_user, return_to, resched,
}

module _ (mc : Machine) where
  abbrev pub with_sync : Kern → Sync → Kern
  with_sync k y =
      resched mc
        (record k {
          locks = y.locks;
          cvars = y.cvars;
          open_lock_idx = y.open_lock_idx;
          open_cvar_idx = y.open_cvar_idx;
        })
        y.sched

  abbrev pub with_pipes : Kern → PipeSys → Kern
  with_pipes k y = resched mc (record k { pipes = y.table }) y.sched

  abbrev pub with_ttys : Kern → TtySys → Kern
  with_ttys k y = resched mc (record k { ttys = y.ttys; log = y.log }) y.sched

  unfoldable pub brk_call : Kern → Run Kern
  brk_call k =
      let p = running k in
      kernel_brk mc.layout (user_mem k) (k.sched.procs p).reg0 (k.sp p) >>= λ r.
      ok (return_to p r.0 (with_user_mem k r.1))

  unfoldable pub delay_call : (ℕ → Bool) → Kern → Run Kern
  delay_call alloc k =
      let p = running k in
      kernel_delay (alloc 0) (k.sched.procs p).reg0 k.sched >>= λ r.
      ok (return_to p r.0 (resched mc k r.1))

  -- the status of a child, unless the pointer is NULL
  unfoldable pub put_status : ℕ → ℕ → Kern → Run Kern
  put_status pointer code k =
      if pointer == 0 then ok k else put_user mc pointer (mc.int_bytes code) k

  unfoldable pub wait_done : ℕ → Kern → WaitResult → Run Kern
  wait_done pointer k (Kernel.collected code s) =
      put_status pointer code (resched mc k s) >>= λ k'. ok (return_to (running k) 0 k')
  wait_done pointer k (Kernel.waits s) =
      ok (resched mc (record k { pending = at k.pending (running k) (child_status pointer) }) s)

  unfoldable pub wait_call : (ℕ → Bool) → Kern → Run Kern
  wait_call alloc k = wait_done (k.sched.procs (running k)).reg0 k (kernel_wait (alloc 0) k.sched)

  -- a call of a lock, a semaphore or a condition variable
  unfoldable pub sync_call : (Sync → ℕ × Sync) → Kern → Kern
  sync_call f k = let (r0, y) = f (sync_of k) in return_to (running k) r0 (with_sync k y)

  -- the new identifier, if there is one
  unfoldable pub put_made : ℕ → Option ℕ → Kern → Run Kern
  put_made pointer none k = ok k
  put_made pointer (some id) k = put_user mc pointer (mc.int_bytes id) k

  -- a call that stores a new identifier through the pointer in register 0
  unfoldable pub init_call : (Sync → ℕ × Option ℕ × Sync) → Kern → Run Kern
  init_call f k =
      let p = running k in
      let (r0, made, y) = f (sync_of k) in
      let k' = return_to p r0 (with_sync k y) in put_made (k.sched.procs p).reg0 made k'

  unfoldable pub pipe_init_call : (ℕ → Bool) → Kern → Run Kern
  pipe_init_call alloc k =
      let p = running k in
      let (r0, made, t) =
        pipe_init mc.buffer_len (alloc 0) (alloc 1) (k.sched.procs p).reg0 k.pipes in
      let k' = return_to p r0 (record k { pipes = t }) in put_made (k.sched.procs p).reg0 made k'

  unfoldable pub reclaim_call : (ℕ → Bool) → Kern → Kern
  reclaim_call alloc k =
      let p = running k in
      let (r0, y, t) = reclaim_impl (alloc 0) (k.sched.procs p).reg0 (sync_of k) k.pipes in
      return_to p r0 (with_sync (record k { pipes = t }) y)

  -- what a read of a pipe comes to, for the process `p`: the bytes are stored, or the rest waits
  unfoldable pub pipe_read_done : ℕ → ℕ → Pending → Kern → ReadResult → Run Kern
  pipe_read_done p buf rest k (Calls.returned r0 bytes y) =
      put_user mc buf bytes (with_pipes k y) >>= λ k'.
      ok (return_to p r0 (record k' { pending = at k'.pending p nothing }))
  pipe_read_done p buf rest k (Calls.blocked y) =
      ok (with_pipes (record k { pending = at k.pending p rest }) y)

  unfoldable pub read_pipe : Kern → Run Kern
  read_pipe k =
      let p = running k in
      let pcb = k.sched.procs p in
      pipe_read_done p pcb.reg1 (pipe_bytes (Ids.get_id pcb.reg0) pcb.reg2 pcb.reg1) k
        (pipe_read_call mc.layout (user_mem k) pcb.reg0 pcb.reg1 pcb.reg2 (pipe_sys k))

  unfoldable pub write_pipe : (ℕ → Bool) → Kern → Run Kern
  write_pipe alloc k =
      let p = running k in
      let pcb = k.sched.procs p in
      pipe_write_call mc.layout (user_mem k) (alloc 0) (user_byte mc k) pcb.reg0 pcb.reg1 pcb.reg2
        (pipe_sys k)
      >>= λ r. ok (return_to p r.0 (with_pipes k r.1))

  unfoldable pub tty_done : ℕ → ℕ → Pending → Kern → TtyResult → Run Kern
  tty_done p buf rest k (Tty.returned r0 bytes y) =
      put_user mc buf bytes (with_ttys k y) >>= λ k'. ok (return_to p r0 k')
  tty_done p buf rest k (Tty.blocked y) =
      ok (with_ttys (record k { pending = at k.pending p rest }) y)

  unfoldable pub read_tty : Kern → Run Kern
  read_tty k =
      let p = running k in
      let pcb = k.sched.procs p in
      tty_done p pcb.reg1 tty_bytes k (
        tty_read_call mc.layout (user_mem k) mc.num_terminals pcb.reg0 pcb.reg1 pcb.reg2
          (tty_sys k))

  unfoldable pub write_tty : (ℕ → Bool) → Kern → Run Kern
  write_tty alloc k =
      let p = running k in
      let pcb = k.sched.procs p in
      tty_write_call mc.layout (user_mem k) mc.max_line mc.num_terminals (alloc 0) (user_byte mc k)
        pcb.reg0 pcb.reg1 pcb.reg2 (tty_sys k)
      >>= λ r. tty_done p pcb.reg1 tty_written k r

  -- The rest of a call, in the process that runs again.
  unfoldable pub resume_as : Pending → Kern → Run Kern
  resume_as nothing k = ok k
  resume_as (child_status pointer) k = put_status pointer (kernel_wait_resume k.sched) k >>= λ k'.
      ok (return_to (running k) 0 (record k' { pending = at k'.pending (running k) nothing }))
  resume_as (pipe_bytes i len buf) k =
      pipe_read_done (running k) buf (pipe_bytes i len buf) k (pipe_read_resume i len (pipe_sys k))
  resume_as tty_written k =
      let (r0, y) = kernel_tty_write_resume (running k) (tty_sys k) in
      ok (
        return_to (running k) r0
          (record (with_ttys k y) { pending = at k.pending (running k) nothing }))
  resume_as tty_bytes k =
      let p = running k in
      let pcb = k.sched.procs p in
      let (n, bytes, y) = kernel_tty_read_resume pcb.io_tty_id p (tty_sys k) in
      put_user mc pcb.io_user_buf bytes (with_ttys k y) >>= λ k'.
      ok (return_to p n (record k' { pending = at k'.pending p nothing }))

  unfoldable pub resume : Kern → Run Kern
  resume k = resume_as (k.pending (running k)) k
