-- ===== src/Sync/Calls.antt =====
-- The system calls of synchronization.c. A call gets its registers and the state, and returns
-- register 0 with the new state. After a call that blocks, another process runs.
use cs58final_project.Prelude.{ℕ, Bool, false, not, ◌||◌, Option, none, some, ◌==◌, if◌then◌else◌}
use cs58final_project.Ids
use cs58final_project.Machine.{error, success, is_negative, switch_to_next}
use cs58final_project.Pipe.{Pipes, pipe_reclaim}
use cs58final_project.Sync.{
  Sync, failed, acquired, need, acquire, release, wait_cvar, signal_cvar, broadcast_cvar,
}
use cs58final_project.Sync.Tables.{
  lock_table, cvar_table, with_locks, with_cvars, new_lock, new_cvar, delete_lock, delete_cvar,
}

abbrev pub status : Bool → ℕ
status done = if done then success else error

abbrev pub curr : Sync → ℕ
curr s = s.sched.running_proc

-- `FullContextSwitch(curr_proc, get_next_process())`
abbrev pub block : Sync → Sync
block s = record s { sched = switch_to_next s.sched }

-- `Acquire_Impl` and `SemDown_Impl` differ in the flag of the identifier that they accept.
pub acquire_call : Ids.Flag → ℕ → Sync → ℕ × Sync
acquire_call flag r0 s =
    let (r, s') = acquire (Ids.get_id r0) (curr s) false s in
    if not (Ids.is_id flag r0)
    then (error, s)
    else elim r [ failed ↦ (error, s') | acquired ↦ (success, s') | need ↦ (success, block s') ]

abbrev pub acquire_impl : ℕ → Sync → ℕ × Sync
acquire_impl r0 s = acquire_call Ids.lock r0 s

abbrev pub sem_down_impl : ℕ → Sync → ℕ × Sync
sem_down_impl r0 s = acquire_call Ids.sem r0 s

-- `Release_Impl` and `SemUp_Impl`
pub release_call : Ids.Flag → ℕ → Sync → ℕ × Sync
release_call flag r0 s =
    let (done, s') = release (Ids.get_id r0) (curr s) false s in
    if not (Ids.is_id flag r0) then (error, s) else (status done, s')

abbrev pub release_impl : ℕ → Sync → ℕ × Sync
release_impl r0 s = release_call Ids.lock r0 s

abbrev pub sem_up_impl : ℕ → Sync → ℕ × Sync
sem_up_impl r0 s = release_call Ids.sem r0 s

-- The second component is the identifier that is stored through the pointer in register 0.
pub lock_init_impl : Bool → Bool → ℕ → Sync → ℕ × Option ℕ × Sync
lock_init_impl allocated got_pids r0 s =
    let (made, t) = new_lock allocated got_pids 1 (lock_table s) in
    if r0 == 0 then (error, none, s) else elim made [
      | none ↦ (error, none, with_locks s t)
      | some i ↦ (success, some (Ids.create_id Ids.lock i), with_locks s t)
    ]

-- `cap < 1` is zero or negative.
pub sem_init_impl : Bool → Bool → ℕ → ℕ → Sync → ℕ × Option ℕ × Sync
sem_init_impl allocated got_pids r0 r1 s =
    let (made, t) = new_lock allocated got_pids r1 (lock_table s) in
    if r0 == 0 || (r1 == 0 || is_negative r1) then (error, none, s) else elim made [
      | none ↦ (error, none, with_locks s t)
      | some i ↦ (success, some (Ids.create_id Ids.sem i), with_locks s t)
    ]

pub cvar_init_impl : Bool → ℕ → Sync → ℕ × Option ℕ × Sync
cvar_init_impl allocated r0 s =
    let (made, t) = new_cvar allocated (cvar_table s) in
    if r0 == 0 then (error, none, s) else elim made [
      | none ↦ (error, none, with_cvars s t)
      | some i ↦ (success, some (Ids.create_id Ids.cvar i), with_cvars s t)
    ]

pub cvar_wait_impl : ℕ → ℕ → Sync → ℕ × Sync
cvar_wait_impl r0 r1 s =
    let (done, s') = wait_cvar (Ids.get_id r0) (Ids.get_id r1) (curr s) s in
    if not (Ids.is_id Ids.cvar r0) || not (Ids.is_id Ids.lock r1)
    then (error, s)
    else if done
    then (success, block s')
    else (error, s')

pub cvar_signal_impl : ℕ → Sync → ℕ × Sync
cvar_signal_impl r0 s =
    let (done, s') = signal_cvar (Ids.get_id r0) s in
    if not (Ids.is_id Ids.cvar r0) then (error, s) else (status done, s')

pub cvar_broadcast_impl : ℕ → Sync → ℕ × Sync
cvar_broadcast_impl r0 s =
    let (done, s') = broadcast_cvar (Ids.get_id r0) s in
    if not (Ids.is_id Ids.cvar r0) then (error, s) else (status done, s')

-- The kind of the identifier decides which table is asked.
pub reclaim_impl : Bool → ℕ → Sync → Pipes → ℕ × Sync × Pipes
reclaim_impl allocated r0 s pipes =
    let i = Ids.get_id r0 in
    let (lock_gone, ls) = delete_lock allocated i (lock_table s) in
    let (pipe_gone, ps) = pipe_reclaim pipes i in
    let (cvar_gone, cs) = delete_cvar allocated i (cvar_table s) in
    if Ids.is_id Ids.lock r0 || Ids.is_id Ids.sem r0
    then (status lock_gone, with_locks s ls, pipes)
    else if Ids.is_id Ids.pipe r0
    then (status pipe_gone, s, ps)
    else if Ids.is_id Ids.cvar r0
    then (status cvar_gone, with_cvars s cs, pipes)
    else (error, s, pipes)
