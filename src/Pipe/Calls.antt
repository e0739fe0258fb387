-- ===== src/Pipe/Calls.antt =====
-- The system calls of pipe.c: PipeInit_Impl, PipeRead_Impl and PipeWrite_Impl. User memory is a
-- function from addresses to bytes; what a call writes there is returned.
pub mod Transfer
pub mod Served
use cs58final_project.Prelude.{
  ℕ, ◌+◌, ◌-◌, ◌^◌, Bool, true, false, not, ◌&&◌, ◌||◌, Option, none, some, List, [], ◌∷◌, ◌++◌,
  ltb, leb, ◌==◌, if◌then◌else◌, set,
}
use cs58final_project.Prelude.Run.{Run, ok, ◌>>=◌}
use cs58final_project.Ids
use cs58final_project.Machine.{error, success, is_negative, wait_and_switch, bytes_at}
use cs58final_project.Sched.{Sched, schedule_process}
use cs58final_project.Pipe.{
  Pipe, Pipes, ensure_capacity, append_bytes, read_bytes, get_pipe, new_pipe,
}

-- the pipes, and the scheduler that the calls share with the rest of the kernel
pub record PipeSys : Type 0 where
  pub table : Pipes
  pub sched : Sched

abbrev pub with_pipe : Pipes → ℕ → Pipe → Pipes
with_pipe t i p = record t { pipes = set t.pipes i p }

-- Register 0 after the call, and the identifier that is stored through the pointer.
pub pipe_init : ℕ → Bool → Bool → ℕ → Pipes → ℕ × Option ℕ × Pipes
pipe_init buffer_len grown buffer pipe_idp t =
    let (made, t') = new_pipe buffer_len grown buffer t in
    if pipe_idp == 0 then (error, none, t) else elim made [
      | none ↦ (error, none, t')
      | some i ↦ (success, some (Ids.create_id Ids.pipe i), t')
    ]

-- `wake_readers`: every blocked reader becomes ready, the first one first.
pub wake_readers : List ℕ → Sched → Sched
wake_readers [] s = s
wake_readers (p ∷ ps) s = wake_readers ps (schedule_process p s)

-- the arguments that both calls refuse
abbrev pub bad_args : ℕ → ℕ → ℕ → Bool
bad_args r0 r1 r2 = not (Ids.is_id Ids.pipe r0) || (r1 == 0 || is_negative r2)

-- The write to a pipe that was found; `len` is above 0.
pub write_to : Bool → List ℕ → ℕ → ℕ → Pipe → PipeSys → Run (ℕ × PipeSys)
write_to allocated bytes len i p k = ensure_capacity allocated p (p.len + len) >>= λ r.
    if r.0
    then ok (
      len,
      record {
        table = with_pipe k.table i (record (append_bytes r.1 bytes) { readers = [] });
        sched = wake_readers p.readers k.sched;
      },
    )
    else ok (error, k)

pub pipe_write : Bool → (ℕ → ℕ) → ℕ → ℕ → ℕ → PipeSys → Run (ℕ × PipeSys)
pipe_write allocated memory r0 r1 r2 k =
    if bad_args r0 r1 r2
    then ok (error, k)
    else if r2 == 0
    then ok (0, k)
    else elim (get_pipe k.table (Ids.get_id r0)) [
      | none ↦ ok (error, k)
      | some p ↦ write_to allocated (bytes_at memory r1 r2) r2 (Ids.get_id r0) p k
    ]

-- A read returns with register 0 and the bytes for the caller's buffer, or it has put the caller to
-- sleep and another process runs.
pub data ReadResult : Type 0 where
  returned : ℕ → List ℕ → PipeSys → ReadResult
  blocked : PipeSys → ReadResult

-- The test of the `while` and what follows it, for a pipe that was just looked up.
pub read_turn : ℕ → ℕ → Pipe → PipeSys → ReadResult
read_turn i len p k =
    let (count, bytes, p') = read_bytes p len in
    if p.len == 0
    then blocked (record {
      table = with_pipe k.table i (record p { readers = p.readers ++ k.sched.running_proc ∷ [] });
      sched = wait_and_switch k.sched;
    })
    else returned count bytes (record k { table = with_pipe k.table i p' })

pub pipe_read : ℕ → ℕ → ℕ → PipeSys → ReadResult
pipe_read r0 r1 r2 k =
    if bad_args r0 r1 r2
    then returned error [] k
    else if r2 == 0
    then returned 0 [] k
    else elim (get_pipe k.table (Ids.get_id r0)) [
      | none ↦ returned error [] k
      | some p ↦ read_turn (Ids.get_id r0) r2 p k
    ]

-- What a blocked reader of the pipe with index `i` does when it runs again: it looks the pipe up
-- anew, and goes round the `while`.
pub pipe_read_resume : ℕ → ℕ → PipeSys → ReadResult
pipe_read_resume i len k = elim (get_pipe k.table i) [
  | none ↦ returned error [] k
  | some p ↦ read_turn i len p k
]
