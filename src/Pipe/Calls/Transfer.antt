-- ===== src/Pipe/Calls/Transfer.antt =====
-- What PipeWrite_Impl and PipeRead_Impl do to the bytes of a pipe and to its readers.
use cs58final_project.Prelude.{
  ℕ, zero, suc, ◌+◌, ◌<◌, ◌≡◌, refl, ap, ◌∙◌, Bool, true, false, ◌||◌, arith, some, List, [], ◌∷◌,
  ◌++◌, leb, ◌==◌, length, take, drop, min,
}
use cs58final_project.Prelude.Run.{ok}
use cs58final_project.Ids
use cs58final_project.Machine.{error, bytes_at}
use cs58final_project.Sched.{Sched, schedule_process}
use cs58final_project.Sched.Queues.{schedule_all}
use cs58final_project.Pipe.{Pipe, get_pipe, read_bytes, append_bytes}
use cs58final_project.Pipe.Ring.{contents, IsRing, append_bytes_lem, read_bytes_lem}
use cs58final_project.Pipe.Grow.{ensure_capacity_lem}
use cs58final_project.Pipe.Calls.{
  PipeSys, returned, with_pipe, wake_readers, bad_args, write_to, pipe_write, read_turn, pipe_read,
}

pub wake_readers-eq : (ps : List ℕ) (s : Sched) → wake_readers ps s ≡ schedule_all ps s
unfolding wake_readers
wake_readers-eq [] s = refl
wake_readers-eq (p ∷ ps) s = wake_readers-eq ps (schedule_process p s)

pub length-bytes_at : (memory : ℕ → ℕ) (a n : ℕ) → length (bytes_at memory a n) ≡ n
length-bytes_at memory a zero = refl
length-bytes_at memory a (suc n) = ap suc (length-bytes_at memory (a + 1) n)

-- A call of process-owned arguments: an identifier of the pipe `p`, a buffer, a length above 0.
pub record IsCall (k : PipeSys) (r0 r1 r2 : ℕ) (p : Pipe) : Type 0 where
  pub good : bad_args r0 r1 r2 ≡ false
  pub some_bytes : (r2 == 0) ≡ false
  pub found : get_pipe k.table (Ids.get_id r0) ≡ some p

-- the state after `p` became `p'` and its readers became ready
abbrev pub written : PipeSys → ℕ → Pipe → Pipe → PipeSys
written k i p p' = record { table = with_pipe k.table i p'; sched = wake_readers p.readers k.sched }

-- What a successful write leaves of the pipe `p`.
pub record Wrote (p : Pipe) (bytes : List ℕ) (p' : Pipe) : Type 0 where
  pub ring : IsRing p'
  pub holds : contents p' ≡ contents p ++ bytes
  pub woken : p'.readers ≡ []

module _ (k : PipeSys) (r0 r1 r2 : ℕ) (p : Pipe) (call : IsCall k r0 r1 r2 p) (v : IsRing p) where
  write_run :
      (allocated : Bool) (memory : ℕ → ℕ)
      → pipe_write allocated memory r0 r1 r2 k
        ≡ write_to allocated (bytes_at memory r1 r2) r2 (Ids.get_id r0) p k
  unfolding pipe_write
  write_run allocated memory = rw (call.good, call.some_bytes, call.found)

  pub read_run : pipe_read r0 r1 r2 k ≡ read_turn (Ids.get_id r0) r2 p k
  unfolding pipe_read
  read_run = rw (call.good, call.some_bytes, call.found)

  -- In a well-formed call on a valid pipe, if the bytes fit or there is memory, a write returns
  -- their number, appends exactly the bytes of the caller's buffer to the pipe, which stays valid,
  -- and makes its blocked readers ready.
  pub pipe_write_lem :
      (allocated : Bool) (memory : ℕ → ℕ)
      → (leb (p.len + r2) p.cap || allocated) ≡ true
      → (p' : Pipe) × (pipe_write allocated memory r0 r1 r2 k
          ≡ ok (r2, written k (Ids.get_id r0) p p'))
        × Wrote p (bytes_at memory r1 r2) p'
  unfolding write_to
  pipe_write_lem allocated memory room =
      let bytes : List ℕ = bytes_at memory r1 r2 in
      let (p1, run, ring, same, (len, readers), enough, growth) =
        ensure_capacity_lem allocated p (p.len + r2) v in
      let size = length-bytes_at memory r1 r2 in
      let fits = enough room in
      let (valid, holds, kept) = append_bytes_lem bytes p1 ring (omega arith) in
      (
        record (append_bytes p1 bytes) { readers = [] },
        rw (write_run allocated memory, run, room),
        record {
          ring = record {
            used = valid.used;
            storage = valid.storage;
            some_room = valid.some_room;
            head_in = valid.head_in;
            len_in = valid.len_in;
          };
          holds = holds ∙ ap (λ (q : List ℕ). q ++ bytes) same;
          woken = refl;
        },
      )

  -- In a well-formed call on a valid pipe, if the bytes do not fit and there is no memory, a write
  -- returns ERROR and changes nothing.
  pub pipe_write-no_memory :
      (memory : ℕ → ℕ)
      → leb (p.len + r2) p.cap ≡ false
      → pipe_write false memory r0 r1 r2 k ≡ ok (error, k)
  unfolding write_to
  pipe_write-no_memory memory full =
      let (p1, run, ring, same, kept, enough, growth) =
        ensure_capacity_lem false p (p.len + r2) v in
      rw (write_run false memory, run, full)

  -- In a well-formed call on a valid pipe that holds bytes, a read returns the oldest ones, up to
  -- the length asked for, with their number, and leaves the rest in the pipe, which stays valid.
  pub pipe_read_lem :
      0 < p.len
      → let n = min p.len r2 in
        (p' : Pipe) × (pipe_read r0 r1 r2 k
          ≡ returned n
              (take n (contents p))
              (record k { table = with_pipe k.table (Ids.get_id r0) p' }))
        × IsRing p'
        × (contents p' ≡ drop n (contents p))
  unfolding read_turn
  pipe_read_lem pos =
      let (count, out, left, ring, readers) = read_bytes_lem p r2 v in
      (
        (read_bytes p r2).2,
        (let more : (p.len == 0) ≡ false = ground arith in rw (read_run, more, out, count)),
        ring,
        left ∙ ap (λ (t : ℕ). drop t (contents p)) count,
      )
