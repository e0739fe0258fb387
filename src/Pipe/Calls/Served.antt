-- ===== src/Pipe/Calls/Served.antt =====
-- What PipeRead_Impl returns of what PipeWrite_Impl has written, with and without a wait between.
use cs58final_project.Prelude.{
  ℕ, ◌+◌, ◌≡◌, ◌≢◌, refl, ap, ◌∙◌, Bool, true, false, ◌||◌, arith, some, List, [], ◌∷◌, ◌++◌, leb,
  ◌==◌, length, take, length-append, min,
}
use cs58final_project.Prelude.Run.{ok}
use cs58final_project.Ids
use cs58final_project.Machine.{wait_and_switch, bytes_at}
use cs58final_project.Sched.Queues.{schedule_all}
use cs58final_project.Pipe.{linearize, Pipe, get_pipe, read_bytes}
use cs58final_project.Pipe.Ring.{contents, IsRing, read_bytes_lem, length-linearize}
use cs58final_project.Pipe.Table.{get_pipe-set}
use cs58final_project.Pipe.Calls.{
  PipeSys, returned, blocked, with_pipe, bad_args, pipe_write, read_turn, pipe_read,
  pipe_read_resume,
}
use cs58final_project.Pipe.Calls.Transfer.{
  IsCall, written, pipe_write_lem, pipe_read_lem, read_run, wake_readers-eq, length-bytes_at,
}

length-contents : (p : Pipe) → length (contents p) ≡ p.len
length-contents p = length-linearize p.buf p.cap p.head p.len

contents-empty : (p : Pipe) → p.len ≡ 0 → contents p ≡ []
contents-empty p e = rw e (unfold linearize in refl)

-- What is written to a valid pipe is read from it: after a well-formed write for which there is
-- room or memory, a well-formed read through any buffer returns the oldest bytes of what the pipe
-- held before followed by what was written, up to the length that is asked for.
pub read_after_write :
    (k : PipeSys) (r0 r1 r2 : ℕ) (p : Pipe) (allocated : Bool) (memory : ℕ → ℕ) (dest n : ℕ)
    → IsCall k r0 r1 r2 p
    → IsRing p
    → (leb (p.len + r2) p.cap || allocated) ≡ true
    → bad_args r0 dest n ≡ false
    → (n == 0) ≡ false
    → let m = min (p.len + r2) n in
      (k' : PipeSys) × (k'' : PipeSys) × (pipe_write allocated memory r0 r1 r2 k ≡ ok (r2, k'))
      × (pipe_read r0 dest n k' ≡ returned m (take m (contents p ++ bytes_at memory r1 r2)) k'')
read_after_write k r0 r1 r2 p allocated memory dest n call v room good some_n =
    let i : ℕ = Ids.get_id r0 in
    let bytes : List ℕ = bytes_at memory r1 r2 in
    let (p', run, w) = pipe_write_lem k r0 r1 r2 p call v allocated memory room in
    let k' : PipeSys = written k i p p' in
    let size : p'.len ≡ p.len + r2 = omega (
      arith,
      ap length w.holds,
      length-contents p',
      length-contents p,
      length-append (contents p) bytes,
      length-bytes_at memory r1 r2,
    ) in
    let found = get_pipe-set k.table i p' call.found w.ring.used in
    let again : IsCall k' r0 dest n p' = record {
      good = good;
      some_bytes = some_n;
      found = found;
    } in
    let nonzero : r2 ≢ 0 = ground (arith, call.some_bytes) in
    let (p'', out, ring, left) = pipe_read_lem k' r0 dest n p' again w.ring (omega arith) in
    let k'' : PipeSys = record k' { table = with_pipe k'.table i p'' } in
    let m : ℕ = min p'.len n in
    let all : List ℕ = contents p ++ bytes in
    (
      k',
      k'',
      run,
      out
          ∙ ap (λ (q : List ℕ). returned m (take m q) k'') w.holds
          ∙ ap (λ (t : ℕ). returned (min t n) (take (min t n) all) k'') size,
    )

resume_run :
    (k : PipeSys) (i n : ℕ) (p : Pipe)
    → get_pipe k.table i ≡ some p
    → IsRing p
    → (p.len == 0) ≡ false
    → pipe_read_resume i n k
      ≡ returned
          (min p.len n)
          (take (min p.len n) (contents p))
          (record k { table = with_pipe k.table i (read_bytes p n).2 })
unfolding pipe_read_resume read_turn
resume_run k i n p found v more =
    let (count, out, left, ring, readers) = read_bytes_lem p n v in
    rw (found, pipe_read_resume, more, out, count)

-- the state in which a reader of the empty pipe `p` waits
abbrev pub waiting_reader : PipeSys → ℕ → Pipe → PipeSys
waiting_reader k i p = record {
  table = with_pipe k.table i (record p { readers = p.readers ++ k.sched.running_proc ∷ [] });
  sched = wait_and_switch k.sched;
}

-- A well-formed read of a valid empty pipe blocks, behind the readers that wait already. If a
-- process then writes some bytes for which there is room or memory, all those readers become ready
-- in the order in which they came, and the read, resumed in the state that the write left, returns
-- the oldest of the bytes written, up to the length asked for.
pub blocked_read_served :
    (k : PipeSys) (r0 r1 n : ℕ) (p : Pipe) (allocated : Bool) (memory : ℕ → ℕ) (source len : ℕ)
    → IsCall k r0 r1 n p
    → IsRing p
    → p.len ≡ 0
    → bad_args r0 source len ≡ false
    → (len == 0) ≡ false
    → (leb len p.cap || allocated) ≡ true
    → let i = Ids.get_id r0 in
      let k1 = waiting_reader k i p in
      (k2 : PipeSys) × (k3 : PipeSys) × (pipe_read r0 r1 n k ≡ blocked k1)
      × (pipe_write allocated memory r0 source len k1 ≡ ok (len, k2))
      × (k2.sched ≡ schedule_all (p.readers ++ k.sched.running_proc ∷ []) k1.sched)
      × (pipe_read_resume i n k2
          ≡ returned (min len n) (take (min len n) (bytes_at memory source len)) k3)
unfolding read_turn
blocked_read_served k r0 r1 n p allocated memory source len call v empty good some_len room =
    let i : ℕ = Ids.get_id r0 in
    let bytes : List ℕ = bytes_at memory source len in
    let q : Pipe = record p { readers = p.readers ++ k.sched.running_proc ∷ [] } in
    let k1 : PipeSys = waiting_reader k i p in
    let ring : IsRing q = record {
      used = v.used;
      storage = v.storage;
      some_room = v.some_room;
      head_in = v.head_in;
      len_in = v.len_in;
    } in
    let write_call : IsCall k1 r0 source len q = record {
      good = good;
      some_bytes = some_len;
      found = get_pipe-set k.table i q call.found v.used;
    } in
    let room' : (leb (q.len + len) q.cap || allocated) ≡ true = ground arith in
    let (p', run, w) = pipe_write_lem k1 r0 source len q write_call ring allocated memory room' in
    let k2 : PipeSys = written k1 i q p' in
    let none_before : contents q ≡ [] = contents-empty q empty in
    let holds : contents p' ≡ bytes = w.holds ∙ ap (λ (l : List ℕ). l ++ bytes) none_before in
    let size : p'.len ≡ len =
      omega (arith, ap length holds, length-contents p', length-bytes_at memory source len) in
    let found = get_pipe-set k1.table i p' write_call.found w.ring.used in
    let more : (p'.len == 0) ≡ false = rw size some_len in
    let k3 : PipeSys = record k2 { table = with_pipe k2.table i (read_bytes p' n).2 } in
    let m : ℕ = min p'.len n in
    (
      k2,
      k3,
      read_run k r0 r1 n p call v ∙ ground arith,
      run,
      wake_readers-eq q.readers k1.sched,
      resume_run k2 i n p' found w.ring more
          ∙ ap (λ (l : List ℕ). returned m (take m l) k3) holds
          ∙ ap (λ (t : ℕ). returned (min t n) (take (min t n) bytes) k3) size,
    )
