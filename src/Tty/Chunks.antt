-- ===== src/Tty/Chunks.antt =====
-- start_chunk: the terminal gets the next bytes of its owner, and no more than a line of them.
use native.Mathlib.Numerals.{unary_clauses}
use mathlib.Core.List.{append_assoc, append-nil}
use cs58final_project.Prelude.{
  ℕ, zero, suc, ◌+◌, ◌≤◌, ◌<◌, ◌≡◌, refl, sym, ap, ◌∙◌, true, false, arith, some, List, [], ◌∷◌,
  ◌++◌, ◌==◌, if◌then◌else◌, length, take, drop, length-take, length-drop, length-append,
  take-append-drop,
}
use cs58final_project.Prelude.Run.{ok}
use cs58final_project.Process.{Pcb}
use cs58final_project.Tty.{Tty, TtySys, start_chunk, next_chunk}
use cs58final_project.Tty.Waiting.{
  Serves, Serves-same, put-all, IsValid, Sends, Bounded, Bounded-snoc, chunk_of,
}
use cs58final_project.Tty.Streams.{output, output-snoc, buffers, unsent-some, stream}

pub drop-add {ℓ} : {A : Type ℓ} (a b : ℕ) (xs : List A) → drop (a + b) xs ≡ drop b (drop a xs)
drop-add zero b xs = let e : 0 + b ≡ b = omega arith in rw e
drop-add (suc a) zero [] = simp unary_clauses
drop-add (suc a) (suc b) [] = simp unary_clauses
drop-add (suc a) b (x ∷ xs) =
    let e : suc a + b ≡ suc (a + b) = omega arith in rw e (drop-add a b xs)

pub drop-all {ℓ} : {A : Type ℓ} (n : ℕ) (xs : List A) → length xs ≤ n → drop n xs ≡ []
drop-all zero [] h = refl
drop-all zero (x ∷ xs) h = absurd (omega arith)
drop-all (suc n) [] h = refl
drop-all (suc n) (x ∷ xs) h = drop-all n xs (omega arith)

join {ℓ} : {A : Type ℓ} (o a b c d : List A) → a ++ b ≡ d → (o ++ a) ++ (b ++ c) ≡ o ++ (d ++ c)
join o a b c d e =
    append_assoc o a (b ++ c)
    ∙ ap (λ (x : List _). o ++ x) (sym (append_assoc a b c) ∙ ap (λ (x : List _). x ++ c) e)

module _ (max_line i p : ℕ) (k : TtySys) where
  abbrev pcb : Pcb
  pcb = k.sched.procs p

  abbrev pub chunk : List ℕ
  chunk = take (chunk_of max_line pcb) (drop pcb.io_sent pcb.io_kbuf)

  -- The state after the next chunk of owner `p` has been started.
  abbrev pub started : TtySys
  started = record k {
    ttys = λ j.
        if j == i
        then record (k.ttys i) { tx_last_chunk = chunk_of max_line pcb; transmitting = true }
        else k.ttys j;
    log = k.log ++ record { tty_id = i; bytes = chunk } ∷ [];
  }

  -- what holds before a chunk is started on terminal `i`, which is not transmitting
  pub record Begins : Type 0 where
    pub serves : (j : ℕ) → Serves j (k.ttys j) k.sched.procs
    pub others : (j : ℕ) → (j == i) ≡ false → Sends max_line (k.ttys j) k.sched.procs
    pub bounded : Bounded max_line k.log
    pub owner : (k.ttys i).tx_owner ≡ some p

  -- what the owner of terminal `i` and its writers have to send, before the chunk
  abbrev pub ahead : List ℕ
  ahead = drop pcb.io_sent pcb.io_kbuf ++ buffers k.sched.procs (k.ttys i).writers

  module _ (b : Begins) where
    start_chunk-next : start_chunk max_line i k ≡ ok (next_chunk max_line i p k)
    unfolding start_chunk
    start_chunk-next = rw (start_chunk, b.owner)

    next_chunk-started : next_chunk max_line i p k ≡ started
    unfolding next_chunk
    next_chunk-started = refl

    pub start_chunk-started : start_chunk max_line i k ≡ ok started
    start_chunk-started = start_chunk-next ∙ ap ok next_chunk-started

    abbrev sending : Tty
    sending = record (k.ttys i) { tx_last_chunk = chunk_of max_line pcb; transmitting = true }

    started-Serves : (j : ℕ) → Serves j (started.ttys j) started.sched.procs
    started-Serves =
        put-all (λ j t. Serves j t k.sched.procs) k i sending
          (Serves-same i (k.ttys i) sending k.sched.procs k.sched.procs refl refl
            (λ q w. record { kbuf = refl; total = refl; sent = refl; tty = refl }) (b.serves i))
          (λ j other. b.serves j)

    pub started-IsValid : IsValid max_line started
    started-IsValid = record {
      serves = started-Serves;
      sends =
          put-all (λ j t. Sends max_line t k.sched.procs) k i sending
            (record {
              chunk = λ q h.
                  let same : p ≡ q = ground (arith, b.owner, h) in
                  ap (λ (x : ℕ). chunk_of max_line (k.sched.procs x)) same;
              busy = λ q h. refl;
            })
            b.others;
      bounded =
          Bounded-snoc max_line k.log (record { tty_id = i; bytes = chunk }) b.bounded
            (ground (arith, length-take (chunk_of max_line pcb) (drop pcb.io_sent pcb.io_kbuf)));
    }

    pub started-output :
        (j : ℕ) → output j started.log ≡ output j k.log ++ (if i == j then chunk else [])
    started-output j = output-snoc j k.log (record { tty_id = i; bytes = chunk })

    pub started-stream : stream i started ≡ output i k.log ++ ahead
    unfolding stream
    started-stream =
        let bufs = buffers k.sched.procs (k.ttys i).writers in
        let c = chunk_of max_line pcb in
        let t : Tty = record (k.ttys i) { tx_last_chunk = c; transmitting = true } in
        let here : (i == i) ≡ true = ground arith in
        let out = started-output i in
        let rest = unsent-some k.sched.procs t p b.owner in
        let split : chunk ++ drop (pcb.io_sent + c) pcb.io_kbuf ≡ drop pcb.io_sent pcb.io_kbuf =
          rw (drop-add pcb.io_sent c pcb.io_kbuf)
            (take-append-drop c (drop pcb.io_sent pcb.io_kbuf)) in
        rw (out, here, rest)
          (join (output i k.log) chunk (drop (pcb.io_sent + c) pcb.io_kbuf) bufs
            (drop pcb.io_sent pcb.io_kbuf) split)

    pub started-stream_other : (j : ℕ) → (j == i) ≡ false → stream j started ≡ stream j k
    unfolding stream
    started-stream_other j other =
        let elsewhere : (i == j) ≡ false = ground arith in
        let out = started-output j in rw (out, elsewhere, other, append-nil (output j k.log))

    -- The terminal gets at least one byte.
    pub started-longer : 0 < max_line → length (output i k.log) < length (output i started.log)
    started-longer room =
        let self : (i == i) ≡ true = ground arith in
        let out : output i started.log ≡ output i k.log ++ chunk = rw self at (started-output i) in
        let d = (b.serves i).owner p b.owner in
        let size = length-take (chunk_of max_line pcb) (drop pcb.io_sent pcb.io_kbuf) in
        let rest = length-drop pcb.io_sent pcb.io_kbuf in
        let some_bytes : 0 < length chunk = ground (arith, size, rest, d.total, d.more) in
        rw (out, length-append (output i k.log) chunk) (omega (arith, some_bytes))
