-- ===== src/Tty/Wake.antt =====
-- tty_receive_done and the readers: who gets a line that has come.
use cs58final_project.Prelude.{
  ℕ, zero, suc, ◌+◌, ◌≤◌, ◌<◌, ◌≡◌, refl, sym, ap, ◌∙◌, true, false, arith, List, [], ◌∷◌, ◌++◌,
  leb, ◌==◌, length, take, min, Bool-cases, ◌⊎◌, inl, inr,
}
use cs58final_project.Process.{Pcb}
use cs58final_project.Sched.{schedule_process}
use cs58final_project.Sched.States.{schedule_process-ButState}
use cs58final_project.Tty.{
  RxLine, Tty, TtySys, put, bad_args, take_bytes, read_count, consume_into_user, kernel_tty_read,
  kernel_tty_read_resume, add_line, tty_receive_done, returned,
}
use cs58final_project.Tty.Advance.{list-cases}
use cs58final_project.Tty.Deliver.{out_of_range}
use cs58final_project.Tty.Lines.{
  unread, unread-snoc, AreLines, AreLines-snoc, IsLine, ended, kernel_tty_read-lines,
}

take-nil {ℓ} : {A : Type ℓ} (n : ℕ) → take {A = A} n [] ≡ []
take-nil zero = refl
take-nil (suc n) = refl

take-min {ℓ} : {A : Type ℓ} (n : ℕ) (xs : List A) → take (min (length xs) n) xs ≡ take n xs
take-min n [] = let e : min 0 n ≡ 0 = omega arith in rw e (sym (take-nil n))
take-min zero (x ∷ xs) = let e : min (suc (length xs)) 0 ≡ 0 = omega arith in rw e
take-min (suc n) (x ∷ xs) =
    let e : min (suc (length xs)) (suc n) ≡ suc (min (length xs) n) = omega arith in
    rw e (ap (λ (ys : List _). x ∷ ys) (take-min n xs))

take-all {ℓ} : {A : Type ℓ} (xs : List A) → take (length xs) xs ≡ xs
take-all [] = refl
take-all (x ∷ xs) = ap (λ (ys : List _). x ∷ ys) (take-all xs)

module _ (num_terminals code : ℕ) (received : List ℕ) (k : TtySys) where
  abbrev fresh : RxLine
  fresh = record { buf = received; len = length received; off = 0 }

  abbrev t : Tty
  t = k.ttys code

  -- What a line does to terminal `code`: its bytes come behind those that were unread, and the first reader is ready.
  pub record Received (k' : TtySys) : Type 0 where
    pub lines : AreLines (k'.ttys code).rx
    pub bytes : unread (k'.ttys code).rx ≡ unread t.rx ++ received
    pub woken :
        ((t.readers ≡ []) × (k'.sched ≡ k.sched) × ((k'.ttys code).readers ≡ []))
        ⊎ ((p : ℕ) × (rest : List ℕ) × (t.readers ≡ p ∷ rest)
            × (k'.sched ≡ schedule_process p k.sched)
            × ((k'.ttys code).readers ≡ rest))
    pub others : (j : ℕ) → (j == code) ≡ false → k'.ttys j ≡ k.ttys j

  self : (code == code) ≡ true
  self = ground arith

  count-fresh : (len : ℕ) → read_count fresh len ≡ min (length received) len
  unfolding read_count
  count-fresh len = ground arith

  take_fresh : (u : Tty) (n : ℕ) → (u' : Tty) × (take_bytes u fresh [] n ≡ (n, take n received, u'))
  unfolding take_bytes
  take_fresh u n = elim (Bool-cases (leb (length received) (0 + n))) [
    | inl used ↦ (record u { rx = [] }, rw used)
    | inr more ↦ (record u { rx = record fresh { off = 0 + n } ∷ [] }, rw more)
  ]

  -- what a reader gets of the line alone
  consume_fresh :
      (u : Tty) (len : ℕ)
      → (u' : Tty) × (consume_into_user (record u { rx = fresh ∷ [] }) len
          ≡ (min (length received) len, take len received, u'))
  unfolding consume_into_user
  consume_fresh u len =
      let (u', run) = take_fresh (record u { rx = fresh ∷ [] }) (read_count fresh len) in
      (
        u',
        run
            ∙ ap (λ (n : ℕ). (n, take n received, u')) (count-fresh len)
            ∙ ap (λ (bs : List ℕ). (min (length received) len, bs, u')) (take-min len received),
      )

  consume_whole :
      (u : Tty) (len : ℕ)
      → length received ≤ len
      → consume_into_user (record u { rx = fresh ∷ [] }) len
        ≡ (length received, received, record u { rx = [] })
  unfolding consume_into_user take_bytes
  consume_whole u len fits =
      let all : read_count fresh len ≡ length received = omega (arith, count-fresh len, fits) in
      let used : leb (length received) (0 + length received) ≡ true = ground arith in
      let whole = take-all received in rw (all, used, whole)

  -- the terminal with the line, and other readers
  abbrev pub with_line : List ℕ → Tty
  with_line rs = record t { rx = t.rx ++ fresh ∷ []; readers = rs }

  add_line-none : t.readers ≡ [] → add_line code t fresh k ≡ put k code (with_line [])
  unfolding add_line
  add_line-none e = ap (λ (rs : List ℕ). add_line code (record t { readers = rs }) fresh k) e

  add_line-some :
      (p : ℕ) (rest : List ℕ)
      → t.readers ≡ p ∷ rest
      → add_line code t fresh k
        ≡ record (put k code (with_line rest)) { sched = schedule_process p k.sched }
  unfolding add_line
  add_line-some p rest e = ap (λ (rs : List ℕ). add_line code (record t { readers = rs }) fresh k) e

  module _ (good : out_of_range num_terminals code ≡ false) where
    receive_run : tty_receive_done num_terminals true code received k ≡ add_line code t fresh k
    unfolding tty_receive_done
    receive_run = rw good

    -- A line of a terminal whose lines are well formed: its bytes come behind those that were unread, the first of the readers
    -- that wait becomes ready, and the other terminals stay as they are.
    pub tty_receive_done_lem :
        AreLines t.rx
        → (k' : TtySys) × (tty_receive_done num_terminals true code received k ≡ k') × Received k'
    tty_receive_done_lem lines =
        let l : IsLine fresh = record { size = refl; inside = omega arith } in
        let snoc = unread-snoc t.rx fresh in
        let more = AreLines-snoc t.rx fresh lines l in
        elim (list-cases t.readers) [
          | inl e ↦ (
            put k code (with_line []),
            receive_run ∙ add_line-none e,
            record {
              lines = rw self more;
              bytes = rw self snoc;
              woken = inl (e, refl, rw self);
              others = λ j h. rw h;
            },
          )
          | inr (p, rest, e) ↦ (
            record (put k code (with_line rest)) { sched = schedule_process p k.sched },
            receive_run ∙ add_line-some p rest e,
            record {
              lines = rw self more;
              bytes = rw self snoc;
              woken = inr (p, rest, e, refl, rw self);
              others = λ j h. rw h;
            },
          )
        ]

    module _ (p : ℕ) (rest : List ℕ) (e : t.readers ≡ p ∷ rest) (empty : t.rx ≡ []) where
      -- the state behind the line
      abbrev came : TtySys
      came = record (put k code (record t { rx = fresh ∷ []; readers = rest })) {
        sched = schedule_process p k.sched;
      }

      receive_came : tty_receive_done num_terminals true code received k ≡ came
      receive_came =
          receive_run
          ∙ add_line-some p rest e
          ∙ ap
              (λ (ls : List RxLine).
                record (put k code (record t { rx = ls ++ fresh ∷ []; readers = rest })) {
                  sched = schedule_process p k.sched;
                })
              empty

      -- The first reader of a terminal without lines that is the next to run after a line came: it gets the bytes of
      -- the line, as many as it asked for.
      pub read_resumed :
          (k' : TtySys) × (kernel_tty_read_resume code p
              (tty_receive_done num_terminals true code received k)
            ≡ (
              min (length received) (k.sched.procs p).io_len,
              take (k.sched.procs p).io_len received,
              k',
            ))
      unfolding kernel_tty_read_resume
      read_resumed =
          let here : came.ttys code ≡ record t { rx = fresh ∷ []; readers = rest } = rw self in
          let (st, pcb) = schedule_process-ButState p k.sched p in
          let len : (came.sched.procs p).io_len ≡ (k.sched.procs p).io_len =
            ap (λ (x : Pcb). x.io_len) pcb in
          let (u', run) = consume_fresh (record t { readers = rest }) (k.sched.procs p).io_len in
          (put came code u', rw (receive_came, here, len, run))

      -- For a terminal without lines: if a line with bytes comes, and the running process, with arguments in range, reads the whole
      -- of it before the first of the readers that wait runs, then that reader's call returns 0 and stores nothing. It waits no longer: the readers of the terminal are those that stood behind it, no line is left, and what
      -- the line changed of the scheduler is that the reader was made ready.
      pub read_stolen :
          (r1 r2 : ℕ)
          → bad_args num_terminals code r1 r2 ≡ false
          → 0 < length received
          → length received ≤ r2
          → (k1 : TtySys) × (k2 : TtySys) × (kernel_tty_read num_terminals code r1 r2
                (tty_receive_done num_terminals true code received k)
              ≡ returned (length received) received k1)
            × (kernel_tty_read_resume code p k1 ≡ (0, [], k2))
            × ((k2.ttys code).readers ≡ rest)
            × ((k2.ttys code).rx ≡ [])
            × (k2.sched ≡ schedule_process p k.sched)
      unfolding kernel_tty_read kernel_tty_read_resume consume_into_user
      read_stolen r1 r2 fine some_bytes fits =
          let here : came.ttys code ≡ record t { rx = fresh ∷ []; readers = rest } = rw self in
          let whole = consume_whole (record t { readers = rest }) r2 fits in
          let more : (r2 == 0) ≡ false = ground arith in
          let u : Tty = record t { rx = []; readers = rest } in
          let k1 = put came code u in
          (
            k1,
            put k1 code u,
            ap (kernel_tty_read num_terminals code r1 r2) receive_came
                ∙ kernel_tty_read-lines num_terminals code r1 r2 came fresh [] fine more
                    (ap (λ (x : Tty). x.rx) here)
                ∙ ap (λ (x : Tty). ended num_terminals code r1 r2 came (consume_into_user x r2))
                    here
                ∙ ap (ended num_terminals code r1 r2 came) whole,
            rw self,
            rw self,
            rw self,
            refl,
          )
