-- ===== src/Tty/Advance.antt =====
-- One trap of a terminal with an owner: the streams stay the same, and something is done.
use mathlib.Core.List.{append_assoc, append-nil}
use cs58final_project.Prelude.{
  ℕ, ◌+◌, ◌≤◌, ◌<◌, ◌≡◌, refl, sym, ap, ◌∙◌, true, false, arith, none, some, List, [], ◌∷◌, ◌++◌,
  ltb, ◌==◌, length, length-append, Bool-cases, ◌⊎◌, inl, inr,
}
use cs58final_project.Prelude.Run.{ok}
use cs58final_project.Sched.{schedule_process}
use cs58final_project.Sched.Queues.{NoneIdle, main_queue-schedule, idle_proc-schedule}
use cs58final_project.Tty.{Tty, TtySys, count_chunk}
use cs58final_project.Tty.Waiting.{IsValid}
use cs58final_project.Tty.Streams.{output, to_send, stream}
use cs58final_project.Tty.Chunks.{
  started, start_chunk-started, started-IsValid, started-stream_other, started-longer,
}
use cs58final_project.Tty.Done.{
  sent, counted, paused, freed, paused-Begins, paused-stream, stream-paused, finish-last,
  finish-next, last-IsValid, last-stream, stream-freed_elsewhere, next-Begins, next-stream,
}

-- the owner and the writers behind it, in the order in which they are served
abbrev pub line : Tty → List ℕ
line u = elim u.tx_owner [ none ↦ u.writers | some p ↦ p ∷ u.writers ]

-- what is left to do for terminal `i`
pub work : ℕ → TtySys → ℕ
work i k = length (to_send k.sched.procs (k.ttys i)) + length (k.ttys i).writers

-- What a trap does for terminal `i`: the streams stay the same, the processes served become ready
-- in the order of the line, and something is done.
pub record Advance (max_line i : ℕ) (k k' : TtySys) : Type 0 where
  pub valid : IsValid max_line k'
  pub streams : (j : ℕ) → stream j k' ≡ stream j k
  pub idle : k'.sched.idle_proc ≡ k.sched.idle_proc
  pub queue : k'.sched.main_queue ++ line (k'.ttys i) ≡ k.sched.main_queue ++ line (k.ttys i)
  pub none_idle : NoneIdle k'.sched.idle_proc (line (k'.ttys i))
  pub progress : ((k'.ttys i).tx_owner ≡ none) ⊎ (work i k' < work i k)

stream-length :
    (i : ℕ) (k k' : TtySys)
    → stream i k' ≡ stream i k
    → length (output i k'.log) + length (to_send k'.sched.procs (k'.ttys i))
      ≡ length (output i k.log) + length (to_send k.sched.procs (k.ttys i))
unfolding stream
stream-length i k k' e =
    sym (length-append (output i k'.log) (to_send k'.sched.procs (k'.ttys i)))
    ∙ ap length e
    ∙ length-append (output i k.log) (to_send k.sched.procs (k.ttys i))

work_less :
    (i : ℕ) (k k' : TtySys)
    → stream i k' ≡ stream i k
    → length (k'.ttys i).writers ≤ length (k.ttys i).writers
    → length (output i k.log) < length (output i k'.log)
    → work i k' < work i k
unfolding work
work_less i k k' e fewer longer = omega (arith, stream-length i k k' e, fewer, longer)

NoneIdle-same : (idle idle' : ℕ) (ps : List ℕ) → idle' ≡ idle → NoneIdle idle ps → NoneIdle idle' ps
NoneIdle-same idle idle' ps e n = rw e n

all_streams :
    (i : ℕ) (k k' : TtySys)
    → stream i k' ≡ stream i k
    → ((j : ℕ) → (j == i) ≡ false → stream j k' ≡ stream j k)
    → (j : ℕ) → stream j k' ≡ stream j k
all_streams i k k' here others j = elim (Bool-cases (j == i)) [
  | inl same ↦ let at : j ≡ i = ground arith in rw at here
  | inr other ↦ others j other
]

pub list-cases {ℓ} :
    {A : Type ℓ} (xs : List A) → (xs ≡ []) ⊎ ((y : A) × (ys : List A) × (xs ≡ y ∷ ys))
list-cases [] = inl refl
list-cases (x ∷ xs) = inr (x, xs, refl)

module _ (max_line i p : ℕ) (k : TtySys) (v : IsValid max_line k)
    (own : (k.ttys i).tx_owner ≡ some p) (room : 0 < max_line)
    (busy : NoneIdle k.sched.idle_proc (line (k.ttys i))) where
  self : (i == i) ≡ true
  self = ground arith

  line-owner : line (k.ttys i) ≡ p ∷ (k.ttys i).writers
  line-owner = rw own

  more-Advance :
      sent max_line i p k v own < (k.sched.procs p).io_total
      → Advance max_line i k (started max_line i p (paused max_line i p k v own))
  more-Advance more =
      let k1 = paused max_line i p k v own in
      let k' = started max_line i p k1 in
      let b = paused-Begins max_line i p k v own more in
      let here = paused-stream max_line i p k v own more in
      let fewer : work i k' < work i k =
        work_less i k k' here (rw self (omega arith)) (started-longer max_line i p k1 b room) in
      record {
        valid = started-IsValid max_line i p k1 b;
        streams = all_streams i k k' here (λ j other.
            started-stream_other max_line i p k1 b j other
            ∙ stream-paused max_line i p k v own j other);
        idle = refl;
        queue = rw self;
        none_idle = rw self busy;
        progress = inr fewer;
      }

  -- the line behind the owner
  behind_idle : NoneIdle k.sched.idle_proc (p ∷ (k.ttys i).writers)
  behind_idle = rw line-owner at busy

  last-Advance :
      (k.sched.procs p).io_total ≤ sent max_line i p k v own
      → (k.ttys i).writers ≡ []
      → Advance max_line i k (freed max_line i p k v own none [])
  last-Advance over e =
      let k' = freed max_line i p k v own none [] in
      let s = counted max_line i p k v own in
      record {
        valid = last-IsValid max_line i p k v own;
        streams =
            all_streams i k k' (last-stream max_line i p k v own over e)
              (stream-freed_elsewhere max_line i p k v own none []);
        idle = idle_proc-schedule p s;
        queue = rw (
          self,
          line-owner,
          e,
          main_queue-schedule p s behind_idle.0,
          append-nil (k.sched.main_queue ++ p ∷ []),
        );
        none_idle = rw self tt;
        progress = inl (rw self);
      }

  next-Advance :
      (q : ℕ) (ws : List ℕ)
      → (k.sched.procs p).io_total ≤ sent max_line i p k v own
      → (k.ttys i).writers ≡ q ∷ ws
      → Advance max_line i k (started max_line i q (freed max_line i p k v own (some q) ws))
  next-Advance q ws over e =
      let k1 = freed max_line i p k v own (some q) ws in
      let k' = started max_line i q k1 in
      let s = counted max_line i p k v own in
      let b = next-Begins max_line i p k v own q ws e in
      let here = next-stream max_line i p k v own q ws e over in
      let fewer : work i k' < work i k =
        work_less i k k' here (rw (self, e) (omega arith))
          (started-longer max_line i q k1 b room) in
      record {
        valid = started-IsValid max_line i q k1 b;
        streams = all_streams i k k' here (λ j other.
            started-stream_other max_line i q k1 b j other
            ∙ stream-freed_elsewhere max_line i p k v own (some q) ws j other);
        idle = idle_proc-schedule p s;
        queue =
            rw (self, line-owner, e, main_queue-schedule p s behind_idle.0)
              (append_assoc k.sched.main_queue (p ∷ []) (q ∷ ws));
        none_idle = rw self (
            NoneIdle-same s.idle_proc (schedule_process p s).idle_proc (q ∷ ws)
              (idle_proc-schedule p s) (rw e at behind_idle.1));
        progress = inr fewer;
      }

  pub count_chunk-Advance :
      (k' : TtySys) × (count_chunk max_line i p k ≡ ok k') × Advance max_line i k k'
  unfolding count_chunk
  count_chunk-Advance =
      elim (Bool-cases (ltb (sent max_line i p k v own) (k.sched.procs p).io_total)) [
        | inl more ↦
            let lt : sent max_line i p k v own < (k.sched.procs p).io_total = ground arith in
            let k1 = paused max_line i p k v own in
            (
              started max_line i p k1,
              rw more (start_chunk-started max_line i p k1 (paused-Begins max_line i p k v own lt)),
              more-Advance lt,
            )
        | inr finished ↦
            let over : (k.sched.procs p).io_total ≤ sent max_line i p k v own = ground arith in
            elim (list-cases (k.ttys i).writers) [
              | inl e ↦ (
                freed max_line i p k v own none [],
                rw finished (finish-last max_line i p k v own e),
                last-Advance over e,
              )
              | inr (q, ws, e) ↦
                  let k1 = freed max_line i p k v own (some q) ws in
                  (
                    started max_line i q k1,
                    rw finished (
                        finish-next max_line i p k v own q ws e
                        ∙ start_chunk-started max_line i q k1
                            (next-Begins max_line i p k v own q ws e)),
                    next-Advance q ws over e,
                  )
            ]
      ]
