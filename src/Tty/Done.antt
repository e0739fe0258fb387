-- ===== src/Tty/Done.antt =====
-- tty_transmit_done for a terminal with an owner: the two ways it goes on.
use cs58final_project.Prelude.{
  ℕ, ◌+◌, ◌≤◌, ◌<◌, ◌≡◌, refl, sym, ap, ◌∙◌, true, false, arith, Option, none, some, List, [], ◌∷◌,
  ◌++◌, ◌==◌, if◌then◌else◌, drop, inl, inr,
}
use cs58final_project.Prelude.Arrays.{count, count-cons, count-nil}
use cs58final_project.Prelude.Run.{ok}
use cs58final_project.Process.{Store}
use cs58final_project.Sched.{Sched, schedule_process}
use cs58final_project.Tty.{Tty, TtySys, put, set_pcb, start_chunk, finish_owner}
use cs58final_project.Tty.Waiting.{
  Pending-same, SameJob, Waits, Serves, Serves-same, put-all, IsValid, Sends, Sends-same,
}
use cs58final_project.Tty.Streams.{
  output, buffers, buffers-nil, buffers-cons, buffers-same, unsent-none, unsent-some, to_send-same,
  stream, SameJob-trans, schedule_process-SameJobs,
}
use cs58final_project.Tty.Chunks.{drop-all, started, Begins, started-stream}

module _ (max_line i p : ℕ) (k : TtySys) (v : IsValid max_line k)
    (own : (k.ttys i).tx_owner ≡ some p) where
  abbrev pub t : Tty
  t = k.ttys i

  abbrev pub sent : ℕ
  sent = (k.sched.procs p).io_sent + t.tx_last_chunk

  -- the state with the chunk counted
  abbrev pub counted : Sched
  counted = set_pcb k.sched p (record (k.sched.procs p) { io_sent = sent })

  abbrev pub paused : TtySys
  paused = put (record k { sched = counted }) i (record t { transmitting = false })

  counted-same : (q : ℕ) → (q == p) ≡ false → SameJob (k.sched.procs q) (counted.procs q)
  counted-same q other = rw other (record { kbuf = refl; total = refl; sent = refl; tty = refl })

  -- No other terminal has the owner in its queue.
  elsewhere_same :
      (j : ℕ)
      → (j == i) ≡ false
      → (q : ℕ) → Waits (k.ttys j) q
      → SameJob (k.sched.procs q) (counted.procs q)
  elsewhere_same j other q w =
      let mine = (v.serves i).owner p own in
      counted-same q (elim w [
        | inl o ↦ ground (arith, mine.tty, ((v.serves j).owner q o).tty)
        | inr c ↦ ground (arith, mine.tty, ((v.serves j).queued q c).tty)
      ])

  queued_same : (q : ℕ) → 0 < count q t.writers → SameJob (k.sched.procs q) (counted.procs q)
  queued_same q c = counted-same q (ground (arith, (v.serves i).alone p own, c))

  elsewhere-Serves : (j : ℕ) → (j == i) ≡ false → Serves j (k.ttys j) counted.procs
  elsewhere-Serves j other =
      Serves-same j (k.ttys j) (k.ttys j) k.sched.procs counted.procs refl refl
        (elsewhere_same j other) (v.serves j)

  elsewhere-Sends : (j : ℕ) → (j == i) ≡ false → Sends max_line (k.ttys j) counted.procs
  elsewhere-Sends j other =
      Sends-same max_line (k.ttys j) k.sched.procs counted.procs (elsewhere_same j other)
        (v.sends j)

  pub paused-Begins : sent < (k.sched.procs p).io_total → Begins max_line i p paused
  paused-Begins more =
      let s = v.serves i in
      let mine = s.owner p own in
      record {
        serves =
            put-all (λ j u. Serves j u counted.procs) k i (record t { transmitting = false })
              (record {
                idle = s.idle;
                owner = λ q h.
                    let at : q ≡ p = ground (arith, own, h) in
                    let self : (p == p) ≡ true = ground arith in
                    rw (at, self) (record { tty = mine.tty; total = mine.total; more = more });
                alone = s.alone;
                queued = λ q h.
                    Pending-same i (k.sched.procs q) (counted.procs q) (queued_same q h)
                      (s.queued q h);
                fresh = λ q h. (queued_same q h).sent ∙ s.fresh q h;
                once = s.once;
              })
              elsewhere-Serves;
        others = λ j other. rw other (elsewhere-Sends j other);
        bounded = v.bounded;
        owner = rw own (ground (arith, own));
      }

  pub stream-paused : (j : ℕ) → (j == i) ≡ false → stream j paused ≡ stream j k
  unfolding stream
  stream-paused j other = rw other (
      ap (λ (bs : List ℕ). output j k.log ++ bs)
        (to_send-same k.sched.procs counted.procs (k.ttys j) (elsewhere_same j other)))

  buffers-counted :
      (ws : List ℕ)
      → ((q : ℕ) → 0 < count q ws → 0 < count q t.writers)
      → buffers counted.procs ws ≡ buffers k.sched.procs ws
  buffers-counted ws sub =
      buffers-same k.sched.procs counted.procs ws (λ q h. (queued_same q (sub q h)).kbuf)

  -- the stream of terminal `i`, with the owner's bytes spelled out
  stream-owner :
      stream i k
      ≡ output i k.log ++ (drop sent (k.sched.procs p).io_kbuf ++ buffers k.sched.procs t.writers)
  unfolding stream
  stream-owner = rw (unsent-some k.sched.procs t p own)

  pub paused-stream :
      (more : sent < (k.sched.procs p).io_total)
      → stream i (started max_line i p paused) ≡ stream i k
  paused-stream more =
      let self : (i == i) ≡ true = ground arith in
      let self' : (p == p) ≡ true = ground arith in
      started-stream max_line i p paused (paused-Begins more)
      ∙ rw (self, self', buffers-counted t.writers (λ q h. h)) (sym stream-owner)

  -- With every byte sent, the stream goes on with the writers that wait.
  finished-stream :
      (k.sched.procs p).io_total ≤ sent
      → stream i k ≡ output i k.log ++ buffers k.sched.procs t.writers
  finished-stream over =
      let mine = (v.serves i).owner p own in
      stream-owner ∙ rw (drop-all sent (k.sched.procs p).io_kbuf (omega (arith, mine.total, over)))

  -- the terminal without its owner, and the owner ready
  abbrev pub freed : Option ℕ → List ℕ → TtySys
  freed nxt ws =
      put (record k { sched = schedule_process p counted }) i
        (record t { transmitting = false; tx_owner = nxt; writers = ws })

  pub finish-last :
      t.writers ≡ []
      → finish_owner max_line i p (record t { transmitting = false }) (record k { sched = counted })
        ≡ ok (freed none [])
  unfolding finish_owner
  finish-last e =
      ap
        (λ (ws : List ℕ).
          finish_owner max_line i p (record t { transmitting = false; writers = ws })
            (record k { sched = counted }))
        e

  pub finish-next :
      (q : ℕ) (ws : List ℕ)
      → t.writers ≡ q ∷ ws
      → finish_owner max_line i p (record t { transmitting = false }) (record k { sched = counted })
        ≡ start_chunk max_line i (freed (some q) ws)
  unfolding finish_owner
  finish-next q ws e =
      ap
        (λ (us : List ℕ).
          finish_owner max_line i p (record t { transmitting = false; writers = us })
            (record k { sched = counted }))
        e

  -- The PCBs of `counted` with the owner ready.
  abbrev pub ready_procs : Store
  ready_procs = (schedule_process p counted).procs

  ready_same : (q : ℕ) → (q == p) ≡ false → SameJob (k.sched.procs q) (ready_procs q)
  ready_same q other =
      SameJob-trans (k.sched.procs q) (counted.procs q) (ready_procs q) (counted-same q other)
        (schedule_process-SameJobs p counted q)

  freed-Serves_elsewhere : (j : ℕ) → (j == i) ≡ false → Serves j (k.ttys j) ready_procs
  freed-Serves_elsewhere j other =
      Serves-same j (k.ttys j) (k.ttys j) counted.procs ready_procs refl refl
        (λ q w. schedule_process-SameJobs p counted q) (elsewhere-Serves j other)

  freed-Sends_elsewhere : (j : ℕ) → (j == i) ≡ false → Sends max_line (k.ttys j) ready_procs
  freed-Sends_elsewhere j other =
      Sends-same max_line (k.ttys j) counted.procs ready_procs
        (λ q w. schedule_process-SameJobs p counted q) (elsewhere-Sends j other)

  pub last-IsValid : IsValid max_line (freed none [])
  last-IsValid = record {
    serves =
        put-all (λ j u. Serves j u ready_procs) k i
          (record t { transmitting = false; tx_owner = none; writers = [] })
          (record {
            idle = λ h. refl;
            owner = λ q h. absurd (ground (arith, h));
            alone = λ q h. count-nil q;
            queued = λ q h. absurd (omega (arith, count-nil q, h));
            fresh = λ q h. absurd (omega (arith, count-nil q, h));
            once = λ q. omega (arith, count-nil q);
          })
          freed-Serves_elsewhere;
    sends =
        put-all (λ j u. Sends max_line u ready_procs) k i
          (record t { transmitting = false; tx_owner = none; writers = [] })
          (record {
            chunk = λ q h. absurd (ground (arith, h));
            busy = λ q h. absurd (ground (arith, h));
          })
          freed-Sends_elsewhere;
    bounded = v.bounded;
  }

  pub stream-freed_elsewhere :
      (nxt : Option ℕ) (ws : List ℕ) (j : ℕ)
      → (j == i) ≡ false
      → stream j (freed nxt ws) ≡ stream j k
  unfolding stream
  stream-freed_elsewhere nxt ws j other = rw other (
      ap (λ (bs : List ℕ). output j k.log ++ bs)
        (to_send-same k.sched.procs ready_procs (k.ttys j) (λ q w.
          SameJob-trans (k.sched.procs q) (counted.procs q) (ready_procs q)
            (elsewhere_same j other q w) (schedule_process-SameJobs p counted q))))

  pub last-stream :
      (k.sched.procs p).io_total ≤ sent → t.writers ≡ [] → stream i (freed none []) ≡ stream i k
  unfolding stream
  last-stream over e =
      let self : (i == i) ≡ true = ground arith in
      let nobody = buffers-nil ready_procs in
      let nobody' = buffers-nil k.sched.procs in
      let gone =
        unsent-none ready_procs (record t { transmitting = false; tx_owner = none; writers = [] })
          refl in
      rw (self, gone, nobody) (sym (finished-stream over ∙ rw (e, nobody')))

  module _ (q : ℕ) (ws : List ℕ) (e : t.writers ≡ q ∷ ws) where
    counts : (x : ℕ) → count x t.writers ≡ (if x == q then 1 else 0) + count x ws
    counts x = rw e (count-cons x q ws)

    apart : (x : ℕ) → 0 < count x t.writers → SameJob (k.sched.procs x) (ready_procs x)
    apart x c = ready_same x (ground (arith, (v.serves i).alone p own, c))

    pub next-Begins : Begins max_line i q (freed (some q) ws)
    next-Begins =
        let s = v.serves i in
        let at_q : 0 < count q t.writers = ground (arith, counts q) in
        record {
          serves =
              put-all (λ j u. Serves j u ready_procs) k i
                (record t { transmitting = false; tx_owner = some q; writers = ws })
                (record {
                  idle = λ h. absurd (ground (arith, h));
                  owner = λ x h.
                      let at : x ≡ q = ground (arith, h) in
                      rw at (
                        Pending-same i (k.sched.procs q) (ready_procs q) (apart q at_q)
                          (s.queued q at_q));
                  alone = λ x h. ground (arith, h, counts x, s.once x);
                  queued = λ x h.
                      let c : 0 < count x t.writers = omega (arith, counts x, h) in
                      Pending-same i (k.sched.procs x) (ready_procs x) (apart x c) (s.queued x c);
                  fresh = λ x h.
                      let c : 0 < count x t.writers = omega (arith, counts x, h) in
                      (apart x c).sent ∙ s.fresh x c;
                  once = λ x. omega (arith, counts x, s.once x);
                })
                freed-Serves_elsewhere;
          others = λ j other. rw other (freed-Sends_elsewhere j other);
          bounded = v.bounded;
          owner = ground arith;
        }

    pub next-stream :
        (k.sched.procs p).io_total ≤ sent
        → stream i (started max_line i q (freed (some q) ws)) ≡ stream i k
    next-stream over =
        let s = v.serves i in
        let at_q : 0 < count q t.writers = ground (arith, counts q) in
        let self : (i == i) ≡ true = ground arith in
        let behind =
          buffers-same k.sched.procs ready_procs ws
            (λ x h. (apart x (omega (arith, counts x, h))).kbuf) in
        let kbuf = (apart q at_q).kbuf in
        let unsent_yet = (apart q at_q).sent ∙ s.fresh q at_q in
        started-stream max_line i q (freed (some q) ws) next-Begins
        ∙ rw (self, unsent_yet, kbuf, behind)
            (sym (finished-stream over ∙ rw (e, buffers-cons k.sched.procs q ws)))
