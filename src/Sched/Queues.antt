-- ===== src/Sched/Queues.antt =====
-- The ready queue: get_next_process hands out processes in the order in which they became ready.
use mathlib.Core.List.{append_assoc, append-nil}
use cs58final_project.Prelude.{
  ℕ, zero, suc, ◌+◌, ◌≡◌, ◌≢◌, refl, ◌∙◌, ap, arith, List, [], ◌∷◌, ◌++◌, length, length-append,
  ◌<◌, replicate,
}
use cs58final_project.Process.{running}
use cs58final_project.Sched.{
  Sched, schedule_process, get_next_process, deque_process, deque_from, run_or_idle, set_state,
  enque_process,
}

-- several calls of `schedule_process`, in order
abbrev pub schedule_all : List ℕ → Sched → Sched
schedule_all [] s = s
schedule_all (p ∷ ps) s = schedule_all ps (schedule_process p s)

-- the results of several calls of `get_next_process`
abbrev pub next_many : ℕ → Sched → List ℕ
next_many zero s = []
next_many (suc n) s = let (p, s') = get_next_process s in p ∷ next_many n s'

abbrev pub NoneIdle : ℕ → List ℕ → Type 0
NoneIdle idle [] = Unit {0}
NoneIdle idle (p ∷ ps) = (p ≢ idle) × NoneIdle idle ps

pub main_queue-schedule :
    (p : ℕ) (s : Sched)
    → p ≢ s.idle_proc
    → (schedule_process p s).main_queue ≡ s.main_queue ++ p ∷ []
unfolding schedule_process set_state enque_process
main_queue-schedule p s ne = ground arith

pub idle_proc-schedule : (p : ℕ) (s : Sched) → (schedule_process p s).idle_proc ≡ s.idle_proc
unfolding schedule_process set_state enque_process
idle_proc-schedule p s = ground arith

pub schedule_all-queue :
    (ps : List ℕ) (s : Sched)
    → NoneIdle s.idle_proc ps
    → ((schedule_all ps s).main_queue ≡ s.main_queue ++ ps)
      × ((schedule_all ps s).idle_proc ≡ s.idle_proc)
schedule_all-queue [] s n = (rw append-nil, refl)
schedule_all-queue (p ∷ ps) s (ne, n) =
    let (queue, idle) =
      schedule_all-queue ps (schedule_process p s) (rw (idle_proc-schedule p s) n) in
    (
      queue
          ∙ ap (λ q. q ++ ps) (main_queue-schedule p s ne)
          ∙ append_assoc s.main_queue (p ∷ []) ps,
      idle ∙ idle_proc-schedule p s,
    )

next-empty : (s : Sched) → s.main_queue ≡ [] → get_next_process s ≡ (s.idle_proc, s)
unfolding get_next_process deque_process deque_from run_or_idle
next-empty s e = rw (e, deque_from)

next-cons :
    (p : ℕ) (q : List ℕ) (s : Sched)
    → s.main_queue ≡ p ∷ q
    → get_next_process s ≡ (p, set_state p running (record s { main_queue = q }))
unfolding get_next_process deque_process deque_from run_or_idle
next-cons p q s e = rw (e, deque_from)

main_queue-set_state :
    (p : ℕ) (s : Sched)
    → ((set_state p running s).main_queue ≡ s.main_queue)
      × ((set_state p running s).idle_proc ≡ s.idle_proc)
unfolding set_state
main_queue-set_state p s = (refl, refl)

next_many-idle : (k : ℕ) (s : Sched) → s.main_queue ≡ [] → next_many k s ≡ replicate k s.idle_proc
next_many-idle zero s e = refl
next_many-idle (suc k) s e = rw (next-empty s e) (ap (◌∷◌ s.idle_proc) (next_many-idle k s e))

next_many-queue :
    (q : List ℕ) (k : ℕ) (s : Sched)
    → s.main_queue ≡ q
    → next_many (length q + k) s ≡ q ++ replicate k s.idle_proc
next_many-queue [] k s e = let n : 0 + k ≡ k = omega arith in rw n (next_many-idle k s e)
next_many-queue (p ∷ q) k s e =
    let n : suc (length q) + k ≡ suc (length q + k) = omega arith in
    let s' = set_state p running (record s { main_queue = q }) in
    let (queue, idle) = main_queue-set_state p (record s { main_queue = q }) in
    rw (n, next-cons p q s e)
      (ap (◌∷◌ p) (next_many-queue q k s' queue ∙ ap (λ (i : ℕ). q ++ replicate k i) idle))

-- After the processes `ps`, none of them the idle one, are scheduled, `get_next_process` first
-- returns those that were ready before, in order, then `ps` in order, and from then on the idle
-- process.
pub next_many-schedule_all :
    (ps : List ℕ) (k : ℕ) (s : Sched)
    → NoneIdle s.idle_proc ps
    → next_many (length (s.main_queue ++ ps) + k) (schedule_all ps s)
      ≡ (s.main_queue ++ ps) ++ replicate k s.idle_proc
next_many-schedule_all ps k s n =
    let (queue, idle) = schedule_all-queue ps s n in
    next_many-queue (s.main_queue ++ ps) k (schedule_all ps s) queue
    ∙ ap (λ (i : ℕ). (s.main_queue ++ ps) ++ replicate k i) idle

-- Scheduling a process changes no pid.
pub pid-schedule :
    (p : ℕ) (s : Sched) (q : ℕ) → ((schedule_process p s).procs q).pid ≡ (s.procs q).pid
unfolding schedule_process set_state enque_process
pid-schedule p s q = ground arith

next-front :
    (q : List ℕ) (s : Sched)
    → s.main_queue ≡ q
    → 0 < length q
    → let (p, s') = get_next_process s in
      (p ∷ s'.main_queue ≡ q) × (s'.running_proc ≡ s.running_proc) × (s'.num_ticks ≡ s.num_ticks)
unfolding set_state
next-front [] s e h = absurd (omega arith)
next-front (p ∷ q) s e h = rw (next-cons p q s e) (refl, refl, refl)

-- A process that is not the idle one gives way: it goes behind those that are ready, and the first of
-- all these is next.
pub next-schedule :
    (p : ℕ) (s : Sched)
    → p ≢ s.idle_proc
    → let (n, s') = get_next_process (schedule_process p s) in
      (n ∷ s'.main_queue ≡ s.main_queue ++ p ∷ [])
      × (s'.running_proc ≡ s.running_proc)
      × (s'.num_ticks ≡ s.num_ticks)
unfolding schedule_process set_state enque_process
next-schedule p s ne =
    let more : 0 < length (s.main_queue ++ p ∷ []) =
      omega (arith, length-append s.main_queue (p ∷ [])) in
    let (front, runs, ticks) =
      next-front (s.main_queue ++ p ∷ []) (schedule_process p s) (main_queue-schedule p s ne)
        more in
    (front, runs ∙ ground arith, ticks ∙ ground arith)
