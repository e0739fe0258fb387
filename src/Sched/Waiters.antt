-- ===== src/Sched/Waiters.antt =====
-- wake_waiters: who still waits for a child once the exited ones are collected.
use mathlib.Core.List.{append_assoc, append-nil}
use cs58final_project.Prelude.{
  ℕ, zero, suc, ◌+◌, ◌<◌, ◌≡◌, ◌≢◌, refl, ap, ◌∙◌, Bool, arith, Option, none, some, List, [], ◌∷◌,
  ◌++◌, length, ◌⊎◌, inl, inr,
}
use cs58final_project.Prelude.Run.{Run, ok}
use cs58final_project.Prelude.Arrays.{count, count-cons, count-nil}
use cs58final_project.Process.{Store, update}
use cs58final_project.Process.Children.{NoneExited, Collected, find_exited_child_lem}
use cs58final_project.Sched.{
  Sched, schedule_process, set_state, enque_process, wait_unblock_cond, find_blocked,
  find_blocked_process, wake_waiters_loop, wake_waiters,
}

-- no process of the list has a child that has exited
abbrev pub AllWait : Store → List ℕ → Type 0
AllWait procs [] = Unit {0}
AllWait procs (p ∷ ps) = NoneExited procs (procs p).children × AllWait procs ps

-- `p` has collected an exited child, and has its exit code in register 1.
pub record Released (allocated : Bool) (procs : Store) (p : ℕ) (procs' : Store) : Type 0 where
  pub child : ℕ
  pub collecting : Store
  pub collected : Collected allocated procs p child collecting
  pub exit_code :
      procs' ≡ update collecting p (record (collecting p) { reg1 = (procs child).exit_code })

wait_unblock_cond-cases :
    (allocated : Bool) (procs : Store) (p : ℕ)
    → ((wait_unblock_cond allocated procs p ≡ none) × NoneExited procs (procs p).children)
      ⊎ ((procs' : Store) × (wait_unblock_cond allocated procs p ≡ some procs')
          × Released allocated procs p procs'
          × ((q : ℕ) → (procs' q).wake_up ≡ (procs q).wake_up))
unfolding wait_unblock_cond
wait_unblock_cond-cases allocated procs p = elim (find_exited_child_lem allocated procs p) [
  | inl (nothing, all) ↦ inl (rw (wait_unblock_cond, nothing), all)
  | inr (child, procs', found, c) ↦ inr (
    update procs' p (record (procs' p) { reg1 = (procs child).exit_code }),
    rw (wait_unblock_cond, found),
    record { child = child; collecting = procs'; collected = c; exit_code = refl },
    λ q. ground (arith, c.wake_up_kept, c.others_kept q),
  )
]

-- the queue with one occurrence of `q` taken out
record Removed (ps : List ℕ) (q : ℕ) (others : List ℕ) : Type 0 where
  shorter : length others + 1 ≡ length ps
  items : (x : ℕ) → count x (q ∷ others) ≡ count x ps

Removed-cons :
    (p : ℕ) (ps : List ℕ) (q : ℕ) (others : List ℕ)
    → Removed ps q others
    → Removed (p ∷ ps) q (p ∷ others)
Removed-cons p ps q others r = record {
  shorter = omega (arith, r.shorter);
  items = λ x. omega (
    arith,
    r.items x,
    count-cons x q others,
    count-cons x q (p ∷ others),
    count-cons x p others,
    count-cons x p ps,
  );
}

-- `q` is the first of the processes `ps` that has an exited child; the others stay in order, and it has collected the child.
pub record Found (allocated : Bool) (procs : Store) (ps : List ℕ) (q : ℕ) (others : List ℕ)
    (procs' : Store) : Type 0 where
  pub before : List ℕ
  pub after : List ℕ
  pub place : ps ≡ before ++ q ∷ after
  pub rest : others ≡ before ++ after
  pub wait : AllWait procs before
  pub released : Released allocated procs q procs'

find_blocked-cases :
    (allocated : Bool) (procs : Store) (ps : List ℕ)
    → ((find_blocked allocated procs ps ≡ none) × AllWait procs ps)
      ⊎ ((q : ℕ) × (others : List ℕ) × (procs' : Store) × (find_blocked allocated procs ps
            ≡ some (q, others, procs'))
          × Removed ps q others
          × Found allocated procs ps q others procs'
          × ((x : ℕ) → (procs' x).wake_up ≡ (procs x).wake_up))
unfolding find_blocked
find_blocked-cases allocated procs [] = inl (refl, tt)
find_blocked-cases allocated procs (p ∷ ps) = elim (wait_unblock_cond-cases allocated procs p) [
  | inr (procs', found, released, same) ↦ inr (
    p,
    ps,
    procs',
    rw (find_blocked, found),
    record { shorter = omega arith; items = λ x. refl },
    record { before = []; after = ps; place = refl; rest = refl; wait = tt; released = released },
    same,
  )
  | inl (nothing, waits) ↦ elim (find_blocked-cases allocated procs ps) [
    | inl (rest, all) ↦ inl (rw (find_blocked, nothing, rest), (waits, all))
    | inr (q, others, procs', found, r, f, same) ↦ inr (
      q,
      p ∷ others,
      procs',
      rw (find_blocked, nothing, found),
      Removed-cons p ps q others r,
      record {
        before = p ∷ f.before;
        after = f.after;
        place = ap (◌∷◌ p) f.place;
        rest = ap (◌∷◌ p) f.rest;
        wait = (waits, f.wait);
        released = f.released;
      },
      same,
    )
  ]
]

-- what neither the collection of children nor scheduling changes
pub record Kept (s s' : Sched) : Type 0 where
  pub sleepers : s'.sleepers ≡ s.sleepers
  pub num_ticks : s'.num_ticks ≡ s.num_ticks
  pub running_proc : s'.running_proc ≡ s.running_proc
  pub idle_proc : s'.idle_proc ≡ s.idle_proc
  pub wake_up : (q : ℕ) → (s'.procs q).wake_up ≡ (s.procs q).wake_up

-- The rounds of `wake_waiters`: in each the first process of the queue that has an exited child collects it and becomes
-- ready, and after the last nobody who waits has one.
pub data Rounds : Sched → List ℕ → Sched → Type 0 where
  last : (s : Sched) → AllWait s.procs s.wait_queue → Rounds s [] s
  next :
      (allocated : Bool) (s s' : Sched) (p : ℕ) (others woken : List ℕ) (procs' : Store)
      → Found allocated s.procs s.wait_queue p others procs'
      → Rounds (schedule_process p (record s { wait_queue = others; procs = procs' })) woken s'
      → Rounds s (p ∷ woken) s'

-- What `wake_waiters` leaves: `woken` are the processes that became ready, in order.
pub record Collects (s s' : Sched) (woken : List ℕ) : Type 0 where
  pub queued : s'.main_queue ≡ s.main_queue ++ woken
  pub items : (x : ℕ) → count x woken + count x s'.wait_queue ≡ count x s.wait_queue
  pub rounds : Rounds s woken s'
  pub all_wait : AllWait s'.procs s'.wait_queue
  pub kept : Kept s s'

schedule_process-queues :
    (p : ℕ) (s : Sched)
    → p ≢ s.idle_proc
    → ((schedule_process p s).main_queue ≡ s.main_queue ++ p ∷ [])
      × ((schedule_process p s).wait_queue ≡ s.wait_queue)
      × ((schedule_process p s).idle_proc ≡ s.idle_proc)
unfolding schedule_process set_state enque_process
schedule_process-queues p s ne = (ground arith, ground arith, ground arith)

pub running-schedule : (p : ℕ) (s : Sched) → (schedule_process p s).running_proc ≡ s.running_proc
unfolding schedule_process set_state enque_process
running-schedule p s = ground arith

Kept-schedule : (p : ℕ) (s : Sched) → Kept s (schedule_process p s)
unfolding schedule_process set_state enque_process
Kept-schedule p s = record {
  sleepers = ground arith;
  num_ticks = ground arith;
  running_proc = ground arith;
  idle_proc = ground arith;
  wake_up = λ q. ground arith;
}

process-none :
    (allocated : Bool) (s : Sched)
    → find_blocked allocated s.procs s.wait_queue ≡ none
    → find_blocked_process allocated s ≡ (none, s)
unfolding find_blocked_process
process-none allocated s e = rw (find_blocked_process, e)

process-some :
    (allocated : Bool) (s : Sched) (p : ℕ) (others : List ℕ) (procs' : Store)
    → find_blocked allocated s.procs s.wait_queue ≡ some (p, others, procs')
    → find_blocked_process allocated s ≡ (some p, record s { wait_queue = others; procs = procs' })
unfolding find_blocked_process
process-some allocated s p others procs' e = rw (find_blocked_process, e)

-- the rest of a round of the `while`
abbrev go_on : ℕ → (ℕ → Bool) → Option ℕ × Sched → Run Sched
go_on fuel memory r = elim r.0 [
  | none ↦ ok r.1
  | some p ↦ wake_waiters_loop fuel memory (schedule_process p r.1)
]

Kept-refl : (s : Sched) → Kept s s
Kept-refl s = record {
  sleepers = refl;
  num_ticks = refl;
  running_proc = refl;
  idle_proc = refl;
  wake_up = λ q. refl;
}

loop-Collects :
    (fuel : ℕ) (memory : ℕ → Bool) (s : Sched)
    → length s.wait_queue < fuel
    → count s.idle_proc s.wait_queue ≡ 0
    → (s' : Sched) × (woken : List ℕ) × (wake_waiters_loop fuel memory s ≡ ok s')
      × Collects s s' woken
unfolding wake_waiters_loop
loop-Collects zero memory s f apart = absurd (omega arith)
loop-Collects (suc fuel) memory s f apart =
    elim (find_blocked-cases (memory fuel) s.procs s.wait_queue) [
      | inl (nothing, all) ↦ (
        s,
        [],
        ap (go_on fuel memory) (process-none (memory fuel) s nothing),
        record {
          queued = rw append-nil;
          items = λ x. omega (arith, count-nil x);
          rounds = last s all;
          all_wait = all;
          kept = Kept-refl s;
        },
      )
      | inr (p, others, procs', found, r, first, same) ↦
          let s1 : Sched = record s { wait_queue = others; procs = procs' } in
          let ne : p ≢ s.idle_proc =
            λ e. absurd (ground (arith, r.items s.idle_proc, count-cons s.idle_proc p others)) in
          let (main, wait, idle) = schedule_process-queues p s1 ne in
          let still_apart : count s.idle_proc others ≡ 0 =
            omega (arith, r.items s.idle_proc, count-cons s.idle_proc p others) in
          let (s', woken, run, c) =
            loop-Collects fuel memory (schedule_process p s1)
              (omega (arith, ap length wait, r.shorter)) (rw (wait, idle) still_apart) in
          (
            s',
            p ∷ woken,
            ap (go_on fuel memory) (process-some (memory fuel) s p others procs' found) ∙ run,
            record {
              queued =
                  c.queued
                  ∙ ap (λ (q : List ℕ). q ++ woken) main
                  ∙ append_assoc s.main_queue (p ∷ []) woken;
              items = λ x. omega (
                arith,
                c.items x,
                ap (count x) wait,
                r.items x,
                count-cons x p woken,
                count-cons x p others,
              );
              rounds = next (memory fuel) s s' p others woken procs' first c.rounds;
              all_wait = c.all_wait;
              kept =
                  let one = Kept-schedule p s1 in
                  record {
                    sleepers = c.kept.sleepers ∙ one.sleepers;
                    num_ticks = c.kept.num_ticks ∙ one.num_ticks;
                    running_proc = c.kept.running_proc ∙ one.running_proc;
                    idle_proc = c.kept.idle_proc ∙ one.idle_proc;
                    wake_up = λ q. c.kept.wake_up q ∙ one.wake_up q ∙ same q;
                  };
            },
          )
    ]

-- If the idle process does not wait, `wake_waiters` ends, whatever memory there is. It goes in
-- rounds: in each the first process of the waiting queue that has an exited child leaves that queue,
-- collects its first exited child, gets its exit code in register 1, and becomes ready; it ends when
-- no process that still waits has a child that has exited. The processes are moved to the end of the
-- ready queue, each as often as it leaves the other one. The sleepers and their ticks, the clock and
-- the running process stay as they were.
pub wake_waiters_lem :
    (memory : ℕ → Bool) (s : Sched)
    → count s.idle_proc s.wait_queue ≡ 0
    → (s' : Sched) × (woken : List ℕ) × (wake_waiters memory s ≡ ok s') × Collects s s' woken
unfolding wake_waiters
wake_waiters_lem memory s apart =
    loop-Collects (length s.wait_queue + 1) memory s (omega arith) apart
