-- ===== src/Sync/Wait.antt =====
-- Condition variables: a wait gives the lock up, and a signal asks for it again.
use cs58final_project.Prelude.{
  ℕ, ◌+◌, ◌<◌, ◌≡◌, ◌≢◌, refl, ap, true, false, some, List, [], ◌∷◌, ◌++◌, ltb, if◌then◌else◌, set,
  Bool-cases, inl, inr, ◌∙◌,
}
use cs58final_project.Prelude.Arrays.{count}
use cs58final_project.Sched.{schedule_process}
use cs58final_project.Sync.{
  Sync, Lock, Cvar, Acquire, acquired, failed, need, live_lock, live_cvar, pop, pid_of, with_lock,
  acquire, schedule_popped, reacquire, set_cvar_lock_id, wait_cvar, signal_cvar,
}
use cs58final_project.Sync.Holders.{one_if}
use cs58final_project.Sync.Inv.{
  LockIsValid, IsNew, acquire_lem, release_lem, release-stranger, gained,
}

module _ (s : Sync) (c i p : ℕ) (w : Cvar) (l : Lock) (there : live_cvar s.cvars c ≡ some w)
    (found : live_lock s.locks i ≡ some l) (v : LockIsValid (pid_of s) l) where
  -- A process that does not hold a live lock cannot wait with it on a live condition variable: the
  -- call fails and changes nothing.
  pub wait_cvar-stranger : count (pid_of s p) l.pids ≡ 0 → wait_cvar c i p s ≡ (false, s)
  unfolding wait_cvar
  wait_cvar-stranger none_held =
      rw (there, wait_cvar, release-stranger s i p l true found v none_held)

  -- A holder with a pid of a live and valid lock that waits with it on a live condition variable
  -- succeeds: it becomes the last waiter of the condition variable and remembers the lock, which
  -- goes to exactly the first waiter of the lock, if there is one, and stays valid.
  pub wait_cvar_lem :
      pid_of s p ≢ 0
      → 0 < count (pid_of s p) l.pids
      → let (next, rest) = pop l.waiters in
        (l' : Lock) × (wait_cvar c i p s ≡ (
          true,
          record s {
            locks = set s.locks i l';
            cvars = set s.cvars c (record w { waiters = w.waiters ++ p ∷ [] });
            sched = set_cvar_lock_id p i (schedule_popped next s.sched);
          },
        ))
        × LockIsValid (pid_of s) l'
        × (l'.waiters ≡ rest)
        × ((x : ℕ)
            → x ≢ 0
            → count x l'.pids + one_if x (pid_of s p)
              ≡ count x l.pids + gained s i p l true found v next x)
  unfolding wait_cvar
  wait_cvar_lem named holds =
      let (l', run, valid, waiters, holders) = release_lem s i p l true found v named holds in
      (l', rw (there, wait_cvar, run), valid, waiters, holders)

-- what `reacquire` makes of the result of its call
abbrev requested : ℕ → Acquire × Sync → Sync
requested p (acquired, s) = record s { sched = schedule_process p s.sched }
requested p (failed, s) = s
requested p (need, s) = s

reacquire-requested :
    (p : ℕ) (s : Sync) (r : Acquire × Sync)
    → acquire (s.sched.procs p).cvar_lock_id p true s ≡ r
    → reacquire p s ≡ requested p r
unfolding reacquire
reacquire-requested p s r e =
    e_cases (acquire (s.sched.procs p).cvar_lock_id p true s) ∙ ap (requested p) e
  where
    e_cases :
        (x : Acquire × Sync)
        → elim x.0 [
          | acquired ↦ record x.1 { sched = schedule_process p x.1.sched }
          | failed ↦ x.1
          | need ↦ x.1
        ]
          ≡ requested p x
    e_cases (acquired, s) = refl
    e_cases (failed, s) = refl
    e_cases (need, s) = refl

module _ (s : Sync) (c p : ℕ) (rest : List ℕ) (w : Cvar) (l : Lock)
    (there : live_cvar s.cvars c ≡ some w) (first : w.waiters ≡ p ∷ rest)
    (found : live_lock s.locks (s.sched.procs p).cvar_lock_id ≡ some l)
    (v : LockIsValid (pid_of s) l) (n : IsNew (pid_of s) l p) where
  -- `s` without the first waiter of the condition variable
  abbrev pub signalled : Sync
  signalled = record s { cvars = set s.cvars c (record w { waiters = rest }) }

  -- A signal takes the first process off a live condition variable. If the lock that the process
  -- remembers, live, valid and new to it, has a permit left, the process gets it and is scheduled;
  -- otherwise it is put behind the waiters of the lock and is not scheduled. The lock stays valid.
  pub signal_cvar_lem :
      let free = ltb 0 l.val in
      let i = (s.sched.procs p).cvar_lock_id in
      (l' : Lock) × (signal_cvar c s ≡ (
        true,
        record (with_lock signalled i l') {
          sched = if free then schedule_process p s.sched else s.sched;
        },
      ))
      × LockIsValid (pid_of s) l'
      × (l'.waiters ≡ (if free then l.waiters else l.waiters ++ p ∷ []))
      × ((x : ℕ)
          → x ≢ 0
          → count x l'.pids ≡ count x l.pids + (if free then one_if x (pid_of s p) else 0))
  unfolding signal_cvar pop reacquire
  signal_cvar_lem =
      let i : ℕ = (s.sched.procs p).cvar_lock_id in
      let (l', run, valid, waiters, holders) = acquire_lem signalled i p l true found v n in
      (
        l',
        let again = reacquire-requested p signalled _ run in
            elim (Bool-cases (ltb 0 l.val)) [
              | inl free ↦
                  rw (there, signal_cvar, first, pop)
                    (ap (λ (x : Sync). (true, x)) (again ∙ rw free))
              | inr taken ↦
                  rw (there, signal_cvar, first, pop)
                    (ap (λ (x : Sync). (true, x)) (again ∙ rw taken))
            ],
        valid,
        waiters,
        holders,
      )
