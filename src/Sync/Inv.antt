-- ===== src/Sync/Inv.antt =====
-- The invariant of a lock: permits, holders and waiters agree; acquire and release keep it.
use cs58final_project.Prelude.{
  ℕ, ◌+◌, ◌≤◌, ◌<◌, ◌≡◌, ◌≢◌, refl, ap, ◌∙◌, Bool, true, false, arith, Option, none, some, List, [],
  ◌∷◌, ◌++◌, ltb, if◌then◌else◌, length, set, map, Bool-cases, inl, inr,
}
use mathlib.Core.List.{map-append}
use cs58final_project.Prelude.Arrays.{count, count-cons, count-nil, count-append}
use mathlib.Core.Option
use cs58final_project.Prelude.Int.{ℤ}
use cs58final_project.Sync.{
  Sync, Lock, failed, acquired, need, live_lock, find, pop, take_permit, enqueue, hand_over,
  acquire, release, pid_of, with_lock, count_down, pid_of_popped, schedule_popped,
}
use cs58final_project.Sync.Holders.{find-found, length-find, count-find, one_if}

module _ (pid : ℕ → ℕ) where
  -- No pid but the 0 of a free place occurs twice among the holders and the waiters.
  pub record LockIsValid (l : Lock) : Type 0 where
    pub size : length l.pids ≡ l.capacity
    pub permits : count 0 l.pids ≡ l.val
    pub no_idle_permit : 0 < l.val → l.waiters ≡ []
    pub named : count 0 (map pid l.waiters) ≡ 0
    pub once : (x : ℕ) → x ≢ 0 → count x l.pids + count x (map pid l.waiters) ≤ 1

  -- `p` neither holds the lock nor waits for it
  pub record IsNew (l : Lock) (p : ℕ) : Type 0 where
    pub has_pid : pid p ≢ 0
    pub not_holder : count (pid p) l.pids ≡ 0
    pub not_waiter : count (pid p) (map pid l.waiters) ≡ 0

  take_permit-IsValid :
      (l : Lock) (p : ℕ) (cvar_use : Bool)
      → LockIsValid l
      → IsNew l p
      → 0 < l.val
      → LockIsValid (take_permit l (pid p) cvar_use)
  unfolding take_permit
  take_permit-IsValid l p cvar_use v n free =
      let trade = λ (x : ℕ). count-find l.pids 0 (pid p) x (omega (arith, v.permits)) in
      let none_wait = v.no_idle_permit free in
      record {
        size = length-find l.pids 0 (pid p) ∙ v.size;
        permits = ground (arith, trade 0, v.permits, n.has_pid);
        no_idle_permit = λ h. none_wait;
        named = v.named;
        once = λ x ne. ground (arith, trade x, v.once x, n.not_holder, n.not_waiter);
      }

  map-enqueued :
      (ps : List ℕ) (p x : ℕ)
      → count x (map pid (ps ++ p ∷ [])) ≡ count x (map pid ps) + one_if x (pid p)
  map-enqueued ps p x = rw (map-append, count-append, count-cons, count-nil) (omega arith)

  enqueue-IsValid :
      (l : Lock) (p : ℕ) (cvar_use : Bool)
      → LockIsValid l
      → IsNew l p
      → l.val ≡ 0
      → LockIsValid (enqueue l p cvar_use)
  unfolding enqueue
  enqueue-IsValid l p cvar_use v n taken = record {
    size = v.size;
    permits = v.permits;
    no_idle_permit = λ h. absurd (omega arith);
    named = ground (arith, map-enqueued l.waiters p 0, v.named, n.has_pid);
    once = λ x ne. ground (arith, map-enqueued l.waiters p x, v.once x, n.not_holder, n.not_waiter);
  }

  hand_over-IsValid :
      (l : Lock) (p : ℕ) (n : ℤ)
      → LockIsValid l
      → pid p ≢ 0
      → 0 < count (pid p) l.pids
      → (ws : List ℕ) → l.waiters ≡ ws
      → let (next, rest) = pop ws in
        LockIsValid
          (record (hand_over l (pid p) (Option.map pid next)) { waiters = rest; needed_by = n })
  unfolding hand_over pop
  hand_over-IsValid l p n v named holds [] e =
      let trade = λ (x : ℕ). count-find l.pids (pid p) 0 x holds in
      record {
        size = length-find l.pids (pid p) 0 ∙ v.size;
        permits = ground (arith, trade 0, v.permits);
        no_idle_permit = λ h. refl;
        named = count-nil 0;
        once = λ x ne. ground (arith, trade x, v.once x ne, count-nil x);
      }
  hand_over-IsValid l p n v named holds (q ∷ ws) e =
      let trade = λ (x : ℕ). count-find l.pids (pid p) (pid q) x holds in
      let old = λ (x : ℕ). ap (λ (t : List ℕ). count x (map pid t)) e in
      let split = λ (x : ℕ). count-cons x (pid q) (map pid ws) in
      let q_named : pid q ≢ 0 = ground (arith, v.named, old 0, split 0) in
      let busy : l.val ≡ 0 = ground (arith, v.no_idle_permit) in
      record {
        size = length-find l.pids (pid p) (pid q) ∙ v.size;
        permits = ground (arith, trade 0, v.permits);
        no_idle_permit = λ h. absurd (omega arith);
        named = ground (arith, v.named, old 0, split 0);
        once = λ x ne. ground (arith, trade x, v.once x ne, old x, split x);
      }

module _ (s : Sync) (i p : ℕ) (l : Lock) (cvar_use : Bool) (found : live_lock s.locks i ≡ some l)
    (v : LockIsValid (pid_of s) l) where
  -- A process that holds a live lock cannot acquire it again: the call fails and changes nothing.
  pub acquire-holder : 0 < count (pid_of s p) l.pids → acquire i p cvar_use s ≡ (failed, s)
  unfolding acquire
  acquire-holder holds =
      let e : (find l.pids (pid_of s p) none).0 ≡ true =
        ground (arith, find-found l.pids (pid_of s p)) in
      rw (found, acquire, e)

  -- A process that is new to a live and valid lock gets a permit if one is free, and then holds the
  -- lock once; otherwise it is put behind the waiters and the holders stay. The lock stays valid,
  -- and no other holder changes.
  pub acquire_lem :
      IsNew (pid_of s) l p
      → let free = ltb 0 l.val in
        (l' : Lock) × (acquire i p cvar_use s
          ≡ ((if free then acquired else need), with_lock s i l'))
        × LockIsValid (pid_of s) l'
        × (l'.waiters ≡ (if free then l.waiters else l.waiters ++ p ∷ []))
        × ((x : ℕ)
            → x ≢ 0
            → count x l'.pids ≡ count x l.pids + (if free then one_if x (pid_of s p) else 0))
  unfolding acquire
  acquire_lem n =
      let e : (find l.pids (pid_of s p) none).0 ≡ false =
        ground (arith, find-found l.pids (pid_of s p), n.not_holder) in
      elim (Bool-cases (ltb 0 l.val)) [
        | inl free ↦
            let permit : 0 < count 0 l.pids = ground (arith, v.permits) in
            (
              take_permit l (pid_of s p) cvar_use,
              rw (found, acquire, e, free),
              take_permit-IsValid (pid_of s) l p cvar_use v n (ground arith),
              rw free (unfold take_permit in refl),
              λ x ne.
                  rw free (
                    unfold take_permit in
                    ground (arith, count-find l.pids 0 (pid_of s p) x permit)),
            )
        | inr taken ↦ (
          enqueue l p cvar_use,
          rw (found, acquire, e, taken),
          enqueue-IsValid (pid_of s) l p cvar_use v n (ground arith),
          rw taken (unfold enqueue in refl),
          λ x ne. rw taken (unfold enqueue in omega arith),
        )
      ]

  -- A process that does not hold a live lock cannot release it: the call fails and changes nothing.
  pub release-stranger : count (pid_of s p) l.pids ≡ 0 → release i p cvar_use s ≡ (false, s)
  unfolding release
  release-stranger none_held =
      let e : (find l.pids (pid_of s p) none).0 ≡ false =
        ground (arith, find-found l.pids (pid_of s p)) in
      rw (found, release, e)

  -- the lock after a release, where `ws` are its waiters
  abbrev handed : List ℕ → Lock
  handed ws =
      let (next, rest) = pop ws in
      record (hand_over l (pid_of s p) (pid_of_popped s next)) {
        waiters = rest;
        needed_by = count_down cvar_use l.needed_by;
      }

  handed-IsValid :
      pid_of s p ≢ 0
      → 0 < count (pid_of s p) l.pids
      → (ws : List ℕ) → l.waiters ≡ ws
      → LockIsValid (pid_of s) (handed ws)
  unfolding pop
  handed-IsValid named holds [] e =
      hand_over-IsValid (pid_of s) l p (count_down cvar_use l.needed_by) v named holds [] e
  handed-IsValid named holds (q ∷ ws) e =
      hand_over-IsValid (pid_of s) l p (count_down cvar_use l.needed_by) v named holds (q ∷ ws) e

  -- How often a pid holds the lock afterwards: the releasing process once less, the process that
  -- was popped once more.
  abbrev pub gained : Option ℕ → ℕ → ℕ
  gained none x = 0
  gained (some q) x = one_if x (pid_of s q)

  handed-holders :
      0 < count (pid_of s p) l.pids
      → (ws : List ℕ) (x : ℕ) → x ≢ 0
      → count x (handed ws).pids + one_if x (pid_of s p) ≡ count x l.pids + gained (pop ws).0 x
  unfolding pop hand_over
  handed-holders holds [] x ne = ground (arith, count-find l.pids (pid_of s p) 0 x holds)
  handed-holders holds (q ∷ ws) x ne = count-find l.pids (pid_of s p) (pid_of s q) x holds

  -- A holder with a pid that releases a live and valid lock succeeds. Exactly the first waiter, if
  -- there is one, becomes a holder in its place and is scheduled, and leaves the queue; the lock
  -- stays valid, and no other holder changes.
  pub release_lem :
      pid_of s p ≢ 0
      → 0 < count (pid_of s p) l.pids
      → let (next, rest) = pop l.waiters in
        (l' : Lock) × (release i p cvar_use s
          ≡ (true, record s { locks = set s.locks i l'; sched = schedule_popped next s.sched }))
        × LockIsValid (pid_of s) l'
        × (l'.waiters ≡ rest)
        × ((x : ℕ)
            → x ≢ 0
            → count x l'.pids + one_if x (pid_of s p) ≡ count x l.pids + gained next x)
  unfolding release
  release_lem named holds =
      let e : (find l.pids (pid_of s p) none).0 ≡ true =
        ground (arith, find-found l.pids (pid_of s p)) in
      (
        handed l.waiters,
        rw (found, release, e),
        handed-IsValid named holds l.waiters refl,
        refl,
        handed-holders holds l.waiters,
      )
