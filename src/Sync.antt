-- ===== src/Sync.antt =====
-- yalnix_framework/src/synchronization.c: locks, semaphores and condition variables.
-- A table holds `locks[0 .. lock_arr_size)`, so its length is the size; an identifier that is
-- negative is none of its indices. A queue of waiting processes is the list of their PCBs.
-- `needed_by` is a C int and goes down without a test, so it is an integer.
pub mod Slots
pub mod Tables
pub mod Calls
pub mod Inv
pub mod Holders
pub mod Wait
mod Tests
use cs58final_project.Prelude.{
  ℕ, zero, suc, ◌+◌, ◌-◌, ◌*◌, ◌/◌, Bool, true, false, not, ◌&&◌, ◌||◌, Option, none, some, List,
  [], ◌∷◌, ◌++◌, ltb, leb, ◌==◌, if◌then◌else◌, length, get_elem?, set, replicate,
}
use cs58final_project.Prelude.Int.{ℤ, pos, negsuc, ◌+ℤ◌, ◌-ℤ◌, ltb_ℤ}
use cs58final_project.Prelude.Run.{Run, ok, out_of_fuel}
use cs58final_project.Process.{update}
use cs58final_project.Sched.{Sched, schedule_process}

-- `lock_t`: a lock, or a semaphore of some capacity
pub record Lock : Type 0 where
  pub capacity : ℕ
  pub val : ℕ
  pub in_use : Bool
  pub waiters : List ℕ
  pub pids : List ℕ
  pub needed_by : ℤ

-- `cvar_t`
pub record Cvar : Type 0 where
  pub waiters : List ℕ
  pub in_use : Bool

-- the globals of synchronization.c, and the scheduler
pub record Sync : Type 0 where
  pub locks : List Lock
  pub cvars : List Cvar
  pub open_lock_idx : ℕ
  pub open_cvar_idx : ℕ
  pub sched : Sched

abbrev pub zero_lock : Lock
zero_lock = record {
  capacity = 0;
  val = 0;
  in_use = false;
  waiters = [];
  pids = [];
  needed_by = pos 0;
}

abbrev pub zero_cvar : Cvar
zero_cvar = record { waiters = []; in_use = false }

-- the entry of a table that is in use
pub live_lock : List Lock → ℕ → Option Lock
live_lock ls i = elim (get_elem? ls i) [ none ↦ none | some l ↦ if l.in_use then some l else none ]

pub live_cvar : List Cvar → ℕ → Option Cvar
live_cvar cs i = elim (get_elem? cs i) [ none ↦ none | some c ↦ if c.in_use then some c else none ]

-- `pop` of a queue: the first process and the rest
pub pop : List ℕ → Option ℕ × List ℕ
pop [] = (none, [])
pop (p ∷ ps) = (some p, ps)

-- `find`: whether a pid occurs; the first place where it does is overwritten, if a replacement is given
-- (`none` is -1).
pub find : List ℕ → ℕ → Option ℕ → Bool × List ℕ
find [] p replace = (false, [])
find (x ∷ xs) p replace =
    let (found, ys) = find xs p replace in
    if x == p then (true, elim replace [ none ↦ x | some r ↦ r ] ∷ xs) else (found, x ∷ ys)

abbrev pub pid_of : Sync → ℕ → ℕ
pid_of s p = (s.sched.procs p).pid

abbrev pub with_lock : Sync → ℕ → Lock → Sync
with_lock s i l = record s { locks = set s.locks i l }

pub data Acquire : Type 0 where
  failed acquired need : Acquire

-- the count of the processes that need a lock, which a condition variable leaves alone
abbrev pub count_up : Bool → ℤ → ℤ
count_up cvar_use n = if cvar_use then n else n +ℤ pos 1

abbrev pub count_down : Bool → ℤ → ℤ
count_down cvar_use n = if cvar_use then n else n -ℤ pos 1

-- a permit is taken: the pid goes to the first free place, which holds 0
pub take_permit : Lock → ℕ → Bool → Lock
take_permit l pid cvar_use = record l {
  val = l.val - 1;
  pids = (find l.pids 0 (some pid)).1;
  needed_by = count_up cvar_use l.needed_by;
}

pub enqueue : Lock → ℕ → Bool → Lock
enqueue l p cvar_use = record l {
  waiters = l.waiters ++ p ∷ [];
  needed_by = count_up cvar_use l.needed_by;
}

pub acquire : ℕ → ℕ → Bool → Sync → Acquire × Sync
acquire i p cvar_use s = elim (live_lock s.locks i) [
  | none ↦ (failed, s)
  | some l ↦
      if (find l.pids (pid_of s p) none).0
      then (failed, s)
      else if ltb 0 l.val
      then (acquired, with_lock s i (take_permit l (pid_of s p) cvar_use))
      else (need, with_lock s i (enqueue l p cvar_use))
]

-- the lock after `p` gave it up, to the process that was popped if there is one
pub hand_over : Lock → ℕ → Option ℕ → Lock
hand_over l pid none = record l { val = l.val + 1; pids = (find l.pids pid (some 0)).1 }
hand_over l pid (some next) = record l { pids = (find l.pids pid (some next)).1 }

abbrev pub schedule_popped : Option ℕ → Sched → Sched
schedule_popped none s = s
schedule_popped (some p) s = schedule_process p s

abbrev pub pid_of_popped : Sync → Option ℕ → Option ℕ
pid_of_popped s none = none
pid_of_popped s (some p) = some (pid_of s p)

pub release : ℕ → ℕ → Bool → Sync → Bool × Sync
release i p cvar_use s = elim (live_lock s.locks i) [
  | none ↦ (false, s)
  | some l ↦
      let (next, rest) = pop l.waiters in
      let handed = hand_over l (pid_of s p) (pid_of_popped s next) in
      let l' = record handed { waiters = rest; needed_by = count_down cvar_use l.needed_by } in
      if not (find l.pids (pid_of s p) none).0
      then (false, s)
      else (true, record s { locks = set s.locks i l'; sched = schedule_popped next s.sched })
]

-- `proc->cvar_lock_id = lock_id`
pub set_cvar_lock_id : ℕ → ℕ → Sched → Sched
set_cvar_lock_id p i s = record s {
  procs = update s.procs p (record (s.procs p) { cvar_lock_id = i });
}

-- The condition variable is looked up before the lock is released.
pub wait_cvar : ℕ → ℕ → ℕ → Sync → Bool × Sync
wait_cvar c i p s = elim (live_cvar s.cvars c) [
  | none ↦ (false, s)
  | some v ↦
      let (released, s') = release i p true s in
      if not released then (false, s') else (
        true,
        record s' {
          cvars = set s'.cvars c (record v { waiters = v.waiters ++ p ∷ [] });
          sched = set_cvar_lock_id p i s'.sched;
        },
      )
]

-- a process that left a condition variable asks for its lock again
pub reacquire : ℕ → Sync → Sync
reacquire p s =
    let (r, s') = acquire (s.sched.procs p).cvar_lock_id p true s in
    elim r [
      | acquired ↦ record s' { sched = schedule_process p s'.sched }
      | failed ↦ s'
      | need ↦ s'
    ]

abbrev pub reacquire_popped : Option ℕ → Sync → Sync
reacquire_popped none s = s
reacquire_popped (some p) s = reacquire p s

pub signal_cvar : ℕ → Sync → Bool × Sync
signal_cvar c s = elim (live_cvar s.cvars c) [
  | none ↦ (false, s)
  | some v ↦
      let (next, rest) = pop v.waiters in
      (
        true,
        reacquire_popped next (record s { cvars = set s.cvars c (record v { waiters = rest }) }),
      )
]

-- The `while` of `broadcast_cvar`, over the waiters of `c`: each is popped before it asks for its lock.
pub broadcast_loop : ℕ → Cvar → List ℕ → Sync → Sync
broadcast_loop c v [] s = s
broadcast_loop c v (p ∷ ps) s =
    broadcast_loop c v ps
      (reacquire p (record s { cvars = set s.cvars c (record v { waiters = ps }) }))

pub broadcast_cvar : ℕ → Sync → Bool × Sync
broadcast_cvar c s = elim (live_cvar s.cvars c) [
  | none ↦ (false, s)
  | some v ↦ (true, broadcast_loop c v v.waiters s)
]
