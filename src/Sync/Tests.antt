-- ===== src/Sync/Tests.antt =====
-- synchronization.c at a concrete state: the lock at index 1 is held by process 1, with the pid 11, and
-- process 2, with the pid 12, waits for it.
use cs58final_project.Prelude.{
  ℕ, zero, suc, ◌+◌, ◌<◌, ◌≡◌, ◌≢◌, refl, arith, true, false, [], ◌∷◌, none, some, ◌==◌,
  if◌then◌else◌, set, inr,
}
use cs58final_project.Prelude.Int.{pos}
use cs58final_project.Prelude.Arrays.{count}
use cs58final_project.Process.{Store, zero_pcb, update}
use cs58final_project.Sched.{Sched, schedule_process}
use cs58final_project.Sync.{
  Sync, Lock, zero_lock, live_lock, live_cvar, set_cvar_lock_id, wait_cvar, signal_cvar, need,
  acquire, release, with_lock, pid_of, pop,
}
use cs58final_project.Sync.Holders.{one_if}
use cs58final_project.Sync.Inv.{LockIsValid, acquire_lem, release_lem}
use cs58final_project.Sync.Wait.{wait_cvar_lem, signal_cvar_lem}
use cs58final_project.Sync.Slots.Laws.{live, is_live}
use cs58final_project.Sync.Tables.{Table, fresh_lock, new_lock, delete_lock, lock_used}
use cs58final_project.Sync.Tables.Valid.{TableIsValid}
use cs58final_project.Sync.Tables.Laws.{new_lock_lem, delete_lock_lem}

abbrev store : Store
store (suc zero) = record zero_pcb { pid = 11 }
store (suc (suc zero)) = record zero_pcb { pid = 12 }
store (suc (suc (suc zero))) = record zero_pcb { pid = 13 }
store _ = zero_pcb

abbrev busy_lock : Lock
busy_lock = record {
  capacity = 1;
  val = 0;
  in_use = true;
  waiters = 2 ∷ [];
  pids = 11 ∷ [];
  needed_by = pos 2;
}

abbrev quiet : Sched
quiet = record {
  procs = store;
  sleepers = record { arr = []; current_size = 20 };
  num_ticks = 5;
  running_proc = 1;
  idle_proc = 9;
  main_queue = [];
  wait_queue = [];
  io_queue = [];
}

abbrev busy : Sync
busy = record {
  locks = zero_lock ∷ busy_lock ∷ [];
  cvars = [];
  open_lock_idx = 0;
  open_cvar_idx = 0;
  sched = quiet;
}

busy-found : live_lock busy.locks 1 ≡ some busy_lock
busy-found = unfold live_lock in refl

busy_lock-IsValid : LockIsValid (pid_of busy) busy_lock
unfolding count
busy_lock-IsValid = record {
  size = refl;
  permits = refl;
  no_idle_permit = λ h. absurd (omega arith);
  named = refl;
  once = λ x ne. ground arith;
}

acquire_lem_example :
    (l' : Lock) × (acquire 1 3 false busy ≡ (need, with_lock busy 1 l'))
    × LockIsValid (pid_of busy) l'
    × (l'.waiters ≡ 2 ∷ 3 ∷ [])
    × ((x : ℕ) → x ≢ 0 → count x l'.pids ≡ count x (11 ∷ []) + 0)
acquire_lem_example = acquire_lem busy 1 3 busy_lock false busy-found busy_lock-IsValid (record {
  has_pid = omega arith;
  not_holder = unfold count in refl;
  not_waiter = unfold count in refl;
})

release_lem_example :
    (l' : Lock) × (release 1 1 false busy
      ≡ (true, record busy { locks = set busy.locks 1 l'; sched = schedule_process 2 quiet }))
    × LockIsValid (pid_of busy) l'
    × (l'.waiters ≡ [])
    × ((x : ℕ) → x ≢ 0 → count x l'.pids + one_if x 11 ≡ count x (11 ∷ []) + one_if x 12)
unfolding pop
release_lem_example =
    release_lem busy 1 1 busy_lock false busy-found busy_lock-IsValid (omega arith)
      (unfold count in omega arith)

-- a condition variable with one waiter, process 3, which left the lock at index 1
abbrev with_cvar : Sync
with_cvar = record busy {
  cvars = record { waiters = 3 ∷ []; in_use = true } ∷ [];
  sched = record quiet { procs = update store 3 (record (store 3) { cvar_lock_id = 1 }) };
}

with_cvar-IsValid : LockIsValid (pid_of with_cvar) busy_lock
unfolding count
with_cvar-IsValid = record {
  size = refl;
  permits = refl;
  no_idle_permit = λ h. absurd (omega arith);
  named = refl;
  once = λ x ne. ground arith;
}

wait_cvar_lem_example :
    (l' : Lock) × (wait_cvar 0 1 1 with_cvar ≡ (
      true,
      record with_cvar {
        locks = set with_cvar.locks 1 l';
        cvars = record { waiters = 3 ∷ 1 ∷ []; in_use = true } ∷ [];
        sched = set_cvar_lock_id 1 1 (schedule_process 2 with_cvar.sched);
      },
    ))
    × LockIsValid (pid_of with_cvar) l'
    × (l'.waiters ≡ [])
    × ((x : ℕ) → x ≢ 0 → count x l'.pids + one_if x 11 ≡ count x (11 ∷ []) + one_if x 12)
unfolding pop
wait_cvar_lem_example =
    wait_cvar_lem with_cvar 0 1 1 (record { waiters = 3 ∷ []; in_use = true }) busy_lock
      (unfold live_cvar in refl) (unfold live_lock in refl) with_cvar-IsValid (omega arith)
      (unfold count in omega arith)

signal_cvar_lem_example :
    (l' : Lock) × (signal_cvar 0 with_cvar ≡ (
      true,
      record with_cvar {
        locks = set with_cvar.locks 1 l';
        cvars = record { waiters = []; in_use = true } ∷ [];
      },
    ))
    × LockIsValid (pid_of with_cvar) l'
    × (l'.waiters ≡ 2 ∷ 3 ∷ [])
    × ((x : ℕ) → x ≢ 0 → count x l'.pids ≡ count x (11 ∷ []) + 0)
signal_cvar_lem_example =
    signal_cvar_lem with_cvar 0 3 [] (record { waiters = 3 ∷ []; in_use = true }) busy_lock
      (unfold live_cvar in refl) refl (unfold live_lock in refl) with_cvar-IsValid
      (record {
        has_pid = omega arith;
        not_holder = unfold count in refl;
        not_waiter = unfold count in refl;
      })

-- one lock that is in use and one free entry
abbrev idle_lock : Lock
idle_lock = record zero_lock { in_use = true; capacity = 1; val = 1; pids = 0 ∷ [] }

abbrev one_used : Table Lock
one_used = record { slots = idle_lock ∷ zero_lock ∷ []; open_idx = 1 }

one_used-IsValid : TableIsValid lock_used one_used
one_used-IsValid = record {
  not_empty = omega arith;
  in_range = omega arith;
  packed = packed;
  gap = refl;
}
  where
    packed : (i : ℕ) → i < 1 → is_live lock_used one_used.slots i ≡ true
    packed zero h = refl
    packed (suc i) h = absurd (omega arith)

new_lock_lem_example :
    (k : ℕ) × (t' : Table Lock) × (new_lock false true 3 one_used ≡ (some k, t'))
    × TableIsValid lock_used t'
    × (live lock_used one_used.slots k ≡ none)
    × ((j : ℕ)
        → live lock_used t'.slots j
          ≡ (if j == k then some (fresh_lock 3) else live lock_used one_used.slots j))
new_lock_lem_example = new_lock_lem false 3 one_used one_used-IsValid (inr (omega arith))

delete_lock_lem_example :
    (t' : Table Lock) × (delete_lock false 0 one_used ≡ (true, t'))
    × TableIsValid lock_used t'
    × ((j : ℕ)
        → live lock_used t'.slots j ≡ (if j == 0 then none else live lock_used one_used.slots j))
delete_lock_lem_example = delete_lock_lem false 0 one_used idle_lock one_used-IsValid refl refl
