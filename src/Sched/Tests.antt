-- ===== src/Sched/Tests.antt =====
-- The scheduler at a concrete state: process 9 is idle, 1 and 2 sleep until the ticks 3 and 8, and
-- the clock shows 5.
use cs58final_project.Prelude.{
  ℕ, zero, suc, ◌≡◌, refl, arith, true, List, [], ◌∷◌, ◌==◌, if◌then◌else◌,
}
use cs58final_project.Prelude.Run.{ok}
use cs58final_project.Prelude.Arrays.{count}
use cs58final_project.Sleep.{Sleepers}
use cs58final_project.Sleep.Order.{IsHeap}
use cs58final_project.Process.{Store, zero_pcb, exited}
use cs58final_project.Sched.{Sched, wake_key, wake_sleepers, wake_waiters}
use cs58final_project.Sched.Queues.{schedule_all, next_many, next_many-schedule_all}
use cs58final_project.Sched.Waiters.{Collects, wake_waiters_lem}
use cs58final_project.Sched.Wake.{HeapIsValid, Wakes, woken_state, wake_sleepers_lem}

abbrev store : Store
store (suc zero) = record zero_pcb { pid = 1; wake_up = 3 }
store (suc (suc zero)) = record zero_pcb { pid = 2; wake_up = 8 }
store _ = zero_pcb

abbrev two_asleep : Sched
two_asleep = record {
  procs = store;
  sleepers = record { arr = 1 ∷ 2 ∷ []; current_size = 20 };
  num_ticks = 5;
  running_proc = 3;
  idle_proc = 9;
  main_queue = 4 ∷ [];
  wait_queue = [];
  io_queue = [];
}

edges : IsHeap (wake_key store) (1 ∷ 2 ∷ [])
edges zero p q = absurd (omega arith)
edges (suc zero) p q = omega arith
edges (suc (suc c)) p q = absurd (omega arith)

two_asleep-HeapIsValid : HeapIsValid two_asleep
two_asleep-HeapIsValid = record { heap = edges; room = omega arith; some_room = omega arith }

wake_sleepers_lem_example :
    (sl : Sleepers) × (woken : List ℕ) × (wake_sleepers (λ n. true) two_asleep
      ≡ ok (woken_state two_asleep sl woken))
    × Wakes two_asleep sl woken
wake_sleepers_lem_example = wake_sleepers_lem (λ n. true) two_asleep two_asleep-HeapIsValid

next_many-schedule_all_example :
    next_many 5 (schedule_all (5 ∷ 6 ∷ []) two_asleep) ≡ 4 ∷ 5 ∷ 6 ∷ 9 ∷ 9 ∷ []
next_many-schedule_all_example =
    next_many-schedule_all (5 ∷ 6 ∷ []) 2 two_asleep (omega arith, (omega arith, tt))

-- process 1 waits for its child 2, which has exited
abbrev one_waits : Sched
one_waits = record two_asleep {
  procs = λ p.
      if p == 1
      then record zero_pcb { children = 2 ∷ []; arr_size = 10 }
      else record zero_pcb { state = exited; exit_code = 7 };
  wait_queue = 1 ∷ [];
}

wake_waiters_lem_example :
    (s' : Sched) × (woken : List ℕ) × (wake_waiters (λ n. true) one_waits ≡ ok s')
    × Collects one_waits s' woken
wake_waiters_lem_example = wake_waiters_lem (λ n. true) one_waits (unfold count in refl)
