-- ===== src/Sched.antt =====
-- yalnix_framework/src/scheduler.c: ready queue, blocked queues, sleepers and the clock.
-- A queue is the list of the PCBs on it, first to last. TracePrintf has no effect on the state and
-- is left out.
pub mod Queues
pub mod Wake
pub mod Waiters
pub mod States
mod Tests
use cs58final_project.Prelude.{
  ℕ, zero, suc, ◌+◌, ◌^◌, Bool, true, false, Option, none, some, List, [], ◌∷◌, ◌++◌, ltb, leb,
  ◌==◌, if◌then◌else◌, length, get_or, ◌&&◌,
}
use cs58final_project.Prelude.Run.{Run, ok, fault, out_of_fuel, ◌>>=◌}
use cs58final_project.Process.{
  Pcb, Store, ProcessState, running, ready, waiting, update, find_exited_child, zero_pcb,
}
use cs58final_project.Sleep
use cs58final_project.Sleep.{Sleepers}

-- the static variables of scheduler.c, and the PCBs
pub record Sched : Type 0 where
  pub procs : Store
  pub sleepers : Sleepers
  pub num_ticks : ℕ
  pub running_proc : ℕ
  pub idle_proc : ℕ
  pub main_queue : List ℕ
  pub wait_queue : List ℕ
  pub io_queue : List ℕ

pub data QueueType : Type 0 where
  main wait_blocking io_blocking : QueueType

unfoldable pub enque_process : QueueType → ℕ → Sched → Sched
enque_process main p s = record s { main_queue = s.main_queue ++ p ∷ [] }
enque_process wait_blocking p s = record s { wait_queue = s.wait_queue ++ p ∷ [] }
enque_process io_blocking p s = record s { io_queue = s.io_queue ++ p ∷ [] }

-- `p->state = st`
unfoldable pub set_state : ℕ → ProcessState → Sched → Sched
set_state p st s = record s { procs = update s.procs p (record (s.procs p) { state = st }) }

pub init_scheduler : Bool → Store → ℕ → ℕ → Bool × Sched
init_scheduler allocated procs ticks idle_pcb = (
  allocated,
  record {
    procs = procs;
    sleepers = record { arr = []; current_size = 20 };
    num_ticks = ticks;
    running_proc = idle_pcb;
    idle_proc = idle_pcb;
    main_queue = [];
    wait_queue = [];
    io_queue = [];
  },
)

unfoldable pub set_running_proc : ℕ → Sched → Sched
set_running_proc p s = record s { running_proc = p }

unfoldable pub increment_ticks : Sched → Sched
increment_ticks s = record s { num_ticks = s.num_ticks + 1 }

unfoldable pub schedule_process : ℕ → Sched → Sched
schedule_process p s = if p == s.idle_proc then s else enque_process main p (set_state p ready s)

pub io_block_process : ℕ → Sched → Sched
io_block_process p s = enque_process io_blocking p (set_state p waiting s)

pub wait_block_process : ℕ → Sched → Sched
wait_block_process p s = enque_process wait_blocking p (set_state p waiting s)

pub deque_from : List ℕ → Sched → Option ℕ × Sched
deque_from [] s = (none, s)
deque_from (p ∷ rest) s = (some p, record s { main_queue = rest })

pub deque_process : Sched → Option ℕ × Sched
deque_process s = deque_from s.main_queue s

pub run_or_idle : Option ℕ × Sched → ℕ × Sched
run_or_idle (none, s) = (s.idle_proc, s)
run_or_idle (some p, s) = (p, set_state p running s)

pub get_next_process : Sched → ℕ × Sched
get_next_process s = run_or_idle (deque_process s)

abbrev pub wake_key : Store → ℕ → ℕ
wake_key procs p = (procs p).wake_up

-- The tick is stored before the heap is asked; on failure the state goes back to RUNNING. A sum that is not an int is a fault.
pub put_to_sleep : Bool → ℕ → ℕ → Sched → Run (Bool × Sched)
put_to_sleep allocated p t s =
    let procs' =
      update s.procs p (record (s.procs p) { wake_up = s.num_ticks + t; state = waiting }) in
    if leb (2 ^ 31) (s.num_ticks + t)
    then fault
    else Sleep.add_to_heap (wake_key procs') allocated s.sleepers p >>= λ r.
        let s' = record s { procs = procs'; sleepers = r.1 } in
        ok (r.0, if r.0 then s' else set_state p running s')

-- The `while` of `wake_sleepers`. `memory` says whether each round could allocate. An empty
-- heap would have NULL put on the queue, which is a fault.
pub wake_sleepers_loop : ℕ → (ℕ → Bool) → Sched → Run Sched
wake_sleepers_loop zero memory s = out_of_fuel
wake_sleepers_loop (suc fuel) memory s =
    let first = get_or s.sleepers.arr 0 0 in
    let round = Sleep.remove_from_heap (wake_key s.procs) (memory fuel) s.sleepers >>= λ r.
    let s' = record s { sleepers = r.1 } in
    elim r.0 [ none ↦ fault | some p ↦ wake_sleepers_loop fuel memory (enque_process main p s') ] in
    if ltb 0 (length s.sleepers.arr) && leb (s.procs first).wake_up s.num_ticks then round else ok s

pub wake_sleepers : (ℕ → Bool) → Sched → Run Sched
wake_sleepers memory s = wake_sleepers_loop (length s.sleepers.arr + 1) memory s

-- `wait_unblock_cond`: it collects an exited child, whose exit code goes to register 1.
pub wait_unblock_cond : Bool → Store → ℕ → Option Store
wait_unblock_cond allocated procs p = elim (find_exited_child allocated procs p) [
  | none ↦ none
  | some (child, procs') ↦
      some (update procs' p (record (procs' p) { reg1 = (procs child).exit_code }))
]

-- The walk of `find_blocked_process`: the first process that can go on, the others, and the store
-- that the condition left.
pub find_blocked : Bool → Store → List ℕ → Option (ℕ × List ℕ × Store)
find_blocked allocated procs [] = none
find_blocked allocated procs (p ∷ rest) =
    let later = find_blocked allocated procs rest in
    elim (wait_unblock_cond allocated procs p) [
      | some procs' ↦ some (p, rest, procs')
      | none ↦ elim later [ none ↦ none | some (q, others, procs') ↦ some (q, p ∷ others, procs') ]
    ]

-- `find_blocked_process(WAIT_BLOCKING_QUEUE, wait_unblock_cond)`
pub find_blocked_process : Bool → Sched → Option ℕ × Sched
find_blocked_process allocated s = elim (find_blocked allocated s.procs s.wait_queue) [
  | none ↦ (none, s)
  | some (p, others, procs') ↦ (some p, record s { wait_queue = others; procs = procs' })
]

pub wake_waiters_loop : ℕ → (ℕ → Bool) → Sched → Run Sched
wake_waiters_loop zero memory s = out_of_fuel
wake_waiters_loop (suc fuel) memory s =
    let r = find_blocked_process (memory fuel) s in
    elim r.0 [ none ↦ ok r.1 | some p ↦ wake_waiters_loop fuel memory (schedule_process p r.1) ]

pub wake_waiters : (ℕ → Bool) → Sched → Run Sched
wake_waiters memory s = wake_waiters_loop (length s.wait_queue + 1) memory s
