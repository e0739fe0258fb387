-- ===== src/Sched/States.antt =====
-- What the scheduler changes of a PCB when a process becomes ready or runs: its state alone.
use cs58final_project.Prelude.{ℕ, ◌≡◌, refl, ap, arith, List, [], ◌∷◌, inl, inr, ◌==◌, Bool-cases}
use cs58final_project.Process.{Pcb, ProcessState, running, ready}
use cs58final_project.Sched.{
  Sched, set_state, enque_process, schedule_process, get_next_process, deque_process, deque_from,
  run_or_idle,
}

-- the two PCBs differ in the state at most
abbrev pub ButState : Pcb → Pcb → Type 0
ButState pcb pcb' = (st : ProcessState) × (pcb' ≡ record pcb { state = st })

pub set_state-ButState :
    (p : ℕ) (st : ProcessState) (s : Sched) (q : ℕ)
    → ButState (s.procs q) ((set_state p st s).procs q)
unfolding set_state
set_state-ButState p st s q = elim (Bool-cases (q == p)) [
  | inl same ↦
      let here : q ≡ p = ground arith in
      (st, rw same (ap (λ (x : ℕ). record (s.procs x) { state = st }) (ground arith)))
  | inr other ↦ ((s.procs q).state, rw other)
]

pub schedule_process-ButState :
    (p : ℕ) (s : Sched) (q : ℕ) → ButState (s.procs q) ((schedule_process p s).procs q)
unfolding schedule_process enque_process
schedule_process-ButState p s q = elim (Bool-cases (p == s.idle_proc)) [
  | inl idle ↦ rw idle ((s.procs q).state, refl)
  | inr busy ↦ rw busy (set_state-ButState p ready s q)
]

run_or_idle-ButState :
    (ps : List ℕ) (s : Sched) (q : ℕ)
    → ButState (s.procs q) ((run_or_idle (deque_from ps s)).1.procs q)
unfolding run_or_idle deque_from
run_or_idle-ButState [] s q = ((s.procs q).state, refl)
run_or_idle-ButState (p ∷ ps) s q = set_state-ButState p running (record s { main_queue = ps }) q

pub get_next_process-ButState :
    (s : Sched) (q : ℕ) → ButState (s.procs q) ((get_next_process s).1.procs q)
unfolding get_next_process deque_process
get_next_process-ButState s q = run_or_idle-ButState s.main_queue s q
