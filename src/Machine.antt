-- ===== src/Machine.antt =====
-- What the kernel's calls share: the 32-bit register values that stand for results, and the switch
-- to another process. `ERROR`, `SUCCESS` and the sizes are those of yalnix_framework/src.
use cs58final_project.Prelude.{ℕ, zero, suc, ◌+◌, ◌-◌, ◌^◌, Bool, List, [], ◌∷◌, leb}
use cs58final_project.Process.{waiting}
use cs58final_project.Sched.{Sched, set_state, get_next_process, set_running_proc}

-- -1 and 0 as register contents
abbrev pub error : ℕ
error = 2 ^ 32 - 1

abbrev pub success : ℕ
success = 0

-- `(int) r < 0`
abbrev pub is_negative : ℕ → Bool
is_negative r = leb (2 ^ 31) r

-- `FullContextSwitch`, as far as the scheduler sees it: the next process is the running one.
-- The page table registers and the kernel stacks that it also switches are not in this state.
unfoldable pub full_context_switch : ℕ → Sched → Sched
full_context_switch next s = set_running_proc next s

-- The running process gives way to the next one that is ready.
unfoldable pub switch_to_next : Sched → Sched
switch_to_next s = let (next, s') = get_next_process s in full_context_switch next s'

-- `curr_proc->state = WAITING`, and the switch
unfoldable pub wait_and_switch : Sched → Sched
wait_and_switch s = switch_to_next (set_state s.running_proc waiting s)

-- the `n` bytes of user memory from an address on
abbrev pub bytes_at : (ℕ → ℕ) → ℕ → ℕ → List ℕ
bytes_at memory a zero = []
bytes_at memory a (suc n) = memory a ∷ bytes_at memory (a + 1) n
