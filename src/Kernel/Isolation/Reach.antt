-- ===== src/Kernel/Isolation/Reach.antt =====
-- The runs of the kernel, as sequences of traps and of calls that go on, and the isolation of the memory of the processes in
-- every state of a run.
use mathlib.Core.Path.{subst}
use cs58final_project.Prelude.{ℕ, ◌≡◌, ◌≢◌, true}
use cs58final_project.Prelude.Run.{ok, Ensures}
use cs58final_project.Pages.{entry}
use cs58final_project.Pages.Owners.{same_place}
use cs58final_project.Kernel.State.{Kern, Machine, Library, goes_on, running}
use cs58final_project.Kernel.Blocking.{resume}
use cs58final_project.Kernel.Traps.{UserContext, Trap, handle_trap}
use cs58final_project.Kernel.Isolation.{Owner, tables_of}
use cs58final_project.Kernel.Isolation.Safe.{IsSafe, IsSafeOutcome}
use cs58final_project.Kernel.Isolation.Birth.{Sound, Fresh}
use cs58final_project.Kernel.Isolation.Calls.{resume-IsSafe}
use cs58final_project.Kernel.Isolation.Traps.{handle_trap-IsSafe}

-- A run: any traps in any order, where a new PCB never has the address of one that is in use, and any rest of a blocked
-- call. A step that faults or ends `wild` leads nowhere.
pub data Reaches (mc : Machine) : Kern → Kern → Type 0 where
  here : (k : Kern) → Reaches mc k k
  trapped :
      (k0 k k' : Kern) (lib : Library) (uc : UserContext) (t : Trap)
      → Reaches mc k0 k
      → Fresh lib.new_pcb k
      → handle_trap mc lib uc t k ≡ ok (goes_on k')
      → Reaches mc k0 k'
  resumed : (k0 k k' : Kern) → Reaches mc k0 k → resume mc k ≡ ok k' → Reaches mc k0 k'

module _ (mc : Machine) (sound : Sound mc) where
  -- A run from a state with the invariant keeps it.
  pub Reaches-IsSafe : (k0 k : Kern) → IsSafe mc k0 → Reaches mc k0 k → IsSafe mc k
  Reaches-IsSafe k0 _ w (here _) = w
  Reaches-IsSafe k0 k' w (trapped _ k _ lib uc t r f e) =
      subst (Ensures (IsSafeOutcome mc)) e
        (handle_trap-IsSafe mc sound lib uc t k f (Reaches-IsSafe k0 k w r))
  Reaches-IsSafe k0 k' w (resumed _ k _ r e) =
      subst (Ensures (IsSafe mc)) e (resume-IsSafe mc k (Reaches-IsSafe k0 k w r))

  -- In a machine whose kernel pages and addresses go over into each other and whose kernel stacks have pages, for every state
  -- that a run reaches from one with the invariant of the kernel's memory, which has a bit to spare in the bitset of frames: two different valid pages, of processes, kernel
  -- stacks or the kernel region, have different frames. The run is any sequence of traps, with every call of the kernel in
  -- them, and of resumed calls, where a new PCB never gets the address of one that is in use, and each of them ends, with no
  -- fault and no write to the kernel's own memory through a pointer of a process. A run with such a write, which the code lets
  -- happen for the pointers of wait and of the calls that store an identifier, is not covered.
  pub frames-apart :
      (k0 k : Kern) (o o' : Owner) (i j : ℕ)
      → IsSafe mc k0
      → Reaches mc k0 k
      → (entry (tables_of k.contexts k.stacks k.region0_pt (running k) o) i).valid ≡ true
      → (entry (tables_of k.contexts k.stacks k.region0_pt (running k) o') j).valid ≡ true
      → ¬ ((o ≡ o') × (i ≡ j))
      → (entry (tables_of k.contexts k.stacks k.region0_pt (running k) o) i).pfn
        ≢ (entry (tables_of k.contexts k.stacks k.region0_pt (running k) o') j).pfn
  frames-apart k0 k o o' i j w0 run hi hj other e = other (
      same_place mc.layout.base k.frames (tables_of k.contexts k.stacks k.region0_pt (running k))
        (Reaches-IsSafe k0 k w0 run).isolated.owned o o' i j hi hj e)
