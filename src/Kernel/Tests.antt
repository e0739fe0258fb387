-- ===== src/Kernel/Tests.antt =====
-- The kernel at concrete states: a fork on a small machine, and the clock trap where process 1 sleeps until the tick 6,
-- process 3 runs and 4 is ready.
mod Small
use cs58final_project.Prelude.{
  ℕ, Option, some, none, ◌≡◌, ◌≢◌, ap, refl, arith, true, List, [], ◌∷◌,
}
use cs58final_project.Prelude.Run.{Run, ok, fault, wild, out_of_fuel, Ensures}
use cs58final_project.Process.{zero_pcb, create_new_pcb}
use cs58final_project.Sched.{Sched}
use cs58final_project.Kernel.Lifecycle.{fork_call, fork_as, fork_made, fork_stack, give_stack}
use cs58final_project.UserMemory.{uc_copy, copy_pages, copy_page}
use cs58final_project.Pages.{alloc_page, unmap_no_free, Pte, entry}
use cs58final_project.Frames.{find_frame, skip_used, check_if_free, byte_at, bit_is_free, set_frame}
use cs58final_project.KernelMemory.{kc_copy, set_kernel_brk}
use cs58final_project.Kernel.State.{Kern, Outcome, halted, goes_on, running}
use cs58final_project.Kernel.Isolation.{Owner, user, stack, kernel, tables_of}
use cs58final_project.Kernel.Traps.{UserContext, Trap, handle_trap}
use cs58final_project.Kernel.Isolation.Safe.{IsSafeOutcome}
use cs58final_project.Kernel.Isolation.Traps.{handle_trap-IsSafe}
use cs58final_project.Kernel.Isolation.Reach.{Reaches, here, trapped, frames-apart}
use cs58final_project.UserMemory.{UserMem, init_region1_pt}
use cs58final_project.KernelMemory.{KernelMem, init_region0_pt}
use cs58final_project.Kernel.State.{kernel_numbers, kernel_mem, user_mem, with_user_mem}
use cs58final_project.Kernel.Isolation.Boot.{with_region0, enabled, boot-IsSafe}
use cs58final_project.Kernel.Isolation.Safe.{IsSafe}
use cs58final_project.Prelude.{Bool, get_or}
use cs58final_project.UserMemory.Bytes.{store, poke}
use cs58final_project.Kernel.State.{put_user}
use cs58final_project.Kernel.Tests.Small.{
  unbooted, unbooted-Tracked, unbooted-free, unbooted-IsLaidOut, unbooted-IsBlank, small, start,
  rich, start-IsSafe, small-Sound, start-Fresh,
}
use cs58final_project.Kernel.Traps

abbrev after_write : Run Kern → Kern
after_write r = elim r [ ok k ↦ k | fault ↦ start | wild ↦ start | out_of_fuel ↦ start ]

-- what process 1 traps with
abbrev registers : UserContext
registers = record { regs0 = 0; regs1 = 0; regs2 = 0; user_sp = 2100; user_pc = 2048 }

handle_trap-IsSafe_example :
    Ensures
      (IsSafeOutcome small)
      (handle_trap small rich registers (Traps.kernel (some Traps.fork)) start)
handle_trap-IsSafe_example =
    handle_trap-IsSafe small small-Sound rich registers (Traps.kernel (some Traps.fork)) start
      start-Fresh start-IsSafe

-- a pointer that nobody has checked: the write goes to the kernel's memory, to a page without write permission, to the stack
unchecked_pointers :
    (put_user small 32 (7 ∷ []) start ≡ wild)
    × (put_user small 2050 (7 ∷ []) start ≡ fault)
    × (get_or ((after_write (put_user small 2100 (7 ∷ []) start)).contents 5) 4 0 ≡ 7)
unfolding put_user store poke
unchecked_pointers = (refl, refl, refl)

abbrev one_asleep : Sched
one_asleep = record {
  procs = λ p. record zero_pcb { pid = p; wake_up = 6 };
  sleepers = record { arr = 1 ∷ []; current_size = 20 };
  num_ticks = 5;
  running_proc = 3;
  idle_proc = 9;
  main_queue = 4 ∷ [];
  wait_queue = 2 ∷ [];
  io_queue = [];
}

abbrev after : Run Outcome → Kern
after (ok (goes_on k)) = k
after (ok halted) = start
after fault = start
after wild = start
after out_of_fuel = start

abbrev forked : Kern
forked = after (handle_trap small rich registers (Traps.kernel (some Traps.fork)) start)

abbrev tables : Kern → Owner → List Pte
tables k = tables_of k.contexts k.stacks k.region0_pt (running k)

-- The fork succeeds: the code of parent and child is mapped, and the child waits in the queue.
fork_runs :
    (handle_trap small rich registers (Traps.kernel (some Traps.fork)) start ≡ ok (goes_on forked))
    × ((entry (tables forked (user 1)) 0).valid ≡ true)
    × ((entry (tables forked (user 2)) 0).valid ≡ true)
unfolding handle_trap Traps.trap_kernel Traps.dispatch fork_call fork_as create_new_pcb uc_copy
    Traps.save_context copy_pages copy_page alloc_page find_frame skip_used check_if_free byte_at
    bit_is_free set_frame unmap_no_free fork_made fork_stack kc_copy set_kernel_brk give_stack
fork_runs = (refl, refl, refl)

abbrev number_of : Owner → ℕ
number_of (user p) = p
number_of (stack p) = 0
number_of kernel = 0

frames-apart_example :
    (entry (tables forked (user 1)) 0).pfn ≢ (entry (tables forked (user 2)) 0).pfn
frames-apart_example =
    frames-apart small small-Sound start forked (user 1) (user 2) 0 0 start-IsSafe
      (trapped start start forked rich registers (Traps.kernel (some Traps.fork)) (here start)
        start-Fresh fork_runs.0)
      fork_runs.1 fork_runs.2 (λ e. absurd (omega (arith, ap number_of e.0)))

boot-IsSafe_example :
    (st : List Pte) × (m : KernelMem) × (b : Bool) × (u : UserMem) × (init_region0_pt
        (kernel_numbers small)
        (kernel_mem unbooted)
      ≡ ok (some st, m))
    × (init_region1_pt small.layout (user_mem (with_region0 small unbooted m st)) ≡ ok (b, u))
    × IsSafe small (enabled small (with_user_mem (with_region0 small unbooted m st) u))
    × Ensures
        (IsSafe small)
        (fork_stack small 2 (enabled small (with_user_mem (with_region0 small unbooted m st) u)))
boot-IsSafe_example =
    boot-IsSafe small small-Sound unbooted 2 start-Fresh.other unbooted-Tracked unbooted-free
      unbooted-IsLaidOut unbooted-IsBlank
