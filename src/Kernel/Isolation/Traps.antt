-- ===== src/Kernel/Isolation/Traps.antt =====
-- Every trap of the kernel keeps the invariant of its memory: exec, the faults, the clock, the terminals, and the dispatch of the
-- calls.
use cs58final_project.Prelude.{ℕ, ◌&&◌, Option, none, some, List, map, inl, inr, Bool-cases}
use cs58final_project.Prelude.Run.{Run, ok, ◌>>=◌, Ensures, Ensures-bind, Ensures-any}
use cs58final_project.Tty.{tty_transmit_done, tty_receive_done}
use cs58final_project.UserMemory.Moves.{expand_stack-Moves}
use cs58final_project.UserMemory.Pointers.{check_c_string, check_argv, max_string_len, max_argv_len}
use cs58final_project.Loader.{LoadResult, load_error, kill, loaded, load_program}
use cs58final_project.Loader.Moves.{LoadMoves, load_program-Moves}
use cs58final_project.Kernel.{trap_clock_handler}
use cs58final_project.Kernel.State.{
  Kern, Machine, Library, goes_on, at, running, user_mem, with_user_mem, tty_sys, user_byte,
}
use cs58final_project.Kernel.Lifecycle.{
  string_at, argv_at, check_strings, pointer_at, exec_done, exec_call,
}
use cs58final_project.Kernel.Traps.{
  Call, UserContext, save_context, dispatch, trap_kernel, trap_clock, trap_memory, trap_tty_receive,
  trap_tty_transmit, Trap, handle_trap,
}
use cs58final_project.Kernel.Traps
use cs58final_project.Kernel.Isolation.Safe.{
  IsSafe, IsSafeOutcome, Safe-resched, Safe-user, own_pages, brk_call-IsSafe, exit_call-IsSafe,
}
use cs58final_project.Kernel.Isolation.Birth.{Sound, Fresh, fork_call-IsSafe}
use cs58final_project.Kernel.Isolation.Calls.{
  delay_call-IsSafe, wait_call-IsSafe, sync_call-IsSafe, init_call-IsSafe, pipe_init_call-IsSafe,
  reclaim_call-IsSafe, read_pipe-IsSafe, write_pipe-IsSafe, read_tty-IsSafe, write_tty-IsSafe,
}

module _ (mc : Machine) where
  exec_done-IsSafe :
      (k : Kern) (x : LoadResult)
      → IsSafe mc k
      → LoadMoves mc.layout (user_mem k) x
      → Ensures (IsSafeOutcome mc) (exec_done mc k x)
  unfolding exec_done
  exec_done-IsSafe k (load_error none) w a = w
  exec_done-IsSafe k (load_error (some sp)) w a = w
  exec_done-IsSafe k (kill sp m contents) w a =
      exit_call-IsSafe mc none
        (record (with_user_mem k m) { contents = contents; sp = at k.sp (running k) sp })
        (Safe-user mc k m w a)
  exec_done-IsSafe k (loaded pc sp m contents) w a = Safe-user mc k m w a

  exec_call-IsSafe :
      (lib : Library) (k : Kern) → IsSafe mc k → Ensures (IsSafeOutcome mc) (exec_call mc lib k)
  unfolding exec_call
  exec_call-IsSafe lib k w =
      let filename = (k.sched.procs (running k)).reg0 in
      let argvec = (k.sched.procs (running k)).reg1 in
      let m = user_mem k in
      let memory = user_byte mc k in
      let argv = argv_at mc (pointer_at mc k) max_argv_len argvec in
      let file = lib.open_file (string_at mc memory max_string_len filename) in
      let args = map (string_at mc memory max_string_len) argv in
      elim (Bool-cases (
        check_c_string mc.layout m memory filename
        && (check_argv mc.layout m (pointer_at mc k) mc.abi.pointer_size argvec
            && check_strings mc m memory argv))) [
              | inr refused ↦ rw refused w
              | inl checked ↦ rw checked (
                  Ensures-bind (LoadMoves mc.layout m) (IsSafeOutcome mc)
                    (load_program mc.layout mc.abi (lib.alloc 0) file args m k.contents)
                    (exec_done mc k)
                    (load_program-Moves mc.layout mc.abi (lib.alloc 0) file args m k.contents
                      (own_pages mc k w))
                    (λ x a. exec_done-IsSafe k x w a))
            ]

  save_context-IsSafe : (uc : UserContext) (k : Kern) → IsSafe mc k → IsSafe mc (save_context uc k)
  unfolding save_context
  save_context-IsSafe uc k w = w

  memory-IsSafe :
      (lib : Library) (addr : ℕ) (k : Kern)
      → IsSafe mc k
      → Ensures (IsSafeOutcome mc) (trap_memory mc lib addr k)
  unfolding trap_memory
  memory-IsSafe lib addr k w =
      let (b, m, run, a) = expand_stack-Moves mc.layout addr (user_mem k) (own_pages mc k w) in
      let w' = Safe-user mc k m w a in
      elim (Bool-cases b) [
        | inl grown ↦ rw (run, grown) w'
        | inr refused ↦ rw (run, refused) (exit_call-IsSafe mc none (with_user_mem k m) w')
      ]

  -- a call that goes on
  on :
      (r : Run Kern)
      → Ensures (IsSafe mc) r
      → Ensures (IsSafeOutcome mc) (r >>= λ k. ok (goes_on k))
  on r w = Ensures-bind (IsSafe mc) (IsSafeOutcome mc) r _ w (λ k w'. w')

  clock-IsSafe :
      (lib : Library) (uc : UserContext) (k : Kern)
      → IsSafe mc k
      → Ensures (IsSafe mc) (trap_clock mc lib uc k)
  unfolding trap_clock
  clock-IsSafe lib uc k w =
      let k' = save_context uc k in
      Ensures-any (IsSafe mc) (trap_clock_handler _ _ k'.sched) _
        (λ s. Safe-resched mc k' s (save_context-IsSafe uc k w))

  receive-IsSafe :
      (lib : Library) (uc : UserContext) (code : ℕ) (line : List ℕ) (k : Kern)
      → IsSafe mc k
      → IsSafe mc (trap_tty_receive mc lib uc code line k)
  unfolding trap_tty_receive
  receive-IsSafe lib uc code line k w =
      let k' = save_context uc k in
      let y = tty_receive_done mc.num_terminals (lib.alloc 0) code line (tty_sys k') in
      Safe-resched mc (record k' { ttys = y.ttys; log = y.log }) y.sched
        (save_context-IsSafe uc k w)

  transmit-IsSafe :
      (lib : Library) (uc : UserContext) (code : ℕ) (k : Kern)
      → IsSafe mc k
      → Ensures (IsSafe mc) (trap_tty_transmit mc lib uc code k)
  unfolding trap_tty_transmit
  transmit-IsSafe lib uc code k w =
      let k' = save_context uc k in
      Ensures-any (IsSafe mc) (tty_transmit_done mc.max_line mc.num_terminals code (tty_sys k')) _
        (λ y.
          Safe-resched mc (record k' { ttys = y.ttys; log = y.log }) y.sched
            (save_context-IsSafe uc k w))

  module _ (sound : Sound mc) (lib : Library) where
    dispatch-IsSafe :
        (c : Call) (k : Kern)
        → Fresh lib.new_pcb k
        → IsSafe mc k
        → Ensures (IsSafeOutcome mc) (dispatch mc lib c k)
    unfolding dispatch
    dispatch-IsSafe Traps.getpid k f w = w
    dispatch-IsSafe Traps.brk k f w = on _ (brk_call-IsSafe mc k w)
    dispatch-IsSafe Traps.delay k f w = on _ (delay_call-IsSafe mc lib.alloc k w)
    dispatch-IsSafe Traps.exit k f w = exit_call-IsSafe mc _ k w
    dispatch-IsSafe Traps.fork k f w = on _ (fork_call-IsSafe mc sound lib k f w)
    dispatch-IsSafe Traps.exec k f w = exec_call-IsSafe lib k w
    dispatch-IsSafe Traps.wait k f w = on _ (wait_call-IsSafe mc lib.alloc k w)
    dispatch-IsSafe Traps.tty_read k f w = on _ (read_tty-IsSafe mc k w)
    dispatch-IsSafe Traps.tty_write k f w = on _ (write_tty-IsSafe mc lib.alloc k w)
    dispatch-IsSafe Traps.lock_init k f w = on _ (init_call-IsSafe mc _ k w)
    dispatch-IsSafe Traps.cvar_init k f w = on _ (init_call-IsSafe mc _ k w)
    dispatch-IsSafe Traps.lock_acquire k f w = sync_call-IsSafe mc _ k w
    dispatch-IsSafe Traps.lock_release k f w = sync_call-IsSafe mc _ k w
    dispatch-IsSafe Traps.cvar_signal k f w = sync_call-IsSafe mc _ k w
    dispatch-IsSafe Traps.cvar_broadcast k f w = sync_call-IsSafe mc _ k w
    dispatch-IsSafe Traps.cvar_wait k f w = sync_call-IsSafe mc _ k w
    dispatch-IsSafe Traps.reclaim k f w = reclaim_call-IsSafe mc lib.alloc k w
    dispatch-IsSafe Traps.sem_up k f w = sync_call-IsSafe mc _ k w
    dispatch-IsSafe Traps.sem_down k f w = sync_call-IsSafe mc _ k w
    dispatch-IsSafe Traps.sem_init k f w = on _ (init_call-IsSafe mc _ k w)
    dispatch-IsSafe Traps.pipe_init k f w = on _ (pipe_init_call-IsSafe mc lib.alloc k w)
    dispatch-IsSafe Traps.pipe_read k f w = on _ (read_pipe-IsSafe mc k w)
    dispatch-IsSafe Traps.pipe_write k f w = on _ (write_pipe-IsSafe mc lib.alloc k w)

    save_context-Fresh :
        (q : ℕ) (uc : UserContext) (k : Kern) → Fresh q k → Fresh q (save_context uc k)
    unfolding save_context
    save_context-Fresh q uc k f = record { other = f.other; unused = f.unused }

    trap_kernel-IsSafe :
        (uc : UserContext) (c : Option Call) (k : Kern)
        → Fresh lib.new_pcb k
        → IsSafe mc k
        → Ensures (IsSafeOutcome mc) (trap_kernel mc lib uc c k)
    unfolding trap_kernel
    trap_kernel-IsSafe uc none k f w = save_context-IsSafe uc k w
    trap_kernel-IsSafe uc (some c) k f w =
        dispatch-IsSafe c (save_context uc k) (save_context-Fresh lib.new_pcb uc k f)
          (save_context-IsSafe uc k w)

    -- In a machine whose kernel pages and addresses go over into each other and whose kernel stacks have pages, in a state with
    -- the invariant of the kernel's memory, which has a bit to spare in the bitset of frames, for a PCB address that is not in use: if the handling of a trap ends, with no fault,
    -- no write to the kernel's own memory through a pointer of the process, and no halt, then the state it leaves has the
    -- invariant. This covers every trap and every call; of a trap that faults, or that writes through such a pointer, which
    -- wait and the calls that store an identifier do not check, nothing is said.
    pub handle_trap-IsSafe :
        (uc : UserContext) (t : Trap) (k : Kern)
        → Fresh lib.new_pcb k
        → IsSafe mc k
        → Ensures (IsSafeOutcome mc) (handle_trap mc lib uc t k)
    unfolding handle_trap
    handle_trap-IsSafe uc (Traps.kernel c) k f w = trap_kernel-IsSafe uc c k f w
    handle_trap-IsSafe uc Traps.clock k f w = on _ (clock-IsSafe lib uc k w)
    handle_trap-IsSafe uc Traps.math k f w = exit_call-IsSafe mc none k w
    handle_trap-IsSafe uc Traps.illegal k f w = exit_call-IsSafe mc none k w
    handle_trap-IsSafe uc (Traps.memory addr) k f w = memory-IsSafe lib addr k w
    handle_trap-IsSafe uc (Traps.receive code line) k f w = receive-IsSafe lib uc code line k w
    handle_trap-IsSafe uc (Traps.transmit code) k f w = on _ (transmit-IsSafe lib uc code k w)
