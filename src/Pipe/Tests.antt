-- ===== src/Pipe/Tests.antt =====
-- pipe.c at concrete pipes: a buffer of four bytes that holds 10 and 11, which goes round its end.
use cs58final_project.Prelude.{ℕ, ◌≡◌, refl, arith, true, false, [], ◌∷◌, ◌++◌, take}
use cs58final_project.Prelude.Run.{ok}
use cs58final_project.Ids
use cs58final_project.Process.{zero_pcb}
use cs58final_project.Sched.{Sched}
use cs58final_project.Sched.Queues.{schedule_all}
use cs58final_project.Pipe.{Pipe, zero_pipe, get_pipe, linearize}
use cs58final_project.Pipe.Ring.{contents, IsRing}
use cs58final_project.Pipe.Calls.{
  PipeSys, returned, blocked, pipe_write, pipe_read, pipe_read_resume,
}
use cs58final_project.Pipe.Calls.Transfer.{IsCall, Wrote, written, pipe_write_lem}
use cs58final_project.Pipe.Calls.Served.{waiting_reader, read_after_write, blocked_read_served}

abbrev two_held : Pipe
two_held = record {
  in_use = true;
  buf = 11 ∷ 0 ∷ 0 ∷ 10 ∷ [];
  cap = 4;
  head = 3;
  len = 2;
  readers = 7 ∷ [];
}

abbrev none_held : Pipe
none_held = record {
  in_use = true;
  buf = 0 ∷ 0 ∷ 0 ∷ 0 ∷ [];
  cap = 4;
  head = 1;
  len = 0;
  readers = 7 ∷ [];
}

two_held-IsRing : IsRing two_held
two_held-IsRing = record {
  used = refl;
  storage = omega arith;
  some_room = omega arith;
  head_in = omega arith;
  len_in = omega arith;
}

none_held-IsRing : IsRing none_held
none_held-IsRing = record {
  used = refl;
  storage = omega arith;
  some_room = omega arith;
  head_in = omega arith;
  len_in = omega arith;
}

abbrev quiet : Sched
quiet = record {
  procs = λ p. zero_pcb;
  sleepers = record { arr = []; current_size = 20 };
  num_ticks = 5;
  running_proc = 3;
  idle_proc = 9;
  main_queue = [];
  wait_queue = [];
  io_queue = [];
}

-- the pipe at index 1 of a table with two entries
abbrev system : Pipe → PipeSys
system p = record {
  table = record { pipes = zero_pipe ∷ p ∷ []; open_pipe_idx = 0 };
  sched = quiet;
}

abbrev pipe_id : ℕ
pipe_id = Ids.create_id Ids.pipe 1

-- every byte of memory is its own address
abbrev addresses : ℕ → ℕ
addresses a = a

two_held-IsCall : IsCall (system two_held) pipe_id 100 2 two_held
two_held-IsCall = record { good = refl; some_bytes = refl; found = unfold get_pipe in refl }

none_held-IsCall : IsCall (system none_held) pipe_id 200 3 none_held
none_held-IsCall = record { good = refl; some_bytes = refl; found = unfold get_pipe in refl }

two_held-contents : contents two_held ≡ 10 ∷ 11 ∷ []
unfolding linearize
two_held-contents = refl

pipe_write_lem_example :
    (p' : Pipe) × (pipe_write false addresses pipe_id 100 2 (system two_held)
      ≡ ok (2, written (system two_held) 1 two_held p'))
    × Wrote two_held (100 ∷ 101 ∷ []) p'
pipe_write_lem_example =
    pipe_write_lem (system two_held) pipe_id 100 2 two_held two_held-IsCall two_held-IsRing false
      addresses refl

read_after_write_example :
    (k' : PipeSys) × (k'' : PipeSys) × (pipe_write false addresses pipe_id 100 2 (system two_held)
      ≡ ok (2, k'))
    × (pipe_read pipe_id 300 3 k' ≡ returned 3 (take 3 (contents two_held ++ 100 ∷ 101 ∷ [])) k'')
read_after_write_example =
    read_after_write (system two_held) pipe_id 100 2 two_held false addresses 300 3 two_held-IsCall
      two_held-IsRing refl refl refl

blocked_read_served_example :
    (k2 : PipeSys) × (k3 : PipeSys) × (pipe_read pipe_id 200 3 (system none_held)
      ≡ blocked (waiting_reader (system none_held) 1 none_held))
    × (pipe_write false addresses pipe_id 100 2 (waiting_reader (system none_held) 1 none_held)
        ≡ ok (2, k2))
    × (k2.sched ≡ schedule_all (7 ∷ 3 ∷ []) (waiting_reader (system none_held) 1 none_held).sched)
    × (pipe_read_resume 1 3 k2 ≡ returned 2 (take 2 (100 ∷ 101 ∷ [])) k3)
blocked_read_served_example =
    blocked_read_served (system none_held) pipe_id 200 3 none_held false addresses 100 2
      none_held-IsCall none_held-IsRing refl refl refl refl
