-- ===== src/Tty/Tests.antt =====
-- tty.c at concrete inputs: four terminals, lines of at most four bytes. Process 9 runs and process 1 is idle; on
-- terminal 1, process 5 has six bytes to send and process 6 waits behind it.
use cs58final_project.Prelude.{
  ℕ, ◌+◌, ◌≡◌, refl, true, arith, none, some, List, [], ◌∷◌, ◌++◌, ◌⊎◌, ◌==◌, if◌then◌else◌, length,
  take, min,
}
use cs58final_project.Prelude.Arrays.{count, count-nil, count-cons}
use cs58final_project.Prelude.Run.{ok}
use cs58final_project.Machine.{error}
use cs58final_project.Process.{Pcb, zero_pcb}
use cs58final_project.Sched.{Sched}
use cs58final_project.Sched.Queues.{NoneIdle}
use cs58final_project.Tty.{
  RxLine, Tty, TtySys, put, zero_tty, bad_args, kernel_tty_read, kernel_tty_read_resume,
  tty_transmit_done, tty_receive_done, returned, blocked,
}
use cs58final_project.Sched.{schedule_process}
use cs58final_project.Tty.Waiting.{Serves, Sends, IsValid, put-all}
use cs58final_project.Tty.Advance.{Advance}
use cs58final_project.Tty.Deliver.{
  Delivered, out_of_range, transmit_many, tty_transmit_done_lem, writes_complete,
}
use cs58final_project.Tty.Lines.{AreLines, left, unread, waiting_reader, kernel_tty_read_lem}
use cs58final_project.Tty.Wake.{read_resumed, read_stolen}

-- the PCB of a process with six bytes for terminal 1
abbrev writer : Pcb
writer = record zero_pcb {
  io_kbuf = 1 ∷ 2 ∷ 3 ∷ 4 ∷ 5 ∷ 6 ∷ [];
  io_total = 6;
  io_len = 2;
  io_tty_id = 1;
}

abbrev sched : Sched
sched = record {
  procs = λ q. writer;
  sleepers = record { arr = []; current_size = 20 };
  num_ticks = 0;
  running_proc = 9;
  idle_proc = 1;
  main_queue = 3 ∷ [];
  wait_queue = [];
  io_queue = [];
}

abbrev quiet : TtySys
quiet = record { ttys = λ j. zero_tty; sched = sched; log = [] }

quiet-IsValid : IsValid 4 quiet
quiet-IsValid = record {
  serves = λ j. record {
    idle = λ h. refl;
    owner = λ p h. absurd (ground (arith, h));
    alone = λ p h. count-nil p;
    queued = λ p h. absurd (omega (arith, count-nil p, h));
    fresh = λ p h. absurd (omega (arith, count-nil p, h));
    once = λ p. omega (arith, count-nil p);
  };
  sends = λ j. record {
    chunk = λ p h. absurd (ground (arith, h));
    busy = λ p h. absurd (ground (arith, h));
  };
  bounded = tt;
}

abbrev sending : Tty
sending = record zero_tty {
  tx_owner = some 5;
  transmitting = true;
  tx_last_chunk = 4;
  writers = 6 ∷ [];
}

-- Process 5 has sent nothing yet, and its first chunk is under way.
abbrev busy : TtySys
busy = record (put quiet 1 sending) { log = record { tty_id = 1; bytes = 1 ∷ 2 ∷ 3 ∷ 4 ∷ [] } ∷ [] }

one_writer : (p : ℕ) → count p (6 ∷ []) ≡ (if p == 6 then 1 else 0)
one_writer p = omega (arith, count-cons p 6 [], count-nil p)

busy-IsValid : IsValid 4 busy
busy-IsValid = record {
  serves =
      put-all (λ j t. Serves j t sched.procs) quiet 1 sending
        (record {
          idle = λ h. absurd (ground (arith, h));
          owner = λ p h. record { tty = refl; total = refl; more = omega arith };
          alone = λ p h. ground (arith, one_writer p, h);
          queued = λ p h. record { tty = refl; total = refl; more = omega arith };
          fresh = λ p h. refl;
          once = λ p. ground (arith, one_writer p);
        })
        (λ j other. quiet-IsValid.serves j);
  sends =
      put-all (λ j t. Sends 4 t sched.procs) quiet 1 sending
        (record { chunk = λ p h. refl; busy = λ p h. refl }) (λ j other. quiet-IsValid.sends j);
  bounded = (omega arith, tt);
}

abbrev user : ℕ → ℕ
user a = a + 7

busy-NoneIdle : NoneIdle 1 (5 ∷ 6 ∷ [])
busy-NoneIdle = (λ h. omega (arith, h), (λ h. omega (arith, h), tt))

tty_transmit_done_lem_example :
    (tty_transmit_done 4 4 1 busy ≡ ok busy)
      × ((out_of_range 4 1 ≡ true) ⊎ ((busy.ttys 1).tx_owner ≡ none))
    ⊎ ((k' : TtySys) × (tty_transmit_done 4 4 1 busy ≡ ok k') × Advance 4 1 busy k')
tty_transmit_done_lem_example =
    tty_transmit_done_lem 4 4 1 (omega arith) busy busy-IsValid busy-NoneIdle

writes_complete_example :
    (n : ℕ) × (k' : TtySys) × (transmit_many 4 4 n 1 busy ≡ ok k')
    × Delivered 4 4 1 (omega arith) busy k'
writes_complete_example = writes_complete 4 4 1 (omega arith) busy busy-IsValid busy-NoneIdle refl

-- terminal 2 has a line of three bytes, of which one has been read
abbrev half_read : RxLine
half_read = record { buf = 10 ∷ 11 ∷ 12 ∷ []; len = 3; off = 1 }

abbrev with_input : TtySys
with_input = put quiet 2 (record zero_tty { rx = half_read ∷ [] })

input-AreLines : AreLines (half_read ∷ [])
input-AreLines = (record { size = refl; inside = omega arith }, tt)

kernel_tty_read_lem_example :
    ((bad_args 4 2 100 8 ≡ true)
      × (kernel_tty_read 4 2 100 8 with_input ≡ returned error [] with_input))
    ⊎ ((((8 == 0) ≡ true) × (kernel_tty_read 4 2 100 8 with_input ≡ returned 0 [] with_input))
        ⊎ ((((with_input.ttys 2).rx ≡ [])
              × (kernel_tty_read 4 2 100 8 with_input
                  ≡ blocked (waiting_reader 4 2 100 8 with_input)))
            ⊎ ((line : RxLine) × (rest : List RxLine) × (bytes : List ℕ) × (rx' : List RxLine)
                × ((with_input.ttys 2).rx ≡ line ∷ rest)
                × (kernel_tty_read 4 2 100 8 with_input
                    ≡ returned
                        (length bytes)
                        bytes
                        (put with_input 2 (record (with_input.ttys 2) { rx = rx' })))
                × (length bytes ≡ min (length (left line)) 8)
                × (unread (with_input.ttys 2).rx ≡ bytes ++ unread rx')
                × AreLines rx')))
kernel_tty_read_lem_example = kernel_tty_read_lem 4 2 100 8 with_input input-AreLines

-- Process 7 waits for a line of terminal 3.
abbrev reading : TtySys
reading = put quiet 3 (record zero_tty { readers = 7 ∷ [] })

read_resumed_example :
    (k' : TtySys) × (kernel_tty_read_resume 3 7
        (tty_receive_done 4 true 3 (20 ∷ 21 ∷ 22 ∷ []) reading)
      ≡ (min 3 2, take 2 (20 ∷ 21 ∷ 22 ∷ []), k'))
read_resumed_example = read_resumed 4 3 (20 ∷ 21 ∷ 22 ∷ []) reading refl 7 [] refl refl

read_stolen_example :
    (k1 : TtySys) × (k2 : TtySys) × (kernel_tty_read 4 3 100 8
        (tty_receive_done 4 true 3 (20 ∷ 21 ∷ []) reading)
      ≡ returned 2 (20 ∷ 21 ∷ []) k1)
    × (kernel_tty_read_resume 3 7 k1 ≡ (0, [], k2))
    × ((k2.ttys 3).readers ≡ [])
    × ((k2.ttys 3).rx ≡ [])
    × (k2.sched ≡ schedule_process 7 reading.sched)
read_stolen_example =
    read_stolen 4 3 (20 ∷ 21 ∷ []) reading refl 7 [] refl refl 100 8 refl (omega arith)
      (omega arith)
