-- ===== src/Tty/Write.antt =====
-- kernel_tty_write: the bytes of a write go to the end of what the terminal will be sent.
use cs58final_project.Prelude.{
  ℕ, ◌<◌, ◌≡◌, ◌≢◌, Bool, false, not, ◌||◌, ◌&&◌, some, List, ◌++◌, ◌==◌, length,
}
use cs58final_project.Prelude.Arrays.{count}
use cs58final_project.Process.{Pcb}
use cs58final_project.Tty.{TtySys, put, set_pcb, bad_args, wq_push}
use cs58final_project.Tty.Waiting.{IsValid}
use cs58final_project.Tty.Streams.{stream}

-- The process `p` writes to no terminal.
abbrev pub WritesNone : TtySys → ℕ → Type 0
WritesNone k p = (j : ℕ) → ((k.ttys j).tx_owner ≢ some p) × (count p (k.ttys j).writers ≡ 0)

module _ (max_line i : ℕ) (bytes : List ℕ) (len : ℕ) (k : TtySys) where
  abbrev p : ℕ
  p = k.sched.running_proc

  abbrev pcb : Pcb
  pcb = record (k.sched.procs p) { io_kbuf = bytes; io_total = len; io_sent = 0; io_tty_id = i }

  -- the state with the bytes in the PCB
  abbrev filled : TtySys
  filled = record k { sched = set_pcb k.sched p pcb }

  abbrev owned : TtySys
  owned = put filled i (record (k.ttys i) { tx_owner = some p })

  abbrev pushed : TtySys
  pushed = put filled i (wq_push (k.ttys i) p)

  module _ (v : IsValid max_line k) (free : WritesNone k p) (size : length bytes ≡ len)
      (pos : 0 < len) where
    -- The bytes go to the end of the stream of terminal `i`.
    pub record Appends (k' : TtySys) : Type 0 where
      pub here : stream i k' ≡ stream i k ++ bytes
      pub elsewhere : (j : ℕ) → (j == i) ≡ false → stream j k' ≡ stream j k

-- the calls that return ERROR
abbrev pub fails : ℕ → Bool → ℕ → ℕ → ℕ → Bool
fails num_terminals allocated r0 r1 r2 =
    bad_args num_terminals r0 r1 r2 || not (r2 == 0) && not allocated
