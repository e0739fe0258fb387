-- ===== src/Tty.antt =====
-- yalnix_framework/src/tty.c: the terminals. NUM_TERMINALS and TERMINAL_MAX_LINE of hardware.h are
-- parameters. The machine's TtyTransmit is the log of its calls, and what TtyReceive copies into
-- the line's buffer is an argument of the receive trap. Queues are lists, user memory is a function
-- from addresses to bytes, and register 0 to 2 are 32-bit patterns.
pub mod Chunks
pub mod Waiting
pub mod Streams
pub mod Write
pub mod Done
pub mod Advance
pub mod Deliver
pub mod Lines
pub mod Wake
mod Tests
use cs58final_project.Prelude.{
  ℕ, zero, suc, ◌+◌, ◌-◌, Bool, true, false, not, ◌||◌, Option, none, some, List, [], ◌∷◌, ◌++◌,
  ltb, leb, ◌==◌, if◌then◌else◌, take, drop, length,
}
use cs58final_project.Prelude.Run.{Run, ok, fault, ◌>>=◌}
use cs58final_project.Machine.{error, is_negative, wait_and_switch, bytes_at}
use cs58final_project.Process.{Pcb, update}
use cs58final_project.Sched.{Sched, schedule_process}

-- `rx_line_t`
pub record RxLine : Type 0 where
  pub buf : List ℕ
  pub len : ℕ
  pub off : ℕ

-- `tty_state_t`. `writers` and `readers` are the queues from `w_head` and `r_head` on, `rx` the lines.
pub record Tty : Type 0 where
  pub tx_owner : Option ℕ
  pub transmitting : Bool
  pub tx_last_chunk : ℕ
  pub writers : List ℕ
  pub rx : List RxLine
  pub readers : List ℕ

-- the call `TtyTransmit(tty_id, bytes)`
pub record Transmit : Type 0 where
  pub tty_id : ℕ
  pub bytes : List ℕ

-- the static array, the scheduler, and the calls of TtyTransmit so far
pub record TtySys : Type 0 where
  pub ttys : ℕ → Tty
  pub sched : Sched
  pub log : List Transmit

abbrev pub put : TtySys → ℕ → Tty → TtySys
put k i t = record k { ttys = λ j. if j == i then t else k.ttys j }

-- a write to the PCB `p`
abbrev pub set_pcb : Sched → ℕ → Pcb → Sched
set_pcb s p pcb = record s { procs = update s.procs p pcb }

abbrev pub wq_push : Tty → ℕ → Tty
wq_push t p = record t { writers = t.writers ++ p ∷ [] }

abbrev pub wq_pop : Tty → Option ℕ × Tty
wq_pop t = elim t.writers [ [] ↦ (none, t) | p ∷ rest ↦ (some p, record t { writers = rest }) ]

abbrev pub rq_push : Tty → ℕ → Tty
rq_push t p = record t { readers = t.readers ++ p ∷ [] }

abbrev pub rq_pop : Tty → Option ℕ × Tty
rq_pop t = elim t.readers [ [] ↦ (none, t) | p ∷ rest ↦ (some p, record t { readers = rest }) ]

abbrev pub zero_tty : Tty
zero_tty = record {
  tx_owner = none;
  transmitting = false;
  tx_last_chunk = 0;
  writers = [];
  rx = [];
  readers = [];
}

pub init_tty : TtySys → TtySys
init_tty k = record k { ttys = λ j. zero_tty }

-- `n` bytes of the head line: their number, the bytes, and the terminal after it. A line that is used up
-- leaves the queue.
pub take_bytes : Tty → RxLine → List RxLine → ℕ → ℕ × List ℕ × Tty
take_bytes t line rest n =
    let bytes = take n (drop line.off line.buf) in
    let off' = line.off + n in
    if leb line.len off'
    then (n, bytes, record t { rx = rest })
    else (n, bytes, record t { rx = record line { off = off' } ∷ rest })

-- how many bytes of a line a reader of `len` bytes gets
pub read_count : RxLine → ℕ → ℕ
read_count line len = let avail = line.len - line.off in if ltb avail len then avail else len

pub consume_into_user : Tty → ℕ → ℕ × List ℕ × Tty
consume_into_user t len = elim t.rx [
  | [] ↦ (0, [], t)
  | line ∷ rest ↦ take_bytes t line rest (read_count line len)
]

-- A call returns with register 0 and what it stores into the caller's buffer, or another process runs.
pub data TtyResult : Type 0 where
  returned : ℕ → List ℕ → TtySys → TtyResult
  blocked : TtySys → TtyResult

-- the arguments that both calls refuse of `num_terminals` terminals
abbrev pub bad_args : ℕ → ℕ → ℕ → ℕ → Bool
bad_args num_terminals r0 r1 r2 =
    (is_negative r0 || leb num_terminals r0) || (is_negative r2 || r1 == 0)

module _ (max_line : ℕ) where
  -- the next chunk of owner `p`; `io_sent` is at most `io_total` here
  pub next_chunk : ℕ → ℕ → TtySys → TtySys
  next_chunk i p k =
      let owner = k.sched.procs p in
      let remaining = owner.io_total - owner.io_sent in
      let chunk = if ltb remaining max_line then remaining else max_line in
      let call : Transmit = record {
        tty_id = i;
        bytes = take chunk (drop owner.io_sent owner.io_kbuf);
      } in
      record k {
        ttys = λ j.
            if j == i
            then record (k.ttys i) { tx_last_chunk = chunk; transmitting = true }
            else k.ttys j;
        log = k.log ++ call ∷ [];
      }

  -- Without an owner, NULL is read.
  pub start_chunk : ℕ → TtySys → Run TtySys
  start_chunk i k = elim (k.ttys i).tx_owner [ none ↦ fault | some p ↦ ok (next_chunk i p k) ]

  -- The running process writes `len` bytes: it becomes the owner, or waits behind the other writers.
  pub enter_write : ℕ → List ℕ → ℕ → TtySys → Run TtySys
  enter_write i bytes len k =
      let p = k.sched.running_proc in
      let t = k.ttys i in
      let pcb = record (k.sched.procs p) {
        io_kbuf = bytes;
        io_total = len;
        io_sent = 0;
        io_tty_id = i;
      } in
      let k1 = record k { sched = set_pcb k.sched p pcb } in
      elim t.tx_owner [
        | none ↦ start_chunk i (put k1 i (record t { tx_owner = some p }))
        | some q ↦ ok (put k1 i (wq_push t p))
      ]

  pub kernel_tty_write : ℕ → Bool → (ℕ → ℕ) → ℕ → ℕ → ℕ → TtySys → Run TtyResult
  kernel_tty_write num_terminals allocated memory r0 r1 r2 k =
      if bad_args num_terminals r0 r1 r2
      then ok (returned error [] k)
      else if r2 == 0
      then ok (returned 0 [] k)
      else if not allocated
      then ok (returned error [] k)
      else (enter_write r0 (bytes_at memory r1 r2) r2 k >>= λ k'.
          ok (blocked (record k' { sched = wait_and_switch k'.sched })))

  -- The owner `p` of terminal `i`, whose state is `t`, is done: it becomes ready, and the next writer starts.
  pub finish_owner : ℕ → ℕ → Tty → TtySys → Run TtySys
  finish_owner i p t k =
      let k1 = record k { sched = schedule_process p k.sched } in
      let (nxt, t') = wq_pop (record t { tx_owner = none }) in
      elim nxt [
        | none ↦ ok (put k1 i t')
        | some q ↦ start_chunk i (put k1 i (record t' { tx_owner = some q }))
      ]

  -- the trap, for the owner `p`
  pub count_chunk : ℕ → ℕ → TtySys → Run TtySys
  count_chunk i p k =
      let owner = k.sched.procs p in
      let sent = owner.io_sent + (k.ttys i).tx_last_chunk in
      let t = record (k.ttys i) { transmitting = false } in
      let k1 = record k { sched = set_pcb k.sched p (record owner { io_sent = sent }) } in
      if ltb sent owner.io_total then start_chunk i (put k1 i t) else finish_owner i p t k1

  pub tty_transmit_done : ℕ → ℕ → TtySys → Run TtySys
  tty_transmit_done num_terminals code k =
      if is_negative code || leb num_terminals code
      then ok k
      else elim (k.ttys code).tx_owner [ none ↦ ok k | some p ↦ count_chunk code p k ]

-- the rest of a write, in the process `p` that called it
pub kernel_tty_write_resume : ℕ → TtySys → ℕ × TtySys
kernel_tty_write_resume p k =
    let pcb = k.sched.procs p in
    (pcb.io_total, record k { sched = set_pcb k.sched p (record pcb { io_kbuf = [] }) })

pub kernel_tty_read : ℕ → ℕ → ℕ → ℕ → TtySys → TtyResult
kernel_tty_read num_terminals r0 r1 r2 k =
    let p = k.sched.running_proc in
    let t = k.ttys r0 in
    let (n, bytes, t') = consume_into_user t r2 in
    let pcb = record (k.sched.procs p) { io_user_buf = r1; io_len = r2; io_tty_id = r0 } in
    if bad_args num_terminals r0 r1 r2
    then returned error [] k
    else if r2 == 0
    then returned 0 [] k
    else elim t.rx [
      | [] ↦ blocked (record k {
        ttys = λ j. if j == r0 then rq_push t p else k.ttys j;
        sched = wait_and_switch (set_pcb k.sched p pcb);
      })
      | _ ∷ _ ↦ returned n bytes (put k r0 t')
    ]

-- the rest of a read of terminal `i`, in the process `p` that called it
pub kernel_tty_read_resume : ℕ → ℕ → TtySys → ℕ × List ℕ × TtySys
kernel_tty_read_resume i p k =
    let (n, bytes, t') = consume_into_user (k.ttys i) (k.sched.procs p).io_len in
    (n, bytes, put k i t')

-- The line goes to the end of the lines of terminal `i`, whose state is `t`, and the first reader becomes ready.
pub add_line : ℕ → Tty → RxLine → TtySys → TtySys
add_line i t line k =
    let (r, t') = rq_pop (record t { rx = t.rx ++ line ∷ [] }) in
    elim r [
      | none ↦ put k i t'
      | some p ↦ record (put k i t') { sched = schedule_process p k.sched }
    ]

-- `received` is what the terminal has delivered: at most TERMINAL_MAX_LINE bytes.
pub tty_receive_done : ℕ → Bool → ℕ → List ℕ → TtySys → TtySys
tty_receive_done num_terminals allocated code received k =
    if is_negative code || leb num_terminals code
    then k
    else if not allocated
    then k
    else add_line code (k.ttys code) (record { buf = received; len = length received; off = 0 }) k
