-- ===== src/Tty/Deliver.antt =====
-- tty_transmit_done: what is promised to a terminal stays the same, and it is sent in the end.
use mathlib.Core.List.{append-nil}
use cs58final_project.Prelude.{
  ℕ, zero, suc, ◌<◌, ◌≡◌, refl, ◌∙◌, Bool, true, false, ◌||◌, arith, none, ◌++◌, leb, Bool-cases,
  Option-cases, ◌⊎◌, inl, inr,
}
use cs58final_project.Prelude.Run.{Run, ok, ◌>>=◌}
use cs58final_project.Machine.{is_negative}
use cs58final_project.Sched.Queues.{NoneIdle}
use cs58final_project.Tty.{TtySys, tty_transmit_done, count_chunk}
use cs58final_project.Tty.Waiting.{IsValid, some_case}
use cs58final_project.Tty.Streams.{output, stream, unsent-none, buffers-nil}
use cs58final_project.Tty.Advance.{line, work, Advance, count_chunk-Advance}

-- no number of a terminal
abbrev pub out_of_range : ℕ → ℕ → Bool
out_of_range num_terminals code = is_negative code || leb num_terminals code

-- `n` traps of terminal `code`
pub transmit_many : ℕ → ℕ → ℕ → ℕ → TtySys → Run TtySys
transmit_many max_line num_terminals zero code k = ok k
transmit_many max_line num_terminals (suc n) code k =
    tty_transmit_done max_line num_terminals code k >>= λ k'.
    transmit_many max_line num_terminals n code k'

module _ (max_line num_terminals code : ℕ) (room : 0 < max_line) where
  -- With valid terminals and an idle process that writes to none: the trap that ends a transmission changes
  -- nothing for a number that is no terminal's or a terminal without an owner. Or else the terminals
  -- stay valid, what each has been and will be sent stays the same, an owner that is done becomes ready,
  -- the first of those that wait follows it, and less is left to send.
  pub tty_transmit_done_lem :
      (k : TtySys)
      → IsValid max_line k
      → NoneIdle k.sched.idle_proc (line (k.ttys code))
      → (tty_transmit_done max_line num_terminals code k ≡ ok k)
          × ((out_of_range num_terminals code ≡ true) ⊎ ((k.ttys code).tx_owner ≡ none))
        ⊎ ((k' : TtySys) × (tty_transmit_done max_line num_terminals code k ≡ ok k')
            × Advance max_line code k k')
  unfolding tty_transmit_done
  tty_transmit_done_lem k v busy = elim (Bool-cases (out_of_range num_terminals code)) [
    | inl out ↦ inl (rw out, inl out)
    | inr good ↦ elim (Option-cases (k.ttys code).tx_owner) [
      | inl unowned ↦ inl (rw (good, unowned), inr unowned)
      | inr (p, own) ↦
          let (k', run, advance) = count_chunk-Advance max_line code p k v own room busy in
          inr (
            k',
            rw good (
                some_case (k.ttys code).tx_owner p (ok k) (λ q. count_chunk max_line code q k) own
                ∙ run),
            advance,
          )
    ]
  ]

  -- What holds when terminal `code` has been sent everything.
  pub record Delivered (k k' : TtySys) : Type 0 where
    pub valid : IsValid max_line k'
    pub owner : (k'.ttys code).tx_owner ≡ none
    pub output : output code k'.log ≡ stream code k
    pub queue : k'.sched.main_queue ≡ k.sched.main_queue ++ line (k.ttys code)

  Delivered-now : (k : TtySys) → IsValid max_line k → (k.ttys code).tx_owner ≡ none → Delivered k k
  unfolding stream
  Delivered-now k v unowned =
      let nobody = (v.serves code).idle unowned in
      let nothing = unsent-none k.sched.procs (k.ttys code) unowned in
      record {
        valid = v;
        owner = unowned;
        output = rw (nothing, nobody, buffers-nil k.sched.procs, append-nil (output code k.log));
        queue = rw (unowned, nobody, append-nil k.sched.main_queue);
      }

  Delivered-after :
      (k k1 k' : TtySys) → Advance max_line code k k1 → Delivered k1 k' → Delivered k k'
  Delivered-after k k1 k' a d = record {
    valid = d.valid;
    owner = d.owner;
    output = d.output ∙ a.streams code;
    queue = d.queue ∙ a.queue;
  }

  deliver :
      (fuel : ℕ) (k : TtySys)
      → IsValid max_line k
      → NoneIdle k.sched.idle_proc (line (k.ttys code))
      → out_of_range num_terminals code ≡ false
      → work code k < fuel
      → (n : ℕ) × (k' : TtySys) × (transmit_many max_line num_terminals n code k ≡ ok k')
        × Delivered k k'
  unfolding transmit_many
  deliver zero k v busy good enough = absurd (omega arith)
  deliver (suc fuel) k v busy good enough = elim (tty_transmit_done_lem k v busy) [
    | inl (run, why) ↦ elim why [
      | inl out ↦ absurd (ground (arith, out, good))
      | inr unowned ↦ (0, k, refl, Delivered-now k v unowned)
    ]
    | inr (k1, run, a) ↦ elim a.progress [
      | inl unowned ↦ (1, k1, rw run, Delivered-after k k1 k1 a (Delivered-now k1 a.valid unowned))
      | inr less ↦
          let (n, k', rest, d) =
            deliver fuel k1 a.valid a.none_idle good (omega (arith, less, enough)) in
          (suc n, k', rw run rest, Delivered-after k k1 k' a d)
    ]
  ]

  -- After some number of its traps a terminal has been sent exactly the bytes of the writes that were under way, in
  -- order, no call of TtyTransmit with more than a line, and the processes that wrote them are ready
  -- in the order of their writes, behind those that were ready. The terminals have to be valid, the idle
  -- process must write to none, and a line must have room for a byte.
  pub writes_complete :
      (k : TtySys)
      → IsValid max_line k
      → NoneIdle k.sched.idle_proc (line (k.ttys code))
      → out_of_range num_terminals code ≡ false
      → (n : ℕ) × (k' : TtySys) × (transmit_many max_line num_terminals n code k ≡ ok k')
        × Delivered k k'
  writes_complete k v busy good = deliver (suc (work code k)) k v busy good (omega arith)
