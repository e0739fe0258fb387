-- ===== src/Tty/Waiting.antt =====
-- The invariant of the writers: who owns a terminal, who waits for it, and what the PCBs say of their
-- writes.
use cs58final_project.Prelude.{
  ℕ, ◌-◌, ◌≤◌, ◌<◌, ◌≡◌, sym, ap, ◌∙◌, true, false, arith, Option, none, some, List, [], ◌∷◌, ◌++◌,
  ◌⊎◌, inl, inr, ltb, ◌==◌, if◌then◌else◌, length, Bool-cases,
}
use cs58final_project.Prelude.Arrays.{count}
use cs58final_project.Process.{Pcb, Store}
use cs58final_project.Tty.{Tty, TtySys, Transmit, put}

-- a case distinction on an option that is known
pub some_case {ℓ κ} :
    {A : Type ℓ} {B : Type κ} (o : Option A) (a : A) (d : B) (f : A → B)
    → o ≡ some a
    → (elim o as (λ x. B) [ none ↦ d | some x ↦ f x ]) ≡ f a
some_case o a d f e = rw e

-- A write to terminal `i` that is not complete.
pub record Pending (i : ℕ) (pcb : Pcb) : Type 0 where
  pub tty : pcb.io_tty_id ≡ i
  pub total : pcb.io_total ≡ length pcb.io_kbuf
  pub more : pcb.io_sent < pcb.io_total

-- The owner and the writers of terminal `i` have writes to it that are not complete, and no process
-- waits twice.
pub record Serves (i : ℕ) (t : Tty) (procs : Store) : Type 0 where
  pub idle : t.tx_owner ≡ none → t.writers ≡ []
  pub owner : (p : ℕ) → t.tx_owner ≡ some p → Pending i (procs p)
  pub alone : (p : ℕ) → t.tx_owner ≡ some p → count p t.writers ≡ 0
  pub queued : (p : ℕ) → 0 < count p t.writers → Pending i (procs p)
  pub fresh : (p : ℕ) → 0 < count p t.writers → (procs p).io_sent ≡ 0
  pub once : (p : ℕ) → count p t.writers ≤ 1

-- the same write
pub record SameJob (pcb pcb' : Pcb) : Type 0 where
  pub kbuf : pcb'.io_kbuf ≡ pcb.io_kbuf
  pub total : pcb'.io_total ≡ pcb.io_total
  pub sent : pcb'.io_sent ≡ pcb.io_sent
  pub tty : pcb'.io_tty_id ≡ pcb.io_tty_id

pub Pending-same : (i : ℕ) (pcb pcb' : Pcb) → SameJob pcb pcb' → Pending i pcb → Pending i pcb'
Pending-same i pcb pcb' s d = record {
  tty = s.tty ∙ d.tty;
  total = s.total ∙ d.total ∙ ap length (sym s.kbuf);
  more = omega (arith, s.sent, s.total, d.more);
}

-- Process `q` owns the terminal, or waits for it.
abbrev pub Waits : Tty → ℕ → Type 0
Waits t q = (t.tx_owner ≡ some q) ⊎ (0 < count q t.writers)

pub Serves-same :
    (i : ℕ) (t t' : Tty) (procs procs' : Store)
    → t'.tx_owner ≡ t.tx_owner
    → t'.writers ≡ t.writers
    → ((q : ℕ) → Waits t q → SameJob (procs q) (procs' q))
    → Serves i t procs
    → Serves i t' procs'
Serves-same i t t' procs procs' owners writers same w = record {
  idle = λ h. writers ∙ w.idle (sym owners ∙ h);
  owner = λ q h.
      let o : t.tx_owner ≡ some q = sym owners ∙ h in
      Pending-same i (procs q) (procs' q) (same q (inl o)) (w.owner q o);
  alone = λ q h. rw writers (w.alone q (sym owners ∙ h));
  queued = λ q h.
      let o : 0 < count q t.writers = rw writers at h in
      Pending-same i (procs q) (procs' q) (same q (inr o)) (w.queued q o);
  fresh =
      λ q h. let o : 0 < count q t.writers = rw writers at h in (same q (inr o)).sent ∙ w.fresh q o;
  once = λ q. rw writers (w.once q);
}

-- what holds of every terminal holds after a write to one of them
pub put-all {ℓ} :
    (P : ℕ → Tty → Type ℓ) (k : TtySys) (i : ℕ) (t : Tty)
    → P i t
    → ((j : ℕ) → (j == i) ≡ false → P j (k.ttys j))
    → (j : ℕ) → P j ((put k i t).ttys j)
put-all P k i t here others j = elim (Bool-cases (j == i)) [
  | inl same ↦ let at : j ≡ i = ground arith in rw same (rw at here)
  | inr other ↦ rw other (others j other)
]

-- no longer than `max_line` and than what is left
abbrev pub chunk_of : ℕ → Pcb → ℕ
chunk_of max_line pcb =
    let remaining = pcb.io_total - pcb.io_sent in
    if ltb remaining max_line then remaining else max_line

pub chunk_of-same :
    (max_line : ℕ) (pcb pcb' : Pcb)
    → SameJob pcb pcb'
    → chunk_of max_line pcb' ≡ chunk_of max_line pcb
chunk_of-same max_line pcb pcb' s = rw (s.total, s.sent)

-- The terminal is transmitting a chunk of its owner's buffer.
pub record Sends (max_line : ℕ) (t : Tty) (procs : Store) : Type 0 where
  pub chunk : (p : ℕ) → t.tx_owner ≡ some p → t.tx_last_chunk ≡ chunk_of max_line (procs p)
  pub busy : (p : ℕ) → t.tx_owner ≡ some p → t.transmitting ≡ true

pub Sends-same :
    (max_line : ℕ) (t : Tty) (procs procs' : Store)
    → ((q : ℕ) → Waits t q → SameJob (procs q) (procs' q))
    → Sends max_line t procs
    → Sends max_line t procs'
Sends-same max_line t procs procs' same s = record {
  chunk = λ p h. s.chunk p h ∙ sym (chunk_of-same max_line (procs p) (procs' p) (same p (inl h)));
  busy = s.busy;
}

-- No call of TtyTransmit has more than `max_line` bytes.
abbrev pub Bounded : ℕ → List Transmit → Type 0
Bounded max_line [] = Unit {0}
Bounded max_line (c ∷ log) = (length c.bytes ≤ max_line) × Bounded max_line log

pub Bounded-snoc :
    (max_line : ℕ) (log : List Transmit) (c : Transmit)
    → Bounded max_line log
    → length c.bytes ≤ max_line
    → Bounded max_line (log ++ c ∷ [])
Bounded-snoc max_line [] c b h = (h, tt)
Bounded-snoc max_line (d ∷ log) c b h = (b.0, Bounded-snoc max_line log c b.1 h)

pub record IsValid (max_line : ℕ) (k : TtySys) : Type 0 where
  pub serves : (i : ℕ) → Serves i (k.ttys i) k.sched.procs
  pub sends : (i : ℕ) → Sends max_line (k.ttys i) k.sched.procs
  pub bounded : Bounded max_line k.log
