-- ===== src/Tty/Streams.antt =====
-- What a terminal has been sent, and what its owner and writers have still to send.
use mathlib.Core.List.{append_assoc, append-nil}
use cs58final_project.Prelude.{
  ℕ, ◌+◌, ◌<◌, ◌≡◌, refl, sym, ap, ◌∙◌, arith, none, some, List, [], ◌∷◌, ◌++◌, inl, inr, ◌==◌,
  if◌then◌else◌, drop, Option-cases,
}
use cs58final_project.Prelude.Arrays.{count, count-cons}
use cs58final_project.Process.{Pcb, Store, waiting}
use cs58final_project.Sched.{Sched, schedule_process, set_state, get_next_process, set_running_proc}
use cs58final_project.Sched.States.{
  ButState, set_state-ButState, schedule_process-ButState, get_next_process-ButState,
}
use cs58final_project.Machine.{wait_and_switch, switch_to_next, full_context_switch}
use cs58final_project.Tty.{Tty, TtySys, Transmit, wq_push}
use cs58final_project.Tty.Waiting.{IsValid, SameJob, Sends-same, Serves-same, Waits}

-- the bytes that terminal `i` was sent
pub output : ℕ → List Transmit → List ℕ
output i [] = []
output i (c ∷ log) = (if c.tty_id == i then c.bytes else []) ++ output i log

pub output-snoc :
    (i : ℕ) (log : List Transmit) (c : Transmit)
    → output i (log ++ c ∷ []) ≡ output i log ++ (if c.tty_id == i then c.bytes else [])
unfolding output
output-snoc i [] c = append-nil (if c.tty_id == i then c.bytes else [])
output-snoc i (d ∷ log) c =
    ap (λ (bs : List ℕ). (if d.tty_id == i then d.bytes else []) ++ bs) (output-snoc i log c)
    ∙ sym (
        append_assoc (if d.tty_id == i then d.bytes else []) (output i log)
          (if c.tty_id == i then c.bytes else []))

-- the buffers of the processes, one behind the other
pub buffers : Store → List ℕ → List ℕ
buffers procs [] = []
buffers procs (p ∷ ps) = (procs p).io_kbuf ++ buffers procs ps

-- what the owner has still to send behind the chunk that is under way
pub unsent : Store → Tty → List ℕ
unsent procs t = elim t.tx_owner [
  | none ↦ []
  | some p ↦ drop ((procs p).io_sent + t.tx_last_chunk) (procs p).io_kbuf
]

pub unsent-none : (procs : Store) (t : Tty) → t.tx_owner ≡ none → unsent procs t ≡ []
unfolding unsent
unsent-none procs t h = rw h

pub unsent-some :
    (procs : Store) (t : Tty) (p : ℕ)
    → t.tx_owner ≡ some p
    → unsent procs t ≡ drop ((procs p).io_sent + t.tx_last_chunk) (procs p).io_kbuf
unfolding unsent
unsent-some procs t p h = rw h

pub unsent-wq_push : (procs : Store) (t : Tty) (p : ℕ) → unsent procs (wq_push t p) ≡ unsent procs t
unfolding unsent
unsent-wq_push procs t p = refl

-- what is still to be sent to terminal `t`
abbrev pub to_send : Store → Tty → List ℕ
to_send procs t = unsent procs t ++ buffers procs t.writers

pub buffers-nil : (procs : Store) → buffers procs [] ≡ []
unfolding buffers
buffers-nil procs = refl

pub buffers-cons :
    (procs : Store) (p : ℕ) (ps : List ℕ)
    → buffers procs (p ∷ ps) ≡ (procs p).io_kbuf ++ buffers procs ps
unfolding buffers
buffers-cons procs p ps = refl

pub buffers-same :
    (procs procs' : Store) (ps : List ℕ)
    → ((q : ℕ) → 0 < count q ps → (procs' q).io_kbuf ≡ (procs q).io_kbuf)
    → buffers procs' ps ≡ buffers procs ps
unfolding buffers
buffers-same procs procs' [] same = refl
buffers-same procs procs' (p ∷ ps) same = rw (
  same p (ground (arith, count-cons p p ps)),
  buffers-same procs procs' ps (λ q h. same q (omega (arith, count-cons q p ps, h))),
)

pub buffers-snoc :
    (procs : Store) (ps : List ℕ) (p : ℕ)
    → buffers procs (ps ++ p ∷ []) ≡ buffers procs ps ++ (procs p).io_kbuf
unfolding buffers
buffers-snoc procs [] p = append-nil (procs p).io_kbuf
buffers-snoc procs (q ∷ ps) p =
    ap (λ (bs : List ℕ). (procs q).io_kbuf ++ bs) (buffers-snoc procs ps p)
    ∙ sym (append_assoc (procs q).io_kbuf (buffers procs ps) (procs p).io_kbuf)

pub to_send-same :
    (procs procs' : Store) (t : Tty)
    → ((q : ℕ) → Waits t q → SameJob (procs q) (procs' q))
    → to_send procs' t ≡ to_send procs t
to_send-same procs procs' t same =
    let behind = buffers-same procs procs' t.writers (λ q h. (same q (inr h)).kbuf) in
    elim (Option-cases t.tx_owner) [
      | inl unowned ↦ rw (unsent-none procs t unowned, unsent-none procs' t unowned, behind)
      | inr (p, owned) ↦
          let s = same p (inl owned) in
          rw (unsent-some procs t p owned, unsent-some procs' t p owned, s.kbuf, s.sent, behind)
    ]

-- The stream of terminal `i`: the bytes that it was sent, and those it will be.
unfoldable pub stream : ℕ → TtySys → List ℕ
stream i k = output i k.log ++ to_send k.sched.procs (k.ttys i)

-- the same terminals, with a scheduler whose PCBs have the same writes
abbrev pub SameJobs : Store → Store → Type 0
SameJobs procs procs' = (q : ℕ) → SameJob (procs q) (procs' q)

pub IsValid-sched :
    (max_line : ℕ) (k : TtySys) (s : Sched)
    → SameJobs k.sched.procs s.procs
    → IsValid max_line k
    → IsValid max_line (record k { sched = s })
IsValid-sched max_line k s same v = record {
  serves = λ j.
      Serves-same j (k.ttys j) (k.ttys j) k.sched.procs s.procs refl refl (λ q w. same q)
        (v.serves j);
  sends = λ j. Sends-same max_line (k.ttys j) k.sched.procs s.procs (λ q w. same q) (v.sends j);
  bounded = v.bounded;
}

pub stream-sched :
    (k : TtySys) (s : Sched) (j : ℕ)
    → SameJobs k.sched.procs s.procs
    → stream j (record k { sched = s }) ≡ stream j k
unfolding stream
stream-sched k s j same =
    ap (λ (bs : List ℕ). output j k.log ++ bs)
      (to_send-same k.sched.procs s.procs (k.ttys j) (λ q w. same q))

ButState-SameJob : (pcb pcb' : Pcb) → ButState pcb pcb' → SameJob pcb pcb'
ButState-SameJob pcb pcb' (st, e) = record {
  kbuf = ap (λ (x : Pcb). x.io_kbuf) e;
  total = ap (λ (x : Pcb). x.io_total) e;
  sent = ap (λ (x : Pcb). x.io_sent) e;
  tty = ap (λ (x : Pcb). x.io_tty_id) e;
}

pub SameJob-trans : (a b c : Pcb) → SameJob a b → SameJob b c → SameJob a c
SameJob-trans a b c s t = record {
  kbuf = t.kbuf ∙ s.kbuf;
  total = t.total ∙ s.total;
  sent = t.sent ∙ s.sent;
  tty = t.tty ∙ s.tty;
}

pub schedule_process-SameJobs : (p : ℕ) (s : Sched) → SameJobs s.procs (schedule_process p s).procs
schedule_process-SameJobs p s q =
    ButState-SameJob (s.procs q) ((schedule_process p s).procs q) (schedule_process-ButState p s q)

pub wait_and_switch-SameJobs : (s : Sched) → SameJobs s.procs (wait_and_switch s).procs
unfolding wait_and_switch switch_to_next full_context_switch set_running_proc
wait_and_switch-SameJobs s q =
    let s' = set_state s.running_proc waiting s in
    SameJob-trans (s.procs q) (s'.procs q) ((get_next_process s').1.procs q)
      (ButState-SameJob (s.procs q) (s'.procs q) (set_state-ButState s.running_proc waiting s q))
      (ButState-SameJob (s'.procs q) ((get_next_process s').1.procs q)
        (get_next_process-ButState s' q))
