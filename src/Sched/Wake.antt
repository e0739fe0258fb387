-- ===== src/Sched/Wake.antt =====
-- wake_sleepers and put_to_sleep: who sleeps, and who is ready after a clock tick.
use mathlib.Core.Path.{fun_ext}
use mathlib.Core.List.{append_assoc, append-nil}
use cs58final_project.Prelude.{
  ℕ, zero, suc, ◌+◌, ◌^◌, ◌≤◌, ◌<◌, ◌≡◌, ◌∙◌, ap, Bool, true, false, not, ◌&&◌, arith, some, List,
  [], ◌∷◌, ◌++◌, ltb, leb, if◌then◌else◌, length, get_or, Bool-cases, inl, inr,
}
use cs58final_project.Prelude.Run.{ok}
use cs58final_project.Prelude.Arrays.{count, count-cons, count-nil, index_of_count, count_of_index}
use cs58final_project.Sleep
use cs58final_project.Sleep.{Sleepers}
use cs58final_project.Sleep.Order.{parent, root_least}
use cs58final_project.Sleep.Ops.{IsValid, add_to_heap_lem, remove_from_heap_lem}
use cs58final_project.Process.{Pcb, Store, update, waiting, running}
use cs58final_project.Sched.{
  Sched, wake_key, enque_process, set_state, put_to_sleep, wake_sleepers_loop, wake_sleepers,
}

-- The heap of sleepers is valid for the ticks that the PCBs hold.
abbrev pub HeapIsValid : Sched → Type 0
HeapIsValid s = IsValid (wake_key s.procs) s.sleepers

-- no later entry wakes before an earlier one
abbrev pub IsOrdered : (ℕ → ℕ) → List ℕ → Type 0
IsOrdered key [] = Unit {0}
IsOrdered key (p ∷ ps) = ((q : ℕ) → 0 < count q ps → key p ≤ key q) × IsOrdered key ps

-- `s` after the processes `woken` left the heap, which is now `sl`, for the end of the ready queue
abbrev pub woken_state : Sched → Sleepers → List ℕ → Sched
woken_state s sl woken = record s { sleepers = sl; main_queue = s.main_queue ++ woken }

-- What holds of the processes that `wake_sleepers` wakes, and of the heap that it leaves.
pub record Wakes (s : Sched) (sl : Sleepers) (woken : List ℕ) : Type 0 where
  pub valid : IsValid (wake_key s.procs) sl
  pub items : (p : ℕ) → count p woken + count p sl.arr ≡ count p s.sleepers.arr
  pub due : (p : ℕ) → 0 < count p woken → (s.procs p).wake_up ≤ s.num_ticks
  pub not_due : (p : ℕ) → 0 < count p sl.arr → s.num_ticks < (s.procs p).wake_up
  pub in_order : IsOrdered (wake_key s.procs) woken

is_due : Sched → Bool
is_due s =
    ltb 0 (length s.sleepers.arr) && leb (s.procs (get_or s.sleepers.arr 0 0)).wake_up s.num_ticks

-- one round: the root of the heap goes to the ready queue
abbrev wake_round : Sched → Sleepers → Sched
wake_round s h = record s {
  sleepers = h;
  main_queue = s.main_queue ++ get_or s.sleepers.arr 0 0 ∷ [];
}

loop-stops :
    (fuel : ℕ) (memory : ℕ → Bool) (s : Sched)
    → is_due s ≡ false
    → wake_sleepers_loop (suc fuel) memory s ≡ ok s
unfolding wake_sleepers_loop is_due
loop-stops fuel memory s stop = rw stop

loop-goes :
    (fuel : ℕ) (memory : ℕ → Bool) (s : Sched) (h : Sleepers)
    → is_due s ≡ true
    → Sleep.remove_from_heap (wake_key s.procs) (memory fuel) s.sleepers
      ≡ ok (some (get_or s.sleepers.arr 0 0), h)
    → wake_sleepers_loop (suc fuel) memory s ≡ wake_sleepers_loop fuel memory (wake_round s h)
unfolding wake_sleepers_loop is_due enque_process
loop-goes fuel memory s h go e = rw (go, e)

Wakes-done : (s : Sched) → HeapIsValid s → is_due s ≡ false → Wakes s s.sleepers []
unfolding is_due
Wakes-done s v stop = record {
  valid = v;
  items = λ p. omega (arith, count-nil p);
  due = λ p h. absurd (omega (arith, count-nil p));
  not_due = λ p h.
      let (i, inside, e) = index_of_count p s.sleepers.arr h in
      ground (arith, root_least (wake_key s.procs) s.sleepers.arr i v.heap inside);
  in_order = tt;
}

Wakes-round :
    (s : Sched) (h sl : Sleepers) (woken : List ℕ)
    → let p = get_or s.sleepers.arr 0 0 in
      is_due s ≡ true
      → ((x : ℕ) → count x (p ∷ h.arr) ≡ count x s.sleepers.arr)
      → ((x : ℕ) → 0 < count x h.arr → (s.procs p).wake_up ≤ (s.procs x).wake_up)
      → Wakes (wake_round s h) sl woken
      → Wakes s sl (p ∷ woken)
unfolding is_due
Wakes-round s h sl woken go items least w =
    let p : ℕ = get_or s.sleepers.arr 0 0 in
    record {
      valid = w.valid;
      items = λ x. omega (arith, w.items x, items x, count-cons x p woken, count-cons x p h.arr);
      due = λ x q. ground (arith, w.due x, count-cons x p woken);
      not_due = w.not_due;
      in_order = (λ x q. least x (omega (arith, w.items x)), w.in_order);
    }

wake_sleepers_loop-Wakes :
    (fuel : ℕ) (memory : ℕ → Bool) (s : Sched)
    → length s.sleepers.arr < fuel
    → HeapIsValid s
    → (sl : Sleepers) × (woken : List ℕ) × (wake_sleepers_loop fuel memory s
        ≡ ok (woken_state s sl woken))
      × Wakes s sl woken
wake_sleepers_loop-Wakes zero memory s f v = absurd (omega arith)
wake_sleepers_loop-Wakes (suc fuel) memory s f v = elim (Bool-cases (is_due s)) [
  | inl go ↦
      let (h, run, valid, size, items, least) =
        remove_from_heap_lem (wake_key s.procs) (memory fuel) s.sleepers v
          (unfold is_due in ground arith) in
      let p : ℕ = get_or s.sleepers.arr 0 0 in
      let (sl, woken, rest, w) =
        wake_sleepers_loop-Wakes fuel memory (wake_round s h) (omega arith) valid in
      (
        sl,
        p ∷ woken,
        loop-goes fuel memory s h go run ∙ rest ∙ rw (append_assoc s.main_queue (p ∷ []) woken),
        Wakes-round s h sl woken go items least w,
      )
  | inr stop ↦ (s.sleepers, [], loop-stops fuel memory s stop ∙ rw append-nil, Wakes-done s v stop)
]

-- On a valid heap `wake_sleepers` ends, whatever memory there is. It moves exactly the sleepers
-- whose tick has come to the end of the ready queue, in the order of their ticks, leaves the heap
-- valid and every other part of the state as it was.
pub wake_sleepers_lem :
    (memory : ℕ → Bool) (s : Sched)
    → HeapIsValid s
    → (sl : Sleepers) × (woken : List ℕ) × (wake_sleepers memory s ≡ ok (woken_state s sl woken))
      × Wakes s sl woken
unfolding wake_sleepers
wake_sleepers_lem memory s v =
    wake_sleepers_loop-Wakes (length s.sleepers.arr + 1) memory s (omega arith) v

-- Ticks of processes that are not in the heap do not matter to it.
pub IsValid-other :
    (procs procs' : Store) (h : Sleepers)
    → ((q : ℕ) → 0 < count q h.arr → (procs' q).wake_up ≡ (procs q).wake_up)
    → IsValid (wake_key procs) h
    → IsValid (wake_key procs') h
IsValid-other procs procs' h same v = record {
  heap = λ c p q. ground (
    arith,
    v.heap c,
    same (get_or h.arr c 0),
    same (get_or h.arr (parent c) 0),
    count_of_index h.arr c,
    count_of_index h.arr (parent c),
  );
  room = v.room;
  some_room = v.some_room;
}

-- the PCB of `p` after a call of `put_to_sleep`
abbrev pub slept : Bool → ℕ → ℕ → Sched → Pcb
slept refused p t s = record (s.procs p) {
  wake_up = s.num_ticks + t;
  state = if refused then running else waiting;
}

slept_again :
    (p t : ℕ) (s : Sched) (sl : Sleepers)
    → set_state p running (record s { procs = update s.procs p (slept false p t s); sleepers = sl })
      ≡ record s { procs = update s.procs p (slept true p t s); sleepers = sl }
unfolding set_state
slept_again p t s sl = ap (λ (procs : Store). record s { procs = procs; sleepers = sl }) same
  where
    asleep : Store
    asleep = update s.procs p (slept false p t s)

    same :
        update asleep p (record (asleep p) { state = running })
        ≡ update s.procs p (slept true p t s)
    same = fun_ext λ q. ground arith

-- Of a process that is not asleep, with a valid heap, and a tick to wake up at that is an int: `put_to_sleep` fails only if the heap is full
-- and there is no memory; the process then is RUNNING again and the heap has the same entries. Otherwise the process
-- is WAITING, in the heap once more than before, with a tick `t` ahead of the clock. Either way the heap stays
-- valid, and no other PCB and no queue changes.
pub put_to_sleep_lem :
    (allocated : Bool) (p t : ℕ) (s : Sched)
    → HeapIsValid s
    → count p s.sleepers.arr ≡ 0
    → s.num_ticks + t < 2 ^ 31
    → let refused = leb s.sleepers.current_size (length s.sleepers.arr) && not allocated in
      (sl : Sleepers) × (put_to_sleep allocated p t s
        ≡ ok (
          not refused,
          record s { procs = update s.procs p (slept refused p t s); sleepers = sl },
        ))
      × IsValid (wake_key (update s.procs p (slept refused p t s))) sl
      × ((x : ℕ)
          → count x sl.arr
            ≡ (if refused then count x s.sleepers.arr else count x (p ∷ s.sleepers.arr)))
unfolding put_to_sleep
put_to_sleep_lem allocated p t s v awake early =
    let an_int : leb (2 ^ 31) (s.num_ticks + t) ≡ false = ground arith in
    let refused : Bool = leb s.sleepers.current_size (length s.sleepers.arr) && not allocated in
    let procs' = update s.procs p (slept false p t s) in
    let (sl, run, valid, items) =
      add_to_heap_lem (wake_key procs') allocated s.sleepers p
        (IsValid-other s.procs procs' s.sleepers (λ q h. ground arith) v) in
    (
      sl,
      elim (Bool-cases refused) [
        | inl full ↦ rw (an_int, run, full, slept_again p t s sl)
        | inr fits ↦ rw (an_int, run, fits)
      ],
      IsValid-other procs' (update s.procs p (slept refused p t s)) sl (λ q h. ground arith) valid,
      items,
    )
