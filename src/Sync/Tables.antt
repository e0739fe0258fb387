-- ===== src/Sync/Tables.antt =====
-- The tables of locks and of condition variables: init_sync, new_lock, delete_lock, new_cvar and
-- delete_cvar. `calloc` is a Boolean argument: whether there is memory.
pub mod Valid
pub mod Laws
use cs58final_project.Prelude.{
  ℕ, ◌*◌, ◌/◌, Bool, true, false, not, ◌&&◌, Option, none, some, List, [], ◌++◌, ltb, leb,
  if◌then◌else◌, length, set, replicate, take, drop,
}
use cs58final_project.Prelude.Int.{ℤ, pos, ltb_ℤ}
use cs58final_project.Sched.{Sched}
use cs58final_project.Sync.{Sync, Lock, Cvar, zero_lock, zero_cvar, live_lock, live_cvar}
use cs58final_project.Sync.Slots.{skip_used, any_used}

-- the two tables as `init_sync` leaves them; `none` is false
pub init_sync : Bool → Bool → Sched → Option Sync
init_sync got_locks got_cvars sched =
    if got_locks && got_cvars
    then some (record {
      locks = replicate 10 zero_lock;
      cvars = replicate 10 zero_cvar;
      open_lock_idx = 0;
      open_cvar_idx = 0;
      sched = sched;
    })
    else none

-- a table and its open index
pub record Table {ℓ} (A : Type ℓ) : Type ℓ where
  pub slots : List A
  pub open_idx : ℕ

-- A full table is doubled; `none` if it has to be and there is no memory.
pub grow {ℓ} : {A : Type ℓ} → A → Bool → Table A → Option (Table A)
grow empty allocated t =
    let size = length t.slots in
    if leb size t.open_idx
    then (if allocated then some (record t { slots = t.slots ++ replicate size empty }) else none)
    else some t

-- The entry at the open index is set up, and the index moves on.
pub open_slot {ℓ} : {A : Type ℓ} → (A → Bool) → A → Table A → Table A
open_slot used x t =
    let slots = set t.slots t.open_idx x in
    record { slots = slots; open_idx = skip_used used (drop t.open_idx slots) t.open_idx }

-- The end of a deletion: the index goes back, and the table is halved if its upper half is free.
pub close_slot {ℓ} : {A : Type ℓ} → (A → Bool) → Bool → ℕ → List A → ℕ → Table A
close_slot used allocated i slots open_idx =
    let idx = if ltb i open_idx then i else open_idx in
    let half = length slots / 2 in
    if any_used used (drop half slots)
    then record { slots = slots; open_idx = idx }
    else if ltb idx half && allocated
    then record { slots = take half slots; open_idx = idx }
    else record { slots = slots; open_idx = idx }

abbrev pub lock_used : Lock → Bool
lock_used l = l.in_use

abbrev pub cvar_used : Cvar → Bool
cvar_used c = c.in_use

abbrev pub lock_table : Sync → Table Lock
lock_table s = record { slots = s.locks; open_idx = s.open_lock_idx }

abbrev pub cvar_table : Sync → Table Cvar
cvar_table s = record { slots = s.cvars; open_idx = s.open_cvar_idx }

abbrev pub with_locks : Sync → Table Lock → Sync
with_locks s t = record s { locks = t.slots; open_lock_idx = t.open_idx }

abbrev pub with_cvars : Sync → Table Cvar → Sync
with_cvars s t = record s { cvars = t.slots; open_cvar_idx = t.open_idx }

abbrev pub fresh_lock : ℕ → Lock
fresh_lock capacity = record zero_lock {
  in_use = true;
  capacity = capacity;
  val = capacity;
  pids = replicate capacity 0;
}

-- `none` is ERROR. `got_pids` says whether the array of holders could be allocated; if not, the
-- entry stays zero.
pub new_lock : Bool → Bool → ℕ → Table Lock → Option ℕ × Table Lock
new_lock allocated got_pids capacity t = elim (grow zero_lock allocated t) [
  | none ↦ (none, t)
  | some t' ↦
      if got_pids
      then (some t'.open_idx, open_slot lock_used (fresh_lock capacity) t')
      else (none, record t' { slots = set t'.slots t'.open_idx zero_lock })
]

pub new_cvar : Bool → Table Cvar → Option ℕ × Table Cvar
new_cvar allocated t = elim (grow zero_cvar allocated t) [
  | none ↦ (none, t)
  | some t' ↦ (some t'.open_idx, open_slot cvar_used (record zero_cvar { in_use = true }) t')
]

-- The array of holders is freed, so the model forgets it.
pub delete_lock : Bool → ℕ → Table Lock → Bool × Table Lock
delete_lock allocated i t = elim (live_lock t.slots i) [
  | none ↦ (false, t)
  | some l ↦
      let slots = set t.slots i (record l { in_use = false; pids = [] }) in
      if ltb_ℤ (pos 0) l.needed_by
      then (false, t)
      else (true, close_slot lock_used allocated i slots t.open_idx)
]

abbrev pub is_empty : List ℕ → Bool
is_empty [] = true
is_empty (List.◌∷◌ p ps) = false

pub delete_cvar : Bool → ℕ → Table Cvar → Bool × Table Cvar
delete_cvar allocated i t = elim (live_cvar t.slots i) [
  | none ↦ (false, t)
  | some c ↦
      if is_empty c.waiters
      then (
        true,
        close_slot cvar_used allocated i (set t.slots i (record c { in_use = false })) t.open_idx,
      )
      else (false, t)
]
