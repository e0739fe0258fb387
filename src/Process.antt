-- ===== src/Process.antt =====
-- yalnix_framework/headers/pcb.h and src/pcb.c: process control blocks and their family relations.
-- A PCB is named by its address, a number, and the store maps addresses to PCBs. Registers and exit
-- codes are 32-bit patterns. `calloc` is a Boolean argument: whether there is memory. What `free`
-- is called on is returned as a list of addresses.
pub mod Children
pub mod Retire
mod Tests
use cs58final_project.Prelude.{
  ℕ, ◌+◌, ◌-◌, ◌*◌, ◌/◌, ◌^◌, Bool, true, false, not, ◌&&◌, Option, none, some, List, [], ◌∷◌, ◌++◌,
  ltb, leb, ◌==◌, if◌then◌else◌, length,
}

pub data ProcessState : Type 0 where
  running ready waiting exited : ProcessState

-- The fields that the modelled code reads. `children` holds `children[0 .. num_children)`.
pub record Pcb : Type 0 where
  pub pid : ℕ
  pub state : ProcessState
  pub has_parent : Bool
  pub children : List ℕ
  pub arr_size : ℕ
  pub exit_code : ℕ
  pub wake_up : ℕ
  pub cvar_lock_id : ℕ
  pub reg0 : ℕ
  pub reg1 : ℕ
  pub reg2 : ℕ
  pub io_kbuf : List ℕ
  pub io_user_buf : ℕ
  pub io_total : ℕ
  pub io_sent : ℕ
  pub io_len : ℕ
  pub io_tty_id : ℕ

abbrev pub Store : Type 0
Store = ℕ → Pcb

abbrev pub update : Store → ℕ → Pcb → Store
update procs p v q = if q == p then v else procs q

abbrev pub is_exited : ProcessState → Bool
is_exited exited = true
is_exited _ = false

-- What `calloc` leaves: every field zero (RUNNING is the first state).
abbrev pub zero_pcb : Pcb
zero_pcb = record {
  pid = 0;
  state = running;
  has_parent = false;
  children = [];
  arr_size = 0;
  exit_code = 0;
  wake_up = 0;
  cvar_lock_id = 0;
  reg0 = 0;
  reg1 = 0;
  reg2 = 0;
  io_kbuf = [];
  io_user_buf = 0;
  io_total = 0;
  io_sent = 0;
  io_len = 0;
  io_tty_id = 0;
}

-- `create_new_pcb`: the four allocations are made in order, and `none` is NULL. `new_pid` is what
-- the library's `helper_new_pid` returns; the three registers are those of the given user context.
unfoldable pub create_new_pcb : Bool → Bool → Bool → Bool → ℕ → ℕ → ℕ → ℕ → Option Pcb
create_new_pcb got_pcb got_ks_pt got_region1_pt got_children new_pid r0 r1 r2 =
    if got_pcb && (got_ks_pt && (got_region1_pt && got_children))
    then some (record zero_pcb {
      pid = new_pid;
      state = ready;
      has_parent = true;
      arr_size = 10;
      reg0 = r0;
      reg1 = r1;
      reg2 = r2;
    })
    else none

-- The first exited child, and the children without it, the later ones moved up by one.
pub take_exited : Store → List ℕ → Option (ℕ × List ℕ)
take_exited procs [] = none
take_exited procs (c ∷ cs) =
    let rest = take_exited procs cs in
    if is_exited (procs c).state
    then some (c, cs)
    else elim rest [ none ↦ none | some (e, others) ↦ some (e, c ∷ others) ]

-- the parent's array after a child is taken out; the test reads the old number of children
pub without_child : Bool → Pcb → List ℕ → Pcb
without_child allocated parent others =
    if ltb (length parent.children) (parent.arr_size / 2) && allocated
    then record parent { children = others; arr_size = parent.arr_size / 2 }
    else record parent { children = others }

-- `find_exited_child`: `none` for false; else the child that is freed and the new store.
-- The exit code that goes through `output` is the freed child's.
pub find_exited_child : Bool → Store → ℕ → Option (ℕ × Store)
find_exited_child allocated procs parent = elim (take_exited procs (procs parent).children) [
  | none ↦ none
  | some (child, others) ↦
      some (child, update procs parent (without_child allocated (procs parent) others))
]

unfoldable pub add_child_proc : Bool → Pcb → ℕ → Bool × Pcb
add_child_proc allocated parent child =
    let full = length parent.children == parent.arr_size in
    let size = if full then parent.arr_size * 2 else parent.arr_size in
    if full && not allocated
    then (false, parent)
    else (true, record parent { children = parent.children ++ child ∷ []; arr_size = size })

-- The loop of `retire_pcb`: an exited child is freed, any other is marked as an orphan.
pub release_children : Store → List ℕ → Store × List ℕ
release_children procs [] = (procs, [])
release_children procs (c ∷ cs) =
    let gone = is_exited (procs c).state in
    let procs' = if gone then procs else update procs c (record (procs c) { has_parent = false }) in
    let (procs'', freed) = release_children procs' cs in
    (procs'', if gone then c ∷ freed else freed)

-- `retire_pcb`: the new store, and the PCBs that are freed.
pub retire_pcb : Store → ℕ → Store × List ℕ
retire_pcb procs p =
    let (procs', freed) = release_children procs (procs p).children in
    (procs', if (procs' p).has_parent then freed else freed ++ p ∷ [])
