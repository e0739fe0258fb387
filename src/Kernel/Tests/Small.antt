-- ===== src/Kernel/Tests/Small.antt =====
-- A small machine for the tests of the kernel: pages of 16 bytes, twelve frames, three of them for the kernel, one for the
-- kernel stack of process 1, and one each for its code and its stack. Process 9 idles.
use cs58final_project.Prelude.{
  ℕ, zero, suc, ◌+◌, ◌-◌, ◌*◌, ◌/◌, ◌%◌, ◌≤◌, ◌<◌, ◌≡◌, refl, sym, ap, ◌∙◌, true, false, arith,
  List, [], ◌∷◌, inl, inr, none, ◌==◌, if◌then◌else◌, replicate, length, Bool-cases,
}
use cs58final_project.Frames.{Frames}
use cs58final_project.Frames.Inv.{AreBytes, is_free}
use cs58final_project.Frames.Tracked.{Tracked}
use cs58final_project.Pages.{Pte, zero_pte, entry, read_write, read_exec}
use cs58final_project.Pages.Owners.{Owned}
use cs58final_project.Process.{zero_pcb}
use cs58final_project.UserMemory.{MemCtx}
use cs58final_project.Kernel.State.{Kern, Machine, Library, nothing}
use cs58final_project.Kernel.Isolation.{Owner, user, stack, kernel, tables_of}
use cs58final_project.Kernel.Isolation.Safe.{IsSafe}
use cs58final_project.Frames.{initialize_frame_tracking, up_to_byte}
use cs58final_project.Frames.Start.{started, bytes_needed, initialize-IsValid}
use cs58final_project.KernelMemory.Boot.{IsLaidOut}
use cs58final_project.Kernel.State.{kernel_mem, kernel_numbers}
use cs58final_project.Kernel.Isolation.Exit.{entry-replicate}
use cs58final_project.Kernel.Isolation.Boot.{IsBlank}
use cs58final_project.Kernel.Isolation.Birth.{Sound, Fresh}

abbrev pub small : Machine
small = record {
  layout = record {
    base = 0;
    first = 128;
    page_down = λ a. a / 16;
    page_up = λ a. (a + 15) / 16;
    vmem_base = 2048;
    vmem_limit = 2112;
  };
  kernel_layout = record {
    base = 0;
    text_page = 0;
    data_page = 2;
    orig_brk_page = 3;
    stack_page = 6;
    stack_pages = 1;
    region_pages = 7;
    page_up = λ a. (a + 15) / 16;
    page_address = λ n. n * 16;
  };
  abi = record {
    page_size = 16;
    pointer_size = 4;
    post_argv_null_space = 1;
    initial_stack_frame_size = 0;
    max_pt_len = 4;
    pointer_bytes = λ n. n % 256 ∷ 0 ∷ 0 ∷ 0 ∷ [];
    pointer_of = λ bytes. 0;
  };
  num_terminals = 1;
  max_line = 8;
  buffer_len = 8;
  int_bytes = λ n. n % 256 ∷ 0 ∷ 0 ∷ 0 ∷ [];
}

abbrev page : ℕ → Pte
page f = record { valid = true; pfn = f; prot = read_write }

abbrev code : Pte
code = record { valid = true; pfn = 4; prot = read_exec }

abbrev pages : List Pte
pages = code ∷ zero_pte ∷ zero_pte ∷ page 5 ∷ []

abbrev kernel_pages : List Pte
kernel_pages = page 0 ∷ page 1 ∷ page 2 ∷ zero_pte ∷ zero_pte ∷ zero_pte ∷ page 3 ∷ []

abbrev context : ℕ → MemCtx
context p = record {
  region1_pt = if p == 1 then pages else [];
  curr_brk_page = 129;
  orig_brk_page = 129;
  txt_start_page = 128;
  data_start_page = 129;
}

abbrev six_used : Frames
six_used = record { frame_bitset = 0x3f ∷ 0 ∷ []; next_free = 2; num_frames = 12 }

abbrev pub start : Kern
start = record {
  sched = record {
    procs = λ p. record zero_pcb { pid = p };
    sleepers = record { arr = []; current_size = 20 };
    num_ticks = 0;
    running_proc = 1;
    idle_proc = 9;
    main_queue = [];
    wait_queue = [];
    io_queue = [];
  };
  frames = six_used;
  contents = λ f. replicate 16 f;
  contexts = context;
  stacks = λ p. if p == 1 then page 3 ∷ [] else zero_pte ∷ [];
  region0_pt = kernel_pages;
  vm_enabled = true;
  current_brk_page = 3;
  pipes = record { pipes = []; open_pipe_idx = 0 };
  ttys = λ i. record {
    tx_owner = none;
    transmitting = false;
    tx_last_chunk = 0;
    writers = [];
    rx = [];
    readers = [];
  };
  log = [];
  locks = [];
  cvars = [];
  open_lock_idx = 0;
  open_cvar_idx = 0;
  sp = λ p. 2100;
  pc = λ p. 2048;
  pending = λ p. nothing;
}

-- all allocations have memory, and no file is there
abbrev pub rich : Library
rich = record {
  alloc = λ i. true;
  new_pcb = 2;
  new_pid = 2;
  open_file = λ name. record { opened = false; info = none; read = λ at size. none };
}

two_bytes : AreBytes (0x3f ∷ 0 ∷ [])
two_bytes zero = omega arith
two_bytes (suc zero) = omega arith
two_bytes (suc (suc i)) = omega arith

first_six_used : (n : ℕ) → n < 6 → is_free six_used n ≡ false
first_six_used zero h = refl
first_six_used (suc zero) h = refl
first_six_used (suc (suc zero)) h = refl
first_six_used (suc (suc (suc zero))) h = refl
first_six_used (suc (suc (suc (suc zero)))) h = refl
first_six_used (suc (suc (suc (suc (suc zero))))) h = refl
first_six_used (suc (suc (suc (suc (suc (suc n)))))) h = absurd (omega arith)

-- whose page a frame is
abbrev place_of : ℕ → Owner × ℕ
place_of f =
    if f == 5
    then (user 1, 3)
    else if f == 4
    then (user 1, 0)
    else if f == 3
    then (kernel, 6)
    else (kernel, f)

abbrev Placed : Owner → ℕ → Pte → Type 0
Placed o i e = (place_of e.pfn ≡ (o, i)) × (e.pfn < 6)

user-Placed : (i : ℕ) → (entry pages i).valid ≡ true → Placed (user 1) i (entry pages i)
user-Placed zero h = (refl, omega arith)
user-Placed (suc zero) h = absurd (ground (arith, h))
user-Placed (suc (suc zero)) h = absurd (ground (arith, h))
user-Placed (suc (suc (suc zero))) h = (refl, omega arith)
user-Placed (suc (suc (suc (suc i)))) h = absurd (ground (arith, h))

kernel-Placed :
    (i : ℕ) → (entry kernel_pages i).valid ≡ true → Placed kernel i (entry kernel_pages i)
kernel-Placed zero h = (refl, omega arith)
kernel-Placed (suc zero) h = (refl, omega arith)
kernel-Placed (suc (suc zero)) h = (refl, omega arith)
kernel-Placed (suc (suc (suc zero))) h = absurd (ground (arith, h))
kernel-Placed (suc (suc (suc (suc zero)))) h = absurd (ground (arith, h))
kernel-Placed (suc (suc (suc (suc (suc zero))))) h = absurd (ground (arith, h))
kernel-Placed (suc (suc (suc (suc (suc (suc zero)))))) h = (refl, omega arith)
kernel-Placed (suc (suc (suc (suc (suc (suc (suc i))))))) h = absurd (ground (arith, h))

abbrev table : Owner → List Pte
table = tables_of start.contexts start.stacks start.region0_pt 1

no_entry : (i : ℕ) → (entry (zero_pte ∷ []) i).valid ≡ false
no_entry zero = refl
no_entry (suc i) = refl

placed : (o : Owner) (i : ℕ) → (entry (table o) i).valid ≡ true → Placed o i (entry (table o) i)
placed (user x) i h = elim (Bool-cases (x == 1)) [
  | inl one ↦
      let e : 1 ≡ x = ground arith in
      let (place, used) = user-Placed i (rw one at h) in
      rw one (place ∙ ap (λ (y : ℕ). (user y, i)) e, used)
  | inr other ↦ absurd (ground (arith, rw other at h))
]
placed (stack x) i h = elim (Bool-cases (x == 1)) [
  | inl one ↦ absurd (ground (arith, rw one at h))
  | inr other ↦
      let h' : (entry (zero_pte ∷ []) i).valid ≡ true = rw other at h in
      absurd (ground (arith, no_entry i, h'))
]
placed kernel i h = kernel-Placed i h

six-Tracked : Tracked six_used
six-Tracked = record {
  valid = record {
    bytes = two_bytes;
    covers = omega arith;
    hint = omega arith;
    below = λ m h. first_six_used m (omega arith);
  };
  spare = omega arith;
}

start-Owned : Owned 0 six_used table
start-Owned = record {
  tables = λ o. record {
    tracked = six-Tracked;
    above = λ i h. omega arith;
    inside = λ i h. omega (arith, (placed o i h).1);
    used = λ i h. first_six_used ((entry (table o) i).pfn - 0) (omega (arith, (placed o i h).1));
    apart = λ i j hi hj e.
        ap (λ (x : Owner × ℕ). x.1) (sym (placed o i hi).0 ∙ ap place_of e ∙ (placed o j hj).0);
  };
  apart = λ o o' i j hi hj e.
      ap (λ (x : Owner × ℕ). x.0) (sym (placed o i hi).0 ∙ ap place_of e ∙ (placed o' j hj).0);
}

one_page : (p : ℕ) → length (start.stacks p) ≡ 1
one_page p = elim (Bool-cases (p == 1)) [ inl one ↦ rw one refl | inr other ↦ rw other refl ]

mapped : (i : ℕ) → i < 1 → entry kernel_pages (6 + i) ≡ entry (page 3 ∷ []) i
mapped zero h = refl
mapped (suc i) h = absurd (omega arith)

between : (j : ℕ) → 3 ≤ j → j < 6 → (entry kernel_pages j).valid ≡ false
between zero a b = absurd (omega arith)
between (suc zero) a b = absurd (omega arith)
between (suc (suc zero)) a b = absurd (omega arith)
between (suc (suc (suc zero))) a b = refl
between (suc (suc (suc (suc zero)))) a b = refl
between (suc (suc (suc (suc (suc zero))))) a b = refl
between (suc (suc (suc (suc (suc (suc j)))))) a b = absurd (omega arith)

pub start-IsSafe : IsSafe small start
start-IsSafe = record {
  isolated = record {
    owned = start-Owned;
    mapped_stack = λ i h. (λ v. mapped i h, λ v. mapped i h);
    sizes = one_page;
    room = omega arith;
  };
  enabled = refl;
  gap = between;
}

pub small-Sound : Sound small
small-Sound = record { round = λ x. omega arith; some_stack = omega arith }

pub start-Fresh : Fresh 2 start
start-Fresh = record { other = λ e. absurd (omega (arith, e)); unused = λ j. refl }

-- the machine before its kernel starts: no frame is taken, and process 1 is the idle one
abbrev pub unbooted : Kern
unbooted = record start {
  frames = started (λ a. a / 16) 0 192;
  contexts = λ p. record (context p) { region1_pt = replicate 4 zero_pte };
  stacks = λ p. replicate 1 zero_pte;
  region0_pt = [];
  vm_enabled = false;
}

even_bytes : bytes_needed (λ a. a / 16) 0 192 % 2 ≡ 0
even_bytes = refl

pub unbooted-Tracked : Tracked unbooted.frames
unfolding initialize_frame_tracking up_to_byte
unbooted-Tracked = record {
  valid = (initialize-IsValid (λ a. a / 16) 0 192 even_bytes).0;
  spare = omega arith;
}

pub unbooted-free : (n : ℕ) → is_free unbooted.frames n ≡ true
unbooted-free = (initialize-IsValid (λ a. a / 16) 0 192 even_bytes).2

pub unbooted-IsLaidOut : IsLaidOut (kernel_numbers small) (kernel_mem unbooted)
unbooted-IsLaidOut = record {
  low = omega arith;
  text = omega arith;
  heap = omega arith;
  gap = omega arith;
  fits = omega arith;
  frames = omega (arith, (initialize-IsValid (λ a. a / 16) 0 192 even_bytes).1);
}

pub unbooted-IsBlank : IsBlank small unbooted
unbooted-IsBlank = record {
  pages = λ p j. entry-replicate 4 j;
  stacks = λ p j. entry-replicate 1 j;
  sizes = λ p. refl;
}
