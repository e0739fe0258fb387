-- ===== src/Loader/Tests.antt =====
-- load_program.c at a concrete plan: region 1 from page 128 to 131, with one page mapped; text, data and stack get a page each.
use cs58final_project.Prelude.{
  ℕ, zero, suc, ◌+◌, ◌-◌, ◌/◌, ◌<◌, ◌≡◌, refl, true, false, arith, [], ◌∷◌, ◌⊎◌, ◌==◌,
  if◌then◌else◌,
}
use cs58final_project.Prelude.Run.{ok}
use cs58final_project.Frames.Inv.{AreBytes, is_free}
use cs58final_project.Pages.{Pte, Space, entry, zero_pte, read_write}
use cs58final_project.Pages.Laws.{Mapped}
use cs58final_project.Pages.Moves.{Moves}
use cs58final_project.UserMemory.{UserMem, Layout, space_of, with_space}
use cs58final_project.Prelude.{List, replicate, ◌≤◌, ◌%◌}
use cs58final_project.UserMemory.Bytes.{peek}
use cs58final_project.UserMemory.Bytes.Access.{Window}
use cs58final_project.Loader.Arguments.{Holds, IsArgs, build_stack_lem}
use cs58final_project.Loader.{Plan, build, Abi, LoadInfo, plan, args_size, build_stack}
use cs58final_project.Loader.Build.{IsPlaced, IsBuilt, RunsOut, build_lem}

abbrev layout : Layout
layout = record {
  base = 0;
  first = 128;
  page_down = λ a. a / 16;
  page_up = λ a. (a + 15) / 16;
  vmem_base = 2048;
  vmem_limit = 2112;
}

abbrev old : Pte
old = record { valid = true; pfn = 1; prot = read_write }

abbrev one_page : UserMem
one_page = record {
  frames = record { frame_bitset = 0x03 ∷ 0 ∷ []; next_free = 2; num_frames = 12 };
  ctx = record {
    region1_pt = zero_pte ∷ old ∷ zero_pte ∷ zero_pte ∷ [];
    curr_brk_page = 130;
    orig_brk_page = 129;
    txt_start_page = 128;
    data_start_page = 129;
  };
}

abbrev three_pages : Plan
three_pages = record {
  text = 128;
  text_npg = 1;
  start = 129;
  data_npg = 1;
  stack_npg = 1;
  cp = 2110;
  cpp = 2100;
  sp = 2100;
}

two_bytes : AreBytes (0x03 ∷ 0 ∷ [])
two_bytes zero = omega arith
two_bytes (suc zero) = omega arith
two_bytes (suc (suc i)) = omega arith

first_two_used : (n : ℕ) → n < 2 → is_free one_page.frames n ≡ false
first_two_used zero h = refl
first_two_used (suc zero) h = refl
first_two_used (suc (suc n)) h = absurd (omega arith)

entry-one_page : (i : ℕ) → entry one_page.ctx.region1_pt i ≡ (if i == 1 then old else zero_pte)
entry-one_page zero = refl
entry-one_page (suc zero) = refl
entry-one_page (suc (suc zero)) = refl
entry-one_page (suc (suc (suc zero))) = refl
entry-one_page (suc (suc (suc (suc i)))) = ground arith

one_page-Mapped : Mapped 0 (space_of one_page)
one_page-Mapped = record {
  tracked = record {
    valid = record {
      bytes = two_bytes;
      covers = omega arith;
      hint = omega arith;
      below = λ m h. first_two_used m (omega arith);
    };
    spare = omega arith;
  };
  above = λ i h. omega arith;
  inside = λ i h. ground (arith, entry-one_page i);
  used = λ i h.
      first_two_used ((entry one_page.ctx.region1_pt i).pfn - 0) (ground (arith, entry-one_page i));
  apart = λ i j hi hj same. ground (arith, entry-one_page i, entry-one_page j);
}

three_pages-IsPlaced : IsPlaced layout three_pages one_page
three_pages-IsPlaced = record { low = omega arith; order = omega arith; fits = omega arith }

build_lem_example :
    ((s : Space) × (build layout three_pages one_page ≡ ok (true, with_space one_page s))
      × IsBuilt layout three_pages one_page s
      × Moves 0 (space_of one_page) s)
    ⊎ ((s : Space) × (build layout three_pages one_page ≡ ok (false, with_space one_page s))
        × RunsOut layout three_pages one_page
        × Moves 0 (space_of one_page) s)
build_lem_example = build_lem layout three_pages one_page one_page-Mapped three_pages-IsPlaced

-- pages of 16 bytes and pointers of two
abbrev abi : Abi
abi = record {
  page_size = 16;
  pointer_size = 2;
  post_argv_null_space = 0;
  initial_stack_frame_size = 0;
  max_pt_len = 4;
  pointer_bytes = λ n. n % 256 ∷ n / 256 ∷ [];
  pointer_of = λ bytes. 0;
}

-- the stack page alone
abbrev stack_table : List Pte
stack_table = zero_pte ∷ zero_pte ∷ zero_pte ∷ old ∷ []

abbrev program : LoadInfo
program = record {
  entry = 2048;
  t_vaddr = 2048;
  t_faddr = 0;
  t_npg = 1;
  id_vaddr = 2064;
  id_faddr = 16;
  id_npg = 1;
  ud_npg = 0;
  id_end = 2080;
  ud_end = 2080;
}

abbrev arguments : List (List ℕ)
arguments = (65 ∷ 66 ∷ []) ∷ []

abbrev zeros : ℕ → List ℕ
zeros f = replicate 16 0

last_page : (a : ℕ) → 2096 ≤ a → a < 2112 → a / 16 - 128 ≡ 3
last_page a low high = omega arith

stack_page-Window : Window layout 16 stack_table 2096 2112 zeros
stack_page-Window = record {
  some_bytes = omega arith;
  region = λ a low high. omega (arith, low);
  valid = λ a low high. rw (last_page a low high) refl;
  writable = λ a low high. rw (last_page a low high) refl;
  whole = λ a low high. refl;
  apart = λ a b la ha lb hb e same. omega (arith, same);
}

build_stack_lem_example :
    (c : ℕ → List ℕ) × (build_stack layout abi stack_table
        (plan layout abi arguments program one_page)
        arguments
        zeros
      ≡ ok c)
    × Holds layout abi stack_table c 2096 (1 ∷ 0 ∷ [])
    × IsArgs layout abi stack_table c 2109 2098 arguments
    × ((x : ℕ)
        → 2096 ≤ x
        → x < 2096
        → peek layout 16 stack_table c x ≡ peek layout 16 stack_table zeros x)
unfolding plan args_size
build_stack_lem_example =
    build_stack_lem layout abi stack_table 2096 arguments program one_page zeros (λ n. refl)
      stack_page-Window (omega arith) (omega arith)
