-- ===== src/UserMemory/Tests.antt =====
-- user_memory.c at concrete inputs: twelve frames from base 100, the first four in use; pages of 16
-- bytes, region 1 from page 128 to 131, with a page of code at its start and one of stack at its end.
use cs58final_project.Prelude.{
  List, ℕ, zero, suc, ◌+◌, ◌-◌, ◌/◌, ◌≤◌, ◌<◌, ◌≡◌, ◌↔◌, refl, true, false, arith, [], ◌∷◌, ◌⊎◌,
  ◌==◌, if◌then◌else◌,
}
use cs58final_project.Prelude.Run.{ok}
use cs58final_project.Machine.{error, success}
use cs58final_project.Frames.{Frames}
use cs58final_project.Frames.Inv.{AreBytes, is_free}
use cs58final_project.Pages.{Pte, Space, entry, zero_pte, read_write, read_exec}
use cs58final_project.Pages.Laws.{Mapped}
use cs58final_project.Pages.Range.{Undone}
use cs58final_project.Pages.Fill.{Unmapped, Filled, Restored, TooFew}
use cs58final_project.UserMemory.{
  UserMem, Layout, space_of, with_space, kernel_brk_impl, expand_stack, has_perms,
}
use cs58final_project.UserMemory.{ForkMem}
use cs58final_project.UserMemory.Pointers.{
  check_c_buf, check_c_string, check_argv, Ends, check_c_buf_lem, check_strings_lem,
}
use cs58final_project.UserMemory.Brk.{moved, IsHeap, brk_refused, kernel_brk_lem}
use cs58final_project.UserMemory.Stack.{Expanded, is_refused, expand_stack_lem, expand_stack_full}

abbrev layout : Layout
layout = record {
  base = 100;
  first = 128;
  page_down = λ a. a / 16;
  page_up = λ a. (a + 15) / 16;
  vmem_base = 2048;
  vmem_limit = 2112;
}

abbrev four_used : Frames
four_used = record { frame_bitset = 0x0f ∷ 0 ∷ []; next_free = 2; num_frames = 12 }

-- all twelve frames in use
abbrev full : Frames
full = record { frame_bitset = 0xff ∷ 0x0f ∷ []; next_free = 12; num_frames = 12 }

-- code in frame 102, stack in frame 101
abbrev code : Pte
code = record { valid = true; pfn = 102; prot = read_exec }

abbrev stack : Pte
stack = record { valid = true; pfn = 101; prot = read_write }

abbrev memory : Frames → UserMem
memory frames = record {
  frames = frames;
  ctx = record {
    region1_pt = code ∷ zero_pte ∷ zero_pte ∷ stack ∷ [];
    curr_brk_page = 129;
    orig_brk_page = 129;
    txt_start_page = 128;
    data_start_page = 129;
  };
}

two_bytes : AreBytes (0x0f ∷ 0 ∷ [])
two_bytes zero = omega arith
two_bytes (suc zero) = omega arith
two_bytes (suc (suc i)) = omega arith

full_bytes : AreBytes (0xff ∷ 0x0f ∷ [])
full_bytes zero = omega arith
full_bytes (suc zero) = omega arith
full_bytes (suc (suc i)) = omega arith

all_used : (n : ℕ) → n < 12 → is_free full n ≡ false
all_used zero h = refl
all_used (suc zero) h = refl
all_used (suc (suc zero)) h = refl
all_used (suc (suc (suc zero))) h = refl
all_used (suc (suc (suc (suc zero)))) h = refl
all_used (suc (suc (suc (suc (suc zero))))) h = refl
all_used (suc (suc (suc (suc (suc (suc zero)))))) h = refl
all_used (suc (suc (suc (suc (suc (suc (suc zero))))))) h = refl
all_used (suc (suc (suc (suc (suc (suc (suc (suc zero)))))))) h = refl
all_used (suc (suc (suc (suc (suc (suc (suc (suc (suc zero))))))))) h = refl
all_used (suc (suc (suc (suc (suc (suc (suc (suc (suc (suc zero)))))))))) h = refl
all_used (suc (suc (suc (suc (suc (suc (suc (suc (suc (suc (suc zero))))))))))) h = refl
all_used (suc (suc (suc (suc (suc (suc (suc (suc (suc (suc (suc (suc n)))))))))))) h =
    absurd (omega arith)

first_four_used : (n : ℕ) → n < 4 → is_free four_used n ≡ false
first_four_used zero h = refl
first_four_used (suc zero) h = refl
first_four_used (suc (suc zero)) h = refl
first_four_used (suc (suc (suc zero))) h = refl
first_four_used (suc (suc (suc (suc n)))) h = absurd (omega arith)

entry-memory :
    (i : ℕ)
    → entry (memory four_used).ctx.region1_pt i
      ≡ (if i == 0 then code else if i == 3 then stack else zero_pte)
entry-memory zero = refl
entry-memory (suc zero) = refl
entry-memory (suc (suc zero)) = refl
entry-memory (suc (suc (suc zero))) = refl
entry-memory (suc (suc (suc (suc i)))) = ground arith

two-Mapped : Mapped 100 (space_of (memory four_used))
two-Mapped = record {
  tracked = record {
    valid = record {
      bytes = two_bytes;
      covers = omega arith;
      hint = omega arith;
      below = λ m h. first_four_used m (omega arith);
    };
    spare = omega arith;
  };
  above = λ i h. ground (arith, entry-memory i);
  inside = λ i h. ground (arith, entry-memory i);
  used = λ i h.
      first_four_used ((entry (memory four_used).ctx.region1_pt i).pfn - 100)
        (ground (arith, entry-memory i));
  apart = λ i j hi hj same. ground (arith, entry-memory i, entry-memory j);
}

full-Mapped : Mapped 100 (space_of (memory full))
full-Mapped = record {
  tracked = record {
    valid = record {
      bytes = full_bytes;
      covers = omega arith;
      hint = omega arith;
      below = λ m h. all_used m (omega arith);
    };
    spare = omega arith;
  };
  above = λ i h. ground (arith, entry-memory i);
  inside = λ i h. ground (arith, entry-memory i);
  used = λ i h.
      all_used ((entry (memory full).ctx.region1_pt i).pfn - 100) (ground (arith, entry-memory i));
  apart = λ i j hi hj same. ground (arith, entry-memory i, entry-memory j);
}

between : (n i : ℕ) → 1 ≤ i → i + n ≤ 3 → Unmapped (space_of (memory four_used)) i n
between n i low high j h = ground (arith, entry-memory j)

memory-IsHeap : IsHeap layout (memory four_used) two-Mapped 131
memory-IsHeap = record {
  low = omega arith;
  order = omega arith;
  fits = omega arith;
  gap = between 2 1 (omega arith) (omega arith);
}

-- the heap grows by one page, to the address 2070
kernel_brk_lem_example :
    ((brk_refused layout (memory four_used) two-Mapped 2070 2100 memory-IsHeap ≡ true)
      × (kernel_brk_impl layout 2070 2100 (memory four_used) ≡ ok (error, memory four_used)))
    ⊎ (((s : Space) × (kernel_brk_impl layout 2070 2100 (memory four_used)
            ≡ ok (success, moved (memory four_used) s 130))
          × (((129 < 130) × Filled 100 read_write (space_of (memory four_used)) s 1 1)
              ⊎ ((130 ≤ 129) × Undone 100 (space_of (memory four_used)) s 2 0)))
        ⊎ ((s : Space) × (kernel_brk_impl layout 2070 2100 (memory four_used)
              ≡ ok (error, with_space (memory four_used) s))
            × Restored 100 (space_of (memory four_used)) s
            × TooFew 100 (space_of (memory four_used)) 1))
kernel_brk_lem_example = kernel_brk_lem layout (memory four_used) two-Mapped 2070 2100 memory-IsHeap

-- the stack grows by the page of the address 2090
expand_stack_lem_example :
    ((is_refused layout 2090 (memory four_used) ≡ true)
      × (expand_stack layout 2090 (memory four_used) ≡ ok (false, memory four_used)))
    ⊎ ((s : Space) × (is_refused layout 2090 (memory four_used) ≡ false)
        × (expand_stack layout 2090 (memory four_used) ≡ ok (true, with_space (memory four_used) s))
        × Expanded layout (space_of (memory four_used)) s 2 2)
expand_stack_lem_example =
    expand_stack_lem layout 2090 (memory four_used) two-Mapped (λ h. (omega arith, omega arith))

expand_stack_full_example :
    (s : Space) × (expand_stack layout 2090 (memory full) ≡ ok (true, with_space (memory full) s))
    × ((j : ℕ) → (entry s.pt j).valid ≡ (entry (memory full).ctx.region1_pt j).valid)
expand_stack_full_example =
    expand_stack_full layout 2090 (memory full) full-Mapped refl (omega arith) (omega arith)
      all_used

check_c_buf_lem_example : (check_c_buf layout (memory four_used) 2050 20 false ≡ true) ↔ (
    (0 < 2050) × ((i : ℕ) → i < 20 → has_perms layout (2050 + i) false (memory four_used) ≡ true))
check_c_buf_lem_example = check_c_buf_lem layout (memory four_used) 2050 20 false refl

-- a string in the code, and an argument vector in the stack
check_strings_lem_example :
    ((check_c_string layout (memory four_used) (λ a. 2060 - a) 2050 ≡ true)
      ↔ ((0 < 2050) × Ends layout (memory four_used) (λ a. 2060 - a) 1 1024 2050))
    × ((check_argv layout (memory four_used) (λ a. 2108 - a) 8 2100 ≡ true)
        ↔ ((0 < 2100) × Ends layout (memory four_used) (λ a. 2108 - a) 8 1024 2100))
check_strings_lem_example =
    check_strings_lem layout (memory four_used) (λ a. 2060 - a) (λ a. 2108 - a) 8 2050 2100

abbrev no_pages : List Pte
no_pages = zero_pte ∷ zero_pte ∷ zero_pte ∷ zero_pte ∷ []

-- Every frame holds its number.
abbrev forking : ForkMem
forking = record { mem = memory four_used; child_pt = no_pages; contents = λ g. g ∷ [] }
