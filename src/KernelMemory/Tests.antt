-- ===== src/KernelMemory/Tests.antt =====
-- kernel_memory.c at concrete inputs: twelve frames from base 0, the first five in use, and a region of ten
-- pages: the first four hold text and data, and page 9 the stack.
use cs58final_project.Prelude.{
  ℕ, zero, suc, ◌+◌, ◌-◌, ◌/◌, ◌*◌, ◌<◌, ◌≤◌, ◌≡◌, refl, true, false, arith, [], ◌∷◌, ◌⊎◌,
  if◌then◌else◌, ltb,
}
use cs58final_project.Prelude.Run.{ok}
use cs58final_project.Machine.{error, success}
use cs58final_project.Frames.Inv.{AreBytes, is_free}
use cs58final_project.Pages.{Pte, entry, zero_pte, read_write}
use cs58final_project.Pages.Laws.{Mapped}
use cs58final_project.Prelude.{List, Option, some, ◌%◌, ◌==◌}
use cs58final_project.Frames.{initialize_frame_tracking, up_to_byte}
use cs58final_project.Frames.Start.{started, bytes_needed, initialize-IsValid}
use cs58final_project.Frames.Tracked.{Tracked}
use cs58final_project.Pages.{Space}
use cs58final_project.KernelMemory.Boot.{IsLaidOut, IsBooted, init_region0_pt_lem}
use cs58final_project.KernelMemory.{
  init_region0_pt, KernelMem, KernelLayout, set_kernel_brk, kc_copy,
}
use cs58final_project.KernelMemory.Copy.{CopiedStack, kc_copy_lem}
use cs58final_project.KernelMemory.Brk.{moved, is_refused, Outcome, set_kernel_brk_lem}

abbrev layout : KernelLayout
layout = record {
  base = 0;
  text_page = 0;
  data_page = 2;
  orig_brk_page = 3;
  stack_page = 9;
  stack_pages = 1;
  region_pages = 10;
  page_up = λ a. (a + 15) / 16;
  page_address = λ n. n * 16;
}

abbrev page : ℕ → Pte
page f = record { valid = true; pfn = f; prot = read_write }

abbrev booted : KernelMem
booted = record {
  space = record {
    frames = record { frame_bitset = 0x1f ∷ 0 ∷ []; next_free = 5; num_frames = 12 };
    pt =
        page 0
        ∷ page 1
        ∷ page 2
        ∷ page 3
        ∷ zero_pte
        ∷ zero_pte
        ∷ zero_pte
        ∷ zero_pte
        ∷ zero_pte
        ∷ page 4
        ∷ [];
  };
  vm_enabled = true;
  current_brk_page = 4;
}

two_bytes : AreBytes (0x1f ∷ 0 ∷ [])
two_bytes zero = omega arith
two_bytes (suc zero) = omega arith
two_bytes (suc (suc i)) = omega arith

first_five_used : (n : ℕ) → n < 5 → is_free booted.space.frames n ≡ false
first_five_used zero h = refl
first_five_used (suc zero) h = refl
first_five_used (suc (suc zero)) h = refl
first_five_used (suc (suc (suc zero))) h = refl
first_five_used (suc (suc (suc (suc zero)))) h = refl
first_five_used (suc (suc (suc (suc (suc n))))) h = absurd (omega arith)

entry-booted :
    (i : ℕ)
    → entry booted.space.pt i ≡ (if ltb i 4 then page i else if i == 9 then page 4 else zero_pte)
entry-booted zero = refl
entry-booted (suc zero) = refl
entry-booted (suc (suc zero)) = refl
entry-booted (suc (suc (suc zero))) = refl
entry-booted (suc (suc (suc (suc zero)))) = refl
entry-booted (suc (suc (suc (suc (suc zero))))) = refl
entry-booted (suc (suc (suc (suc (suc (suc zero)))))) = refl
entry-booted (suc (suc (suc (suc (suc (suc (suc zero))))))) = refl
entry-booted (suc (suc (suc (suc (suc (suc (suc (suc zero)))))))) = refl
entry-booted (suc (suc (suc (suc (suc (suc (suc (suc (suc zero))))))))) = refl
entry-booted (suc (suc (suc (suc (suc (suc (suc (suc (suc (suc i)))))))))) = ground arith

booted-Mapped : Mapped 0 booted.space
booted-Mapped = record {
  tracked = record {
    valid = record {
      bytes = two_bytes;
      covers = omega arith;
      hint = omega arith;
      below = λ m h. first_five_used m (omega arith);
    };
    spare = omega arith;
  };
  above = λ i h. omega arith;
  inside = λ i h. ground (arith, entry-booted i);
  used =
      λ i h. first_five_used ((entry booted.space.pt i).pfn - 0) (ground (arith, entry-booted i));
  apart = λ i j hi hj same. ground (arith, entry-booted i, entry-booted j);
}

-- the break moves two pages up, to the address 90
below_stack : (j : ℕ) → 4 ≤ j → j < 9 → (entry booted.space.pt j).valid ≡ false
below_stack j low high = ground (arith, entry-booted j)

set_kernel_brk_lem_example :
    ((is_refused layout booted 90 ≡ true) × (set_kernel_brk layout 90 booted ≡ ok (error, booted)))
    ⊎ (((true ≡ false)
          × (set_kernel_brk layout 90 booted ≡ ok (success, moved booted booted.space 6)))
        ⊎ Outcome layout booted 90)
set_kernel_brk_lem_example =
    set_kernel_brk_lem layout booted 90 booted-Mapped (omega arith) below_stack

stack_held : (i : ℕ) → i < 1 → (entry booted.space.pt (9 + i)).valid ≡ true
stack_held zero lt = refl
stack_held (suc i) lt = absurd (omega arith)

kc_copy_lem_example :
    (r : Option (List Pte × (ℕ → List ℕ)) × KernelMem) × (kc_copy layout booted (λ f. f ∷ [])
      ≡ ok r)
    × CopiedStack layout booted (λ f. f ∷ []) r
kc_copy_lem_example =
    kc_copy_lem layout booted booted-Mapped refl (omega arith) (omega arith) (omega arith)
      below_stack stack_held (λ f. f ∷ [])

-- the kernel before it has a page: every frame is free
abbrev unbooted : KernelMem
unbooted = record booted {
  space = record { frames = started (λ a. a / 16) 0 192; pt = [] };
  vm_enabled = false;
}

even_bytes : bytes_needed (λ a. a / 16) 0 192 % 2 ≡ 0
even_bytes = refl

unbooted-Tracked : Tracked unbooted.space.frames
unfolding initialize_frame_tracking up_to_byte
unbooted-Tracked = record {
  valid = (initialize-IsValid (λ a. a / 16) 0 192 even_bytes).0;
  spare = omega arith;
}

unbooted-IsLaidOut : IsLaidOut layout unbooted
unbooted-IsLaidOut = record {
  low = omega arith;
  text = omega arith;
  heap = omega arith;
  gap = omega arith;
  fits = omega arith;
  frames = omega (arith, (initialize-IsValid (λ a. a / 16) 0 192 even_bytes).1);
}

init_region0_pt_lem_example :
    (s : Space) × (st : List Pte) × (init_region0_pt layout unbooted
      ≡ ok (some st, record unbooted { space = s }))
    × IsBooted layout unbooted s st
init_region0_pt_lem_example =
    init_region0_pt_lem layout unbooted unbooted-Tracked
      (initialize-IsValid (λ a. a / 16) 0 192 even_bytes).2 unbooted-IsLaidOut
