-- ===== src/Frames/Tests.antt =====
-- frame_tracking.c at concrete inputs: twelve frames from base 100, the first four in use.
use cs58final_project.Prelude.{
  ℕ, zero, suc, ◌+◌, ◌-◌, ◌/◌, ◌<◌, ◌≡◌, refl, true, false, arith, [], ◌∷◌, some, ◌==◌,
  if◌then◌else◌, length,
}
use cs58final_project.Prelude.Run.{ok, fault}
use cs58final_project.Frames.{
  Frames, find_frame, free_frame, check_if_free, skip_used, set_frame, byte_at, bit_is_free,
}
use cs58final_project.Frames.Inv.{IsValid, SameSize, AreBytes, is_free}
use cs58final_project.Frames.Find.{find_frame-lowest}
use cs58final_project.Frames.Free.{free_frame_lem}
use cs58final_project.Frames.Start.{started, initialize-short}

abbrev four_used : Frames
four_used = record { frame_bitset = 0x0f ∷ 0 ∷ []; next_free = 2; num_frames = 12 }

two_bytes : (a b : ℕ) → a < 256 → b < 256 → AreBytes (a ∷ b ∷ [])
two_bytes a b ha hb zero = ha
two_bytes a b ha hb (suc zero) = hb
two_bytes a b ha hb (suc (suc i)) = omega arith

first_four_used : (n : ℕ) → n < 4 → is_free four_used n ≡ false
first_four_used zero h = refl
first_four_used (suc zero) h = refl
first_four_used (suc (suc zero)) h = refl
first_four_used (suc (suc (suc zero))) h = refl
first_four_used (suc (suc (suc (suc n)))) h = absurd (omega arith)

four_used-IsValid : IsValid four_used
four_used-IsValid = record {
  bytes = two_bytes 0x0f 0 (omega arith) (omega arith);
  covers = omega arith;
  hint = omega arith;
  below = λ n h. first_four_used n (omega arith);
}

-- frame 4 is handed out next
find_fifth :
    find_frame 100 four_used
    ≡ ok (some 104, record { frame_bitset = 0x1f ∷ 0 ∷ []; next_free = 5; num_frames = 12 })
unfolding find_frame skip_used check_if_free byte_at bit_is_free set_frame
find_fifth = refl

find_frame-lowest_example :
    (s' : Frames) × (find_frame 100 four_used ≡ ok (some (4 + 100), s'))
    × SameSize four_used s'
    × IsValid s'
    × ((m : ℕ) → is_free s' m ≡ (if m == 4 then false else is_free four_used m))
find_frame-lowest_example =
    find_frame-lowest 100 four_used four_used-IsValid 4 (omega arith) refl first_four_used

free_frame_lem_example :
    (s' : Frames) × (free_frame 100 four_used 101 ≡ ok (true, s'))
    × SameSize four_used s'
    × IsValid s'
    × ((m : ℕ) → is_free s' m ≡ (if m == 1 then true else is_free four_used m))
free_frame_lem_example = free_frame_lem 100 four_used four_used-IsValid 101

-- pages of 8192 bytes, memory from 0
abbrev page : ℕ → ℕ
page a = a / 8192

initialize-short_example :
    (length (started page 0 0xb0000).frame_bitset + 1 ≡ 11)
    × (check_if_free (started page 0 0xb0000) ((started page 0 0xb0000).num_frames - 1) ≡ fault)
initialize-short_example = initialize-short page 0 0xb0000 refl
