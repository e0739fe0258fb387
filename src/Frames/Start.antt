-- ===== src/Frames/Start.antt =====
-- initialize_frame_tracking: for which memory sizes the bitset has a bit for every frame.
use cs58final_project.Prelude.{
  ℕ, zero, suc, ◌+◌, ◌-◌, ◌/◌, ◌%◌, ◌≡◌, refl, true, arith, replicate, length, get_or,
  length-replicate,
}
use cs58final_project.Prelude.Run.{fault}
use cs58final_project.Frames.{Frames, initialize_frame_tracking, up_to_byte, check_if_free}
use cs58final_project.Frames.Bytes.{clear_bit-zero}
use cs58final_project.Frames.Inv.{IsValid, is_free, check_if_free-fault}

get_or-zeros : (k i : ℕ) → get_or {A = ℕ} (replicate k 0) i 0 ≡ 0
get_or-zeros zero i = refl
get_or-zeros (suc k) zero = refl
get_or-zeros (suc k) (suc i) = get_or-zeros k i

module _ (page_of : ℕ → ℕ) (base pmem_size : ℕ) where
  -- the state that a start with enough kernel heap leaves
  abbrev pub started : Frames
  started = (initialize_frame_tracking page_of base true pmem_size).1

  -- the number of bytes that the frames need, rounded up
  abbrev pub bytes_needed : ℕ
  bytes_needed = (page_of pmem_size - base + 7) / 8

  -- If the frames need an even number of bytes, the state after the start is valid, tracks as many
  -- frames as there are between the base and the end of memory, and has every one of them free.
  pub initialize-IsValid :
      bytes_needed % 2 ≡ 0
      → IsValid started
        × (started.num_frames ≡ page_of pmem_size - base)
        × ((n : ℕ) → is_free started n ≡ true)
  unfolding initialize_frame_tracking up_to_byte
  initialize-IsValid even =
      let size : ℕ = up_to_byte (page_of pmem_size - base) / 8 in
      (
        record {
          bytes = λ i. omega (arith, get_or-zeros size i);
          covers = omega (arith, length-replicate {A = ℕ} size 0);
          hint = omega arith;
          below = λ n h. absurd (omega arith);
        },
        refl,
        λ n. rw (get_or-zeros size (n / 8)) (clear_bit-zero (n % 8) (omega arith)),
      )

  -- If the frames need an odd number of bytes, the bitset is a byte short, and a look at the last
  -- frame reads outside it.
  pub initialize-short :
      bytes_needed % 2 ≡ 1
      → (length started.frame_bitset + 1 ≡ bytes_needed)
        × (check_if_free started (started.num_frames - 1) ≡ fault)
  unfolding initialize_frame_tracking up_to_byte
  initialize-short odd =
      let size : ℕ = up_to_byte (page_of pmem_size - base) / 8 in
      (
        omega (arith, length-replicate {A = ℕ} size 0),
        check_if_free-fault _ _ (omega (arith, length-replicate {A = ℕ} size 0)),
      )
