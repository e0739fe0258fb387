-- ===== src/Frames.antt =====
-- yalnix_framework/src/frame_tracking.c: the bitset of physical frames. A set bit is a frame in use.
-- A read or write outside the bitset is a `fault`. Of hardware.h the model takes the base frame and
-- the frame of an address (`DOWN_TO_PAGE(a) >> PAGESHIFT`) as parameters.
pub mod Bytes
pub mod Inv
pub mod Find
pub mod Free
pub mod Start
pub mod Tracked
mod Tests
use Prim.Native.Nat.{bit_and, bit_or}
use cs58final_project.Prelude.{
  ℕ, zero, suc, ◌+◌, ◌-◌, ◌*◌, ◌/◌, ◌%◌, ◌^◌, Bool, true, false, not, ◌&&◌, ◌||◌, Option, none,
  some, List, ltb, leb, ◌==◌, if◌then◌else◌, get_elem?, set, replicate,
}
use cs58final_project.Prelude.Run.{Run, ok, fault, out_of_fuel, ◌>>=◌}

-- The three static variables.
pub record Frames : Type 0 where
  pub frame_bitset : List ℕ
  pub next_free : ℕ
  pub num_frames : ℕ

-- the byte at an index, or a fault
unfoldable pub byte_at : Frames → ℕ → Run ℕ
byte_at s i = elim (get_elem? s.frame_bitset i) [ some b ↦ ok b | none ↦ fault ]

-- A byte's test of one frame: a full byte is no candidate, or else the masked bit is clear.
unfoldable pub bit_is_free : ℕ → ℕ → Bool
bit_is_free b k = if b == 0xff then false else bit_and b (2 ^ k) == 0

unfoldable pub check_if_free : Frames → ℕ → Run Bool
check_if_free s n = byte_at s (n / 8) >>= λ b. ok (bit_is_free b (n % 8))

-- `|= mask`
unfoldable pub set_frame : Frames → ℕ → Run Frames
set_frame s n = byte_at s (n / 8) >>= λ b.
    ok (record s { frame_bitset = set s.frame_bitset (n / 8) (bit_or b (2 ^ (n % 8))) })

-- `&= mask`, where the mask is the byte `~(1 << bit_offset)`
pub clear_frame : Frames → ℕ → Run Frames
clear_frame s n = byte_at s (n / 8) >>= λ b.
    ok (record s { frame_bitset = set s.frame_bitset (n / 8) (bit_and b (0xff - 2 ^ (n % 8))) })

-- The `while` of `find_frame` from `next_free` on. As in the code the bit is read first, and only
-- then the bound is tested.
unfoldable pub skip_used : ℕ → Frames → ℕ → Run ℕ
skip_used zero s i = out_of_fuel
skip_used (suc fuel) s i =
    let rest = skip_used fuel s (suc i) in
    check_if_free s i >>= λ free. if not free && ltb i s.num_frames then rest else ok i

module _ (base : ℕ) where
  -- The frame number, or `none` for ERROR. The fuel is one round for each frame and the last test.
  unfoldable pub find_frame : Frames → Run (Option ℕ × Frames)
  find_frame s = skip_used (s.num_frames - s.next_free + 1) s s.next_free >>= λ i.
      if i == s.num_frames
      then ok (none, record s { next_free = i })
      else set_frame s i >>= λ s'. ok (some (i + base), record s' { next_free = i + 1 })

  -- A frame number below the base is a negative index, which lies outside the bitset.
  pub acquire_frame : Frames → ℕ → Run (Bool × Frames)
  acquire_frame s pfn =
      if ltb pfn base
      then fault
      else check_if_free s (pfn - base) >>= λ free.
          if not free then ok (false, s) else set_frame s (pfn - base) >>= λ s'. ok (true, s')

  pub free_frame : Frames → ℕ → Run (Bool × Frames)
  free_frame s frame_num =
      let n = frame_num - base in
      if ltb frame_num base || leb s.num_frames n
      then ok (false, s)
      else check_if_free s n >>= λ free.
          if free
          then ok (false, s)
          else clear_frame s n >>= λ s'.
              ok (true, record s' { next_free = if ltb n s'.next_free then n else s'.next_free })

-- `UP_TO_BYTE`: `BYTE_MASK` is `~8`, so the mask clears bit 3 of `n + 7`.
unfoldable pub up_to_byte : ℕ → ℕ
up_to_byte n = let m = n + 7 in m - 8 * (m / 8 % 2)

-- The result is whether `calloc` gave the bitset, which `allocated` tells.
unfoldable pub initialize_frame_tracking : (ℕ → ℕ) → ℕ → Bool → ℕ → Bool × Frames
initialize_frame_tracking page_of base allocated pmem_size =
    let frames = page_of pmem_size - base in
    let bytes = up_to_byte frames / 8 in
    (
      allocated,
      record {
        frame_bitset = if allocated then replicate bytes 0 else List.[];
        next_free = 0;
        num_frames = frames;
      },
    )
