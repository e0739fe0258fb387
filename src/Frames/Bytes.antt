-- ===== src/Frames/Bytes.antt =====
-- The bit operations of frame_tracking.c on one byte, checked for every byte and bit.
use Prim.Native.Nat.{bit_and, bit_or}
use cs58final_project.Prelude.{
  ℕ, zero, suc, ◌-◌, ◌^◌, ◌<◌, ◌≡◌, refl, Bool, true, false, ◌&&◌, arith, ltb, ◌==◌, if◌then◌else◌,
}
use cs58final_project.Frames.{bit_is_free}

every : ℕ → (ℕ → Bool) → Bool
every zero p = true
every (suc n) p = p n && every n p

every_at : (n : ℕ) (p : ℕ → Bool) (x : ℕ) → every n p ≡ true → x < n → p x ≡ true
unfolding every
every_at zero p x h lt = absurd (omega arith)
every_at (suc n) p x h lt = ground (arith, every_at n p x)

abbrev same : Bool → Bool → Bool
same true b = b
same false true = false
same false false = true

same-eq : (a b : Bool) → same a b ≡ true → a ≡ b
same-eq a b h = ground arith

-- whether the bit is clear, without the short cut for a full byte
abbrev pub clear_bit : ℕ → ℕ → Bool
clear_bit b k = bit_and b (2 ^ k) == 0

-- The short cut changes nothing.
pub bit_is_free_lem : (b k : ℕ) → b < 256 → k < 8 → bit_is_free b k ≡ clear_bit b k
unfolding bit_is_free every
bit_is_free_lem b k hb hk = same-eq _ _ (
    every_at 8 (λ k. same (bit_is_free b k) (clear_bit b k)) k
      (every_at 256 (λ b. every 8 (λ k. same (bit_is_free b k) (clear_bit b k))) b refl hb) hk)

pub clear_bit-zero : (k : ℕ) → k < 8 → clear_bit 0 k ≡ true
unfolding every
clear_bit-zero k h = every_at 8 (clear_bit 0) k refl h

abbrev set_ok : ℕ → ℕ → ℕ → Bool
set_ok b k j =
    let c = bit_or b (2 ^ k) in
    ltb c 256 && same (clear_bit c j) (if j == k then false else clear_bit b j)

abbrev clear_ok : ℕ → ℕ → ℕ → Bool
clear_ok b k j =
    let c = bit_and b (0xff - 2 ^ k) in
    ltb c 256 && same (clear_bit c j) (if j == k then true else clear_bit b j)

module _ (f : ℕ → ℕ → ℕ → Bool) where
  all_bytes : Bool
  all_bytes = every 256 (λ b. every 8 (λ k. every 8 (λ j. f b k j)))

  all_bytes_at : (b k j : ℕ) → all_bytes ≡ true → b < 256 → k < 8 → j < 8 → f b k j ≡ true
  unfolding all_bytes
  all_bytes_at b k j h hb hk hj =
      every_at 8 (λ j. f b k j) j
        (every_at 8 (λ k. every 8 (λ j. f b k j)) k
          (every_at 256 (λ b. every 8 (λ k. every 8 (λ j. f b k j))) b h hb) hk)
        hj

set_table : all_bytes set_ok ≡ true
unfolding all_bytes every
set_table = refl

clear_table : all_bytes clear_ok ≡ true
unfolding all_bytes every
clear_table = refl

module _ (b k j : ℕ) (hb : b < 256) (hk : k < 8) (hj : j < 8) where
  pub set_bit_lem :
      (bit_or b (2 ^ k) < 256)
      × (clear_bit (bit_or b (2 ^ k)) j ≡ (if j == k then false else clear_bit b j))
  set_bit_lem = ground (arith, all_bytes_at set_ok b k j set_table hb hk hj)

  pub clear_bit_lem :
      (bit_and b (0xff - 2 ^ k) < 256)
      × (clear_bit (bit_and b (0xff - 2 ^ k)) j ≡ (if j == k then true else clear_bit b j))
  clear_bit_lem = ground (arith, all_bytes_at clear_ok b k j clear_table hb hk hj)
