-- ===== src/Frames/Inv.antt =====
-- What the bitset of frame_tracking.c stands for: the set of the frames that are free.
use Prim.Native.Nat.{bit_and, bit_or}
use cs58final_project.Prelude.{
  ℕ, zero, suc, ◌-◌, ◌*◌, ◌/◌, ◌%◌, ◌^◌, ◌≤◌, ◌<◌, ◌≡◌, refl, Bool, true, false, arith, List, [],
  ◌∷◌, none, ◌==◌, if◌then◌else◌, get_elem?, get_or, set, length,
}
use cs58final_project.Prelude.Arrays.{get_elem?-get_or, get_or-set}
use cs58final_project.Prelude.Run.{ok, fault}
use cs58final_project.Frames.{Frames, byte_at, check_if_free, set_frame, clear_frame}
use cs58final_project.Frames.Bytes.{clear_bit, bit_is_free_lem, set_bit_lem, clear_bit_lem}

abbrev pub AreBytes : List ℕ → Type 0
AreBytes bs = (i : ℕ) → get_or bs i 0 < 256

-- frame `n`, counted from the base, is free
abbrev pub is_free : Frames → ℕ → Bool
is_free s n = clear_bit (get_or s.frame_bitset (n / 8) 0) (n % 8)

pub record IsValid (s : Frames) : Type 0 where
  pub bytes : AreBytes s.frame_bitset
  pub covers : s.num_frames ≤ 8 * length s.frame_bitset
  pub hint : s.next_free ≤ s.num_frames
  pub below : (n : ℕ) → n < s.next_free → is_free s n ≡ false

-- as many frames, and as many bytes for them
abbrev pub SameSize : Frames → Frames → Type 0
SameSize s s' = (s'.num_frames ≡ s.num_frames) × (length s'.frame_bitset ≡ length s.frame_bitset)

get_elem?-none : (bs : List ℕ) (i : ℕ) → length bs ≤ i → get_elem? bs i ≡ none
get_elem?-none [] i h = refl
get_elem?-none (b ∷ bs) zero h = absurd (omega arith)
get_elem?-none (b ∷ bs) (suc i) h = get_elem?-none bs i (omega arith)

pub check_if_free-fault :
    (s : Frames) (n : ℕ) → 8 * length s.frame_bitset ≤ n → check_if_free s n ≡ fault
unfolding check_if_free byte_at
check_if_free-fault s n h = rw (byte_at, get_elem?-none s.frame_bitset (n / 8) (omega arith))

module _ (s : Frames) (n : ℕ) (inside : n < 8 * length s.frame_bitset) where
  byte_at-ok : byte_at s (n / 8) ≡ ok (get_or s.frame_bitset (n / 8) 0)
  unfolding byte_at
  byte_at-ok = rw (byte_at, get_elem?-get_or s.frame_bitset (n / 8) 0 (omega arith))

  pub check_if_free-ok : AreBytes s.frame_bitset → check_if_free s n ≡ ok (is_free s n)
  unfolding check_if_free
  check_if_free-ok b = rw (
    byte_at-ok,
    bit_is_free_lem (get_or s.frame_bitset (n / 8) 0) (n % 8) (b (n / 8)) (omega arith),
  )

  -- a state that differs from `s` in the byte of frame `n` alone
  abbrev with_byte : ℕ → Frames
  with_byte v = record s { frame_bitset = set s.frame_bitset (n / 8) v }

  abbrev pub taken : Frames
  taken = with_byte (bit_or (get_or s.frame_bitset (n / 8) 0) (2 ^ (n % 8)))

  abbrev pub released : Frames
  released = with_byte (bit_and (get_or s.frame_bitset (n / 8) 0) (0xff - 2 ^ (n % 8)))

  pub set_frame-ok : set_frame s n ≡ ok taken
  unfolding set_frame
  set_frame-ok = rw byte_at-ok

  pub clear_frame-ok : clear_frame s n ≡ ok released
  unfolding clear_frame
  clear_frame-ok = rw byte_at-ok

  module _ (b : AreBytes s.frame_bitset) where
    with_byte-AreBytes : (v : ℕ) → v < 256 → AreBytes (with_byte v).frame_bitset
    with_byte-AreBytes v h i = ground (arith, b i, get_or-set s.frame_bitset (n / 8) i v 0)

    pub taken-AreBytes : AreBytes taken.frame_bitset
    taken-AreBytes =
        with_byte-AreBytes (bit_or (get_or s.frame_bitset (n / 8) 0) (2 ^ (n % 8)))
          (set_bit_lem (get_or s.frame_bitset (n / 8) 0) (n % 8) 0 (b (n / 8)) (omega arith)
            (omega arith)).0

    pub released-AreBytes : AreBytes released.frame_bitset
    released-AreBytes =
        with_byte-AreBytes (bit_and (get_or s.frame_bitset (n / 8) 0) (0xff - 2 ^ (n % 8)))
          (clear_bit_lem (get_or s.frame_bitset (n / 8) 0) (n % 8) 0 (b (n / 8)) (omega arith)
            (omega arith)).0

    pub is_free-taken : (m : ℕ) → is_free taken m ≡ (if m == n then false else is_free s m)
    is_free-taken m =
        let old = get_or s.frame_bitset (n / 8) 0 in
        ground (
          arith,
          get_or-set s.frame_bitset (n / 8) (m / 8) (bit_or old (2 ^ (n % 8))) 0,
          set_bit_lem old (n % 8) (m % 8) (b (n / 8)),
        )

    pub is_free-released : (m : ℕ) → is_free released m ≡ (if m == n then true else is_free s m)
    is_free-released m =
        let old = get_or s.frame_bitset (n / 8) 0 in
        ground (
          arith,
          get_or-set s.frame_bitset (n / 8) (m / 8) (bit_and old (0xff - 2 ^ (n % 8))) 0,
          clear_bit_lem old (n % 8) (m % 8) (b (n / 8)),
        )
