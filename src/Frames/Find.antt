-- ===== src/Frames/Find.antt =====
-- find_frame and acquire_frame: they hand out a frame that was free, and mark it.
use cs58final_project.Prelude.{
  ℕ, zero, suc, ◌+◌, ◌-◌, ◌*◌, ◌/◌, ◌≤◌, ◌<◌, ◌≡◌, refl, true, false, arith, ltb, none, some, ◌==◌,
  if◌then◌else◌, length, length-set, Bool-cases, inl, inr,
}
use cs58final_project.Prelude.Run.{ok, fault}
use cs58final_project.Frames.{Frames, skip_used, find_frame, acquire_frame}
use cs58final_project.Frames.Inv.{
  check_if_free-fault, SameSize, IsValid, is_free, check_if_free-ok, set_frame-ok, taken,
  taken-AreBytes, is_free-taken,
}

-- From `i` on the loop stops at the first free frame `n`.
skip_used-first :
    (fuel : ℕ) (s : Frames) (i n : ℕ)
    → IsValid s
    → i ≤ n
    → n < s.num_frames
    → n - i < fuel
    → ((m : ℕ) → i ≤ m → m < n → is_free s m ≡ false)
    → is_free s n ≡ true
    → skip_used fuel s i ≡ ok n
unfolding skip_used
skip_used-first zero s i n v le inside fuel used free = absurd (omega arith)
skip_used-first (suc k) s i n v le inside fuel used free = elim (Bool-cases (i == n)) [
  | inl e ↦ ground (arith, check_if_free-ok s i (omega (arith, v.covers)) v.bytes)
  | inr ne ↦ ground (
    arith,
    check_if_free-ok s i (omega (arith, v.covers)) v.bytes,
    used i,
    skip_used-first k s (suc i) n v (ground arith) inside (ground arith)
        (λ m p q. used m (omega arith) q) free,
  )
]

-- With no free frame the loop runs up to the bound, and reads the bit at the bound.
skip_used-full :
    (fuel : ℕ) (s : Frames) (i : ℕ)
    → IsValid s
    → i ≤ s.num_frames
    → s.num_frames - i < fuel
    → ((m : ℕ) → i ≤ m → m < s.num_frames → is_free s m ≡ false)
    → skip_used fuel s i
      ≡ (if ltb s.num_frames (8 * length s.frame_bitset) then ok s.num_frames else fault)
unfolding skip_used
skip_used-full zero s i v le inside used = absurd (omega arith)
skip_used-full (suc k) s i v le inside used = elim (Bool-cases (ltb i s.num_frames)) [
  | inl more ↦ ground (
    arith,
    check_if_free-ok s i (ground (arith, v.covers)) v.bytes,
    used i,
    skip_used-full k s (suc i) v (ground arith) (ground arith) (λ m p q. used m (omega arith) q),
  )
  | inr done ↦ elim (Bool-cases (ltb s.num_frames (8 * length s.frame_bitset))) [
    | inl covered ↦ ground (arith, check_if_free-ok s i (ground arith) v.bytes)
    | inr bare ↦ ground (arith, check_if_free-fault s i (ground arith))
  ]
]

module _ (base : ℕ) (s : Frames) (v : IsValid s) where
  -- In a valid state, if frame `n` is the lowest free one, `find_frame` returns it with the base
  -- added; afterwards exactly that frame is no longer free, and the state is valid again, of the
  -- same size.
  pub find_frame-lowest :
      (n : ℕ)
      → n < s.num_frames
      → is_free s n ≡ true
      → ((m : ℕ) → m < n → is_free s m ≡ false)
      → (s' : Frames) × (find_frame base s ≡ ok (some (n + base), s'))
        × SameSize s s'
        × IsValid s'
        × ((m : ℕ) → is_free s' m ≡ (if m == n then false else is_free s m))
  unfolding find_frame
  find_frame-lowest n inside free used =
      let fits : n < 8 * length s.frame_bitset = omega (arith, v.covers) in
      let start : s.next_free ≤ n = ground (arith, v.below n) in
      let after = is_free-taken s n fits v.bytes in
      (
        record (taken s n fits) { next_free = n + 1 },
        ground (
          arith,
          skip_used-first (s.num_frames - s.next_free + 1) s s.next_free n v start inside
              (omega arith) (λ m p q. used m q) free,
          set_frame-ok s n fits,
        ),
        (refl, length-set s.frame_bitset (n / 8) _),
        record {
          bytes = taken-AreBytes s n fits v.bytes;
          covers = omega (arith, v.covers, length-set s.frame_bitset (n / 8));
          hint = omega arith;
          below = λ m h. ground (arith, after m, used m);
        },
        after,
      )

  module _ (full : (m : ℕ) → m < s.num_frames → is_free s m ≡ false) where
    scan-full :
        skip_used (s.num_frames - s.next_free + 1) s s.next_free
        ≡ (if ltb s.num_frames (8 * length s.frame_bitset) then ok s.num_frames else fault)
    scan-full =
        skip_used-full (s.num_frames - s.next_free + 1) s s.next_free v v.hint (omega arith)
          (λ m p q. full m q)

    -- In a valid state with every frame in use, and a bit behind the last frame, `find_frame`
    -- returns ERROR and only moves its hint to the end.
    pub find_frame-full :
        s.num_frames < 8 * length s.frame_bitset
        → find_frame base s ≡ ok (none, record s { next_free = s.num_frames })
    unfolding find_frame
    find_frame-full h = ground (arith, scan-full)

    -- In a valid state with every frame in use, and a bitset with no bit behind the last frame,
    -- `find_frame` reads outside the bitset before it tests the bound.
    pub find_frame-overrun : s.num_frames ≡ 8 * length s.frame_bitset → find_frame base s ≡ fault
    unfolding find_frame
    find_frame-overrun h = ground (arith, scan-full)

  -- In a valid state, `acquire_frame` of a frame that the bitset covers fails and changes nothing
  -- if the frame is in use, or else succeeds, and exactly that frame is no longer free; the state
  -- stays valid.
  pub acquire_frame_lem :
      (pfn : ℕ)
      → base ≤ pfn
      → pfn - base < 8 * length s.frame_bitset
      → (s' : Frames) × (acquire_frame base s pfn ≡ ok (is_free s (pfn - base), s'))
        × IsValid s'
        × SameSize s s'
        × ((m : ℕ) → is_free s' m ≡ (if m == pfn - base then false else is_free s m))
  unfolding acquire_frame
  acquire_frame_lem pfn above fits = elim (Bool-cases (is_free s (pfn - base))) [
    | inl free ↦
        let n : ℕ = pfn - base in
        let after = is_free-taken s n fits v.bytes in
        (
          taken s n fits,
          ground (arith, check_if_free-ok s n fits v.bytes, set_frame-ok s n fits),
          record {
            bytes = taken-AreBytes s n fits v.bytes;
            covers = omega (arith, v.covers, length-set s.frame_bitset (n / 8));
            hint = v.hint;
            below = λ m h. ground (arith, after m, v.below m);
          },
          (refl, length-set s.frame_bitset (n / 8) _),
          after,
        )
    | inr used ↦ (
      s,
      ground (arith, check_if_free-ok s (pfn - base) fits v.bytes),
      v,
      (refl, refl),
      λ m. ground arith,
    )
  ]
