-- ===== src/Frames/Free.antt =====
-- free_frame, and the trip of a frame from `find_frame` back to `free_frame`.
use cs58final_project.Prelude.{
  ℕ, ◌-◌, ◌*◌, ◌/◌, ◌<◌, ◌≡◌, refl, true, arith, ltb, ◌==◌, if◌then◌else◌, length, length-set,
  Bool-cases, inl, inr, Bool, ◌||◌, ◌&&◌, leb, not,
}
use cs58final_project.Prelude.Run.{ok}
use cs58final_project.Frames.{Frames, free_frame}
use cs58final_project.Frames.Inv.{
  IsValid, SameSize, is_free, check_if_free-ok, clear_frame-ok, released, released-AreBytes,
  is_free-released,
}

module _ (base : ℕ) (s : Frames) (v : IsValid s) (f : ℕ) where
  -- whether `free_frame` accepts `f`: it is a tracked frame that is in use
  abbrev pub is_freed : Bool
  is_freed = not (ltb f base) && (ltb (f - base) s.num_frames && not (is_free s (f - base)))

  -- In a valid state `free_frame` never faults; it succeeds for exactly the tracked frames in use.
  -- If it fails it changes nothing, and if it succeeds exactly that frame becomes free; the state
  -- stays valid, of the same size.
  pub free_frame_lem :
      (s' : Frames) × (free_frame base s f ≡ ok (is_freed, s'))
      × SameSize s s'
      × IsValid s'
      × ((m : ℕ)
          → is_free s' m
            ≡ (if is_freed then (if m == f - base then true else is_free s m) else is_free s m))
  unfolding free_frame
  free_frame_lem = elim (Bool-cases is_freed) [
    | inl accepted ↦
        let n : ℕ = f - base in
        let fits : n < 8 * length s.frame_bitset = ground (arith, v.covers) in
        let after = is_free-released s n fits v.bytes in
        (
          record (released s n fits) { next_free = if ltb n s.next_free then n else s.next_free },
          ground (arith, check_if_free-ok s n fits v.bytes, clear_frame-ok s n fits),
          (refl, length-set s.frame_bitset (n / 8) _),
          record {
            bytes = released-AreBytes s n fits v.bytes;
            covers = omega (arith, v.covers, length-set s.frame_bitset (n / 8));
            hint = ground (arith, v.hint);
            below = λ m h. ground (arith, after m, v.below m);
          },
          λ m. ground (arith, after m),
        )
    | inr refused ↦ (
      s,
      elim (Bool-cases (ltb f base || leb s.num_frames (f - base))) [
        | inl out ↦ ground arith
        | inr in_range ↦
            let fits : f - base < 8 * length s.frame_bitset = ground (arith, v.covers) in
            ground (arith, check_if_free-ok s (f - base) fits v.bytes)
      ],
      (refl, refl),
      v,
      λ m. ground arith,
    )
  ]
