-- ===== src/Frames/Tracked.antt =====
-- Frames with a bit to spare, where find_frame cannot read outside the bitset: it finds a frame, or
-- there is none.
use cs58final_project.Prelude.{
  ℕ, zero, suc, ◌+◌, ◌-◌, ◌*◌, ◌≤◌, ◌<◌, ◌≡◌, refl, Bool, true, false, arith, none, some, ◌⊎◌, inl,
  inr, ◌==◌, if◌then◌else◌, length, Bool-cases, ltb, not, ◌&&◌,
}
use cs58final_project.Prelude.Run.{ok}
use cs58final_project.Frames.{Frames, find_frame, free_frame}
use cs58final_project.Frames.Inv.{IsValid, SameSize, is_free}
use cs58final_project.Frames.Find.{find_frame-lowest, find_frame-full}
use cs58final_project.Frames.Free.{free_frame_lem}

pub record Tracked (s : Frames) : Type 0 where
  pub valid : IsValid s
  pub spare : s.num_frames < 8 * length s.frame_bitset

-- no frame is free
abbrev pub AllUsed : Frames → Type 0
AllUsed s = (m : ℕ) → m < s.num_frames → is_free s m ≡ false

-- `s'` is `s` with the frames that `free'` says free
pub record Becomes (s s' : Frames) (free' : ℕ → Bool) : Type 0 where
  pub tracked : Tracked s'
  pub size : SameSize s s'
  pub free : (m : ℕ) → is_free s' m ≡ free' m

first_free :
    (s : Frames) (k : ℕ)
    → ((m : ℕ) → m < k → is_free s m ≡ false)
      ⊎ ((n : ℕ) × (n < k) × (is_free s n ≡ true) × ((m : ℕ) → m < n → is_free s m ≡ false))
first_free s zero = inl (λ m h. absurd (omega arith))
first_free s (suc k) = elim (first_free s k) [
  | inr (n, lt, free, used) ↦ inr (n, omega arith, free, used)
  | inl all ↦ elim (Bool-cases (is_free s k)) [
    | inl free ↦ inr (k, omega arith, free, all)
    | inr used ↦ inl (λ m h. ground (arith, all m))
  ]
]

spare-size : (s s' : Frames) → Tracked s → SameSize s s' → IsValid s' → Tracked s'
spare-size s s' t size v = record { valid = v; spare = omega (arith, t.spare, size) }

module _ (base : ℕ) (s : Frames) (t : Tracked s) where
  -- Either every frame is in use, or one that was free is handed out.
  pub find_frame-cases :
      ((s' : Frames) × (find_frame base s ≡ ok (none, s')) × Becomes s s' (is_free s) × AllUsed s)
      ⊎ ((n : ℕ) × (s' : Frames) × (find_frame base s ≡ ok (some (n + base), s'))
          × (n < s.num_frames)
          × (is_free s n ≡ true)
          × Becomes s s' (λ m. if m == n then false else is_free s m))
  find_frame-cases = elim (first_free s s.num_frames) [
    | inl all ↦ inl (
      record s { next_free = s.num_frames },
      find_frame-full base s t.valid all t.spare,
      record {
        tracked = record {
          valid = record {
            bytes = t.valid.bytes;
            covers = t.valid.covers;
            hint = omega arith;
            below = all;
          };
          spare = t.spare;
        };
        size = (refl, refl);
        free = λ m. refl;
      },
      all,
    )
    | inr (n, lt, free, used) ↦
        let (s', run, size, v, after) = find_frame-lowest base s t.valid n lt free used in
        inr (
          n,
          s',
          run,
          lt,
          free,
          record { tracked = spare-size s s' t size v; size = size; free = after },
        )
  ]

  -- A frame in use is given back.
  pub free_frame-used :
      (f : ℕ)
      → base ≤ f
      → f - base < s.num_frames
      → is_free s (f - base) ≡ false
      → (s' : Frames) × (free_frame base s f ≡ ok (true, s'))
        × Becomes s s' (λ m. if m == f - base then true else is_free s m)
  free_frame-used f above inside used =
      let (s', run, size, v, after) = free_frame_lem base s t.valid f in
      let freed : (not (ltb f base) && (ltb (f - base) s.num_frames && not (is_free s (f - base))))
          ≡ true =
        ground arith in
      (
        s',
        rw freed at run,
        record {
          tracked = spare-size s s' t size v;
          size = size;
          free = λ m. ground (arith, after m, freed);
        },
      )
