-- ===== src/Sync/Tables/Valid.antt =====
-- When a table of locks or condition variables is valid, and that growth, opening and closing an
-- entry keep it so.
use cs58final_project.Prelude.{
  ℕ, ◌/◌, ◌≤◌, ◌<◌, ◌≡◌, refl, sym, ap, ◌∙◌, Bool, true, false, ◌&&◌, arith, none, some, ◌++◌, ltb,
  leb, ◌==◌, if◌then◌else◌, length, set, replicate, take, drop, length-append, length-replicate,
  length-set, length-take, Bool-cases, inl, inr, ◌⊎◌,
}
use cs58final_project.Sync.Slots.{skip_used, any_used}
use cs58final_project.Sync.Slots.Laws.{
  live, is_live, is_some, live-outside, live-append, live-set, live-take, skip_used_lem,
}
use cs58final_project.Sync.Tables.{Table, grow, open_slot, close_slot}

module _ {ℓ} {A : Type ℓ} (used : A → Bool) where
  -- The open index is the lowest one that is not in use.
  pub record TableIsValid (t : Table A) : Type ℓ where
    pub not_empty : 0 < length t.slots
    pub in_range : t.open_idx ≤ length t.slots
    pub packed : (i : ℕ) → i < t.open_idx → is_live used t.slots i ≡ true
    pub gap : is_live used t.slots t.open_idx ≡ false

  -- The table has room at its open index, and the same entries in use as `t`.
  pub record Grown (t t' : Table A) : Type ℓ where
    pub valid : TableIsValid t'
    pub same_index : t'.open_idx ≡ t.open_idx
    pub room : t'.open_idx < length t'.slots
    pub same : (i : ℕ) → live used t'.slots i ≡ live used t.slots i

  pub grow-Grown :
      (e : A) (t : Table A)
      → used e ≡ false
      → TableIsValid t
      → (allocated : Bool)
      → ((grow e allocated t ≡ none) × (allocated ≡ false) × (t.open_idx ≡ length t.slots))
        ⊎ ((t' : Table A) × (grow e allocated t ≡ some t') × Grown t t')
  unfolding grow
  grow-Grown e t free v allocated = elim (Bool-cases (leb (length t.slots) t.open_idx)) [
    | inl full ↦ elim (Bool-cases allocated) [
      | inl got ↦ inr (
        record t { slots = t.slots ++ replicate (length t.slots) e },
        rw (full, got),
        let size = length-append t.slots (replicate (length t.slots) e) in
            let more = length-replicate (length t.slots) e in
            let same = λ (i : ℕ). live-append used t.slots (length t.slots) e i free in
            record {
              valid = record {
                not_empty = omega (arith, v.not_empty);
                in_range = omega (arith, v.in_range);
                packed = λ i h. ap (is_some used) (same i) ∙ v.packed i h;
                gap = ap (is_some used) (same t.open_idx) ∙ v.gap;
              };
              same_index = refl;
              room = omega (arith, v.not_empty, v.in_range);
              same = same;
            },
      )
      | inr refused ↦ inl (rw (full, refused), refused, ground (arith, v.in_range))
    ]
    | inr fits ↦
        inr (
          t,
          rw fits,
          record { valid = v; same_index = refl; room = ground arith; same = λ i. refl },
        )
  ]

  pub open_slot-IsValid :
      (x : A) (t : Table A)
      → used x ≡ true
      → TableIsValid t
      → t.open_idx < length t.slots
      → TableIsValid (open_slot used x t)
        × ((j : ℕ)
            → live used (open_slot used x t).slots j
              ≡ (if j == t.open_idx then some x else live used t.slots j))
  unfolding open_slot
  open_slot-IsValid x t taken v room =
      let slots = set t.slots t.open_idx x in
      let (onward, free, passed) = skip_used_lem used slots t.open_idx in
      let now = λ (j : ℕ). live-set used t.slots t.open_idx j x room in
      let size = length-set t.slots t.open_idx x in
      (
        record {
          not_empty = omega (arith, v.not_empty);
          in_range =
              elim (Bool-cases
                (leb (skip_used used (drop t.open_idx slots) t.open_idx) (length t.slots))) [
                  | inl fits ↦ ground (arith, size)
                  | inr beyond ↦
                      let last = passed (length t.slots) v.in_range (ground arith) in
                      let out = live-outside used slots (length t.slots) (omega (arith, size)) in
                      absurd (ground (arith, sym (ap (is_some used) out) ∙ last))
                ];
          packed = λ i h. elim (Bool-cases (ltb i t.open_idx)) [
            | inl before ↦
                let other : (i == t.open_idx) ≡ false = ground arith in
                ap (is_some used) (now i) ∙ rw other (v.packed i (ground arith))
            | inr from ↦ elim (Bool-cases (i == t.open_idx)) [
              | inl same ↦ ap (is_some used) (now i) ∙ rw same (rw taken refl)
              | inr other ↦ passed i (ground arith) h
            ]
          ];
          gap = free;
        },
        λ j. now j ∙ rw taken refl,
      )

module _ {ℓ} {A : Type ℓ} (used : A → Bool) where
  cut-IsValid :
      (t : Table A) (n : ℕ)
      → TableIsValid used t
      → t.open_idx < n
      → n ≤ length t.slots
      → any_used used (drop n t.slots) ≡ false
      → TableIsValid used (record t { slots = take n t.slots })
  cut-IsValid t n v above fits unused =
      let same = λ (j : ℕ). live-take used n t.slots j unused in
      let size = length-take n t.slots in
      record {
        not_empty = omega (arith, size);
        in_range = omega (arith, size);
        packed = λ j h. ap (is_some used) (same j) ∙ v.packed j h;
        gap = ap (is_some used) (same t.open_idx) ∙ v.gap;
      }

  -- the table once the entry at `i` is replaced by the unused `x`, and the index has gone back
  freed-IsValid :
      (t : Table A) (i : ℕ) (x : A)
      → used x ≡ false
      → TableIsValid used t
      → i < length t.slots
      → TableIsValid used (record {
        slots = set t.slots i x;
        open_idx = if ltb i t.open_idx then i else t.open_idx;
      })
  freed-IsValid t i x free v inside =
      let now = λ (j : ℕ). live-set used t.slots i j x inside in
      let size = length-set t.slots i x in
      record {
        not_empty = omega (arith, size);
        in_range = ground (arith, size, v.in_range);
        packed = λ j h.
            let other : (j == i) ≡ false = ground arith in
            ap (is_some used) (now j) ∙ rw other (v.packed j (ground arith));
        gap =
            let k : ℕ = if ltb i t.open_idx then i else t.open_idx in
            elim (Bool-cases (k == i)) [
              | inl same ↦ ap (is_some used) (now k) ∙ rw (same, free)
              | inr other ↦
                  let here : k ≡ t.open_idx = ground arith in
                  ap (is_some used) (now k) ∙ rw other (rw here v.gap)
            ];
      }

  pub close_slot-IsValid :
      (t : Table A) (i : ℕ) (x : A) (allocated : Bool)
      → used x ≡ false
      → TableIsValid used t
      → i < length t.slots
      → let t' = close_slot used allocated i (set t.slots i x) t.open_idx in
        TableIsValid used t'
        × ((j : ℕ) → live used t'.slots j ≡ (if j == i then none else live used t.slots j))
  unfolding close_slot
  close_slot-IsValid t i x allocated free v inside =
      let slots = set t.slots i x in
      let idx : ℕ = if ltb i t.open_idx then i else t.open_idx in
      let half : ℕ = length slots / 2 in
      let valid = freed-IsValid t i x free v inside in
      let now : (j : ℕ) → live used slots j ≡ (if j == i then none else live used t.slots j) =
        λ j. live-set used t.slots i j x inside ∙ rw free in
      elim (Bool-cases (any_used used (drop half slots))) [
        | inl busy ↦ rw busy (valid, now)
        | inr unused ↦ elim (Bool-cases (ltb idx half && allocated)) [
          | inl cut ↦
              rw (unused, cut)
                (
                  cut-IsValid (record { slots = slots; open_idx = idx }) half valid (ground arith)
                      (ground arith) unused,
                  λ j. live-take used half slots j unused ∙ now j,
                )
          | inr kept ↦ rw (unused, kept) (valid, now)
        ]
      ]
