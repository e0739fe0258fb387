-- ===== src/Sleep/Ops.antt =====
-- add_to_heap and remove_from_heap on a valid heap.
use cs58final_project.Prelude.{
  ℕ, ◌+◌, ◌-◌, ◌*◌, ◌/◌, ◌≤◌, ◌<◌, ◌≡◌, ap, ◌∙◌, Bool, not, ◌&&◌, arith, none, some, List, [], ◌∷◌,
  ◌++◌, ltb, leb, if◌then◌else◌, length, get_or, set, take, length-append, length-set, length-take,
  Bool-cases, inl, inr,
}
use cs58final_project.Prelude.Run.{ok}
use cs58final_project.Prelude.Arrays.{
  count, count-append, count-cons, count-nil, count-set, count-take, get_or-append, get_or-take,
  get_or-set, index_of_count,
}
use cs58final_project.Sleep.{Sleepers, add_to_heap, remove_from_heap, resize_heap, shrink}
use cs58final_project.Sleep.Order.{parent, IsHeap, root_least}
use cs58final_project.Sleep.Up.{UpInv, sift_up-Sifted}
use cs58final_project.Sleep.Down.{DownInv, sift_down-Sifted}

module _ (key : ℕ → ℕ) where
  -- heap order, and no more entries than the array has room for
  pub record IsValid (h : Sleepers) : Type 0 where
    pub heap : IsHeap key h.arr
    pub room : length h.arr ≤ h.current_size
    pub some_room : 0 < h.current_size

  append-UpInv : (a : List ℕ) (p : ℕ) → IsHeap key a → UpInv key (a ++ p ∷ []) (length a)
  append-UpInv a p heap =
      let size : length (a ++ p ∷ []) ≡ length a + 1 = length-append a (p ∷ []) in
      record {
        inside = omega arith;
        edges =
            λ c q r t. ground (arith, get_or-append a p c, get_or-append a p (parent c), heap c);
        bridged = λ c q r t u. absurd (omega arith);
      }

  -- On a valid heap, `add_to_heap` with no room and no memory to grow fails and changes nothing;
  -- otherwise it ends, succeeds, keeps the heap valid, and adds exactly one occurrence of the
  -- process.
  pub add_to_heap_lem :
      (allocated : Bool) (h : Sleepers) (p : ℕ)
      → IsValid h
      → (h' : Sleepers) × (add_to_heap key allocated h p
          ≡ ok (not (leb h.current_size (length h.arr) && not allocated), h'))
        × IsValid h'
        × ((x : ℕ)
            → count x h'.arr ≡ (
                if leb h.current_size (length h.arr) && not allocated
                then count x h.arr
                else count x (p ∷ h.arr)))
  unfolding add_to_heap resize_heap
  add_to_heap_lem allocated h p v =
      let (a, run, s) =
        sift_up-Sifted key (length h.arr + 1) (h.arr ++ p ∷ []) (length h.arr) (omega arith)
          (append-UpInv h.arr p v.heap) in
      let size : length a ≡ length h.arr + 1 = s.size ∙ length-append h.arr (p ∷ []) in
      let items : (x : ℕ) → count x a ≡ count x (p ∷ h.arr) = λ x. omega (
        arith,
        s.items x,
        count-append x h.arr (p ∷ []),
        count-cons x p h.arr,
        count-cons x p [],
        count-nil x,
      ) in
      elim (Bool-cases (leb h.current_size (length h.arr))) [
        | inl full ↦ elim (Bool-cases allocated) [
          | inl grown ↦ (
            record { arr = a; current_size = h.current_size * 2 },
            rw (full, grown, run),
            record {
              heap = s.heap;
              room = ground (arith, v.some_room, v.room);
              some_room = omega (arith, v.some_room);
            },
            λ x. rw (full, grown) (items x),
          )
          | inr refused ↦ (h, rw (full, refused), v, λ x. rw (full, refused))
        ]
        | inr fits ↦ (
          record { arr = a; current_size = h.current_size },
          rw (fits, run),
          record { heap = s.heap; room = ground arith; some_room = v.some_room },
          λ x. rw fits (items x),
        )
      ]

  pub arr-shrink : (allocated : Bool) (h : Sleepers) → (shrink allocated h).arr ≡ h.arr
  unfolding shrink resize_heap
  arr-shrink allocated h = ground arith

  shrink-IsValid : (allocated : Bool) (h : Sleepers) → IsValid h → IsValid (shrink allocated h)
  unfolding shrink resize_heap
  shrink-IsValid allocated h v =
      elim (Bool-cases (ltb (length h.arr) (h.current_size / 2) && ltb 5 h.current_size)) [
        | inl small ↦ elim (Bool-cases allocated) [
          | inl got ↦
              rw (small, got)
                (record { heap = v.heap; room = ground arith; some_room = ground arith })
          | inr refused ↦ rw (small, refused) v
        ]
        | inr large ↦ rw large v
      ]

  -- the array that `sift_down` gets: the last entry at the root, and one entry less
  abbrev moved : List ℕ → List ℕ
  moved a = take (length a - 1) (set a 0 (get_or a (length a - 1) 0))

  length-moved : (a : List ℕ) → length (moved a) ≡ length a - 1
  length-moved a =
      let last = get_or a (length a - 1) 0 in
      omega (arith, length-take (length a - 1) (set a 0 last), length-set a 0 last)

  moved-DownInv : (a : List ℕ) → 0 < length a → IsHeap key a → DownInv key (moved a) 0
  moved-DownInv a pos heap =
      let last = get_or a (length a - 1) 0 in
      let b = set a 0 last in
      let n : ℕ = length a - 1 in
      record {
        edges = λ c p q r. ground (
          arith,
          length-moved a,
          get_or-take n b c,
          get_or-take n b (parent c),
          get_or-set a 0 c last 0,
          get_or-set a 0 (parent c) last 0,
          heap c,
        );
        bridged = λ c p q r t. absurd (omega arith);
      }

  count-moved : (a : List ℕ) (x : ℕ) → 0 < length a → count x (get_or a 0 0 ∷ moved a) ≡ count x a
  count-moved a x pos =
      let n : ℕ = length a - 1 in
      let last = get_or a n 0 in
      let b : List ℕ = set a 0 last in
      let kept : get_or b n 0 ≡ last = ground (arith, get_or-set a 0 n last 0) in
      let cut = rw kept at (count-take x n b (omega (arith, length-set a 0 last))) in
      omega (arith, cut, count-set x a 0 last pos, count-cons x (get_or a 0 0) (moved a))

  module _ (allocated : Bool) (h : Sleepers) (v : IsValid h) where
    -- An empty heap has nothing to remove.
    pub remove_from_heap-empty : length h.arr ≡ 0 → remove_from_heap key allocated h ≡ ok (none, h)
    unfolding remove_from_heap
    remove_from_heap-empty e = ground arith

    -- On a valid heap that is not empty `remove_from_heap` ends and keeps the heap valid, whether
    -- or not there is memory for a smaller array. It takes out exactly one occurrence of the
    -- process at the root, which it returns, and no process that stays wakes earlier.
    pub remove_from_heap_lem :
        0 < length h.arr
        → let p = get_or h.arr 0 0 in
          (h' : Sleepers) × (remove_from_heap key allocated h ≡ ok (some p, h'))
          × IsValid h'
          × (length h'.arr + 1 ≡ length h.arr)
          × ((x : ℕ) → count x (p ∷ h'.arr) ≡ count x h.arr)
          × ((x : ℕ) → 0 < count x h'.arr → key p ≤ key x)
    unfolding remove_from_heap
    remove_from_heap_lem pos =
        let n : ℕ = length h.arr - 1 in
        let first : ℕ = get_or h.arr 0 0 in
        let (a, run, s) =
          sift_down-Sifted key (n + 1) (moved h.arr) 0 (omega (arith, length-moved h.arr))
            (moved-DownInv h.arr pos v.heap) in
        let size : length a ≡ n = s.size ∙ length-moved h.arr in
        let items : (x : ℕ) → count x (first ∷ a) ≡ count x h.arr = λ x. omega (
          arith,
          s.items x,
          count-moved h.arr x pos,
          count-cons x first a,
          count-cons x first (moved h.arr),
        ) in
        let h' : Sleepers = shrink allocated (record h { arr = a }) in
        let same : h'.arr ≡ a = arr-shrink allocated (record h { arr = a }) in
        (
          h',
          rw run (ground arith),
          shrink-IsValid allocated (record h { arr = a })
              (record { heap = s.heap; room = omega (arith, v.room); some_room = v.some_room }),
          omega (arith, ap length same),
          rw same items,
          λ x q.
              let (i, inside, e) =
                index_of_count x h.arr (ground (arith, items x, same, count-cons x first a)) in
              ground (arith, root_least key h.arr i v.heap inside),
        )
