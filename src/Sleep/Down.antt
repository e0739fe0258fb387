-- ===== src/Sleep/Down.antt =====
-- sift_down ends within its fuel, and restores the heap order.
use cs58final_project.Prelude.{
  ℕ, zero, suc, ◌+◌, ◌-◌, ◌*◌, ◌≤◌, ◌<◌, ◌≡◌, ◌≢◌, ◌⊎◌, refl, arith, List, length, ◌==◌, Bool-cases,
  inl, inr, ◌∙◌,
}
use cs58final_project.Prelude.Run.{ok}
use cs58final_project.Prelude.Arrays.{swap, count-swap, length-swap, get_or-swap}
use cs58final_project.Sleep.{sift_down, least_of, key_at}
use cs58final_project.Sleep.Order.{parent, IsBridged, Sifted}

module _ (key : ℕ → ℕ) where
  -- only the edges below `i` may be out of order
  pub record DownInv (a : List ℕ) (i : ℕ) : Type 0 where
    pub edges :
        (c : ℕ) → 0 < c → c < length a → parent c ≢ i → key_at key a (parent c) ≤ key_at key a c
    pub bridged : IsBridged key a i

  -- what the two tests find: `i` itself, or a child of it with a smaller key than `i`
  record IsLeast (a : List ℕ) (i m : ℕ) : Type 0 where
    stays_or_child :
        (m ≡ i)
        ⊎ ((m < length a) × (0 < m) × (parent m ≡ i) × (i < m) × (key_at key a m < key_at key a i))
    least : (c : ℕ) → 0 < c → c < length a → parent c ≡ i → key_at key a m ≤ key_at key a c

  least_of-le-left :
      (a : List ℕ) (i : ℕ)
      → 2 * i + 1 < length a
      → key_at key a (least_of key a i) ≤ key_at key a (2 * i + 1)
  unfolding least_of
  least_of-le-left a i h = ground arith

  least_of-le-right :
      (a : List ℕ) (i : ℕ)
      → 2 * i + 2 < length a
      → key_at key a (least_of key a i) ≤ key_at key a (2 * i + 2)
  unfolding least_of
  least_of-le-right a i h = ground arith

  least_of-choice :
      (a : List ℕ) (i : ℕ)
      → let m = least_of key a i in
        (m ≡ i)
        ⊎ ((m < length a) × (0 < m) × (parent m ≡ i) × (i < m) × (key_at key a m < key_at key a i))
  unfolding least_of
  least_of-choice a i = ground arith

  least_of-IsLeast : (a : List ℕ) (i : ℕ) → IsLeast a i (least_of key a i)
  least_of-IsLeast a i = record {
    stays_or_child = least_of-choice a i;
    least = λ c p q r. elim (Bool-cases (c == 2 * i + 1)) [
      | inl left ↦ ground (arith, least_of-le-left a i)
      | inr other ↦
          let right : c ≡ 2 * i + 2 = ground arith in ground (arith, least_of-le-right a i)
    ];
  }

  swap-DownInv :
      (a : List ℕ) (i m : ℕ)
      → i < length a
      → m < length a
      → 0 < m
      → parent m ≡ i
      → key_at key a m < key_at key a i
      → ((c : ℕ) → 0 < c → c < length a → parent c ≡ i → key_at key a m ≤ key_at key a c)
      → DownInv a i
      → DownInv (swap a m i) m
  swap-DownInv a i m hi hm pos child below least v =
      let size = length-swap a m i in
      let at = get_or-swap a m i hm hi in
      record {
        edges = λ c p q r. ground (arith, at c, at (parent c), v.edges c, v.bridged m, least c);
        bridged = λ c p q r t. ground (arith, at c, at (parent m), v.edges c);
      }

  pub sift_down-Sifted :
      (fuel : ℕ) (a : List ℕ) (i : ℕ)
      → length a - i < fuel
      → DownInv a i
      → (b : List ℕ) × (sift_down key fuel a i ≡ ok b) × Sifted key a b
  unfolding sift_down
  sift_down-Sifted zero a i f v = absurd (omega arith)
  sift_down-Sifted (suc k) a i f v = elim (Bool-cases (least_of key a i == i)) [
    | inl settled ↦ (
      a,
      rw settled,
      record {
        heap = λ c p q. ground (arith, v.edges c, (least_of-IsLeast a i).least c);
        size = refl;
        items = λ x. refl;
      },
    )
    | inr sink ↦
        let m : ℕ = least_of key a i in
        elim (least_of-choice a i) [
          | inl stays ↦ absurd (ground arith)
          | inr (hm, pos, child, later, below) ↦
              let hi : i < length a = omega arith in
              let size = length-swap a m i in
              let (b, run, s) =
                sift_down-Sifted k (swap a m i) m (omega arith)
                  (swap-DownInv a i m hi hm pos child below (least_of-IsLeast a i).least v) in
              (
                b,
                rw sink run,
                record {
                  heap = s.heap;
                  size = s.size ∙ size;
                  items = λ x. s.items x ∙ count-swap a m i hm hi x;
                },
              )
        ]
  ]
