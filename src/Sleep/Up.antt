-- ===== src/Sleep/Up.antt =====
-- sift_up ends within its fuel, and restores the heap order.
use cs58final_project.Prelude.{
  ℕ, zero, suc, ◌≤◌, ◌<◌, ◌≡◌, ◌≢◌, refl, arith, List, length, ◌==◌, Bool-cases, inl, inr, ◌∙◌,
}
use cs58final_project.Prelude.Run.{ok}
use cs58final_project.Prelude.Arrays.{swap, count-swap, length-swap, get_or-swap}
use cs58final_project.Sleep.{sift_up, key_at, compare}
use cs58final_project.Sleep.Order.{parent, IsBridged, Sifted}

module _ (key : ℕ → ℕ) where
  -- only the edge above `i` may be out of order
  pub record UpInv (a : List ℕ) (i : ℕ) : Type 0 where
    pub inside : i < length a
    pub edges : (c : ℕ) → 0 < c → c < length a → c ≢ i → key_at key a (parent c) ≤ key_at key a c
    pub bridged : IsBridged key a i

  swap-UpInv :
      (a : List ℕ) (i : ℕ)
      → UpInv a i
      → 0 < i
      → key_at key a i ≤ key_at key a (parent i)
      → UpInv (swap a (parent i) i) (parent i)
  swap-UpInv a i v pos below =
      let size = length-swap a (parent i) i in
      let at = get_or-swap a (parent i) i (omega (arith, v.inside)) v.inside in
      record {
        inside = omega (arith, v.inside);
        edges = λ c p q r. ground (arith, at c, at (parent c), v.edges c, v.bridged c);
        bridged = λ c p q r t.
            ground (arith, at c, at (parent (parent i)), v.edges c, v.edges (parent i));
      }

  pub sift_up-Sifted :
      (fuel : ℕ) (a : List ℕ) (i : ℕ)
      → i < fuel
      → UpInv a i
      → (b : List ℕ) × (sift_up key fuel a i ≡ ok b) × Sifted key a b
  unfolding sift_up
  sift_up-Sifted zero a i f v = absurd (omega arith)
  sift_up-Sifted (suc k) a i f v = elim (Bool-cases (i == 0)) [
    | inl root ↦ (
      a,
      ground arith,
      record { heap = λ c p q. v.edges c p q (ground arith); size = refl; items = λ x. refl },
    )
    | inr below ↦ elim (Bool-cases (compare key a (parent i) i)) [
      | inl settled ↦ (
        a,
        ground arith,
        record { heap = λ c p q. ground (arith, v.edges c); size = refl; items = λ x. refl },
      )
      | inr rise ↦
          let up : parent i < length a = omega (arith, v.inside) in
          let (b, run, s) =
            sift_up-Sifted k (swap a (parent i) i) (parent i) (ground arith)
              (swap-UpInv a i v (ground arith) (ground arith)) in
          (
            b,
            rw (below, rise) run,
            record {
              heap = s.heap;
              size = s.size ∙ length-swap a (parent i) i;
              items = λ x. s.items x ∙ count-swap a (parent i) i up v.inside x;
            },
          )
    ]
  ]
