-- ===== src/UserMemory/Bytes/Access.antt =====
-- Reading back what the kernel has written to the memory of a process, through a page table whose pages are apart.
use cs58final_project.Prelude.{
  ℕ, suc, ◌+◌, ◌-◌, ◌%◌, ◌≤◌, ◌<◌, ◌≡◌, refl, sym, ap, ◌∙◌, true, false, arith, List, [], ◌∷◌, inl,
  inr, ◌==◌, ltb, if◌then◌else◌, length, get_or, set, length-set, Bool-cases,
}
use cs58final_project.Prelude.Arrays.{get_or-set}
use cs58final_project.Prelude.Run.{ok}
use cs58final_project.Pages.{Pte}
use cs58final_project.Pages.Range.{within}
use cs58final_project.UserMemory.{Layout, write_frame}
use cs58final_project.UserMemory.Bytes.{page_of, peek, poke, store}

module _ (l : Layout) (page_size : ℕ) (pt : List Pte) where
  abbrev frame_of : ℕ → ℕ
  frame_of a = (page_of l page_size pt a).pfn

  -- The addresses from `low` up to `high` are in region 1, in valid pages that may be written, with whole frames, no two in the
  -- same place.
  pub record Window (low high : ℕ) (contents : ℕ → List ℕ) : Type 0 where
    pub some_bytes : 0 < page_size
    pub region : (a : ℕ) → low ≤ a → a < high → l.first ≤ l.page_down a
    pub valid : (a : ℕ) → low ≤ a → a < high → (page_of l page_size pt a).valid ≡ true
    pub writable : (a : ℕ) → low ≤ a → a < high → (page_of l page_size pt a).prot.write ≡ true
    pub whole :
        (a : ℕ) → low ≤ a → a < high → length (contents (page_of l page_size pt a).pfn) ≡ page_size
    pub apart :
        (a b : ℕ)
        → low ≤ a
        → a < high
        → low ≤ b
        → b < high
        → (page_of l page_size pt a).pfn ≡ (page_of l page_size pt b).pfn
        → a % page_size ≡ b % page_size
        → a ≡ b

  poke_lem :
      (low high a b : ℕ) (contents : ℕ → List ℕ)
      → Window low high contents
      → low ≤ a
      → a < high
      → (c : ℕ → List ℕ) × (poke l page_size pt a b contents ≡ ok c)
        × Window low high c
        × ((x : ℕ)
            → low ≤ x
            → x < high
            → peek l page_size pt c x ≡ (if x == a then b else peek l page_size pt contents x))
  unfolding poke peek
  poke_lem low high a b contents w la ha =
      let i : ℕ = a % page_size in
      let f = frame_of a in
      let old = contents f in
      let c = write_frame contents f (set old i b) in
      let not_kernel : ltb (l.page_down a) l.first ≡ false = ground (arith, w.region a la ha) in
      let inside : i < length old = rw (w.whole a la ha) (omega (arith, w.some_bytes)) in
      (
        c,
        rw (not_kernel, w.valid a la ha, w.writable a la ha) refl,
        record {
          some_bytes = w.some_bytes;
          region = w.region;
          valid = w.valid;
          writable = w.writable;
          whole = λ x lx hx. elim (Bool-cases (frame_of x == f)) [
            | inl same ↦ rw same (length-set old i b ∙ w.whole a la ha)
            | inr other ↦ rw other (w.whole x lx hx)
          ];
          apart = w.apart;
        },
        λ x lx hx. elim (Bool-cases (frame_of x == f)) [
          | inr other ↦
              let not_a : (x == a) ≡ false = elim (Bool-cases (x == a)) [
                | inr differs ↦ differs
                | inl is_a ↦
                    let e : x ≡ a = ground arith in
                    let same : frame_of x ≡ f = ap frame_of e in
                    absurd (ground (arith, other, same))
              ] in
              rw (other, not_a) refl
          | inl same ↦
              let now = get_or-set old i (x % page_size) b 0 inside in
              let e : frame_of x ≡ f = ground arith in
              elim (Bool-cases (x == a)) [
                | inl is_a ↦
                    let at : x ≡ a = ground arith in
                    let there : (x % page_size == i) ≡ true =
                      let same_rest : x % page_size ≡ i = ap (λ (y : ℕ). y % page_size) at in
                      ground (arith, same_rest) in
                    rw (same, is_a) (rw there at now)
                | inr not_a ↦
                    let elsewhere : (x % page_size == i) ≡ false =
                      elim (Bool-cases (x % page_size == i)) [
                        | inr differs ↦ differs
                        | inl same_place ↦
                            let at : x ≡ a = w.apart x a lx hx la ha e (ground arith) in
                            absurd (ground (arith, at, not_a))
                      ] in
                    rw (same, not_a)
                      (rw elsewhere at now
                        ∙ ap (λ (g : ℕ). get_or (contents g) (x % page_size) 0) (sym e))
              ]
        ],
      )

  pub store_lem :
      (low high a : ℕ) (bs : List ℕ) (contents : ℕ → List ℕ)
      → Window low high contents
      → low ≤ a
      → a + length bs ≤ high
      → (c : ℕ → List ℕ) × (store l page_size pt a bs contents ≡ ok c)
        × Window low high c
        × ((x : ℕ)
            → low ≤ x
            → x < high
            → peek l page_size pt c x ≡ (
                if within a (length bs) x
                then get_or bs (x - a) 0
                else peek l page_size pt contents x))
  unfolding store
  store_lem low high a [] contents w la ha =
      (contents, refl, w, λ x lx hx. let out : within a 0 x ≡ false = ground arith in rw out refl)
  store_lem low high a (b ∷ bs) contents w la ha =
      let (c1, run1, w1, one) = poke_lem low high a b contents w la (omega (arith, ha)) in
      let (c, run, w2, rest) =
        store_lem low high (a + 1) bs c1 w1 (omega arith) (omega (arith, ha)) in
      (
        c,
        rw (run1, run) refl,
        w2,
        λ x lx hx. elim (Bool-cases (x == a)) [
          | inl here ↦
              let e : x ≡ a = ground arith in
              let first : x - a ≡ 0 = omega (arith, e) in
              let before : within (a + 1) (length bs) x ≡ false = ground arith in
              let inside : within a (suc (length bs)) x ≡ true = ground arith in
              rw (inside, first) (rw before at (rest x lx hx) ∙ rw here at (one x lx hx))
          | inr other ↦ elim (Bool-cases (within (a + 1) (length bs) x)) [
            | inl later ↦
                let inside : within a (suc (length bs)) x ≡ true = ground arith in
                let next : x - a ≡ suc (x - (a + 1)) = ground arith in
                rw (inside, next) (rw later at (rest x lx hx))
            | inr beyond ↦
                let outside : within a (suc (length bs)) x ≡ false = ground arith in
                rw outside (rw beyond at (rest x lx hx) ∙ rw other at (one x lx hx))
          ]
        ],
      )
