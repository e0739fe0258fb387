-- ===== src/Pipe/Grow.antt =====
-- ensure_capacity: the buffer doubles until the bytes fit, and keeps its contents.
use cs58final_project.Prelude.{
  ◌⊎◌, sym, ℕ, zero, suc, ◌+◌, ◌-◌, ◌*◌, ◌≤◌, ◌<◌, ◌≡◌, refl, ap, ◌∙◌, Bool, true, ◌||◌, arith,
  List, [], ◌∷◌, ◌++◌, ltb, leb, length, get_or, length-append, length-replicate, replicate,
  Bool-cases, inl, inr,
}
use mathlib.Core.List.{append_assoc}
use native.Mathlib.Nat.{mod-eq_of_lt}
use cs58final_project.Prelude.Run.{ok}
use cs58final_project.Pipe.{Pipe, double, linearize, ensure_capacity}
use cs58final_project.Pipe.Ring.{contents, IsRing, length-linearize}

-- The doubling ends; the new capacity is enough, and if it has grown it is less than twice what is
-- needed, so that it is an `int` for every need up to 2 ^ 30.
double_lem :
    (fuel c needed : ℕ)
    → 0 < c
    → needed - c < fuel
    → (n : ℕ) × (double fuel c needed ≡ ok n)
      × (needed ≤ n)
      × (c ≤ n)
      × ((n ≡ c) ⊎ (n < 2 * needed))
unfolding double
double_lem zero c needed pos f = absurd (omega arith)
double_lem (suc fuel) c needed pos f = elim (Bool-cases (ltb c needed)) [
  | inl more ↦
      let less : c < needed = ground arith in
      let (n, run, enough, above, bound) =
        double_lem fuel (c * 2) needed (omega arith) (omega arith) in
      (n, rw more run, enough, omega arith, ground arith)
  | inr done ↦ (c, rw done, ground arith, omega arith, inl refl)
]

get_or-middle :
    (done : List ℕ) (x : ℕ) (rest : List ℕ) → get_or (done ++ x ∷ rest) (length done) 0 ≡ x
get_or-middle [] x rest = refl
get_or-middle (d ∷ done) x rest = get_or-middle done x rest

-- A window inside a list, behind the part `done`, is the list's part there.
linearize-inside :
    (done xs rest : List ℕ) (cap : ℕ)
    → length done + length xs ≤ cap
    → linearize (done ++ (xs ++ rest)) cap (length done) (length xs) ≡ xs
unfolding linearize
linearize-inside done [] rest cap h = refl
linearize-inside done (x ∷ xs) rest cap h =
    let size : length (done ++ x ∷ []) ≡ length done + 1 = length-append done (x ∷ []) in
    rw (mod-eq_of_lt {n = length done} {m = cap} (omega arith), get_or-middle done x (xs ++ rest))
      (ap (◌∷◌ x) (
        ap (λ (l : List ℕ). linearize l cap (length done + 1) (length xs))
          (sym (append_assoc done (x ∷ []) (xs ++ rest)))
        ∙ ap (λ (t : ℕ). linearize ((done ++ x ∷ []) ++ (xs ++ rest)) cap t (length xs)) (sym size)
        ∙ linearize-inside (done ++ x ∷ []) xs rest cap (omega arith)))

-- `ensure_capacity` ends on a valid pipe. It fails only if the buffer is too small and there is no
-- memory. Either way the pipe stays valid and holds the same bytes, length and readers; after a
-- success the capacity covers the need, and a capacity that has grown is below twice the need.
pub ensure_capacity_lem :
    (allocated : Bool) (p : Pipe) (needed : ℕ)
    → IsRing p
    → (p' : Pipe) × (ensure_capacity allocated p needed ≡ ok (leb needed p.cap || allocated, p'))
      × IsRing p'
      × (contents p' ≡ contents p)
      × ((p'.len ≡ p.len) × (p'.readers ≡ p.readers))
      × ((leb needed p.cap || allocated) ≡ true → needed ≤ p'.cap)
      × ((p'.cap ≡ p.cap) ⊎ (p'.cap < 2 * needed))
unfolding ensure_capacity
ensure_capacity_lem allocated p needed v = elim (Bool-cases (leb needed p.cap)) [
  | inl enough ↦ (p, rw enough, v, refl, (refl, refl), λ e. ground arith, inl refl)
  | inr small ↦
      let (n, run, covers, above, bound) =
        double_lem (needed + 1) p.cap needed v.some_room (omega arith) in
      let old : List ℕ = linearize p.buf p.cap p.head p.len in
      let size : length old ≡ p.len = length-linearize p.buf p.cap p.head p.len in
      let pad = replicate (n - p.len) 0 in
      let padded : length (old ++ pad) ≡ n =
        omega (arith, length-append old pad, length-replicate {A = ℕ} (n - p.len) 0, v.len_in) in
      elim (Bool-cases allocated) [
        | inl got ↦ (
          record p { buf = old ++ pad; cap = n; head = 0 },
          rw (small, run, got),
          record {
            used = v.used;
            storage = omega arith;
            some_room = omega (arith, v.some_room);
            head_in = omega (arith, v.some_room);
            len_in = omega (arith, v.len_in);
          },
          ap (λ (t : ℕ). linearize (old ++ pad) n 0 t) (sym size)
              ∙ linearize-inside [] old pad n (omega (arith, v.len_in)),
          (refl, refl),
          λ e. covers,
          bound,
        )
        | inr refused ↦ (
          p,
          rw (small, run, refused),
          v,
          refl,
          (refl, refl),
          λ e. absurd (ground arith),
          inl refl,
        )
      ]
]
