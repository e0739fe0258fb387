-- ===== src/Pipe/Ring.antt =====
-- The circular buffer of a pipe holds a queue of bytes.
use mathlib.Core.List.{append_assoc, append-nil}
use native.Mathlib.Nat.{mod-add-mod, mod-lt, mod-mod, mod-eq_of_lt, div-add-mod}
use cs58final_project.Prelude.{
  ℕ, zero, suc, ◌+◌, ◌-◌, ◌*◌, ◌/◌, ◌%◌, ◌≤◌, ◌<◌, ◌≡◌, ◌≢◌, refl, sym, ap, ◌∙◌, true, arith, List,
  [], ◌∷◌, ◌++◌, ltb, ◌==◌, if◌then◌else◌, length, get_or, set, take, drop, length-set, Bool-cases,
  inl, inr, min,
}
use cs58final_project.Prelude.Arrays.{get_or-set}
use cs58final_project.Pipe.{Pipe, linearize, append_bytes, read_loop, read_bytes}

-- the bytes in the buffer, oldest first
abbrev pub contents : Pipe → List ℕ
contents p = linearize p.buf p.cap p.head p.len

pub record IsRing (p : Pipe) : Type 0 where
  pub used : p.in_use ≡ true
  pub storage : p.cap ≤ length p.buf
  pub some_room : 0 < p.cap
  pub head_in : p.head < p.cap
  pub len_in : p.len ≤ p.cap

pub length-linearize : (buf : List ℕ) (cap h n : ℕ) → length (linearize buf cap h n) ≡ n
unfolding linearize
length-linearize buf cap h zero = refl
length-linearize buf cap h (suc n) = ap suc (length-linearize buf cap (h + 1) n)

not_above : (c q k d : ℕ) → 0 < d → d < c → c * q + d ≢ c * (q + k + 1)
not_above c q k d pos lt e = omega arith

not_below : (c r k d : ℕ) → 0 < d → c * (r + k) + d ≢ c * r
not_below c r k d pos e = omega arith

quotients_differ : (c q r d : ℕ) → 0 < d → d < c → c * q + d ≢ c * r
quotients_differ c q r d pos lt e = elim (Bool-cases (ltb q r)) [
  | inl less ↦
      let up : r ≡ q + (r - q - 1) + 1 = ground arith in
      not_above c q (r - q - 1) d pos lt (e ∙ ap (λ (t : ℕ). c * t) up)
  | inr more ↦
      let up : r + (q - r) ≡ q = ground arith in
      not_below c r (q - r) d pos (ap (λ (t : ℕ). c * t + d) up ∙ e)
]

-- Fewer than `c` steps round the buffer do not come back.
mod-ne : (c a d : ℕ) → 0 < d → d < c → (a + d) % c ≢ a % c
mod-ne c a d pos lt e =
    quotients_differ c (a / c) ((a + d) / c) d pos lt
      (omega (arith, div-add-mod a c, div-add-mod (a + d) c))

-- Writing behind a window extends it by the byte.
linearize-set :
    (buf : List ℕ) (cap b n h i : ℕ)
    → cap ≤ length buf
    → n < cap
    → i ≡ (h + n) % cap
    → linearize (set buf i b) cap h (suc n) ≡ linearize buf cap h n ++ b ∷ []
unfolding linearize
linearize-set buf cap b zero h i fits lt e =
    let inside : i < length buf = omega (arith, mod-lt (h + 0) {m = cap} (omega arith)) in
    let here : h % cap ≡ i = ap (λ (t : ℕ). t % cap) (omega arith) ∙ sym e in
    ap (λ (x : ℕ). x ∷ []) (ground (arith, get_or-set buf i (h % cap) b 0))
linearize-set buf cap b (suc n) h i fits lt e =
    let inside : i < length buf = omega (arith, mod-lt (h + suc n) {m = cap} (omega arith)) in
    let apart : h % cap ≢ i = λ s. mod-ne cap h (suc n) (omega arith) lt (sym e ∙ sym s) in
    let next : i ≡ (h + 1 + n) % cap = e ∙ ap (λ (t : ℕ). t % cap) (omega arith) in
    let same : get_or (set buf i b) (h % cap) 0 ≡ get_or buf (h % cap) 0 =
      ground (arith, get_or-set buf i (h % cap) b 0) in
    rw same (
      ap (◌∷◌ (get_or buf (h % cap) 0))
        (linearize-set buf cap b n (h + 1) i fits (omega arith) next))

-- A window starts at its first index or at any other that is equal to it modulo the capacity.
linearize-mod : (buf : List ℕ) (cap h n : ℕ) → linearize buf cap (h % cap) n ≡ linearize buf cap h n
unfolding linearize
linearize-mod buf cap h zero = refl
linearize-mod buf cap h (suc n) = rw mod-mod (
    ap (◌∷◌ (get_or buf (h % cap) 0)) (
      sym (linearize-mod buf cap (h % cap + 1) n)
      ∙ ap (λ (t : ℕ). linearize buf cap t n) (mod-add-mod h cap 1)
      ∙ linearize-mod buf cap (h + 1) n))

-- Appending bytes that fit to a valid pipe appends them to its contents, keeps it valid and leaves
-- its readers alone.
pub append_bytes_lem :
    (bs : List ℕ) (p : Pipe)
    → IsRing p
    → p.len + length bs ≤ p.cap
    → IsRing (append_bytes p bs)
      × (contents (append_bytes p bs) ≡ contents p ++ bs)
      × ((append_bytes p bs).readers ≡ p.readers)
unfolding append_bytes
append_bytes_lem [] p v fits = (v, rw append-nil, refl)
append_bytes_lem (b ∷ bs) p v fits =
    let i : ℕ = (p.head + p.len) % p.cap in
    let p' : Pipe = record p { buf = set p.buf i b; len = p.len + 1 } in
    let size = length-set p.buf i b in
    let v' : IsRing p' = record {
      used = v.used;
      storage = omega (arith, v.storage);
      some_room = v.some_room;
      head_in = v.head_in;
      len_in = omega arith;
    } in
    let (valid, bytes, readers) = append_bytes_lem bs p' v' (omega arith) in
    let one : p.len + 1 ≡ suc p.len = omega arith in
    let here : contents p' ≡ contents p ++ b ∷ [] =
      ap (linearize (set p.buf i b) p.cap p.head) one
      ∙ linearize-set p.buf p.cap b p.len p.head i v.storage (omega arith) refl in
    (
      valid,
      bytes ∙ ap (λ (q : List ℕ). q ++ bs) here ∙ append_assoc (contents p) (b ∷ []) bs,
      readers,
    )

linearize-take :
    (buf : List ℕ) (cap h k m : ℕ) → k ≤ m → take k (linearize buf cap h m) ≡ linearize buf cap h k
unfolding linearize
linearize-take buf cap h zero m le = refl
linearize-take buf cap h (suc k) zero le = absurd (omega arith)
linearize-take buf cap h (suc k) (suc m) le =
    ap (◌∷◌ (get_or buf (h % cap) 0)) (linearize-take buf cap (h + 1) k m (omega arith))

linearize-drop :
    (buf : List ℕ) (cap h k m : ℕ)
    → k ≤ m
    → drop k (linearize buf cap h m) ≡ linearize buf cap (h + k) (m - k)
unfolding linearize
linearize-drop buf cap h zero m le =
    let e : m - 0 ≡ m = omega arith in let f : h + 0 ≡ h = omega arith in rw (e, f)
linearize-drop buf cap h (suc k) zero le = absurd (omega arith)
linearize-drop buf cap h (suc k) (suc m) le =
    let e : suc m - suc k ≡ m - k = omega arith in
    let f : h + suc k ≡ h + 1 + k = omega arith in
    rw (e, f) (linearize-drop buf cap (h + 1) k m (omega arith))

read_loop_lem :
    (p : Pipe) (head n : ℕ)
    → head < p.cap
    → ((read_loop p head n).0 ≡ linearize p.buf p.cap head n)
      × ((read_loop p head n).1 ≡ (head + n) % p.cap)
unfolding read_loop linearize
read_loop_lem p head zero lt =
    let e : head + 0 ≡ head = omega arith in (refl, rw (e, mod-eq_of_lt lt))
read_loop_lem p head (suc n) lt =
    let (bytes, at) = read_loop_lem p ((head + 1) % p.cap) n (mod-lt (head + 1) (omega arith)) in
    let e : head + 1 + n ≡ head + suc n = omega arith in
    (
      rw (mod-eq_of_lt lt)
          (ap (◌∷◌ (get_or p.buf head 0)) (bytes ∙ linearize-mod p.buf p.cap (head + 1) n)),
      at ∙ mod-add-mod (head + 1) p.cap n ∙ ap (λ (t : ℕ). t % p.cap) e,
    )

-- All empty windows are equal.
linearize-empty :
    (buf : List ℕ) (cap a b m : ℕ) → (m == 0) ≡ true → linearize buf cap a m ≡ linearize buf cap b m
unfolding linearize
linearize-empty buf cap a b zero e = refl
linearize-empty buf cap a b (suc m) e = absurd (ground arith)

-- Reading at most `n` bytes of a valid pipe gives the oldest bytes of the contents, as many as
-- there are up to `n`, with their number, and leaves the rest; the pipe stays valid and keeps its
-- readers.
pub read_bytes_lem :
    (p : Pipe) (n : ℕ)
    → IsRing p
    → let (count, out, p') = read_bytes p n in
      (count ≡ min p.len n)
      × (out ≡ take count (contents p))
      × (contents p' ≡ drop count (contents p))
      × IsRing p'
      × (p'.readers ≡ p.readers)
unfolding read_bytes
read_bytes_lem p n v =
    let k : ℕ = if ltb p.len n then p.len else n in
    let le : k ≤ p.len = ground arith in
    let (bytes, at) = read_loop_lem p p.head k v.head_in in
    let left : drop k (contents p) ≡ linearize p.buf p.cap ((p.head + k) % p.cap) (p.len - k) =
      linearize-drop p.buf p.cap p.head k p.len le
      ∙ sym (linearize-mod p.buf p.cap (p.head + k) (p.len - k)) in
    let in_range = mod-lt (p.head + k) v.some_room in
    (
      ground arith,
      bytes ∙ sym (linearize-take p.buf p.cap p.head k p.len le),
      elim (Bool-cases (p.len - k == 0)) [
        | inl none_left ↦
            rw (left, none_left)
              (linearize-empty p.buf p.cap 0 ((p.head + k) % p.cap) (p.len - k) none_left)
        | inr some_left ↦ rw (left, some_left, at)
      ],
      record {
        used = v.used;
        storage = v.storage;
        some_room = v.some_room;
        head_in = ground (arith, at, in_range, v.some_room);
        len_in = omega (arith, v.len_in);
      },
      refl,
    )
