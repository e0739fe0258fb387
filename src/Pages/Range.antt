-- ===== src/Pages/Range.antt =====
-- Ranges of pages: alloc_pages maps all of them or none, undo_allocation gives their frames back.
use cs58final_project.Prelude.{
  ℕ, zero, suc, ◌+◌, ◌-◌, ◌≤◌, ◌<◌, ◌≡◌, refl, ◌∙◌, Bool, true, false, ◌&&◌, ◌||◌, arith, List, [],
  ◌∷◌, inl, inr, ◌==◌, ltb, leb, if◌then◌else◌, length, Bool-cases,
}
use cs58final_project.Prelude.Run.{ok}
use cs58final_project.Prelude.Arrays.{elem, elem-nil, elem-cons}
use cs58final_project.Frames.Inv.{is_free}
use cs58final_project.Pages.{Pte, entry, Space, undo_allocation}
use cs58final_project.Pages.Laws.{Mapped, dealloc_page_lem}

-- the frames of the valid pages among the `n` from index `i` on
pub frames_at : List Pte → ℕ → ℕ → List ℕ
frames_at pt i zero = []
frames_at pt i (suc n) =
    let rest = frames_at pt (i + 1) n in
    if (entry pt i).valid then (entry pt i).pfn ∷ rest else rest

pub length-frames_at : (pt : List Pte) (i n : ℕ) → length (frames_at pt i n) ≤ n
unfolding frames_at
length-frames_at pt i zero = omega arith
length-frames_at pt i (suc n) = ground (arith, length-frames_at pt (i + 1) n)

-- whether frame `f` is one of them
abbrev pub owns : List Pte → ℕ → ℕ → ℕ → Bool
owns pt i n f = elem f (frames_at pt i n)

pub owns-zero : (pt : List Pte) (i f : ℕ) → owns pt i zero f ≡ false
unfolding frames_at
owns-zero pt i f = elem-nil f

pub owns-suc :
    (pt : List Pte) (i n f : ℕ)
    → owns pt i (suc n) f ≡ ((entry pt i).valid && (f == (entry pt i).pfn) || owns pt (i + 1) n f)
unfolding frames_at
owns-suc pt i n f = elim (Bool-cases (entry pt i).valid) [
  | inl valid ↦ rw valid (elem-cons f (entry pt i).pfn (frames_at pt (i + 1) n))
  | inr unused ↦ rw unused
]

pub owns-same :
    (pt pt' : List Pte) (i n f : ℕ)
    → ((j : ℕ) → i ≤ j → j < i + n → entry pt' j ≡ entry pt j)
    → owns pt' i n f ≡ owns pt i n f
owns-same pt pt' i zero f same = owns-zero pt' i f ∙ (rw (owns-zero pt i f))
owns-same pt pt' i (suc n) f same = rw (
  owns-suc pt' i n f,
  owns-suc pt i n f,
  same i (omega arith) (omega arith),
  owns-same pt pt' (i + 1) n f (λ j p q. same j (omega arith) (omega arith)),
)

-- whether index `j` is one of the `n` from `i` on
abbrev pub within : ℕ → ℕ → ℕ → Bool
within i n j = leb i j && ltb j (i + n)

module _ (base : ℕ) where
  -- `s'` is `s` with the `n` pages from index `i` on unmapped, and their frames free.
  pub record Undone (s s' : Space) (i n : ℕ) : Type 0 where
    pub mapped : Mapped base s'
    pub size : length s'.pt ≡ length s.pt
    pub num_frames : s'.frames.num_frames ≡ s.frames.num_frames
    pub unmapped : (j : ℕ) → within i n j ≡ true → (entry s'.pt j).valid ≡ false
    pub others : (j : ℕ) → within i n j ≡ false → entry s'.pt j ≡ entry s.pt j
    pub free : (m : ℕ) → is_free s'.frames m ≡ (is_free s.frames m || owns s.pt i n (m + base))

pub Undone-at :
    (base : ℕ) (s s' : Space) (i i' n : ℕ) → i ≡ i' → Undone base s s' i n → Undone base s s' i' n
Undone-at base s s' i i' n e u = rw e at u

module _ (base first : ℕ) where
  pub undo_allocation_lem :
      (n vpn : ℕ) (s : Space)
      → Mapped base s
      → first ≤ vpn
      → (s' : Space) × (undo_allocation base first n vpn s ≡ ok s')
        × Undone base s s' (vpn - first) n
  unfolding undo_allocation
  undo_allocation_lem zero vpn s m low = (
    s,
    refl,
    record {
      mapped = m;
      size = refl;
      num_frames = refl;
      unmapped = λ j h. absurd (ground arith);
      others = λ j h. refl;
      free = λ k. ground (arith, owns-zero s.pt (vpn - first) (k + base));
    },
  )
  undo_allocation_lem (suc n) vpn s m low =
      let i : ℕ = vpn - first in
      let (s1, run, c) = dealloc_page_lem base first vpn s m low in
      let (s2, rest, u) = undo_allocation_lem n (vpn + 1) s1 c.mapped (omega arith) in
      let next : vpn + 1 - first ≡ i + 1 = omega arith in
      let un : Undone base s1 s2 (i + 1) n = rw next at u in
      (
        s2,
        rw (undo_allocation, run) rest,
        record {
          mapped = un.mapped;
          size = un.size ∙ c.size;
          num_frames = un.num_frames ∙ c.num_frames;
          unmapped = λ j h. ground (arith, un.unmapped j, un.others j, c.entries j);
          others = λ j h. ground (arith, un.others j, c.entries j);
          free = λ k. ground (
            arith,
            un.free k,
            c.free k,
            owns-suc s.pt i n (k + base),
            owns-same s.pt s1.pt (i + 1) n (k + base) (λ j p q. ground (arith, c.entries j)),
            m.above i,
          );
        },
      )
