-- ===== src/Pages/Fill.antt =====
-- alloc_pages: every page of the range gets a frame of its own, or nothing changes.
use cs58final_project.Prelude.{
  ℕ, zero, suc, ◌+◌, ◌-◌, ◌≤◌, ◌<◌, ◌≡◌, refl, sym, ap, ◌∙◌, true, false, not, ◌&&◌, ◌||◌, arith,
  List, ◌⊎◌, inl, inr, ◌==◌, if◌then◌else◌, length, Bool-cases,
}
use cs58final_project.Prelude.Run.{ok}
use cs58final_project.Prelude.Arrays.{elem}
use cs58final_project.Frames.Inv.{is_free}
use cs58final_project.Frames.Tracked.{AllUsed}
use cs58final_project.Pages.{Prot, Pte, entry, Space, alloc_pages}
use cs58final_project.Pages.Laws.{Mapped, Changes, alloc_page-cases}
use cs58final_project.Pages.Range.{
  frames_at, length-frames_at, owns, owns-zero, owns-suc, owns-same, within, Undone,
  undo_allocation_lem,
}

owns-snoc :
    (pt : List Pte) (i n f : ℕ)
    → owns pt i (suc n) f
      ≡ (owns pt i n f || (entry pt (i + n)).valid && (f == (entry pt (i + n)).pfn))
owns-snoc pt i zero f =
    let e : i + 0 ≡ i = omega arith in
    rw e (ground (arith, owns-suc pt i 0 f, owns-zero pt i f, owns-zero pt (i + 1) f))
owns-snoc pt i (suc n) f =
    let e : i + suc n ≡ i + 1 + n = omega arith in
    rw e (ground (arith, owns-suc pt i (suc n) f, owns-snoc pt (i + 1) n f, owns-suc pt i n f))

-- the `n` pages from index `i` on are not valid
abbrev pub Unmapped : Space → ℕ → ℕ → Type 0
Unmapped s i n = (j : ℕ) → within i n j ≡ true → (entry s.pt j).valid ≡ false

-- Fewer than `n` frames are free: all that are stand in a list that is shorter.
pub record TooFew (base : ℕ) (s : Space) (n : ℕ) : Type 0 where
  pub free : List ℕ
  pub shorter : length free < n
  pub all :
      (m : ℕ) → m < s.frames.num_frames → is_free s.frames m ≡ true → elem (m + base) free ≡ true

module _ (base : ℕ) where
  -- `s'` is `s` with the `n` pages from index `i` on mapped to frames that were free.
  pub record Filled (p : Prot) (s s' : Space) (i n : ℕ) : Type 0 where
    pub mapped : Mapped base s'
    pub size : length s'.pt ≡ length s.pt
    pub num_frames : s'.frames.num_frames ≡ s.frames.num_frames
    pub valid : (j : ℕ) → within i n j ≡ true → (entry s'.pt j).valid ≡ true
    pub prot : (j : ℕ) → within i n j ≡ true → (entry s'.pt j).prot ≡ p
    pub others : (j : ℕ) → within i n j ≡ false → entry s'.pt j ≡ entry s.pt j
    pub free :
        (m : ℕ) → is_free s'.frames m ≡ (is_free s.frames m && not (owns s'.pt i n (m + base)))
    pub fresh : (m : ℕ) → owns s'.pt i n (m + base) ≡ true → is_free s.frames m ≡ true

  -- `s'` has the valid pages and the free frames of `s`.
  pub record Restored (s s' : Space) : Type 0 where
    pub mapped : Mapped base s'
    pub size : length s'.pt ≡ length s.pt
    pub num_frames : s'.frames.num_frames ≡ s.frames.num_frames
    pub valid : (j : ℕ) → (entry s'.pt j).valid ≡ (entry s.pt j).valid
    pub entries : (j : ℕ) → (entry s.pt j).valid ≡ true → entry s'.pt j ≡ entry s.pt j
    pub free : (m : ℕ) → is_free s'.frames m ≡ is_free s.frames m

  Filled-zero : (prot : Prot) (s : Space) (i : ℕ) → Mapped base s → Filled prot s s i 0
  Filled-zero prot s i m = record {
    mapped = m;
    size = refl;
    num_frames = refl;
    valid = λ j h. absurd (ground arith);
    prot = λ j h. absurd (ground arith);
    others = λ j h. refl;
    free = λ k. ground (arith, owns-zero s.pt i (k + base));
    fresh = λ k h. absurd (ground (arith, owns-zero s.pt i (k + base)));
  }

  Filled-suc :
      (prot : Prot) (s0 s s' : Space) (i k n : ℕ)
      → Filled prot s0 s i k
      → is_free s.frames n ≡ true
      → Changes base s s'
          (i + k)
          (record { valid = true; pfn = n + base; prot = prot })
          (λ m. if m == n then false else is_free s.frames m)
      → Filled prot s0 s' i (suc k)
  Filled-suc prot s0 s s' i k n f free c =
      let owned : (x : ℕ) → owns s'.pt i (suc k) x ≡ (owns s.pt i k x || x == n + base) = λ x.
        ground (
          arith,
          owns-snoc s'.pt i k x,
          owns-same s.pt s'.pt i k x (λ j p q. ground (arith, c.entries j)),
          c.entries (i + k),
        ) in
      record {
        mapped = c.mapped;
        size = c.size ∙ f.size;
        num_frames = c.num_frames ∙ f.num_frames;
        valid = λ j h. ground (arith, c.entries j, f.valid j);
        prot = λ j h. ground (arith, c.entries j, f.prot j);
        others = λ j h. ground (arith, c.entries j, f.others j);
        free = λ m. ground (arith, c.free m, f.free m, owned (m + base));
        fresh = λ m h. ground (arith, f.fresh m, owned (m + base), f.free m);
      }

  Restored-Undone :
      (prot : Prot) (s0 s s1 s2 : Space) (i k : ℕ) (e : Pte)
      → Unmapped s0 i k
      → Filled prot s0 s i k
      → e ≡ entry s.pt (i + k)
      → Changes base s s1 (i + k) e (is_free s.frames)
      → Undone base s1 s2 i k
      → Restored s0 s2
  Restored-Undone prot s0 s s1 s2 i k e unused f same c u =
      let kept : (j : ℕ) → entry s1.pt j ≡ entry s.pt j = λ j. elim (Bool-cases (j == i + k)) [
        | inl here ↦
            let at : j ≡ i + k = ground arith in
            c.entries j ∙ rw here (same ∙ ap (entry s.pt) (sym at))
        | inr other ↦ c.entries j ∙ rw other
      ] in
      record {
        mapped = u.mapped;
        size = u.size ∙ c.size ∙ f.size;
        num_frames = u.num_frames ∙ c.num_frames ∙ f.num_frames;
        valid = λ j. ground (arith, u.unmapped j, u.others j, kept j, f.others j, unused j);
        entries = λ j h. ground (arith, u.others j, kept j, f.others j, unused j);
        free = λ m. ground (
          arith,
          u.free m,
          c.free m,
          f.free m,
          f.fresh m,
          owns-same s.pt s1.pt i k (m + base) (λ j p q. kept j),
        );
      }

  -- With every frame in use after `k` pages, those of the pages are all that were free.
  TooFew-full :
      (prot : Prot) (s0 s : Space) (i k n : ℕ)
      → Filled prot s0 s i k
      → k < n
      → AllUsed s.frames
      → TooFew base s0 n
  TooFew-full prot s0 s i k n f lt all = record {
    free = frames_at s.pt i k;
    shorter = omega (arith, length-frames_at s.pt i k);
    all = λ m h free. ground (arith, all m, f.num_frames, f.free m, free);
  }

module _ (base first start : ℕ) (prot : Prot) (s0 : Space) (low : first ≤ start) where
  abbrev index : ℕ
  index = start - first

  alloc_pages-from :
      (n k : ℕ) (s : Space)
      → Filled base prot s0 s index k
      → index + (k + n) ≤ length s0.pt
      → Unmapped s0 index (k + n)
      → ((s' : Space) × (alloc_pages base first prot start n (start + k) s ≡ ok (true, s'))
          × Filled base prot s0 s' index (k + n))
        ⊎ ((s' : Space) × (alloc_pages base first prot start n (start + k) s ≡ ok (false, s'))
            × Restored base s0 s'
            × TooFew base s0 (k + n))
  unfolding alloc_pages
  alloc_pages-from zero k s f fits unused = let e : k + 0 ≡ k = omega arith in inl (s, refl, rw e f)
  alloc_pages-from (suc n) k s f fits unused =
      let at : start + k - first ≡ index + k = omega arith in
      let free_here : (entry s.pt (index + k)).valid ≡ false =
        ground (arith, f.others (index + k), unused (index + k)) in
      let inside : start + k - first < length s.pt = omega (arith, f.size) in
      elim (alloc_page-cases base first (start + k) s f.mapped (omega arith) prot inside
        (rw at free_here)) [
          | inl (s1, run, all, c) ↦
              let back : start + k - start ≡ k = omega arith in
              let (s2, undone, u) = undo_allocation_lem base first k start s1 c.mapped low in
              let c' : Changes base s s1 (index + k) (entry s.pt (index + k)) (is_free s.frames) =
                rw at at c in
              inr (
                s2,
                rw (alloc_pages, run, back, undone),
                Restored-Undone base prot s0 s s1 s2 index k (entry s.pt (index + k))
                    (λ j h. unused j (ground arith)) f refl c' u,
                TooFew-full base prot s0 s index k (k + suc n) f (omega arith) all,
              )
          | inr (m, s1, run, free, c) ↦
              let more : k + suc n ≡ suc k + n = omega arith in
              let next : start + k + 1 ≡ start + suc k = omega arith in
              let f' : Filled base prot s0 s1 index (suc k) =
                Filled-suc base prot s0 s s1 index k m f free (rw at at c) in
              rw (alloc_pages, run, next, more)
                (alloc_pages-from n (suc k) s1 f' (rw more at fits) (rw more at unused))
        ]

  -- Of a range of pages of the region that are not valid, either each gets a frame of its own that
  -- was free, with the protection asked for, and nothing else changes; or fewer frames are free than
  -- the range has pages, and the valid pages and the free frames stay as they were.
  pub alloc_pages_lem :
      (n : ℕ)
      → Mapped base s0
      → index + n ≤ length s0.pt
      → Unmapped s0 index n
      → ((s' : Space) × (alloc_pages base first prot start n start s0 ≡ ok (true, s'))
          × Filled base prot s0 s' index n)
        ⊎ ((s' : Space) × (alloc_pages base first prot start n start s0 ≡ ok (false, s'))
            × Restored base s0 s'
            × TooFew base s0 n)
  alloc_pages_lem n m fits unused =
      let e : start + 0 ≡ start = omega arith in
      let none_yet : 0 + n ≡ n = omega arith in
      let start_full = Filled-zero base prot s0 index m in
      rw (e, none_yet) at
        (alloc_pages-from n 0 s0 start_full (omega (arith, fits)) (λ j h. unused j (ground arith)))
