-- ===== src/UserMemory/Copies.antt =====
-- UCCopy: the pages of the child of a fork have the bytes of the parent's.
use cs58final_project.Prelude.{
  ℕ, zero, suc, ◌+◌, ◌-◌, ◌≤◌, ◌<◌, ◌≡◌, refl, ap, ◌∙◌, true, false, ◌||◌, arith, List, [], ◌∷◌,
  ◌⊎◌, inl, inr, ◌==◌, length, Bool-cases,
}
use cs58final_project.Prelude.Run.{ok}
use cs58final_project.Prelude.Arrays.{elem-cons}
use cs58final_project.Frames.{Frames}
use cs58final_project.Frames.Inv.{is_free}
use cs58final_project.Frames.Tracked.{Tracked, free_frame-used}
use cs58final_project.Pages.{Prot, Pte, entry}
use cs58final_project.Pages.Range.{within, owns, owns-zero, owns-suc}
use cs58final_project.Pages.Fill.{TooFew}
use cs58final_project.UserMemory.{Layout, ForkMem, space_of, copy_pages, destroy_pt}
use cs58final_project.UserMemory.Fork.{Forks, Copied, copy_page-cases}

module _ (l : Layout) where
  -- The first page, and then the others.
  Copied-suc :
      (brk k n : ℕ) (prot : Prot) (f g h : ForkMem)
      → Forks l brk f
      → Forks l brk g
      → ((j : ℕ) → within k (suc n) j ≡ true → (entry f.mem.ctx.region1_pt j).valid ≡ true)
      → Copied l prot f g k 1
      → Copied l prot g h (k + 1) n
      → Copied l prot f h k (suc n)
  Copied-suc brk k n prot f g h v w source a b = record {
    valid = λ j q. ground (arith, a.valid j, b.valid j, b.others j, q);
    protected = λ j q. ground (arith, a.protected j, b.protected j, b.others j, q);
    bytes = λ j q. elim (Bool-cases (j == k)) [
      | inl first ↦
          let in_first : within k 1 j ≡ true = ground (arith, first) in
          let same = b.others j (ground (arith, first)) in
          let held = a.valid j in_first in
          let pfn = (entry g.child_pt j).pfn in
          let up : pfn - l.base + l.base ≡ pfn = omega (arith, w.apart.above j held) in
          let stays : h.contents pfn ≡ g.contents pfn =
            rw up at (b.kept (pfn - l.base) (w.apart.used j held)) in
          rw same (stays ∙ a.bytes j in_first)
      | inr later ↦
          let in_rest : within (k + 1) n j ≡ true = ground (arith, later, q) in
          let held = source j q in
          let pfn = (entry f.mem.ctx.region1_pt j).pfn in
          let up : pfn - l.base + l.base ≡ pfn = omega (arith, v.mapped.above j held) in
          let stays : g.contents pfn ≡ f.contents pfn =
            rw up at (a.kept (pfn - l.base) (v.mapped.used j held)) in
          b.bytes j in_rest ∙ ap (λ (x : Pte). g.contents x.pfn) (a.entries j held) ∙ stays
    ];
    fresh = λ j q. elim (Bool-cases (j == k)) [
      | inl first ↦
          let in_first : within k 1 j ≡ true = ground (arith, first) in
          let same = b.others j (ground (arith, first)) in rw same (a.fresh j in_first)
      | inr later ↦
          let in_rest : within (k + 1) n j ≡ true = ground (arith, later, q) in
          ground (arith, b.fresh j in_rest, a.free ((entry h.child_pt j).pfn - l.base))
    ];
    others = λ j q. ground (arith, a.others j, b.others j, q);
    parent = λ j. b.parent j ∙ a.parent j;
    entries = λ j q. b.entries j (a.parent j ∙ q) ∙ a.entries j q;
    size = b.size ∙ a.size;
    num_frames = b.num_frames ∙ a.num_frames;
    kept = λ j q. b.kept j (ground (arith, a.free j, q)) ∙ a.kept j q;
    free = λ m. ground (
      arith,
      a.free m,
      b.free m,
      owns-suc h.child_pt k n (m + l.base),
      owns-suc g.child_pt k 0 (m + l.base),
      owns-zero g.child_pt (k + 1) (m + l.base),
      b.others k,
    );
  }

  -- If the frames of the valid pages from index `i` on are in use and their own, `destroy_pt` ends and frees exactly them.
  destroy_pt_lem :
      (n i : ℕ) (pt : List Pte) (frames : Frames)
      → Tracked frames
      → ((j : ℕ)
          → i ≤ j
          → (entry pt j).valid ≡ true
          → (l.base ≤ (entry pt j).pfn)
            × ((entry pt j).pfn - l.base < frames.num_frames)
            × (is_free frames ((entry pt j).pfn - l.base) ≡ false))
      → ((j j' : ℕ)
          → (entry pt j).valid ≡ true
          → (entry pt j').valid ≡ true
          → (entry pt j).pfn ≡ (entry pt j').pfn
          → j ≡ j')
      → (frames' : Frames) × (destroy_pt l n i pt frames ≡ ok frames')
        × ((m : ℕ) → is_free frames' m ≡ (is_free frames m || owns pt i n (m + l.base)))
  unfolding destroy_pt
  destroy_pt_lem zero i pt frames t held own =
      (frames, refl, λ m. ground (arith, owns-zero pt i (m + l.base)))
  destroy_pt_lem (suc n) i pt frames t held own = elim (Bool-cases (entry pt i).valid) [
    | inr unused ↦
        let (frames', run, free) =
          destroy_pt_lem n (i + 1) pt frames t (λ j le. held j (omega arith)) own in
        (frames', rw unused run, λ m. ground (arith, free m, owns-suc pt i n (m + l.base), unused))
    | inl valid ↦
        let (above, inside, used) = held i (omega arith) valid in
        let (frames1, freed, b) =
          free_frame-used l.base frames t (entry pt i).pfn above inside used in
        let (frames', run, free) =
          destroy_pt_lem n (i + 1) pt frames1 b.tracked
            (λ j le vj.
              let (aj, ij, uj) = held j (omega arith) vj in
              (
                aj,
                omega (arith, ij, b.size.0),
                ground
                    (arith, b.free ((entry pt j).pfn - l.base), uj, own i j, valid, vj, aj, above),
              ))
            own in
        (
          frames',
          rw (valid, freed) run,
          λ m. ground (arith, free m, b.free m, owns-suc pt i n (m + l.base), valid, above),
        )
  ]

  -- If only the frames that a copy leaves are too few, so are those before it.
  TooFew-suc :
      (k n : ℕ) (prot : Prot) (f g : ForkMem)
      → Copied l prot f g k 1
      → TooFew l.base (space_of g.mem) n
      → TooFew l.base (space_of f.mem) (suc n)
  TooFew-suc k n prot f g a few =
      let pfn = (entry g.child_pt k).pfn in
      record {
        free = pfn ∷ few.free;
        shorter = omega (arith, few.shorter);
        all = λ m lt free. ground (
          arith,
          elem-cons (m + l.base) pfn few.free,
          few.all m,
          a.free m,
          owns-suc g.child_pt k 0 (m + l.base),
          owns-zero g.child_pt (k + 1) (m + l.base),
          a.num_frames,
          lt,
          free,
        );
      }

  -- `n` pages of the parent from page `vpn` on, each valid and none yet copied: `copy_pages` gives the child a page
  -- for each of them, with the protection asked for, the same bytes and a frame of its own that was
  -- free, and changes no other page of the child and no page of the parent. Only if fewer frames are free than
  -- there are pages it fails. The page of the break has to be unmapped, and the valid pages of parent and child to have frames
  -- of their own.
  pub copy_pages_lem :
      (brk n vpn : ℕ) (prot : Prot) (f : ForkMem)
      → Forks l brk f
      → l.first ≤ vpn
      → vpn - l.first + n ≤ length f.mem.ctx.region1_pt
      → ((j : ℕ) → within (vpn - l.first) n j ≡ true → (entry f.mem.ctx.region1_pt j).valid ≡ true)
      → ((j : ℕ) → within (vpn - l.first) n j ≡ true → (entry f.child_pt j).valid ≡ false)
      → ((g : ForkMem) × (copy_pages l brk n vpn prot f ≡ ok (true, g))
          × Forks l brk g
          × Copied l prot f g (vpn - l.first) n)
        ⊎ ((g : ForkMem) × (copy_pages l brk n vpn prot f ≡ ok (false, g))
            × TooFew l.base (space_of f.mem) n)
  unfolding copy_pages
  copy_pages_lem brk zero vpn prot f v low fits source target = inl (
    f,
    refl,
    v,
    record {
      valid = λ j h. absurd (ground (arith, h));
      protected = λ j h. absurd (ground (arith, h));
      bytes = λ j h. absurd (ground (arith, h));
      fresh = λ j h. absurd (ground (arith, h));
      others = λ j h. refl;
      parent = λ j. refl;
      entries = λ j h. refl;
      size = refl;
      num_frames = refl;
      kept = λ m h. refl;
      free = λ m. ground (arith, owns-zero f.child_pt (vpn - l.first) (m + l.base));
    },
  )
  copy_pages_lem brk (suc n) vpn prot f v low fits source target =
      let k : ℕ = vpn - l.first in
      elim (copy_page-cases l brk vpn prot f v low (omega arith) (source k (ground arith))
        (target k (ground arith))) [
          | inl (g, run, w, all) ↦
              let (frames', back, freed) =
                destroy_pt_lem k 0 g.child_pt g.mem.frames w.mapped.tracked
                  (λ j le h. (w.apart.above j h, w.apart.inside j h, w.apart.used j h))
                  w.apart.own in
              inr (
                record g { mem = record g.mem { frames = frames' } },
                rw (copy_pages, run, back),
                record {
                  free = [];
                  shorter = omega arith;
                  all = λ m lt free. absurd (ground (arith, all m, lt, free));
                },
              )
          | inr (g, run, w, a) ↦
              let next : vpn + 1 - l.first ≡ k + 1 = omega arith in
              let rest =
                copy_pages_lem brk n (vpn + 1) prot g w (omega arith) (omega (arith, fits, a.size))
                  (λ j h. ground (arith, a.parent j, source j, h))
                  (λ j h. ground (arith, a.others j, target j, h)) in
              elim rest [
                | inl (h, more, x, b) ↦ inl (
                  h,
                  rw (copy_pages, run) more,
                  x,
                  Copied-suc brk k n prot f g h v w source a (rw next at b),
                )
                | inr (h, more, few) ↦
                    inr (h, rw (copy_pages, run) more, TooFew-suc k n prot f g a few)
              ]
        ]
