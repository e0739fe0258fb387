-- ===== src/UserMemory/Fork.antt =====
-- UCCopy: what holds between two pages of a fork, and the copy of one page.
use cs58final_project.Prelude.{
  ℕ, ◌+◌, ◌-◌, ◌≤◌, ◌<◌, ◌≡◌, ◌≢◌, sym, ap, ◌∙◌, true, false, not, ◌&&◌, arith, some, List, ◌⊎◌,
  inl, inr, ◌==◌, if◌then◌else◌, length, length-set,
}
use cs58final_project.Prelude.Run.{ok}
use cs58final_project.Prelude.Arrays.{get_or-set}
use cs58final_project.Frames.{Frames}
use cs58final_project.Frames.Inv.{is_free}
use cs58final_project.Frames.Tracked.{AllUsed}
use cs58final_project.Pages.{Prot, Pte, zero_pte, entry, create_pte, read_write, Space}
use cs58final_project.Pages.Laws.{Mapped, alloc_page-cases}
use cs58final_project.Pages.Range.{within, owns, owns-zero, owns-suc}
use cs58final_project.Pages.Unmap.{unmap_no_free_lem}
use cs58final_project.UserMemory.{
  UserMem, Layout, ForkMem, space_of, with_space, write_frame, copy_page,
}

-- The valid pages of the child have frames of their own that are in use, which none of the parent's has.
pub record Apart (base : ℕ) (s : Space) (child : List Pte) : Type 0 where
  pub above : (i : ℕ) → (entry child i).valid ≡ true → base ≤ (entry child i).pfn
  pub inside :
      (i : ℕ) → (entry child i).valid ≡ true → (entry child i).pfn - base < s.frames.num_frames
  pub used :
      (i : ℕ) → (entry child i).valid ≡ true → is_free s.frames ((entry child i).pfn - base) ≡ false
  pub own :
      (i j : ℕ)
      → (entry child i).valid ≡ true
      → (entry child j).valid ≡ true
      → (entry child i).pfn ≡ (entry child j).pfn
      → i ≡ j
  pub disjoint :
      (i j : ℕ)
      → (entry s.pt i).valid ≡ true
      → (entry child j).valid ≡ true
      → (entry s.pt i).pfn ≢ (entry child j).pfn

-- The child keeps its frames while the parent has the same pages and no frame is taken.
Apart-grows :
    (base : ℕ) (s s' : Space) (child : List Pte)
    → Apart base s child
    → s'.frames.num_frames ≡ s.frames.num_frames
    → ((m : ℕ) → is_free s'.frames m ≡ is_free s.frames m)
    → ((j : ℕ) → (entry s'.pt j).valid ≡ true → entry s'.pt j ≡ entry s.pt j)
    → Apart base s' child
Apart-grows base s s' child a num free same = record {
  above = a.above;
  inside = λ i h. omega (arith, a.inside i h, num);
  used = λ i h. free ((entry child i).pfn - base) ∙ a.used i h;
  own = a.own;
  disjoint = λ i j hi hj e.
      a.disjoint i j (ap (λ (x : Pte). x.valid) (sym (same i hi)) ∙ hi) hj
        (ap (λ (x : Pte). x.pfn) (sym (same i hi)) ∙ e);
}

module _ (l : Layout) where
  -- What holds of a fork between two pages: the page of the break is free for the copies.
  pub record Forks (brk : ℕ) (f : ForkMem) : Type 0 where
    pub mapped : Mapped l.base (space_of f.mem)
    pub apart : Apart l.base (space_of f.mem) f.child_pt
    pub low : l.first ≤ brk
    pub inside : brk - l.first < length f.mem.ctx.region1_pt
    pub unused : (entry f.mem.ctx.region1_pt (brk - l.first)).valid ≡ false
    pub size : length f.child_pt ≡ length f.mem.ctx.region1_pt

  -- From `f` to `g`, the `n` pages from index `k` on were copied for the child, and nothing else changed for the parent or it.
  pub record Copied (prot : Prot) (f g : ForkMem) (k n : ℕ) : Type 0 where
    pub valid : (j : ℕ) → within k n j ≡ true → (entry g.child_pt j).valid ≡ true
    pub protected : (j : ℕ) → within k n j ≡ true → (entry g.child_pt j).prot ≡ prot
    pub bytes :
        (j : ℕ)
        → within k n j ≡ true
        → g.contents (entry g.child_pt j).pfn ≡ f.contents (entry f.mem.ctx.region1_pt j).pfn
    -- the frames of the copies were free
    pub fresh :
        (j : ℕ)
        → within k n j ≡ true
        → is_free f.mem.frames ((entry g.child_pt j).pfn - l.base) ≡ true
    pub others : (j : ℕ) → within k n j ≡ false → entry g.child_pt j ≡ entry f.child_pt j
    pub parent :
        (j : ℕ) → (entry g.mem.ctx.region1_pt j).valid ≡ (entry f.mem.ctx.region1_pt j).valid
    pub entries :
        (j : ℕ)
        → (entry f.mem.ctx.region1_pt j).valid ≡ true
        → entry g.mem.ctx.region1_pt j ≡ entry f.mem.ctx.region1_pt j
    pub size : length g.mem.ctx.region1_pt ≡ length f.mem.ctx.region1_pt
    pub num_frames : g.mem.frames.num_frames ≡ f.mem.frames.num_frames
    pub kept :
        (m : ℕ) → is_free f.mem.frames m ≡ false → g.contents (m + l.base) ≡ f.contents (m + l.base)
    pub free :
        (m : ℕ)
        → is_free g.mem.frames m
          ≡ (is_free f.mem.frames m && not (owns g.child_pt k n (m + l.base)))

  module _ (brk vpn : ℕ) (prot : Prot) (f : ForkMem) (v : Forks brk f) (low : l.first ≤ vpn) where
    abbrev k : ℕ
    k = vpn - l.first

    pub copy_page-cases :
        k < length f.mem.ctx.region1_pt
        → (entry f.mem.ctx.region1_pt k).valid ≡ true
        → (entry f.child_pt k).valid ≡ false
        → ((g : ForkMem) × (copy_page l brk vpn prot f ≡ ok (false, g))
            × Forks brk g
            × AllUsed f.mem.frames)
          ⊎ ((g : ForkMem) × (copy_page l brk vpn prot f ≡ ok (true, g))
              × Forks brk g
              × Copied prot f g k 1)
    unfolding copy_page
    copy_page-cases inside source target =
        elim (alloc_page-cases l.base l.first brk (space_of f.mem) v.mapped v.low read_write
          v.inside v.unused) [
            | inl (s1, run, all, c) ↦
                let m' : UserMem = with_space f.mem s1 in
                inl (
                  record f { mem = m' },
                  rw (copy_page, run),
                  record {
                    mapped = c.mapped;
                    apart =
                        Apart-grows l.base (space_of f.mem) s1 f.child_pt v.apart c.num_frames
                          (λ j. c.free j) (λ j h. ground (arith, c.entries j, v.unused, h));
                    low = v.low;
                    inside = omega (arith, c.size, v.inside);
                    unused = ground (arith, c.entries (brk - l.first), v.unused);
                    size = v.size ∙ sym c.size;
                  },
                  all,
                )
            | inr (n, s1, run, free, c) ↦
                let (s2, unmapped, u) =
                  unmap_no_free_lem l.base l.first brk s1 c.mapped v.low
                    (omega (arith, c.size, v.inside)) in
                let new : (entry s1.pt (brk - l.first)).pfn ≡ n + l.base =
                  ground (arith, c.entries (brk - l.first)) in
                let new_pte : Pte = record { valid = true; pfn = n + l.base; prot = prot } in
                let now = λ (j : ℕ).
                  get_or-set f.child_pt k j new_pte zero_pte (omega (arith, v.size, inside)) in
                let n_in : n < s1.frames.num_frames =
                  ground (arith, c.mapped.inside (brk - l.first), c.entries (brk - l.first)) in
                let num : s2.frames.num_frames ≡ s1.frames.num_frames =
                  ap (λ (x : Frames). x.num_frames) u.frames in
                let free2 : (x : ℕ)
                    → is_free s2.frames x ≡ (if x == n then false else is_free f.mem.frames x) =
                  λ x. ap (λ (y : Frames). is_free y x) u.frames ∙ c.free x in
                let got = ap (λ r. r.0) unmapped ∙ ap (some) new in
                let left = ap (λ r. r.1) unmapped in
                let g : ForkMem = record {
                  mem = with_space f.mem s2;
                  child_pt = create_pte f.child_pt k (n + l.base) prot;
                  contents =
                      write_frame f.contents (n + l.base)
                        (f.contents (entry f.mem.ctx.region1_pt k).pfn);
                } in
                inr (
                  g,
                  rw (copy_page, run, got, left, source),
                  record {
                    mapped = u.mapped;
                    apart = record {
                      above = λ i h. ground (arith, now i, v.apart.above i, h);
                      inside = λ i h.
                          ground (arith, now i, v.apart.inside i, h, n_in, num, c.num_frames);
                      used = λ i h. ground (
                        arith,
                        now i,
                        v.apart.used i,
                        h,
                        free2 ((entry g.child_pt i).pfn - l.base),
                      );
                      own = λ i j hi hj e. ground (
                        arith,
                        now i,
                        now j,
                        v.apart.own i j,
                        v.apart.used i,
                        v.apart.used j,
                        free,
                        hi,
                        hj,
                        e,
                      );
                      disjoint = λ i j hi hj e. ground (
                        arith,
                        u.entries i,
                        c.entries i,
                        now j,
                        v.apart.disjoint i j,
                        v.mapped.used i,
                        free,
                        hi,
                        hj,
                        e,
                      );
                    };
                    low = v.low;
                    inside = omega (arith, u.size, c.size, v.inside);
                    unused = ground (arith, u.entries (brk - l.first));
                    size = length-set f.child_pt k new_pte ∙ v.size ∙ sym c.size ∙ sym u.size;
                  },
                  record {
                    valid = λ j h. ground (arith, now j, h);
                    protected = λ j h. ground (arith, now j, h);
                    bytes = λ j h.
                        let at : j ≡ k = ground (arith, h) in
                        let self : (k == k) ≡ true = ground arith in
                        let here : entry g.child_pt k ≡ new_pte = now k ∙ rw self in
                        let same : (n + l.base == n + l.base) ≡ true = ground arith in
                        rw (at, here, same);
                    fresh = λ j h. ground (arith, now j, h, free);
                    others = λ j h. ground (arith, now j, h);
                    parent = λ j. ground (arith, u.entries j, c.entries j, v.unused);
                    entries = λ j h. ground (arith, u.entries j, c.entries j, v.unused, h);
                    size = u.size ∙ c.size;
                    num_frames = num ∙ c.num_frames;
                    kept = λ j h. ground (arith, free, h);
                    free = λ x. ground (
                      arith,
                      free2 x,
                      owns-suc g.child_pt k 0 (x + l.base),
                      owns-zero g.child_pt (k + 1) (x + l.base),
                      now k,
                    );
                  },
                )
          ]
