-- ===== src/Kernel/Isolation/NewStack.antt =====
-- Isolation after KCCopy: the kernel stack of a new process.
use cs58final_project.Prelude.{
  ℕ, ◌+◌, ◌-◌, ◌≤◌, ◌<◌, ◌≡◌, ◌≢◌, refl, sym, ap, ◌∙◌, true, false, arith, List, inl, inr, ltb,
  ◌==◌, if◌then◌else◌, length, length-replicate, replicate, Bool-cases,
}
use cs58final_project.Frames.{Frames}
use cs58final_project.Pages.{Pte, zero_pte, entry, Space, read_write}
use cs58final_project.Pages.Laws.{entry-outside}
use cs58final_project.Pages.Range.{within}
use cs58final_project.Pages.Fill.{Filled, Restored}
use cs58final_project.Pages.Moves.{Moves, Moves-Filled, Moves-Restored}
use cs58final_project.Pages.Owners.{Owned, Owned-Moves, Owned-moved, Owned-given}
use cs58final_project.UserMemory.{MemCtx}
use cs58final_project.KernelMemory.Copy.{Taken}
use cs58final_project.Kernel.State.{Machine, at, kernel_numbers}
use cs58final_project.Kernel.Lifecycle.{no_stack}
use cs58final_project.Kernel.Isolation.{
  Owner, user, stack, kernel, Owner-discrete, tables_of, stack_page, stack_pages, Isolated,
}
use cs58final_project.Kernel.Isolation.Exit.{entry-replicate}

module _ (mc : Machine) (frames : Frames) (contexts : ℕ → MemCtx) (stacks : ℕ → List Pte)
    (region0 : List Pte) (p q : ℕ) (ne : p ≢ q)
    (w : Isolated mc frames contexts stacks region0 p) where
  abbrev base : ℕ
  base = mc.layout.base

  abbrev old : Space
  old = record { frames = frames; pt = region0 }

  only_kernel :
      (s : Space) (o : Owner)
      → o ≢ kernel
      → tables_of contexts stacks s.pt p o ≡ tables_of contexts stacks region0 p o
  only_kernel s (user x) h = refl
  only_kernel s (stack x) h = refl
  only_kernel s kernel h = absurd (h refl)

  -- the kernel's own pages have changed
  kernel-Moves :
      (s : Space) → Moves base old s → Owned base s.frames (tables_of contexts stacks s.pt p)
  kernel-Moves s a =
      Owned-Moves base frames (tables_of contexts stacks region0 p)
        (tables_of contexts stacks s.pt p) w.owned kernel s a (λ j h. refl) Owner-discrete
        (only_kernel s)

  sizes_with :
      (st : List Pte)
      → length st ≡ stack_pages mc
      → (x : ℕ) → length (at stacks q st x) ≡ stack_pages mc
  sizes_with st size x = elim (Bool-cases (x == q)) [
    | inl is_q ↦ rw is_q size
    | inr other ↦ rw other (w.sizes x)
  ]

  kept : (st : List Pte) → at stacks q st p ≡ stacks p
  kept st = let other : (p == q) ≡ false = ground arith in rw other

  -- No stack could be made.
  module _ (s : Space) (r : Restored base old s) where
    none_come :
        (o : Owner) (j : ℕ)
        → (entry (tables_of contexts (at stacks q (no_stack mc)) s.pt p o) j).valid ≡ true
        → (entry (tables_of contexts stacks s.pt p o) j
            ≡ entry (tables_of contexts (at stacks q (no_stack mc)) s.pt p o) j)
          × (o ≡ o)
          × (j ≡ j)
    none_come (user x) j h = (refl, refl, refl)
    none_come kernel j h = (refl, refl, refl)
    none_come (stack x) j h = elim (Bool-cases (x == q)) [
      | inr other ↦ rw other (refl, refl, refl)
      | inl is_q ↦
          let not_p : (x == p) ≡ false = ground (arith, ne) in
          let h' : (entry (replicate (stack_pages mc) zero_pte) j).valid ≡ true =
            rw (not_p, is_q) at h in
          absurd (ground (arith, h', entry-replicate (stack_pages mc) j))
    ]

    pub Isolated-no_stack : Isolated mc s.frames contexts (at stacks q (no_stack mc)) s.pt p
    Isolated-no_stack = record {
      owned =
          Owned-moved base s.frames (tables_of contexts stacks s.pt p)
            (tables_of contexts (at stacks q (no_stack mc)) s.pt p) (λ o j. (o, j)) (λ o j. (o, j))
            (kernel-Moves s (Moves-Restored base old s r)) none_come;
      mapped_stack = λ i lt.
          let j : ℕ = stack_page mc + i in
          let (up, down) = w.mapped_stack i lt in
          rw (kept (no_stack mc)) (
            λ h. let was = sym (r.valid j) ∙ h in r.entries j was ∙ up was,
            λ h. let was = ap (λ (x : Pte). x.valid) (down h) ∙ h in r.entries j was ∙ down h,
          );
      sizes = sizes_with (no_stack mc) (length-replicate (stack_pages mc) zero_pte);
      room = omega (arith, w.room, r.size);
    }

  -- The frames of the new stack were mapped from page `brk` on, and are unmapped again.
  module _ (brk : ℕ) (s1 s2 : Space) (st : List Pte)
      (f : Filled base read_write old s1 brk (stack_pages mc))
      (t : Taken (kernel_numbers mc) brk (stack_pages mc) s1 s2 st)
      (below : brk + stack_pages mc ≤ stack_page mc) where
    abbrev from : Owner → ℕ → Owner × ℕ
    from (user x) j = (user x, j)
    from kernel j = (kernel, j)
    from (stack x) j = if x == q then (kernel, brk + j) else (stack x, j)

    abbrev back : Owner → ℕ → Owner × ℕ
    back (user x) j = (user x, j)
    back (stack x) j = (stack x, j)
    back kernel j = if within brk (stack_pages mc) j then (stack q, j - brk) else (kernel, j)

    come :
        (o : Owner) (j : ℕ)
        → (entry (tables_of contexts (at stacks q st) s2.pt p o) j).valid ≡ true
        → (((entry (tables_of contexts stacks s1.pt p (from o j).0) (from o j).1).valid ≡ true)
            × ((entry (tables_of contexts stacks s1.pt p (from o j).0) (from o j).1).pfn
                ≡ (entry (tables_of contexts (at stacks q st) s2.pt p o) j).pfn))
          × ((back (from o j).0 (from o j).1).0 ≡ o)
          × ((back (from o j).0 (from o j).1).1 ≡ j)
    come (user x) j h = ((h, refl), refl, refl)
    come kernel j h = elim (Bool-cases (within brk (stack_pages mc) j)) [
      | inl inside ↦ absurd (ground (arith, t.unmapped j inside, h))
      | inr outside ↦
          let same = t.others j outside in
          rw outside (
            (ap (λ (x : Pte). x.valid) (sym same) ∙ h, ap (λ (x : Pte). x.pfn) (sym same)),
            refl,
            refl,
          )
    ]
    come (stack x) j h = elim (Bool-cases (x == q)) [
      | inr other ↦ rw (other, tables_of) ((rw other at h, refl), refl, refl)
      | inl is_q ↦
          let not_p : (x == p) ≡ false = ground (arith, ne) in
          let h' : (entry st j).valid ≡ true = rw (not_p, is_q) at h in
          let lt : j < stack_pages mc = elim (Bool-cases (ltb j (length st))) [
            | inl inside ↦ ground (arith, t.number)
            | inr out ↦ absurd (ground (arith, entry-outside st j, h'))
          ] in
          let there : within brk (stack_pages mc) (brk + j) ≡ true = ground arith in
          let e : q ≡ x = ground arith in
          let pfn : (entry s1.pt (brk + j)).pfn ≡ (entry st j).pfn =
            ap (λ (y : Pte). y.pfn) (sym (t.stack j lt)) in
          rw (is_q, not_p, there) ((f.valid (brk + j) there, pfn), ap stack e, omega arith)
    ]

    above_gap : (i : ℕ) → entry s2.pt (stack_page mc + i) ≡ entry region0 (stack_page mc + i)
    above_gap i =
        let out : within brk (stack_pages mc) (stack_page mc + i) ≡ false = ground (arith, below) in
        t.others (stack_page mc + i) out ∙ f.others (stack_page mc + i) out

    pub Isolated-stack : Isolated mc s2.frames contexts (at stacks q st) s2.pt p
    Isolated-stack = record {
      owned = rw t.frames (
          Owned-given base s1.frames (tables_of contexts stacks s1.pt p)
            (tables_of contexts (at stacks q st) s2.pt p) from back
            (kernel-Moves s1 (Moves-Filled base read_write old s1 brk (stack_pages mc) f)) come);
      mapped_stack = λ i lt. rw (above_gap i, kept st) (w.mapped_stack i lt);
      sizes = sizes_with st t.number;
      room = omega (arith, w.room, t.size, f.size);
    }
