-- ===== src/Kernel/Isolation/Exit.antt =====
-- Isolation after an exit: the pages of the process and of its kernel stack are gone, and the kernel stack of the next process
-- is mapped.
use cs58final_project.Prelude.{
  ℕ, zero, suc, ◌+◌, ◌-◌, ◌≡◌, ◌≢◌, refl, sym, ap, ◌∙◌, true, false, arith, List, [], inl, inr,
  ◌==◌, if◌then◌else◌, length, replicate, length-replicate, Bool-cases,
}
use cs58final_project.Frames.{Frames}
use cs58final_project.Pages.{Pte, zero_pte, entry, Space}
use cs58final_project.Pages.Range.{within, Undone}
use cs58final_project.Pages.Moves.{Moves-Undone}
use cs58final_project.Pages.Owners.{Owned, Owned-Moves, Owned-moved}
use cs58final_project.UserMemory.{MemCtx}
use cs58final_project.KernelMemory.{install}
use cs58final_project.KernelMemory.Stack.{length-install, entry-install}
use cs58final_project.Kernel.State.{Machine, at, kernel_numbers}
use cs58final_project.Kernel.Lifecycle.{no_stack}
use cs58final_project.Kernel.Isolation.{
  Owner, user, stack, kernel, Owner-discrete, tables_of, stack_page, stack_pages, Isolated,
}

pub entry-replicate : (n j : ℕ) → (entry (replicate n zero_pte) j).valid ≡ false
entry-replicate zero j = refl
entry-replicate (suc n) zero = refl
entry-replicate (suc n) (suc j) = entry-replicate n j

module _ (mc : Machine) (frames : Frames) (contexts : ℕ → MemCtx) (stacks : ℕ → List Pte)
    (region0 : List Pte) (p r : ℕ) (w : Isolated mc frames contexts stacks region0 p) (s : Space)
    (u : Undone mc.layout.base
      (record { frames = frames; pt = region0 })
      s
      (stack_page mc)
      (stack_pages mc)) where
  abbrev pub contexts' : ℕ → MemCtx
  contexts' = at contexts p (record (contexts p) { region1_pt = [] })

  abbrev pub stacks' : ℕ → List Pte
  stacks' = at stacks p (no_stack mc)

  abbrev pub region0' : List Pte
  region0' = install (kernel_numbers mc) (stacks' r) (stack_page mc) region0

  only_kernel :
      (o : Owner)
      → o ≢ kernel
      → tables_of contexts stacks s.pt p o ≡ tables_of contexts stacks region0 p o
  only_kernel (user x) ne = refl
  only_kernel (stack x) ne = refl
  only_kernel kernel ne = absurd (ne refl)

  freed : Owned mc.layout.base s.frames (tables_of contexts stacks s.pt p)
  freed =
      Owned-Moves mc.layout.base frames (tables_of contexts stacks region0 p)
        (tables_of contexts stacks s.pt p) w.owned kernel s
        (Moves-Undone mc.layout.base (record { frames = frames; pt = region0 }) s (stack_page mc)
          (stack_pages mc) u)
        (λ j h. refl) Owner-discrete only_kernel

  abbrev from : Owner → ℕ → Owner × ℕ
  from (user x) j = (user x, j)
  from (stack x) j = (stack x, j)
  from kernel j =
      if within (stack_page mc) (stack_pages mc) j
      then (stack r, j - stack_page mc)
      else (kernel, j)

  abbrev back : Owner → ℕ → Owner × ℕ
  back (user x) j = (user x, j)
  back (stack x) j = if x == r then (kernel, stack_page mc + j) else (stack x, j)
  back kernel j = (kernel, j)

  pub sizes' : (q : ℕ) → length (stacks' q) ≡ stack_pages mc
  sizes' q = elim (Bool-cases (q == p)) [
    | inl here ↦ rw here (length-replicate (stack_pages mc) zero_pte)
    | inr other ↦ rw other (w.sizes q)
  ]

  -- only a process that goes on has a kernel stack
  stack_of :
      (q j : ℕ) → (entry (stacks' q) j).valid ≡ true → ((q == p) ≡ false) × (stacks' q ≡ stacks q)
  stack_of q j h = elim (Bool-cases (q == p)) [
    | inl here ↦
        let h' : (entry (replicate (stack_pages mc) zero_pte) j).valid ≡ true = rw here at h in
        absurd (ground (arith, h', entry-replicate (stack_pages mc) j))
    | inr other ↦ (other, rw other)
  ]

  now :
      (j : ℕ)
      → entry region0' j ≡ (
          if within (stack_page mc) (stack_pages mc) j
          then entry (stacks' r) (j - stack_page mc)
          else entry region0 j)
  now j = rw (sizes' r) at (
      entry-install (kernel_numbers mc) (stacks' r) (stack_page mc) region0
        (omega (arith, sizes' r, w.room)) j)

  come :
      (o : Owner) (j : ℕ)
      → (entry (tables_of contexts' stacks' region0' r o) j).valid ≡ true
      → (entry (tables_of contexts stacks s.pt p (from o j).0) (from o j).1
          ≡ entry (tables_of contexts' stacks' region0' r o) j)
        × ((back (from o j).0 (from o j).1).0 ≡ o)
        × ((back (from o j).0 (from o j).1).1 ≡ j)
  come (user x) j h = elim (Bool-cases (x == p)) [
    | inl here ↦
        let h' : (entry [] j).valid ≡ true = rw (here, tables_of) at h in
        absurd (ground (arith, h'))
    | inr other ↦ (rw (tables_of, other), refl, refl)
  ]
  come (stack x) j h =
      let not_r : (x == r) ≡ false = elim (Bool-cases (x == r)) [
        | inl is_r ↦ absurd (ground (arith, h, is_r))
        | inr not_r ↦ not_r
      ] in
      let h' : (entry (stacks' x) j).valid ≡ true = rw not_r at h in
      let (other, same) = stack_of x j h' in rw (not_r, other) (refl, refl, refl)
  come kernel j h = elim (Bool-cases (within (stack_page mc) (stack_pages mc) j)) [
    | inl inside ↦
        let here = rw inside at (now j) in
        let h' : (entry (stacks' r) (j - stack_page mc)).valid ≡ true =
          ap (λ (e : Pte). e.valid) (sym here) ∙ h in
        let (other, same) = stack_of r (j - stack_page mc) h' in
        let is_r : (r == r) ≡ true = ground arith in
        let same' : entry (stacks' r) (j - stack_page mc) ≡ entry (stacks r) (j - stack_page mc) =
          ap (λ (t : List Pte). entry t (j - stack_page mc)) same in
        let e : entry (stacks r) (j - stack_page mc) ≡ entry region0' j = sym (here ∙ same') in
        rw (inside, other, is_r) (rw other at e, refl, ground arith)
    | inr outside ↦
        let here = rw outside at (now j) in rw outside (u.others j outside ∙ sym here, refl, refl)
  ]

  pub Isolated-exit : Isolated mc s.frames contexts' stacks' region0' r
  Isolated-exit = record {
    owned =
        Owned-moved mc.layout.base s.frames (tables_of contexts stacks s.pt p)
          (tables_of contexts' stacks' region0' r) from back freed come;
    mapped_stack = λ i lt.
        let inside : within (stack_page mc) (stack_pages mc) (stack_page mc + i) ≡ true =
          ground arith in
        let at : stack_page mc + i - stack_page mc ≡ i = omega arith in
        let same : entry region0' (stack_page mc + i) ≡ entry (stacks' r) i =
          rw (inside, at) at (now (stack_page mc + i)) in
        (λ h. same, λ h. same);
    sizes = sizes';
    room = rw (length-install (kernel_numbers mc) (stacks' r) (stack_page mc) region0) w.room;
  }
