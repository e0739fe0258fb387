-- ===== src/Kernel/Isolation/Boot.antt =====
-- The invariant of the kernel's memory holds after the initialisers that KernelStart of yalnix_framework/src/kernel_start.c calls:
-- init_region0_pt, init_region1_pt and enable_vm, and KCCopy for the kernel stack of the first process.
use cs58final_project.Prelude.{
  ℕ, ◌+◌, ◌≤◌, ◌<◌, ◌≡◌, ◌≢◌, refl, sym, ap, ◌∙◌, Bool, true, false, arith, some, List, inl, inr,
  ◌==◌, length, Bool-cases,
}
use cs58final_project.Prelude.Run.{ok, Ensures}
use cs58final_project.Frames.Inv.{is_free}
use cs58final_project.Frames.Tracked.{Tracked}
use cs58final_project.Pages.{Pte, entry, Space}
use cs58final_project.Pages.Range.{within}
use cs58final_project.Pages.Owners.{Owned-alone}
use cs58final_project.UserMemory.{UserMem, init_region1_pt}
use cs58final_project.UserMemory.Moves.{init_region1_pt-Moves}
use cs58final_project.KernelMemory.{KernelMem, enable_vm, init_region0_pt}
use cs58final_project.KernelMemory.Boot.{
  IsLaidOut, IsBooted, heap_pages, text_pages, init_region0_pt_lem,
}
use cs58final_project.Kernel.State.{
  Kern, Machine, at, running, user_mem, with_user_mem, kernel_mem, with_kernel_mem, kernel_numbers,
}
use cs58final_project.Kernel.Lifecycle.{fork_stack}
use cs58final_project.Kernel.Isolation.{
  Owner, user, stack, kernel, Owner-discrete, tables_of, stack_page, stack_pages, Isolated,
}
use cs58final_project.Kernel.Isolation.Safe.{IsSafe, Safe-user, own_pages}
use cs58final_project.Kernel.Isolation.Birth.{Sound, fork_stack-IsSafe}

module _ (mc : Machine) where
  -- No process has pages yet, and every PCB has room for a kernel stack.
  pub record IsBlank (k : Kern) : Type 0 where
    pub pages : (p j : ℕ) → (entry (k.contexts p).region1_pt j).valid ≡ false
    pub stacks : (p j : ℕ) → (entry (k.stacks p) j).valid ≡ false
    pub sizes : (p : ℕ) → length (k.stacks p) ≡ stack_pages mc

  -- The idle process `running k` has the kernel stack on which the kernel starts.
  abbrev pub with_region0 : Kern → KernelMem → List Pte → Kern
  with_region0 k m st = record (with_kernel_mem k m) { stacks = at k.stacks (running k) st }

  -- the virtual memory is switched on
  abbrev pub enabled : Kern → Kern
  enabled k = with_kernel_mem k (enable_vm (kernel_mem k))

  module _ (k : Kern) (s : Space) (st : List Pte) (blank : IsBlank k)
      (h : IsLaidOut (kernel_numbers mc) (kernel_mem k))
      (b : IsBooted (kernel_numbers mc) (kernel_mem k) s st) where
    only_kernel :
        (o : Owner) (j : ℕ)
        → o ≢ kernel
        → (entry (tables_of k.contexts (at k.stacks (running k) st) s.pt (running k) o) j).valid
          ≡ false
    only_kernel (user p) j ne = blank.pages p j
    only_kernel (stack p) j ne = elim (Bool-cases (p == running k)) [
      | inl idle ↦ rw (tables_of, idle) refl
      | inr other ↦ rw (tables_of, other) (blank.stacks p j)
    ]
    only_kernel kernel j ne = absurd (ne refl)

    booted-Isolated : Isolated mc s.frames k.contexts (at k.stacks (running k) st) s.pt (running k)
    booted-Isolated = record {
      owned =
          Owned-alone mc.layout.base s.frames
            (tables_of k.contexts (at k.stacks (running k) st) s.pt (running k)) kernel
            Owner-discrete b.mapped only_kernel;
      mapped_stack = λ i lt.
          let own : (running k == running k) ≡ true = ground arith in
          let inside : within (stack_page mc) (stack_pages mc) (stack_page mc + i) ≡ true =
            ground arith in
          let same : entry s.pt (stack_page mc + i) ≡ entry st i =
            rw inside at (b.entries (stack_page mc + i)) ∙ sym (b.stack i lt) in
          rw own (λ v. same, λ v. same);
      sizes = λ p. elim (Bool-cases (p == running k)) [
        | inl idle ↦ rw idle b.stack_size
        | inr other ↦ rw other (blank.sizes p)
      ];
      room = omega (arith, b.size, h.fits);
    }

    booted-gap : (j : ℕ) → k.current_brk_page ≤ j → j < stack_page mc → (entry s.pt j).valid ≡ false
    booted-gap j low high =
        let n = kernel_numbers mc in
        let no_stack : within n.stack_page n.stack_pages j ≡ false = ground (arith, high) in
        let no_heap : within n.data_page (heap_pages n (kernel_mem k)) j ≡ false =
          ground (arith, low, h.heap) in
        let no_text : within n.text_page (text_pages n) j ≡ false =
          ground (arith, low, h.heap, h.text) in
        ap (λ (e : Pte). e.valid) (rw (no_stack, no_heap, no_text) at (b.entries j))

  -- With the frames all free, a bit to spare in their bitset, the parts of the kernel in order, no page of a process mapped, and
  -- room for a kernel stack in every PCB: `init_region0_pt` succeeds and `init_region1_pt` ends, and once the virtual memory is on,
  -- the state has the invariant of the kernel's memory. It has it still after the copy of the kernel stack for another
  -- process, if that copy ends without a fault.
  pub boot-IsSafe :
      (sound : Sound mc) (k : Kern) (q : ℕ)
      → running k ≢ q
      → Tracked k.frames
      → ((n : ℕ) → is_free k.frames n ≡ true)
      → IsLaidOut (kernel_numbers mc) (kernel_mem k)
      → IsBlank k
      → (st : List Pte) × (m : KernelMem) × (b : Bool) × (u : UserMem) × (init_region0_pt
            (kernel_numbers mc)
            (kernel_mem k)
          ≡ ok (some st, m))
        × (init_region1_pt mc.layout (user_mem (with_region0 k m st)) ≡ ok (b, u))
        × IsSafe mc (enabled (with_user_mem (with_region0 k m st) u))
        × Ensures (IsSafe mc) (fork_stack mc q (enabled (with_user_mem (with_region0 k m st) u)))
  unfolding enable_vm
  boot-IsSafe sound k q ne t all h blank =
      let (s, st, run0, booted) = init_region0_pt_lem (kernel_numbers mc) (kernel_mem k) t all h in
      let m : KernelMem = record (kernel_mem k) { space = s } in
      let k1 : Kern = enabled (with_region0 k m st) in
      let w1 : IsSafe mc k1 = record {
        isolated = booted-Isolated k s st blank h booted;
        enabled = refl;
        gap = booted-gap k s st blank h booted;
      } in
      let (b, u, run1, a) = init_region1_pt-Moves mc.layout (user_mem k1) (own_pages mc k1 w1) in
      let w2 : IsSafe mc (enabled (with_user_mem (with_region0 k m st) u)) =
        Safe-user mc k1 u w1 a in
      (
        st,
        m,
        b,
        u,
        run0,
        run1,
        w2,
        fork_stack-IsSafe mc sound q (enabled (with_user_mem (with_region0 k m st) u)) ne w2,
      )
