-- ===== src/Kernel/Isolation.antt =====
-- Memory isolation: what it says of the kernel's state, and how the changes of the state that the calls are made of keep it.
pub mod Exit
pub mod Fork
pub mod Copy
pub mod Spawn
pub mod NewStack
pub mod Safe
pub mod Calls
pub mod Birth
pub mod Boot
pub mod Traps
pub mod Reach
use mathlib.Core.Path.{subst}
use cs58final_project.Prelude.{
  ℕ, ℕ_discrete, ltb, zero, suc, ◌+◌, ◌-◌, ◌≤◌, ◌<◌, ◌≡◌, ◌≢◌, refl, sym, ap, ◌∙◌, Bool, true,
  false, arith, List, [], ◌∷◌, inl, inr, ◌==◌, if◌then◌else◌, length, set, length-set, Bool-cases,
}
use cs58final_project.Prelude.Arrays.{get_or-set}
use cs58final_project.Frames.{Frames}
use cs58final_project.Pages.{Pte, zero_pte, entry, Space}
use cs58final_project.Pages.Laws.{Mapped, entry-outside}
use cs58final_project.Pages.Range.{within}
use cs58final_project.Pages.Moves.{Moves}
use cs58final_project.Pages.Owners.{Owned, Owned-Moves, Owned-moved}
use cs58final_project.UserMemory.{MemCtx, UserMem, space_of}
use cs58final_project.KernelMemory.{install, kc_switch}
use cs58final_project.KernelMemory.Stack.{length-install, entry-install}
use cs58final_project.Sched.{Sched}
use cs58final_project.Kernel.State.{
  Kern, Machine, at, running, user_mem, with_user_mem, resched, kernel_numbers,
}

-- What has pages: region 1 of a process, its kernel stack, and region 0.
pub data Owner : Type 0 where
  user : ℕ → Owner
  stack : ℕ → Owner
  kernel : Owner

pub Owner-discrete : Discrete Owner
Owner-discrete = hlevel (ℕ_discrete)

-- The kernel stack of the running process is mapped in region 0.
abbrev pub tables_of : (ℕ → MemCtx) → (ℕ → List Pte) → List Pte → ℕ → Owner → List Pte
tables_of contexts stacks region0 r (user p) = (contexts p).region1_pt
tables_of contexts stacks region0 r (stack p) = if p == r then [] else stacks p
tables_of contexts stacks region0 r kernel = region0

-- the same page, but for entries that are not valid
abbrev pub SamePage : Pte → Pte → Type 0
SamePage e e' = (e.valid ≡ true → e ≡ e') × (e'.valid ≡ true → e ≡ e')

module _ (mc : Machine) where
  abbrev pub stack_page : ℕ
  stack_page = mc.kernel_layout.stack_page

  abbrev pub stack_pages : ℕ
  stack_pages = mc.kernel_layout.stack_pages

  -- No frame is reached from two pages of processes, kernel stacks and kernel, and the mapped kernel
  -- stack is that of the running process.
  pub record Isolated (frames : Frames) (contexts : ℕ → MemCtx) (stacks : ℕ → List Pte)
      (region0 : List Pte) (r : ℕ) : Type 0 where
    pub owned : Owned mc.layout.base frames (tables_of contexts stacks region0 r)
    pub mapped_stack :
        (i : ℕ) → i < stack_pages → SamePage (entry region0 (stack_page + i)) (entry (stacks r) i)
    pub sizes : (p : ℕ) → length (stacks p) ≡ stack_pages
    pub room : stack_page + stack_pages ≤ length region0

  abbrev pub IsIsolated : Kern → Type 0
  IsIsolated k = Isolated k.frames k.contexts k.stacks k.region0_pt (running k)

module _ (mc : Machine) where
  -- the places where pages come from at a switch from `p` to `r`, and where they go
  abbrev from : ℕ → ℕ → Owner → ℕ → Owner × ℕ
  from p r (user x) j = (user x, j)
  from p r (stack x) j = if x == p then (kernel, stack_page mc + j) else (stack x, j)
  from p r kernel j =
      if within (stack_page mc) (stack_pages mc) j
      then (stack r, j - stack_page mc)
      else (kernel, j)

  module _ (frames : Frames) (contexts : ℕ → MemCtx) (stacks : ℕ → List Pte) (region0 : List Pte)
      (p r : ℕ) (w : Isolated mc frames contexts stacks region0 p) (ne : r ≢ p) where
    abbrev region0' : List Pte
    region0' = install (kernel_numbers mc) (stacks r) (stack_page mc) region0

    come :
        (o : Owner) (j : ℕ)
        → (entry (tables_of contexts stacks region0' r o) j).valid ≡ true
        → (entry (tables_of contexts stacks region0 p (from p r o j).0) (from p r o j).1
            ≡ entry (tables_of contexts stacks region0' r o) j)
          × ((from r p (from p r o j).0 (from p r o j).1).0 ≡ o)
          × ((from r p (from p r o j).0 (from p r o j).1).1 ≡ j)
    come (user x) j h = (refl, refl, refl)
    come (stack x) j h =
        let n = stack_pages mc in
        let not_r : (x == r) ≡ false = elim (Bool-cases (x == r)) [
          | inl is_r ↦ absurd (ground (arith, h, is_r))
          | inr not_r ↦ not_r
        ] in
        let held : (entry (stacks x) j).valid ≡ true = rw not_r at h in
        elim (Bool-cases (x == p)) [
          | inl here ↦
              let e : p ≡ x = ground arith in
              let inside : j < n = elim (Bool-cases (ltb j n)) [
                | inl yes_in ↦ ground arith
                | inr out ↦
                    absurd
                      (ground (arith, entry-outside (stacks x) j (ground (arith, w.sizes x)), held))
              ] in
              let there : within (stack_page mc) n (stack_page mc + j) ≡ true = ground arith in
              rw (here, not_r, there)
                (
                  (w.mapped_stack j inside).1 (ap (λ (y : ℕ). (entry (stacks y) j).valid) e ∙ held)
                      ∙ ap (λ (y : ℕ). entry (stacks y) j) e,
                  ap stack e,
                  omega arith,
                )
          | inr other ↦ rw (other, not_r) (rw other, refl, refl)
        ]
    come kernel j h =
        let fits : stack_page mc + length (stacks r) ≤ length region0 =
          omega (arith, w.sizes r, w.room) in
        let now = entry-install (kernel_numbers mc) (stacks r) (stack_page mc) region0 fits j in
        let size = w.sizes r in
        elim (Bool-cases (within (stack_page mc) (stack_pages mc) j)) [
          | inl inside ↦
              let inside' : within (stack_page mc) (length (stacks r)) j ≡ true =
                ground (arith, size) in
              let not_p : (r == p) ≡ false = ground arith in
              let same : (r == r) ≡ true = ground arith in
              rw (inside, not_p, same) (sym (rw inside' at now), refl, ground arith)
          | inr outside ↦
              let outside' : within (stack_page mc) (length (stacks r)) j ≡ false =
                ground (arith, size) in
              rw outside (sym (rw outside' at now), rw outside, rw outside)
        ]

    -- A switch keeps isolation.
    pub Isolated-switch : Isolated mc frames contexts stacks region0' r
    Isolated-switch = record {
      owned =
          Owned-moved mc.layout.base frames (tables_of contexts stacks region0 p)
            (tables_of contexts stacks region0' r) (from p r) (from r p) w.owned come;
      mapped_stack = λ i lt.
          let fits : stack_page mc + length (stacks r) ≤ length region0 =
            omega (arith, w.sizes r, w.room) in
          let now =
            entry-install (kernel_numbers mc) (stacks r) (stack_page mc) region0 fits
              (stack_page mc + i) in
          let inside : within (stack_page mc) (length (stacks r)) (stack_page mc + i) ≡ true =
            ground (arith, w.sizes r) in
          let at : stack_page mc + i - stack_page mc ≡ i = omega arith in
          let same : entry region0' (stack_page mc + i) ≡ entry (stacks r) i =
            rw (inside, at) at now in
          (λ h. same, λ h. same);
      sizes = w.sizes;
      room = rw (length-install (kernel_numbers mc) (stacks r) (stack_page mc) region0) w.room;
    }

  -- the same for the running process, under whatever name
  pub Isolated-resched : (k : Kern) (s : Sched) → IsIsolated mc k → IsIsolated mc (resched mc k s)
  unfolding resched kc_switch
  Isolated-resched k s w = elim (Bool-cases (s.running_proc == running k)) [
    | inl same ↦
        let e : running k ≡ s.running_proc = ground arith in
        rw same (subst (λ (r : ℕ). Isolated mc k.frames k.contexts k.stacks k.region0_pt r) e w)
    | inr other ↦ rw other (
        Isolated-switch k.frames k.contexts k.stacks k.region0_pt (running k) s.running_proc w
          (ground arith))
  ]

  -- The memory of the running process changes.
  module _ (k : Kern) (m : UserMem) (w : IsIsolated mc k)
      (a : Moves mc.layout.base (space_of (user_mem k)) (space_of m)) where
    abbrev p : ℕ
    p = running k

    new_ctx : at k.contexts p m.ctx p ≡ m.ctx
    new_ctx = let here : (p == p) ≡ true = ground arith in rw here

    other_tables :
        (o : Owner)
        → o ≢ user p
        → tables_of (at k.contexts p m.ctx) k.stacks k.region0_pt p o
          ≡ tables_of k.contexts k.stacks k.region0_pt p o
    other_tables (user x) ne =
        let other : (x == p) ≡ false = elim (Bool-cases (x == p)) [
          | inl same ↦ let e : x ≡ p = ground arith in absurd (ne (ap user e))
          | inr other ↦ other
        ] in
        rw (tables_of, other)
    other_tables (stack x) ne = refl
    other_tables kernel ne = refl

    pub Isolated-user : IsIsolated mc (with_user_mem k m)
    Isolated-user = record {
      owned =
          Owned-Moves mc.layout.base k.frames (tables_of k.contexts k.stacks k.region0_pt p)
            (tables_of (at k.contexts p m.ctx) k.stacks k.region0_pt p) w.owned (user p)
            (space_of m) a (λ j h. ap (λ (c : MemCtx). entry c.region1_pt j) new_ctx) Owner-discrete
            other_tables;
      mapped_stack = w.mapped_stack;
      sizes = w.sizes;
      room = w.room;
    }
