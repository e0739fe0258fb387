-- ===== src/Kernel/Isolation/Spawn.antt =====
-- Isolation after KernelFork: the state before the copy, and what a copy and a new kernel stack leave.
use mathlib.Core.Path.{subst, fun_ext}
use cs58final_project.Prelude.{
  ℕ, ◌≡◌, ◌≢◌, refl, sym, ap, ◌∙◌, true, false, arith, List, [], inl, inr, ◌==◌, replicate,
  Bool-cases,
}
use cs58final_project.Frames.{Frames}
use cs58final_project.Pages.{Pte, zero_pte, entry}
use cs58final_project.Pages.Owners.{Owned, Owned-moved}
use cs58final_project.UserMemory.{MemCtx}
use cs58final_project.Kernel.State.{Machine, at}
use cs58final_project.Kernel.Isolation.{Owner, user, stack, kernel, tables_of}
use cs58final_project.Kernel.Isolation.Fork.{fork_tables}
use cs58final_project.Kernel.Isolation.Exit.{entry-replicate}

-- pages stay where they are
abbrev stays : Owner → ℕ → Owner × ℕ
stays o j = (o, j)

module _ (mc : Machine) (contexts : ℕ → MemCtx) (stacks : ℕ → List Pte) (p q : ℕ) (ne : p ≢ q) where
  -- the tables of the state that a copy leaves
  copied_contexts :
      (region0 : List Pte) (mine child : MemCtx) (o : Owner)
      → fork_tables mc contexts stacks region0 p q ne mine.region1_pt child.region1_pt o
        ≡ tables_of (at (at contexts p mine) q child) stacks region0 p o
  copied_contexts region0 mine child (user x) = elim (Bool-cases (x == q)) [
    | inl is_q ↦ rw (fork_tables, tables_of, is_q)
    | inr not_q ↦ elim (Bool-cases (x == p)) [
      | inl is_p ↦ rw (fork_tables, tables_of, not_q, is_p)
      | inr not_p ↦ rw (fork_tables, tables_of, not_q, not_p)
    ]
  ]
  copied_contexts region0 mine child (stack x) = refl
  copied_contexts region0 mine child kernel = refl

  pub Owned-copied :
      (frames : Frames) (region0 : List Pte) (mine child : MemCtx)
      → Owned mc.layout.base frames
          (fork_tables mc contexts stacks region0 p q ne mine.region1_pt child.region1_pt)
      → Owned mc.layout.base frames (tables_of (at (at contexts p mine) q child) stacks region0 p)
  Owned-copied frames region0 mine child w =
      subst (Owned mc.layout.base frames) (fun_ext (copied_contexts region0 mine child)) w

  -- `q` is nobody's address: nothing is mapped for it
  module _ (frames : Frames) (region0 : List Pte) (n : ℕ)
      (unused : (j : ℕ) → (entry (contexts q).region1_pt j).valid ≡ false) where
    pub Owned-start :
        Owned mc.layout.base frames (tables_of contexts stacks region0 p)
        → Owned mc.layout.base frames (
            fork_tables mc contexts stacks region0 p q ne
              (contexts p).region1_pt
              (replicate n zero_pte))
    Owned-start w =
        Owned-moved mc.layout.base frames (tables_of contexts stacks region0 p)
          (fork_tables mc contexts stacks region0 p q ne (contexts p).region1_pt
            (replicate n zero_pte))
          stays stays w come
      where
        come :
            (o : Owner) (j : ℕ)
            → (entry
                (fork_tables mc contexts stacks region0 p q ne
                  (contexts p).region1_pt
                  (replicate n zero_pte)
                  o)
                j).valid
              ≡ true
            → (entry (tables_of contexts stacks region0 p o) j
                ≡ entry
                    (fork_tables mc contexts stacks region0 p q ne
                      (contexts p).region1_pt
                      (replicate n zero_pte)
                      o)
                    j)
              × (o ≡ o)
              × (j ≡ j)
        come (user x) j h = elim (Bool-cases (x == q)) [
          | inl is_q ↦
              let h' : (entry (replicate n zero_pte) j).valid ≡ true =
                rw (is_q, fork_tables) at h in
              absurd (ground (arith, h', entry-replicate n j))
          | inr not_q ↦ elim (Bool-cases (x == p)) [
            | inl is_p ↦
                let e : x ≡ p = ground arith in
                rw (not_q, fork_tables, is_p)
                  (ap (λ (y : ℕ). entry (contexts y).region1_pt j) e, refl, refl)
            | inr not_p ↦ rw (not_q, fork_tables, not_p) (refl, refl, refl)
          ]
        ]
        come (stack x) j h = (refl, refl, refl)
        come kernel j h = (refl, refl, refl)

    pub Owned-failed :
        (mine : MemCtx)
        → Owned mc.layout.base frames
            (fork_tables mc contexts stacks region0 p q ne mine.region1_pt [])
        → Owned mc.layout.base frames (tables_of (at contexts p mine) stacks region0 p)
    Owned-failed mine w =
        Owned-moved mc.layout.base frames
          (fork_tables mc contexts stacks region0 p q ne mine.region1_pt [])
          (tables_of (at contexts p mine) stacks region0 p) stays stays w come
      where
        come :
            (o : Owner) (j : ℕ)
            → (entry (tables_of (at contexts p mine) stacks region0 p o) j).valid ≡ true
            → (entry (fork_tables mc contexts stacks region0 p q ne mine.region1_pt [] o) j
                ≡ entry (tables_of (at contexts p mine) stacks region0 p o) j)
              × (o ≡ o)
              × (j ≡ j)
        come (user x) j h = elim (Bool-cases (x == q)) [
          | inl is_q ↦
              let e : x ≡ q = ground arith in
              let not_p : (x == p) ≡ false = ground (arith, ne, e) in
              let h' : (entry (contexts x).region1_pt j).valid ≡ true =
                rw (not_p, tables_of) at h in
              let h2 = ap (λ (y : ℕ). (entry (contexts y).region1_pt j).valid) (sym e) ∙ h' in
              absurd (ground (arith, h2, unused j))
          | inr not_q ↦ elim (Bool-cases (x == p)) [
            | inl is_p ↦ rw (not_q, fork_tables, is_p, tables_of) (refl, refl, refl)
            | inr not_p ↦ rw (not_q, fork_tables, not_p, tables_of) (refl, refl, refl)
          ]
        ]
        come (stack x) j h = (refl, refl, refl)
        come kernel j h = (refl, refl, refl)
