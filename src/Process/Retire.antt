-- ===== src/Process/Retire.antt =====
-- retire_pcb: which PCBs an exit frees, and which children it leaves without a parent.
use mathlib.Core.Path.{fun_ext}
use mathlib.Core.List.{append-nil}
use cs58final_project.Prelude.{
  ap, ◌∙◌, sym, ℕ, ◌+◌, ◌≡◌, ◌≢◌, refl, Bool, true, false, not, ◌&&◌, arith, List, [], ◌∷◌, ◌++◌,
  ◌==◌, if◌then◌else◌, Bool-cases, inl, inr,
}
use cs58final_project.Prelude.Arrays.{
  count, count-append, count-cons, count-nil, elem, elem-nil, elem-cons, elem-count, select,
  select-nil, select-cons, count-select,
}
use cs58final_project.Process.{Store, exited, update, is_exited, release_children, retire_pcb}

abbrev pub has_exited : Store → ℕ → Bool
has_exited procs c = is_exited (procs c).state

-- the PCB of `q` once the children of a retired process are released
abbrev pub orphaned : Store → List ℕ → Store
orphaned procs cs q =
    if elem q cs && not (has_exited procs q)
    then record (procs q) { has_parent = false }
    else procs q

abbrev orphan_one : Store → ℕ → Store
orphan_one procs c = update procs c (record (procs c) { has_parent = false })

has_exited-orphan_one : (procs : Store) (c : ℕ) → has_exited (orphan_one procs c) ≡ has_exited procs
has_exited-orphan_one procs c = fun_ext λ q. ground arith

release_children-nil : (procs : Store) → release_children procs [] ≡ (procs, [])
unfolding release_children
release_children-nil procs = refl

module _ (procs : Store) (c : ℕ) (cs : List ℕ) where
  release_children-gone :
      has_exited procs c ≡ true
      → release_children procs (c ∷ cs)
        ≡ ((release_children procs cs).0, c ∷ (release_children procs cs).1)
  unfolding release_children
  release_children-gone gone = rw gone

  release_children-stays :
      has_exited procs c ≡ false
      → release_children procs (c ∷ cs) ≡ release_children (orphan_one procs c) cs
  unfolding release_children
  release_children-stays stays = rw stays

  orphaned-gone :
      has_exited procs c ≡ true → (q : ℕ) → orphaned procs cs q ≡ orphaned procs (c ∷ cs) q
  orphaned-gone gone q = ground (arith, elem-cons q c cs)

  orphaned-stays :
      has_exited procs c ≡ false
      → (q : ℕ) → orphaned (orphan_one procs c) cs q ≡ orphaned procs (c ∷ cs) q
  orphaned-stays stays q = ground (arith, elem-cons q c cs)

-- The children that have exited are freed.
release_children-freed :
    (procs : Store) (cs : List ℕ) → (release_children procs cs).1 ≡ select (has_exited procs) cs
release_children-freed procs [] = rw (release_children-nil, select-nil)
release_children-freed procs (c ∷ cs) = elim (Bool-cases (has_exited procs c)) [
  | inl gone ↦
      rw (release_children-gone procs c cs gone, select-cons, gone)
        (ap (◌∷◌ c) (release_children-freed procs cs))
  | inr stays ↦
      rw (release_children-stays procs c cs stays, select-cons, stays)
        (rw (has_exited-orphan_one procs c) at (release_children-freed (orphan_one procs c) cs))
]

-- The other children lose their parent.
release_children-store :
    (procs : Store) (cs : List ℕ) (q : ℕ) → (release_children procs cs).0 q ≡ orphaned procs cs q
release_children-store procs [] q = rw (release_children-nil, elem-nil)
release_children-store procs (c ∷ cs) q = elim (Bool-cases (has_exited procs c)) [
  | inl gone ↦
      rw (release_children-gone procs c cs gone)
        (release_children-store procs cs q ∙ orphaned-gone procs c cs gone q)
  | inr stays ↦
      rw (release_children-stays procs c cs stays)
        (release_children-store (orphan_one procs c) cs q ∙ orphaned-stays procs c cs stays q)
]

module _ (procs : Store) (p : ℕ) (apart : elem p (procs p).children ≡ false) where
  -- For a process that is not its own child, `retire_pcb` frees the children that have exited, in
  -- order, and then the process itself if it has no parent; the other children lose their parent,
  -- and no other PCB changes.
  pub retire_pcb_lem :
      ((retire_pcb procs p).1
        ≡ select (has_exited procs) (procs p).children
          ++ (if (procs p).has_parent then [] else p ∷ []))
      × ((q : ℕ) → (retire_pcb procs p).0 q ≡ orphaned procs (procs p).children q)
  unfolding retire_pcb
  retire_pcb_lem = (
    rw (release_children-freed procs (procs p).children) (
        ground (
          arith,
          release_children-store procs (procs p).children p,
          append-nil (select (has_exited procs) (procs p).children),
        )),
    release_children-store procs (procs p).children,
  )

  -- how often each address is freed by the retirement
  count-freed :
      (x : ℕ)
      → count x (retire_pcb procs p).1
        ≡ (if has_exited procs x then count x (procs p).children else 0)
          + (if (procs p).has_parent then 0 else if x == p then 1 else 0)
  count-freed x =
      let own : List ℕ = if (procs p).has_parent then [] else p ∷ [] in
      rw (retire_pcb_lem.0, count-append, count-select)
        (ground (arith, count-cons x p [], count-nil x))

-- `KernelExit` marks the process as exited and then retires it.
abbrev pub marked : Store → ℕ → Store
marked procs p = update procs p (record (procs p) { state = exited })

abbrev pub exit_pcb : Store → ℕ → Store × List ℕ
exit_pcb procs p = retire_pcb (marked procs p) p

module _ (procs : Store) (p : ℕ) (apart : elem p (procs p).children ≡ false) where
  marked_self : marked procs p p ≡ record (procs p) { state = exited }
  marked_self = ground arith

  marked-other : (q : ℕ) → q ≢ p → marked procs p q ≡ procs q
  marked-other q ne = ground arith

  apart-marked : elem p (marked procs p p).children ≡ false
  apart-marked = rw marked_self apart

  -- Another PCB is freed by the exit of `p` as often as it is among its children, if it has exited.
  count-exit_pcb :
      (x : ℕ)
      → x ≢ p
      → count x (exit_pcb procs p).1
        ≡ (if has_exited procs x then count x (procs p).children else 0)
  count-exit_pcb x ne = ground (arith, count-freed (marked procs p) p apart-marked x)

  -- The exiting PCB itself is freed by its own exit only if it has no parent.
  count-exit_pcb_self : count p (exit_pcb procs p).1 ≡ (if (procs p).has_parent then 0 else 1)
  count-exit_pcb_self =
      ground (arith, count-freed (marked procs p) p apart-marked p, elem-count p (procs p).children)

  -- A PCB that is no child keeps its place in the store; the exiting one is marked.
  exit_pcb-other :
      (q : ℕ) → q ≢ p → elem q (procs p).children ≡ false → (exit_pcb procs p).0 q ≡ procs q
  exit_pcb-other q ne no_child =
      ground (arith, (retire_pcb_lem (marked procs p) p apart-marked).1 q)

  exit_pcb_self : (exit_pcb procs p).0 p ≡ record (procs p) { state = exited }
  exit_pcb_self = ground (arith, (retire_pcb_lem (marked procs p) p apart-marked).1 p)

  exit_pcb-child :
      (q : ℕ)
      → q ≢ p
      → elem q (procs p).children ≡ true
      → has_exited procs q ≡ false
      → (exit_pcb procs p).0 q ≡ record (procs q) { has_parent = false }
  exit_pcb-child q ne is_child runs =
      ground (arith, (retire_pcb_lem (marked procs p) p apart-marked).1 q)

module _ (procs : Store) (p c : ℕ) (ne : c ≢ p) (child : count c (procs p).children ≡ 1)
    (has : (procs c).has_parent ≡ true) (runs : has_exited procs c ≡ false)
    (p_apart : elem p (procs p).children ≡ false) (c_apart : elem c (procs c).children ≡ false)
    (not_above : elem p (procs c).children ≡ false) where
  -- For a running child and its parent: if the child exits first, its PCB is not freed until the
  -- parent exits, and then once.
  child_first :
      (count c (exit_pcb procs c).1 ≡ 0) × (count c (exit_pcb (exit_pcb procs c).0 p).1 ≡ 1)
  child_first =
      let after = (exit_pcb procs c).0 in
      let kept : after p ≡ procs p = exit_pcb-other procs c c_apart p (λ e. ne (sym e)) not_above in
      let apart' : elem p (after p).children ≡ false = rw kept p_apart in
      (
        ground (arith, count-exit_pcb_self procs c c_apart),
        ground (arith, count-exit_pcb after p apart' c ne, exit_pcb_self procs c c_apart, kept),
      )

  -- If the parent exits first, the child's PCB is not freed until the child exits, and then once.
  parent_first :
      (count c (exit_pcb procs p).1 ≡ 0) × (count c (exit_pcb (exit_pcb procs p).0 c).1 ≡ 1)
  parent_first =
      let after = (exit_pcb procs p).0 in
      let orphan : after c ≡ record (procs c) { has_parent = false } =
        exit_pcb-child procs p p_apart c ne (ground (arith, elem-count c (procs p).children))
          runs in
      let apart' : elem c (after c).children ≡ false = rw orphan c_apart in
      (
        ground (arith, count-exit_pcb procs p p_apart c ne),
        ground (arith, count-exit_pcb_self after c apart', orphan),
      )

  -- Of a process and its running child, which is among its children once, has a parent, and of
  -- which neither is its own child nor the parent the child's: in whichever order the two exit, the
  -- two exits free the child's PCB exactly once.
  pub exit_pcb-freed_once :
      (count c ((exit_pcb procs c).1 ++ (exit_pcb (exit_pcb procs c).0 p).1) ≡ 1)
      × (count c ((exit_pcb procs p).1 ++ (exit_pcb (exit_pcb procs p).0 c).1) ≡ 1)
  exit_pcb-freed_once =
      (rw count-append (omega (arith, child_first)), rw count-append (omega (arith, parent_first)))
