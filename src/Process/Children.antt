-- ===== src/Process/Children.antt =====
-- find_exited_child and add_child_proc: the array of children and what `wait` collects from it.
use cs58final_project.Prelude.{
  ℕ, ◌+◌, ◌/◌, ◌≤◌, ◌<◌, ◌≡◌, ◌≢◌, refl, ap, Bool, true, false, not, ◌&&◌, arith, none, some, List,
  [], ◌∷◌, ◌++◌, ltb, ◌==◌, if◌then◌else◌, length, length-append, Bool-cases, inl, inr, ◌⊎◌,
}
use cs58final_project.Process.{
  Pcb, Store, update, is_exited, take_exited, without_child, find_exited_child, add_child_proc,
}

-- The array has room for the children, and is never empty.
pub record HasRoom (p : Pcb) : Type 0 where
  pub fits : length p.children ≤ p.arr_size
  pub not_empty : 0 < p.arr_size

abbrev pub NoneExited : Store → List ℕ → Type 0
NoneExited procs [] = Unit {0}
NoneExited procs (c ∷ cs) = (is_exited (procs c).state ≡ false) × NoneExited procs cs

-- What one search takes out: `cs` is `before ++ e ∷ after`, where `e` is the first exited child.
pub record Taken (procs : Store) (cs : List ℕ) (e : ℕ) (others : List ℕ) : Type 0 where
  pub before : List ℕ
  pub after : List ℕ
  pub place : cs ≡ before ++ e ∷ after
  pub rest : others ≡ before ++ after
  pub still_run : NoneExited procs before
  pub has_exited : is_exited (procs e).state ≡ true

-- A search finds no exited child and returns NULL, or takes out the first one.
pub take_exited-cases :
    (procs : Store) (cs : List ℕ)
    → ((take_exited procs cs ≡ none) × NoneExited procs cs)
      ⊎ ((e : ℕ) × (others : List ℕ) × (take_exited procs cs ≡ some (e, others))
          × Taken procs cs e others)
unfolding take_exited
take_exited-cases procs [] = inl (refl, tt)
take_exited-cases procs (c ∷ cs) = elim (Bool-cases (is_exited (procs c).state)) [
  | inl gone ↦ inr (
    c,
    cs,
    rw gone,
    record {
      before = [];
      after = cs;
      place = refl;
      rest = refl;
      still_run = tt;
      has_exited = gone;
    },
  )
  | inr stays ↦ elim (take_exited-cases procs cs) [
    | inl (nothing, all) ↦ inl (rw (stays, nothing), (stays, all))
    | inr (e, others, found, t) ↦ inr (
      e,
      c ∷ others,
      rw (stays, found),
      record {
        before = c ∷ t.before;
        after = t.after;
        place = ap (◌∷◌ c) t.place;
        rest = ap (◌∷◌ c) t.rest;
        still_run = (stays, t.still_run);
        has_exited = t.has_exited;
      },
    )
  ]
]

module _ (allocated : Bool) (procs : Store) (parent : ℕ) where
  -- `procs'` is the store after `child` was collected: of the other PCBs none has changed.
  pub record Collected (child : ℕ) (procs' : Store) : Type 0 where
    pub taken : Taken procs (procs parent).children child (procs' parent).children
    pub room : HasRoom (procs parent) → HasRoom (procs' parent)
    pub parent_kept : (procs' parent).state ≡ (procs parent).state
    pub wake_up_kept : (procs' parent).wake_up ≡ (procs parent).wake_up
    pub others_kept : (q : ℕ) → q ≢ parent → procs' q ≡ procs q

  collect-Collected :
      (e : ℕ) (others : List ℕ)
      → Taken procs (procs parent).children e others
      → Collected e (update procs parent (without_child allocated (procs parent) others))
  unfolding without_child
  collect-Collected e others t =
      let small : Bool =
        ltb (length (procs parent).children) ((procs parent).arr_size / 2) && allocated in
      let count : length (procs parent).children ≡ length others + 1 = omega (
        arith,
        ap length t.place,
        ap length t.rest,
        length-append t.before (e ∷ t.after),
        length-append t.before t.after,
      ) in
      let children : (update procs parent (without_child allocated (procs parent) others)
            parent).children
          ≡ others =
        ground arith in
      record {
        taken = rw children t;
        room = λ r. ground (arith, r.fits, r.not_empty, count);
        parent_kept = ground arith;
        wake_up_kept = ground arith;
        others_kept = λ q ne. ground arith;
      }

  -- `find_exited_child` fails, and frees nothing, only if no child has exited. Otherwise it frees
  -- the first exited child and takes it, and only it, out of the children, which keep their order;
  -- the array keeps room for the children, and no other PCB changes.
  pub find_exited_child_lem :
      ((find_exited_child allocated procs parent ≡ none) × NoneExited procs (procs parent).children)
      ⊎ ((child : ℕ) × (procs' : Store) × (find_exited_child allocated procs parent
            ≡ some (child, procs'))
          × Collected child procs')
  unfolding find_exited_child
  find_exited_child_lem = elim (take_exited-cases procs (procs parent).children) [
    | inl (nothing, all) ↦ inl (rw (nothing, find_exited_child), all)
    | inr (e, others, found, t) ↦ inr (
      e,
      update procs parent (without_child allocated (procs parent) others),
      rw (found, find_exited_child),
      collect-Collected e others t,
    )
  ]

-- For an array of children that has room for them and is not empty, `add_child_proc` fails, and
-- changes no child, only if the array is full and there is no memory; otherwise the child becomes
-- the last one. Either way the array has room for the children.
pub add_child_proc_lem :
    (allocated : Bool) (p : Pcb) (child : ℕ)
    → HasRoom p
    → let full = (length p.children == p.arr_size) && not allocated in
      let (added, p') = add_child_proc allocated p child in
      (added ≡ not full)
      × (p'.children ≡ (if full then p.children else p.children ++ child ∷ []))
      × HasRoom p'
unfolding add_child_proc
add_child_proc_lem allocated p child r =
    ground (arith, r.fits, r.not_empty, length-append p.children (child ∷ []))
