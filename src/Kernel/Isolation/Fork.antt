-- ===== src/Kernel/Isolation/Fork.antt =====
-- Isolation when a frame is mapped for a parent and becomes one of its child's.
use cs58final_project.Prelude.{
  ℕ, zero, suc, ◌≡◌, ◌≢◌, refl, sym, ap, ◌∙◌, true, false, ◌&&◌, arith, List, [], inl, inr, ◌==◌,
  if◌then◌else◌, set, Bool-cases,
}
use cs58final_project.Frames.{Frames}
use cs58final_project.Pages.{Prot, Pte, entry, Space, create_pte}
use cs58final_project.Pages.Moves.{Moves}
use cs58final_project.Pages.Owners.{Owned, Owned-Moves, Owned-given}
use cs58final_project.UserMemory.{MemCtx, ForkMem, space_of}
use cs58final_project.Kernel.State.{Machine}
use cs58final_project.Kernel.Isolation.{Owner, user, stack, kernel, Owner-discrete, tables_of}

entry-set_other :
    (pt : List Pte) (c j : ℕ) (e : Pte) → (j == c) ≡ false → entry (set pt c e) j ≡ entry pt j
entry-set_other [] c j e h = refl
entry-set_other (List.◌∷◌ x pt) zero zero e h = absurd (ground (arith, h))
entry-set_other (List.◌∷◌ x pt) zero (suc j) e h = refl
entry-set_other (List.◌∷◌ x pt) (suc c) zero e h = refl
entry-set_other (List.◌∷◌ x pt) (suc c) (suc j) e h = entry-set_other pt c j e (ground (arith, h))

entry-set_here :
    (pt : List Pte) (c : ℕ) (e : Pte)
    → (entry (set pt c e) c).valid ≡ true
    → entry (set pt c e) c ≡ e
entry-set_here [] c e h = absurd (ground (arith, h))
entry-set_here (List.◌∷◌ x pt) zero e h = refl
entry-set_here (List.◌∷◌ x pt) (suc c) e h = entry-set_here pt c e h

module _ (mc : Machine) (contexts : ℕ → MemCtx) (stacks : ℕ → List Pte) (region0 : List Pte)
    (p q : ℕ) (ne : p ≢ q) where
  -- the tables with those of the parent `p` and of the child `q` as they are in the middle of the copy
  abbrev pub fork_tables : List Pte → List Pte → Owner → List Pte
  fork_tables mine child (user x) =
      if x == q then child else if x == p then mine else (contexts x).region1_pt
  fork_tables mine child (stack x) = tables_of contexts stacks region0 p (stack x)
  fork_tables mine child kernel = region0

  abbrev pub IsForking : ForkMem → Type 0
  IsForking f = Owned mc.layout.base f.mem.frames (fork_tables f.mem.ctx.region1_pt f.child_pt)

  -- The child has been given up.
  abbrev pub IsAlone : ForkMem → Type 0
  IsAlone f = Owned mc.layout.base f.mem.frames (fork_tables f.mem.ctx.region1_pt [])

  q_here : (q == q) ≡ true
  q_here = ground arith

  p_here : (p == p) ≡ true
  p_here = ground arith

  apart : (p == q) ≡ false
  apart = ground arith

  pub mine_at : (mine child : List Pte) → fork_tables mine child (user p) ≡ mine
  mine_at mine child = rw (fork_tables, apart, p_here)

  pub child_at : (mine child : List Pte) → fork_tables mine child (user q) ≡ child
  child_at mine child = rw (fork_tables, q_here)

  is_other : (x y : ℕ) → user x ≢ user y → (x == y) ≡ false
  is_other x y h = elim (Bool-cases (x == y)) [
    | inl same ↦ let e : x ≡ y = ground arith in absurd (h (ap user e))
    | inr other ↦ other
  ]

  others_mine :
      (mine mine' child : List Pte) (o : Owner)
      → o ≢ user p
      → fork_tables mine' child o ≡ fork_tables mine child o
  others_mine mine mine' child (user x) h = rw (fork_tables, is_other x p h)
  others_mine mine mine' child (stack x) h = refl
  others_mine mine mine' child kernel h = refl

  pub others_child :
      (mine child child' : List Pte) (o : Owner)
      → o ≢ user q
      → fork_tables mine child' o ≡ fork_tables mine child o
  others_child mine child child' (user x) h = rw (fork_tables, is_other x q h)
  others_child mine child child' (stack x) h = refl
  others_child mine child child' kernel h = refl

  -- a change of the parent's pages
  pub parent-Moves :
      (f : ForkMem) (s : Space)
      → IsForking f
      → Moves mc.layout.base (space_of f.mem) s
      → Owned mc.layout.base s.frames (fork_tables s.pt f.child_pt)
  parent-Moves f s w a =
      let mine = f.mem.ctx.region1_pt in
      let e = mine_at mine f.child_pt in
      Owned-Moves mc.layout.base f.mem.frames (fork_tables mine f.child_pt)
        (fork_tables s.pt f.child_pt) w (user p) s (rw e a)
        (λ j h. ap (λ (t : List Pte). entry t j) (mine_at s.pt f.child_pt)) Owner-discrete
        (others_mine mine s.pt f.child_pt)

  -- The page at index `i` of the parent becomes that at index `c` of the child.
  module _ (mine child : List Pte) (i c : ℕ) (prot : Prot) where
    abbrev unmapped : List Pte
    unmapped = set mine i (record (entry mine i) { valid = false })

    abbrev page : Pte
    page = record { valid = true; pfn = (entry mine i).pfn; prot = prot }

    abbrev given : List Pte
    given = create_pte child c (entry mine i).pfn prot

    abbrev from : Owner → ℕ → Owner × ℕ
    from (user x) j = if (x == q) && (j == c) then (user p, i) else (user x, j)
    from (stack x) j = (stack x, j)
    from kernel j = (kernel, j)

    abbrev back : Owner → ℕ → Owner × ℕ
    back (user x) j = if (x == p) && (j == i) then (user q, c) else (user x, j)
    back (stack x) j = (stack x, j)
    back kernel j = (kernel, j)

    abbrev Comes : Owner → ℕ → Type 0
    Comes o j =
        (((entry (fork_tables mine child (from o j).0) (from o j).1).valid ≡ true)
          × ((entry (fork_tables mine child (from o j).0) (from o j).1).pfn
              ≡ (entry (fork_tables unmapped given o) j).pfn))
        × ((back (from o j).0 (from o j).1).0 ≡ o)
        × ((back (from o j).0 (from o j).1).1 ≡ j)

    come_child :
        (x j : ℕ)
        → (entry mine i).valid ≡ true
        → (x == q) ≡ true
        → (entry given j).valid ≡ true
        → Comes (user x) j
    come_child x j held is_q h =
        let e : q ≡ x = ground arith in
        let not_p : (x == p) ≡ false = ground (arith, ne) in
        let i_here : (i == i) ≡ true = ground arith in
        elim (Bool-cases (j == c)) [
          | inl here ↦
              let at : c ≡ j = ground arith in
              let h' : (entry given c).valid ≡ true =
                ap (λ (y : ℕ). (entry given y).valid) at ∙ h in
              let now = entry-set_here child c page h' in
              let pfn : (entry mine i).pfn ≡ (entry given j).pfn =
                ap (λ (y : Pte). y.pfn) (sym now) ∙ ap (λ (y : ℕ). (entry given y).pfn) at in
              rw (is_q, here, apart, p_here, i_here) ((held, pfn), ap user e, at)
          | inr other ↦
              let now = entry-set_other child c j page other in
              let h' : (entry child j).valid ≡ true = ap (λ (y : Pte). y.valid) (sym now) ∙ h in
              rw (is_q, other, not_p, is_q) ((h', ap (λ (y : Pte). y.pfn) (sym now)), refl, refl)
        ]

    come_other :
        (x j : ℕ)
        → (x == q) ≡ false
        → (entry (if x == p then unmapped else (contexts x).region1_pt) j).valid ≡ true
        → Comes (user x) j
    come_other x j not_q h = elim (Bool-cases (x == p)) [
      | inr not_p ↦ rw (not_q, not_p, not_q) ((rw not_p at h, refl), refl, refl)
      | inl is_p ↦
          let hole : Pte = record (entry mine i) { valid = false } in
          let h' : (entry unmapped j).valid ≡ true = rw is_p at h in
          let not_i : (j == i) ≡ false = elim (Bool-cases (j == i)) [
            | inr other ↦ other
            | inl here ↦
                let at : j ≡ i = ground arith in
                let h2 : (entry unmapped i).valid ≡ true =
                  ap (λ (y : ℕ). (entry unmapped y).valid) (sym at) ∙ h' in
                absurd (ground (arith, entry-set_here mine i hole h2, h2))
          ] in
          let now = entry-set_other mine i j hole not_i in
          let h3 : (entry mine j).valid ≡ true = ap (λ (y : Pte). y.valid) (sym now) ∙ h' in
          rw (not_q, is_p, not_i, not_q) ((h3, ap (λ (y : Pte). y.pfn) (sym now)), refl, refl)
    ]

    come :
        (entry mine i).valid ≡ true
        → (o : Owner) (j : ℕ) → (entry (fork_tables unmapped given o) j).valid ≡ true
        → Comes o j
    come held (user x) j h = elim (Bool-cases (x == q)) [
      | inl is_q ↦ come_child x j held is_q (rw (is_q, fork_tables) at h)
      | inr not_q ↦ come_other x j not_q (rw (not_q, fork_tables) at h)
    ]
    come held (stack x) j h = ((h, refl), refl, refl)
    come held kernel j h = ((h, refl), refl, refl)

    pub Owned-give :
        (frames : Frames)
        → Owned mc.layout.base frames (fork_tables mine child)
        → (entry mine i).valid ≡ true
        → Owned mc.layout.base frames (fork_tables unmapped given)
    Owned-give frames w held =
        Owned-given mc.layout.base frames (fork_tables mine child) (fork_tables unmapped given) from
          back w (come held)
