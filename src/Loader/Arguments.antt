-- ===== src/Loader/Arguments.antt =====
-- The stack that LoadProgram builds for a new program: argc, the pointers to the arguments, and the arguments, read back.
use cs58final_project.Prelude.{
  ℕ, ◌+◌, ◌-◌, ◌*◌, ◌≤◌, ◌<◌, ◌≡◌, refl, ◌∙◌, true, false, arith, List, [], ◌∷◌, ◌++◌, ◌⊎◌, inl,
  inr, length, length-append, length-replicate, get_or, replicate,
}
use cs58final_project.Prelude.Run.{ok}
use cs58final_project.Pages.{Pte}
use cs58final_project.Pages.Range.{within}
use cs58final_project.UserMemory.{UserMem, Layout}
use cs58final_project.UserMemory.Bytes.{peek}
use cs58final_project.UserMemory.Bytes.Access.{Window, store_lem}
use cs58final_project.Loader.{LoadInfo, Abi, args_size, plan, put_bytes, store_args, build_stack}

module _ (l : Layout) (a : Abi) (pt : List Pte) where
  -- the bytes from an address on
  abbrev pub Holds : (ℕ → List ℕ) → ℕ → List ℕ → Type 0
  Holds c addr bs = (i : ℕ) → i < length bs → peek l a.page_size pt c (addr + i) ≡ get_or bs i 0

  -- At `cpp` there is a pointer for each argument and then two NULL pointers; the arguments stand behind each other
  -- from `cp` on, each with a zero at its end, where their pointers say.
  abbrev pub IsArgs : (ℕ → List ℕ) → ℕ → ℕ → List (List ℕ) → Type 0
  IsArgs c cp cpp [] = Holds c cpp (a.pointer_bytes 0 ++ a.pointer_bytes 0)
  IsArgs c cp cpp (arg ∷ args) =
      Holds c cpp (a.pointer_bytes cp)
      × Holds c cp (arg ++ 0 ∷ [])
      × IsArgs c (cp + length arg + 1) (cpp + a.pointer_size) args

  -- what the pointers take
  abbrev pointers_size : List (List ℕ) → ℕ
  pointers_size [] = a.pointer_size + a.pointer_size
  pointers_size (arg ∷ args) = a.pointer_size + pointers_size args

  abbrev InWindow : ℕ → ℕ → (ℕ → List ℕ) → Type 0
  InWindow = Window l a.page_size pt

  module _ (low high : ℕ) (sizes : (n : ℕ) → length (a.pointer_bytes n) ≡ a.pointer_size) where
    -- a write, what it leaves there, and what it leaves alone
    put_lem :
        (addr : ℕ) (bs : List ℕ) (contents : ℕ → List ℕ)
        → InWindow low high contents
        → low ≤ addr
        → addr + length bs ≤ high
        → (c : ℕ → List ℕ) × (put_bytes l a pt addr bs contents ≡ ok c)
          × InWindow low high c
          × Holds c addr bs
          × ((x : ℕ)
              → low ≤ x
              → x < high
              → (x < addr) ⊎ (addr + length bs ≤ x)
              → peek l a.page_size pt c x ≡ peek l a.page_size pt contents x)
    put_lem addr bs contents w la ha =
        let (c, run, w', now) = store_lem l a.page_size pt low high addr bs contents w la ha in
        (
          c,
          run,
          w',
          λ i lt.
              let inside : within addr (length bs) (addr + i) ≡ true = ground arith in
              let at : addr + i - addr ≡ i = omega arith in
              rw (inside, at) at (now (addr + i) (omega arith) (omega (arith, ha))),
          λ x lx hx out.
              let outside : within addr (length bs) x ≡ false = elim out [
                | inl below ↦ ground arith
                | inr above ↦ ground arith
              ] in
              rw outside at (now x lx hx),
        )

    store_args_lem :
        (cp cpp : ℕ) (args : List (List ℕ)) (contents : ℕ → List ℕ)
        → InWindow low high contents
        → low ≤ cpp
        → cpp + pointers_size args ≤ cp
        → cp + args_size args ≤ high
        → (c : ℕ → List ℕ) × (store_args l a pt cp cpp args contents ≡ ok c)
          × IsArgs c cp cpp args
          × ((x : ℕ)
              → low ≤ x
              → x < high
              → (x < cpp) ⊎ ((cpp + pointers_size args ≤ x) × (x < cp))
              → peek l a.page_size pt c x ≡ peek l a.page_size pt contents x)
    unfolding store_args args_size
    store_args_lem cp cpp [] contents w la gap ha =
        let nulls = a.pointer_bytes 0 ++ a.pointer_bytes 0 in
        let size = length-append (a.pointer_bytes 0) (a.pointer_bytes 0) in
        let (c, run, w', held, same) =
          put_lem cpp nulls contents w la (omega (arith, size, sizes 0, gap, ha)) in
        (
          c,
          run,
          held,
          λ x lx hx out. same x lx hx (elim out [
            | inl below ↦ inl below
            | inr (above, under) ↦ inr (omega (arith, size, sizes 0, above))
          ]),
        )
    store_args_lem cp cpp (arg ∷ args) contents w la gap ha =
        let string = arg ++ 0 ∷ [] in
        let size : length string ≡ length arg + 1 = length-append arg (0 ∷ []) in
        let (c1, run1, w1, held1, same1) =
          put_lem cpp (a.pointer_bytes cp) contents w la (omega (arith, sizes cp, gap, ha)) in
        let (c2, run2, w2, held2, same2) =
          put_lem cp string c1 w1 (omega (arith, gap)) (omega (arith, size, ha)) in
        let (c, run, rest, same) =
          store_args_lem (cp + length arg + 1) (cpp + a.pointer_size) args c2 w2 (omega arith)
            (omega (arith, gap)) (omega (arith, ha)) in
        (
          c,
          rw (run1, run2, run) refl,
          (
            λ i lt.
                same (cpp + i) (omega arith) (omega (arith, gap, ha, sizes cp, lt))
                  (inl (omega (arith, sizes cp, lt)))
                ∙ same2 (cpp + i) (omega arith) (omega (arith, gap, ha, sizes cp, lt))
                    (inl (omega (arith, gap, sizes cp, lt)))
                ∙ held1 i lt,
            λ i lt.
                same (cp + i) (omega (arith, gap)) (omega (arith, ha, size, lt))
                  (inr (omega (arith, gap), omega (arith, size, lt)))
                ∙ held2 i lt,
            rest,
          ),
          λ x lx hx out. elim out [
            | inl below ↦
                same x lx hx (inl (omega arith))
                ∙ same2 x lx hx (inl (omega (arith, gap)))
                ∙ same1 x lx hx (inl below)
            | inr (above, under) ↦
                same x lx hx (inr (omega (arith, above), omega arith))
                ∙ same2 x lx hx (inl under)
                ∙ same1 x lx hx (inr (omega (arith, above, sizes cp)))
          ],
        )

  pointers_size_lem :
      (args : List (List ℕ)) → pointers_size args ≡ (length args + 2) * a.pointer_size
  pointers_size_lem [] = omega arith
  pointers_size_lem (arg ∷ args) = omega (arith, pointers_size_lem args)

  -- With pointers of the size they are said to have, addresses from some `low` up to the end of region 1 in pages of the region that are
  -- valid and may be written, with whole frames, no two of them in the same place, and room between `low` and the end for the arguments and their pointers:
  -- `LoadProgram` builds the stack of its plan without a fault. Then argc stands at the plan's `cpp`, with as many pointers behind it
  -- as there are arguments, and two NULL pointers; each argument can be read where its pointer says, with a zero at its end. What
  -- stands below is as before.
  pub build_stack_lem :
      (low : ℕ) (args : List (List ℕ)) (li : LoadInfo) (m : UserMem) (contents : ℕ → List ℕ)
      → ((n : ℕ) → length (a.pointer_bytes n) ≡ a.pointer_size)
      → InWindow low l.vmem_limit contents
      → args_size args + (length args + 3 + a.post_argv_null_space) * a.pointer_size ≤ l.vmem_limit
      → low ≤ (plan l a args li m).cpp
      → (c : ℕ → List ℕ) × (build_stack l a pt (plan l a args li m) args contents ≡ ok c)
        × Holds c (plan l a args li m).cpp (a.pointer_bytes (length args))
        × IsArgs c (plan l a args li m).cp ((plan l a args li m).cpp + a.pointer_size) args
        × ((x : ℕ)
            → low ≤ x
            → x < (plan l a args li m).cpp
            → peek l a.page_size pt c x ≡ peek l a.page_size pt contents x)
  unfolding plan build_stack
  build_stack_lem low args li m contents sizes w fits above =
      let limit : ℕ = l.vmem_limit in
      let p = plan l a args li m in
      let n : ℕ = length args in
      let gap : p.cpp + a.pointer_size + pointers_size args ≤ p.cp =
        omega (arith, pointers_size_lem args, fits) in
      let end : p.cp + args_size args ≤ limit = omega (arith, fits) in
      let zeros = length-replicate {A = ℕ} (limit - p.cpp) 0 in
      let (c1, run1, w1, held1, same1) =
        put_lem low limit sizes p.cpp (replicate (limit - p.cpp) 0) contents w above
          (omega (arith, zeros, gap, end)) in
      let (c2, run2, w2, held2, same2) =
        put_lem low limit sizes p.cpp (a.pointer_bytes n) c1 w1 above
          (omega (arith, sizes n, gap, end)) in
      let (c, run3, held, same) =
        store_args_lem low limit sizes p.cp (p.cpp + a.pointer_size) args c2 w2
          (omega (arith, above)) gap end in
      (
        c,
        rw (run1, run2, run3) refl,
        λ i lt.
            same (p.cpp + i) (omega (arith, above)) (omega (arith, gap, end, sizes n, lt))
              (inl (omega (arith, sizes n, lt)))
            ∙ held2 i lt,
        held,
        λ x lx hx.
            same x lx (omega (arith, hx, gap, end)) (inl (omega (arith, hx)))
            ∙ same2 x lx (omega (arith, hx, gap, end)) (inl hx)
            ∙ same1 x lx (omega (arith, hx, gap, end)) (inl hx),
      )
