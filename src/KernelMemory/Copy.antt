-- ===== src/KernelMemory/Copy.antt =====
-- KCCopy: the frames of a new kernel stack, and what becomes of the kernel's pages.
use cs58final_project.Prelude.{
  ℕ, zero, suc, ◌+◌, ◌-◌, ◌≤◌, ◌<◌, ◌≡◌, refl, ap, ◌∙◌, true, false, arith, ◌⊎◌, Option, some, none,
  List, [], ◌∷◌, inl, inr, length, set, length-set, Bool-cases,
}
use cs58final_project.Prelude.Arrays.{get_or-set}
use cs58final_project.Prelude.Run.{Run, ok, fault, ◌>>=◌, Ensures, Ensures-bind, Ensures-ok}
use cs58final_project.Pages.{Pte, zero_pte, entry, Space, read_write, in_region, unmap_no_free}
use cs58final_project.Pages.Laws.{Mapped}
use cs58final_project.Pages.Range.{within}
use cs58final_project.Pages.Fill.{Filled, Restored, TooFew}
use cs58final_project.KernelMemory.{KernelMem, KernelLayout, copy_stack, take_pages, kc_copy}
use cs58final_project.KernelMemory.StackBytes.{HasBytes, copy_stack_lem, copy_stack-ends}
use cs58final_project.KernelMemory.Brk.{
  with_pages, grown, shrunk, refused, grow, refuse, is_refused,
}

-- the entry that a page's frame gets in a stack
abbrev pub page_at : List Pte → ℕ → Pte
page_at pt i = record { valid = true; pfn = (entry pt i).pfn; prot = read_write }

cons_stack :
    (n vpn : ℕ) (pt pt' : List Pte) (st : List Pte)
    → ((j : ℕ) → vpn < j → entry pt' j ≡ entry pt j)
    → ((i : ℕ) → i < n → entry st i ≡ page_at pt' (vpn + 1 + i))
    → (i : ℕ) → i < suc n
    → entry (page_at pt vpn ∷ st) i ≡ page_at pt (vpn + i)
cons_stack n vpn pt pt' st same h zero lt = let e : vpn + 0 ≡ vpn = omega arith in rw e
cons_stack n vpn pt pt' st same h (suc i) lt =
    let e : vpn + suc i ≡ vpn + 1 + i = omega arith in
    rw e (
      h i (omega (arith, lt))
      ∙ ap (λ (x : Pte). record { valid = true; pfn = x.pfn; prot = read_write })
          (same (vpn + 1 + i) (omega arith)))

module _ (l : KernelLayout) where
  -- what `take_pages` of `n` pages from `vpn` on comes to
  pub record Taken (vpn n : ℕ) (s s' : Space) (st : List Pte) : Type 0 where
    pub frames : s'.frames ≡ s.frames
    pub size : length s'.pt ≡ length s.pt
    pub number : length st ≡ n
    pub stack : (i : ℕ) → i < n → entry st i ≡ page_at s.pt (vpn + i)
    pub unmapped : (j : ℕ) → within vpn n j ≡ true → (entry s'.pt j).valid ≡ false
    pub others : (j : ℕ) → within vpn n j ≡ false → entry s'.pt j ≡ entry s.pt j

  -- the rest of the loop, once a page is unmapped
  abbrev take_page : ℕ → ℕ → Option ℕ × Space → Run (List Pte × Space)
  take_page n vpn u = elim u.0 [
    | none ↦ fault
    | some pfn ↦ take_pages l n (vpn + 1) u.1 >>= λ x.
        ok (record { valid = true; pfn = pfn; prot = read_write } ∷ x.0, x.1)
  ]

  pub take_pages_lem :
      (n vpn : ℕ) (s : Space)
      → vpn + n ≤ length s.pt
      → (st : List Pte) × (s' : Space) × (take_pages l n vpn s ≡ ok (st, s')) × Taken vpn n s s' st
  unfolding take_pages unmap_no_free
  take_pages_lem zero vpn s fits = (
    [],
    s,
    refl,
    record {
      frames = refl;
      size = refl;
      number = refl;
      stack = λ i lt. absurd (omega arith);
      unmapped = λ j h. absurd (ground arith);
      others = λ j h. refl;
    },
  )
  take_pages_lem (suc n) vpn s fits =
      let hole : Pte = record (entry s.pt vpn) { valid = false } in
      let s1 : Space = record s { pt = set s.pt vpn hole } in
      let now = λ (j : ℕ). get_or-set s.pt vpn j hole zero_pte (omega (arith, fits)) in
      let (st, s', run, t) =
        take_pages_lem n (vpn + 1) s1 (omega (arith, fits, length-set s.pt vpn hole)) in
      let here : in_region l.base 0 vpn s ≡ true = ground (arith, fits) in
      let first : vpn - 0 ≡ vpn = omega arith in
      let unmapped : unmap_no_free l.base 0 vpn s ≡ (some (entry s.pt vpn).pfn, s1) =
        rw (unmap_no_free, here, first) in
      let e : Pte = page_at s.pt vpn in
      let step : take_pages l (suc n) vpn s
          ≡ (take_pages l n (vpn + 1) s1 >>= λ x. ok (e ∷ x.0, x.1)) =
        ap (take_page n vpn) unmapped in
      (
        e ∷ st,
        s',
        step ∙ ap (λ (r : Run (List Pte × Space)). r >>= λ x. ok (e ∷ x.0, x.1)) run,
        record {
          frames = t.frames;
          size = t.size ∙ length-set s.pt vpn hole;
          number = ap suc t.number;
          stack = cons_stack n vpn s.pt s1.pt st (λ j h. ground (arith, now j)) t.stack;
          unmapped = λ j h. ground (arith, t.unmapped j, t.others j, now j);
          others = λ j h. ground (arith, t.others j, now j);
        },
      )

  -- the address of the break with a new stack below it
  abbrev pub stack_addr : KernelMem → ℕ
  stack_addr m = l.page_address (m.current_brk_page + l.stack_pages)

  -- What `KCCopy` leaves: no stack, with the pages as they were, since the new break would be refused or too few frames are free;
  -- or a stack of frames that were free, unmapped again, with the bytes of the current stack.
  pub data CopiedStack (m : KernelMem) (contents : ℕ → List ℕ)
      : Option (List Pte × (ℕ → List ℕ)) × KernelMem → Type 0 where
    no_room :
        (s : Space)
        → Restored l.base m.space s
        → (is_refused l m (stack_addr m) ≡ true) ⊎ TooFew l.base m.space l.stack_pages
        → CopiedStack m contents (none, with_pages m s)
    made :
        (s1 s2 : Space) (st : List Pte) (bytes : ℕ → List ℕ)
        → Filled l.base read_write m.space s1 m.current_brk_page l.stack_pages
        → Taken m.current_brk_page l.stack_pages s1 s2 st
        → m.current_brk_page + l.stack_pages ≤ l.stack_page
        → HasBytes l.stack_pages l.stack_page m.current_brk_page s1.pt contents bytes
        → CopiedStack m contents (some (st, bytes), with_pages m s2)

  module _ (m : KernelMem) (v : Mapped l.base m.space) (enabled : m.vm_enabled ≡ true)
      (round : l.page_up (l.page_address (m.current_brk_page + l.stack_pages))
        ≡ m.current_brk_page + l.stack_pages)
      (some_stack : 0 < l.stack_pages) (fits : l.stack_page ≤ length m.space.pt)
      (gap : (j : ℕ)
        → m.current_brk_page ≤ j
        → j < l.stack_page
        → (entry m.space.pt j).valid ≡ false) where
    abbrev addr : ℕ
    addr = stack_addr m

    nothing_changed : Restored l.base m.space m.space
    nothing_changed = record {
      mapped = v;
      size = refl;
      num_frames = refl;
      valid = λ j. refl;
      entries = λ j h. refl;
      free = λ k. refl;
    }

    -- what `KCCopy` leaves, if it ends without a fault
    pub kc_copy-CopiedStack :
        (contents : ℕ → List ℕ) → Ensures (CopiedStack m contents) (kc_copy l m contents)
    unfolding kc_copy
    kc_copy-CopiedStack contents = elim (Bool-cases (is_refused l m addr)) [
      | inl bad ↦ rw (refuse l m addr bad) (no_room m.space nothing_changed (inl bad))
      | inr accepted ↦
          let pages : l.page_up addr - m.current_brk_page ≡ l.stack_pages = omega (arith, round) in
          elim (grow l m addr v accepted enabled (omega (arith, round, some_stack)) fits
            (λ j h. gap j (ground (arith, h)) (ground (arith, h, round, accepted)))) [
              | grown s lt run f ↦
                  let (st, s', taken, t) =
                    take_pages_lem l.stack_pages m.current_brk_page s
                      (ground (arith, f.size, round, accepted, fits)) in
                  rw run (
                    Ensures-bind
                      (HasBytes l.stack_pages l.stack_page m.current_brk_page s.pt contents)
                      (CopiedStack m contents)
                      (copy_stack l l.stack_pages l.stack_page m.current_brk_page s.pt contents) _
                      (copy_stack_lem l l.stack_pages l.stack_page m.current_brk_page s.pt contents
                        f.mapped.apart (ground (arith, round, accepted)))
                      (λ bytes copied. rw taken (
                        made s s' st bytes (rw pages at f) t (ground (arith, round, accepted))
                          copied)))
              | shrunk s le run u ↦ absurd (omega (arith, le, round, some_stack))
              | refused s run r few ↦ rw run (no_room s r (inr (rw pages at few)))
            ]
    ]

    kc_copy-ends :
        ((i : ℕ) → i < l.stack_pages → (entry m.space.pt (l.stack_page + i)).valid ≡ true)
        → (contents : ℕ → List ℕ)
        → (r : Option (List Pte × (ℕ → List ℕ)) × KernelMem) × (kc_copy l m contents ≡ ok r)
    unfolding kc_copy
    kc_copy-ends held contents = elim (Bool-cases (is_refused l m addr)) [
      | inl bad ↦ ((none, m), rw (refuse l m addr bad) refl)
      | inr accepted ↦
          let pages : l.page_up addr - m.current_brk_page ≡ l.stack_pages = omega (arith, round) in
          elim (grow l m addr v accepted enabled (omega (arith, round, some_stack)) fits
            (λ j h. gap j (ground (arith, h)) (ground (arith, h, round, accepted)))) [
              | grown s lt run f0 ↦
                  let f : Filled l.base read_write m.space s m.current_brk_page l.stack_pages =
                    rw pages at f0 in
                  let (st, s', taken, t) =
                    take_pages_lem l.stack_pages m.current_brk_page s
                      (ground (arith, f.size, round, accepted, fits)) in
                  let (bytes, copied) =
                    copy_stack-ends l l.stack_pages l.stack_page m.current_brk_page s.pt contents
                      (λ i lt'. ground (
                        arith,
                        f.others (l.stack_page + i),
                        f.valid (m.current_brk_page + i),
                        held i,
                        round,
                        accepted,
                        lt',
                      )) in
                  ((some (st, bytes), with_pages m s'), rw (run, copied, taken) refl)
              | shrunk s le run u ↦ absurd (omega (arith, le, round, some_stack))
              | refused s run r few ↦ ((none, with_pages m s), rw run refl)
            ]
    ]

    -- With the kernel's virtual memory on, its pages mapped to frames of their own, a bit to spare in the bitset of frames, nothing mapped between the kernel's break and its stack, a
    -- kernel stack of at least one page whose pages are mapped, and a break whose address goes over into its page: `KCCopy`
    -- ends without a fault. Either there is no new stack, since the break above it would be refused or fewer frames are free than a stack has pages,
    -- and the pages and free frames are as they were; or the new stack has the frames of pages that were mapped from the
    -- break on, below the stack, with frames that were free, these pages are unmapped again with the frames still taken, each
    -- of the frames has the bytes of its page of the current stack, and no other frame's bytes have changed. The break is where it was.
    pub kc_copy_lem :
        ((i : ℕ) → i < l.stack_pages → (entry m.space.pt (l.stack_page + i)).valid ≡ true)
        → (contents : ℕ → List ℕ)
        → (r : Option (List Pte × (ℕ → List ℕ)) × KernelMem) × (kc_copy l m contents ≡ ok r)
          × CopiedStack m contents r
    kc_copy_lem held contents =
        let (r, run) = kc_copy-ends held contents in
        (r, run, Ensures-ok (CopiedStack m contents) r (rw run at (kc_copy-CopiedStack contents)))
