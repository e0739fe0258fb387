-- ===== src/UserMemory/Brk.antt =====
-- KernelBrk_Impl, alloc_region and deallocate_region1: which pages they map, and which frames they use.
use cs58final_project.Prelude.{
  ℕ, ◌+◌, ◌-◌, ◌≤◌, ◌<◌, ◌≡◌, ap, ◌∙◌, Bool, true, false, ◌||◌, arith, ◌⊎◌, inl, inr, ltb, leb,
  length, Bool-cases,
}
use cs58final_project.Prelude.Run.{ok}
use cs58final_project.Machine.{error, success}
use cs58final_project.Frames.Inv.{is_free}
use cs58final_project.Pages.{Prot, Pte, Space, entry, read_write}
use cs58final_project.Pages.Laws.{Mapped, entry-outside}
use cs58final_project.Pages.Range.{owns, Undone, Undone-at, undo_allocation_lem}
use cs58final_project.Pages.Fill.{Unmapped, Filled, Restored, TooFew, alloc_pages_lem}
use cs58final_project.UserMemory.{
  UserMem, Layout, space_of, with_space, limit_vpn, kernel_brk_impl, alloc_region,
  deallocate_region1,
}

-- the memory with the pages and frames of a space, and another break
abbrev pub moved : UserMem → Space → ℕ → UserMem
moved m s brk = record {
  frames = s.frames;
  ctx = record m.ctx { region1_pt = s.pt; curr_brk_page = brk };
}

module _ (l : Layout) (m : UserMem) (v : Mapped l.base (space_of m)) where
  -- What holds of a call of `brk`: the heap lies in the region, and no page from the break to the stack is mapped.
  pub record IsHeap (stack_page : ℕ) : Type 0 where
    pub low : l.first ≤ m.ctx.orig_brk_page
    pub order : m.ctx.orig_brk_page ≤ m.ctx.curr_brk_page
    pub fits : stack_page ≤ limit_vpn l m
    pub gap :
        Unmapped (space_of m) (m.ctx.curr_brk_page - l.first) (stack_page - m.ctx.curr_brk_page)

  module _ (addr sp : ℕ) (h : IsHeap (l.page_down sp)) where
    abbrev pub heap_page : ℕ
    heap_page = l.page_up addr

    -- the calls that are refused: a break below the heap, or next to the stack
    abbrev pub brk_refused : Bool
    brk_refused = ltb heap_page m.ctx.orig_brk_page || leb (l.page_down sp) (heap_page + 1)

    -- The pages by which the heap grows.
    abbrev pub more : ℕ
    more = heap_page - m.ctx.curr_brk_page

    kernel_brk-grow :
        brk_refused ≡ false
        → m.ctx.curr_brk_page < heap_page
        → ((s : Space) × (kernel_brk_impl l addr sp m ≡ ok (success, moved m s heap_page))
            × Filled l.base read_write (space_of m) s (m.ctx.curr_brk_page - l.first) more)
          ⊎ ((s : Space) × (kernel_brk_impl l addr sp m ≡ ok (error, with_space m s))
              × Restored l.base (space_of m) s
              × TooFew l.base (space_of m) more)
    unfolding kernel_brk_impl
    kernel_brk-grow accepted grows =
        let up : ltb m.ctx.curr_brk_page heap_page ≡ true = ground arith in
        elim (alloc_pages_lem l.base l.first m.ctx.curr_brk_page read_write (space_of m)
          (omega (arith, h.low, h.order)) more v (ground (arith, h.fits, h.low, h.order))
          (λ j q. ground (arith, h.gap j))) [
            | inl (s, run, f) ↦ inl (s, rw (kernel_brk_impl, accepted, up, run), f)
            | inr (s, run, r, few) ↦ inr (s, rw (kernel_brk_impl, accepted, up, run), r, few)
          ]

    kernel_brk-shrink :
        brk_refused ≡ false
        → heap_page ≤ m.ctx.curr_brk_page
        → (s : Space) × (kernel_brk_impl l addr sp m ≡ ok (success, moved m s heap_page))
          × Undone l.base (space_of m) s (heap_page - l.first) (m.ctx.curr_brk_page - heap_page)
    unfolding kernel_brk_impl
    kernel_brk-shrink accepted shrinks =
        let down : ltb m.ctx.curr_brk_page heap_page ≡ false = ground arith in
        let (s, run, u) =
          undo_allocation_lem l.base l.first (m.ctx.curr_brk_page - heap_page) heap_page
            (space_of m) v (ground (arith, h.low)) in
        (s, rw (kernel_brk_impl, accepted, down, run), u)

    -- With the pages of the process mapped to frames of their own, none mapped between the break and the stack, and a bit
    -- to spare in the bitset of frames: `brk` returns
    -- ERROR and changes nothing for a break below the heap or next to the stack. Or else it returns 0, and
    -- the break is the new one: if it is above the old one, exactly the pages between them
    -- are mapped, for reading and writing, to frames that were free; if not, exactly the pages between them are unmapped
    -- and their frames are free. Only if fewer frames are free than pages are asked for it
    -- returns ERROR, and then the valid pages, the free frames and the break are as before.
    pub kernel_brk_lem :
        ((brk_refused ≡ true) × (kernel_brk_impl l addr sp m ≡ ok (error, m)))
        ⊎ (((s : Space) × (kernel_brk_impl l addr sp m ≡ ok (success, moved m s heap_page))
              × (((m.ctx.curr_brk_page < heap_page)
                    × Filled l.base read_write (space_of m) s (m.ctx.curr_brk_page - l.first) more)
                  ⊎ ((heap_page ≤ m.ctx.curr_brk_page)
                      × Undone l.base
                          (space_of m)
                          s
                          (heap_page - l.first)
                          (m.ctx.curr_brk_page - heap_page))))
            ⊎ ((s : Space) × (kernel_brk_impl l addr sp m ≡ ok (error, with_space m s))
                × Restored l.base (space_of m) s
                × TooFew l.base (space_of m) more))
    kernel_brk_lem = elim (Bool-cases brk_refused) [
      | inl refused ↦ inl (refused, unfold kernel_brk_impl in rw (kernel_brk_impl, refused))
      | inr accepted ↦ inr (elim (Bool-cases (ltb m.ctx.curr_brk_page heap_page)) [
        | inl up ↦ elim (kernel_brk-grow accepted (ground arith)) [
          | inl (s, run, f) ↦ inl (s, run, inl (ground arith, f))
          | inr (s, run, r, few) ↦ inr (s, run, r, few)
        ]
        | inr down ↦
            let (s, run, u) = kernel_brk-shrink accepted (ground arith) in
            inl (s, run, inr (ground arith, u))
      ])
    ]

  -- If the pages of the process are mapped to frames of their own, `alloc_region` of a range in region 1 of which no
  -- page is mapped maps exactly its pages, with the
  -- protection asked for, to frames that were free; or fewer frames are free than it has pages, and it
  -- fails and leaves the valid pages and the free frames as they were.
  pub alloc_region_lem :
      (start end : ℕ) (prot : Prot)
      → l.first ≤ start
      → start ≤ end
      → end ≤ limit_vpn l m
      → Unmapped (space_of m) (start - l.first) (end - start)
      → ((s : Space) × (alloc_region l start end prot m ≡ ok (true, with_space m s))
          × Filled l.base prot (space_of m) s (start - l.first) (end - start))
        ⊎ ((s : Space) × (alloc_region l start end prot m ≡ ok (false, with_space m s))
            × Restored l.base (space_of m) s
            × TooFew l.base (space_of m) (end - start))
  unfolding alloc_region
  alloc_region_lem start end prot low order fits unused =
      let inside : (ltb start l.first || ltb (limit_vpn l m) end) ≡ false = ground arith in
      elim (alloc_pages_lem l.base l.first start prot (space_of m) low (end - start) v (omega arith)
        unused) [
          | inl (s, run, f) ↦ inl (s, rw (alloc_region, inside, run), f)
          | inr (s, run, r, few) ↦ inr (s, rw (alloc_region, inside, run), r, few)
        ]

  pub deallocate_region1-Undone :
      (s : Space) × (deallocate_region1 l m ≡ ok (with_space m s))
      × Undone l.base (space_of m) s 0 (length m.ctx.region1_pt)
  unfolding deallocate_region1
  deallocate_region1-Undone =
      let all : ℕ = length m.ctx.region1_pt in
      let none_below : l.first - l.first ≡ 0 = omega arith in
      let (s, run, u) =
        undo_allocation_lem l.base l.first all l.first (space_of m) v (omega arith) in
      (
        s,
        rw (deallocate_region1, run),
        Undone-at l.base (space_of m) s (l.first - l.first) 0 all none_below u,
      )

  pub none_left :
      (s : Space)
      → Undone l.base (space_of m) s 0 (length m.ctx.region1_pt)
      → (j : ℕ) → (entry s.pt j).valid ≡ false
  none_left s u j = elim (Bool-cases (ltb j (length m.ctx.region1_pt))) [
    | inl inside ↦ u.unmapped j (ground arith)
    | inr beyond ↦
        ap (λ (e : Pte). e.valid)
          (u.others j (ground arith) ∙ entry-outside m.ctx.region1_pt j (ground arith))
  ]

  -- `deallocate_region1` ends with no page of the process valid, and frees exactly the frames of those that were; the
  -- pages of the process have to be mapped to frames of their own.
  pub deallocate_region1_lem :
      (s : Space) × (deallocate_region1 l m ≡ ok (with_space m s))
      × Mapped l.base s
      × ((j : ℕ) → (entry s.pt j).valid ≡ false)
      × ((k : ℕ)
          → is_free s.frames k ≡ (
              is_free m.frames k || owns m.ctx.region1_pt 0 (length m.ctx.region1_pt) (k + l.base)))
  deallocate_region1_lem =
      let (s, run, u) = deallocate_region1-Undone in (s, run, u.mapped, none_left s u, u.free)
