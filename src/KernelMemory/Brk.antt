-- ===== src/KernelMemory/Brk.antt =====
-- SetKernelBrk: which pages of the kernel's heap are mapped.
use cs58final_project.Prelude.{
  ℕ, ◌+◌, ◌-◌, ◌≤◌, ◌<◌, ◌≡◌, Bool, true, false, ◌||◌, arith, ◌⊎◌, inl, inr, ltb, leb, length,
  Bool-cases,
}
use cs58final_project.Prelude.Run.{ok}
use cs58final_project.Machine.{error, success}
use cs58final_project.Pages.{Space, entry, read_write}
use cs58final_project.Pages.Laws.{Mapped}
use cs58final_project.Pages.Range.{Undone, Undone-at, undo_allocation_lem}
use cs58final_project.Pages.Fill.{Unmapped, Filled, Restored, TooFew, alloc_pages_lem}
use cs58final_project.KernelMemory.{KernelMem, KernelLayout, set_kernel_brk}

-- the memory with other pages and frames
abbrev pub with_pages : KernelMem → Space → KernelMem
with_pages m s = record m { space = s }

abbrev pub moved : KernelMem → Space → ℕ → KernelMem
moved m s brk = record m { space = s; current_brk_page = brk }

module _ (l : KernelLayout) (m : KernelMem) (addr : ℕ) where
  abbrev pub heap_page : ℕ
  heap_page = l.page_up addr

  -- the calls that are refused: a break below the heap, or by the stack
  abbrev pub is_refused : Bool
  is_refused = ltb heap_page l.orig_brk_page || leb l.stack_page (heap_page + 2)

  -- the pages by which the heap grows
  abbrev pub more : ℕ
  more = heap_page - m.current_brk_page

  -- What an accepted call does once virtual memory is enabled.
  pub data Outcome : Type 0 where
    grown :
        (s : Space)
        → m.current_brk_page < heap_page
        → set_kernel_brk l addr m ≡ ok (success, moved m s heap_page)
        → Filled l.base read_write m.space s m.current_brk_page more
        → Outcome
    shrunk :
        (s : Space)
        → heap_page ≤ m.current_brk_page
        → set_kernel_brk l addr m ≡ ok (success, moved m s heap_page)
        → Undone l.base m.space s heap_page (m.current_brk_page - heap_page)
        → Outcome
    refused :
        (s : Space)
        → set_kernel_brk l addr m ≡ ok (error, with_pages m s)
        → Restored l.base m.space s
        → TooFew l.base m.space more
        → Outcome

  pub refuse : is_refused ≡ true → set_kernel_brk l addr m ≡ ok (error, m)
  unfolding set_kernel_brk
  refuse bad = rw bad

  module _ (v : Mapped l.base m.space) (accepted : is_refused ≡ false)
      (enabled : m.vm_enabled ≡ true) where
    zero_first : (n : ℕ) → n - 0 ≡ n
    zero_first n = omega arith

    pub grow :
        m.current_brk_page < heap_page
        → l.stack_page ≤ length m.space.pt
        → Unmapped m.space m.current_brk_page more
        → Outcome
    unfolding set_kernel_brk
    grow lt fits gap =
        let curr = m.current_brk_page in
        let up : ltb curr heap_page ≡ true = ground arith in
        let e = zero_first curr in
        elim (alloc_pages_lem l.base 0 curr read_write m.space (omega arith) more v
          (ground (arith, accepted, fits)) (rw e gap)) [
            | inl (s, run, f) ↦
                grown s lt (rw (set_kernel_brk, accepted, enabled, up, run)) (rw e at f)
            | inr (s, run, r, few) ↦
                refused s (rw (set_kernel_brk, accepted, enabled, up, run)) r few
          ]

    shrink : heap_page ≤ m.current_brk_page → Outcome
    unfolding set_kernel_brk
    shrink le =
        let down : ltb m.current_brk_page heap_page ≡ false = ground arith in
        let e = zero_first heap_page in
        let (s, run, u) =
          undo_allocation_lem l.base 0 (m.current_brk_page - heap_page) heap_page m.space v
            (omega arith) in
        shrunk s le (rw (set_kernel_brk, accepted, enabled, down, run)) (
          Undone-at l.base m.space s (heap_page - 0) heap_page (m.current_brk_page - heap_page) e u)

  -- With the kernel's pages mapped to frames of their own, none mapped from the break up to the stack, and a bit to spare in the
  -- bitset of frames: a break
  -- below the first one, or less than three pages below the stack or above that, is refused, and nothing changes. Without virtual
  -- memory the break moves and nothing else. With it, exactly the pages between the old break and a new one above
  -- it get frames that were free, or for want of frames the call fails and the valid pages, the free frames
  -- and the break stay as they were; for a new one not above it exactly the pages between are
  -- unmapped and their frames are free.
  pub set_kernel_brk_lem :
      Mapped l.base m.space
      → l.stack_page ≤ length m.space.pt
      → ((j : ℕ) → m.current_brk_page ≤ j → j < l.stack_page → (entry m.space.pt j).valid ≡ false)
      → ((is_refused ≡ true) × (set_kernel_brk l addr m ≡ ok (error, m)))
        ⊎ (((m.vm_enabled ≡ false)
              × (set_kernel_brk l addr m ≡ ok (success, moved m m.space heap_page)))
            ⊎ Outcome)
  unfolding set_kernel_brk
  set_kernel_brk_lem v fits gap = elim (Bool-cases is_refused) [
    | inl bad ↦ inl (bad, refuse bad)
    | inr accepted ↦ elim (Bool-cases m.vm_enabled) [
      | inr disabled ↦ inr (inl (disabled, rw (set_kernel_brk, accepted, disabled)))
      | inl enabled ↦ elim (Bool-cases (ltb m.current_brk_page heap_page)) [
        | inl up ↦ inr (
            inr (
              grow v accepted enabled (ground arith) fits
                (λ j h. gap j (ground (arith, h)) (ground (arith, h, accepted)))))
        | inr down ↦ inr (inr (shrink v accepted enabled (ground arith)))
      ]
    ]
  ]
