-- ===== src/Pages.antt =====
-- The page tables of yalnix_framework: the entries that src/frame_tracking.c writes, and the functions
-- that src/user_memory.c and src/kernel_memory.c both have, each for its region. A region is the table
-- of its entries and the number of its first page. Virtual page numbers are numbers: the callers
-- compute no negative ones. Flushing the TLB has no effect on this state.
pub mod Laws
pub mod Range
pub mod Unmap
pub mod Fill
pub mod Moves
pub mod Steps
pub mod Owners
use cs58final_project.Prelude.{
  ℕ, zero, suc, ◌+◌, ◌-◌, Bool, true, false, not, ◌&&◌, Option, none, some, List, ltb,
  if◌then◌else◌, length, get_or, set,
}
use cs58final_project.Prelude.Run.{Run, ok, ◌>>=◌}
use cs58final_project.Frames.{Frames, find_frame, free_frame}

-- the bits PROT_READ, PROT_WRITE and PROT_EXEC
pub record Prot : Type 0 where
  pub read : Bool
  pub write : Bool
  pub exec : Bool

abbrev pub read_write : Prot
read_write = record { read = true; write = true; exec = false }

abbrev pub read_exec : Prot
read_exec = record { read = true; write = false; exec = true }

abbrev pub no_access : Prot
no_access = record { read = false; write = false; exec = false }

pub record Pte : Type 0 where
  pub valid : Bool
  pub pfn : ℕ
  pub prot : Prot

-- what `calloc` leaves
abbrev pub zero_pte : Pte
zero_pte = record { valid = false; pfn = 0; prot = no_access }

-- the entry at an index
abbrev pub entry : List Pte → ℕ → Pte
entry pt i = get_or pt i zero_pte

abbrev pub create_pte : List Pte → ℕ → ℕ → Prot → List Pte
create_pte pt i pfn prot = set pt i (record { valid = true; pfn = pfn; prot = prot })

-- the frame of the entry, which is no longer valid
abbrev pub destroy_pte : List Pte → ℕ → ℕ × List Pte
destroy_pte pt i = ((entry pt i).pfn, set pt i (record (entry pt i) { valid = false }))

-- the physical frames and the page table of a region
pub record Space : Type 0 where
  pub frames : Frames
  pub pt : List Pte

-- `base` is the number of the first physical frame, `first` that of the region's first page.
module _ (base first : ℕ) where
  abbrev pub in_region : ℕ → Space → Bool
  in_region vpn s = not (ltb vpn first) && ltb (vpn - first) (length s.pt)

  -- The frame is taken before the page number is tested.
  unfoldable pub alloc_page : ℕ → Prot → Space → Run (Bool × Space)
  alloc_page vpn prot s = find_frame base s.frames >>= λ r. ok (elim r.0 [
    | none ↦ (false, record s { frames = r.1 })
    | some pfn ↦
        if in_region vpn s
        then (true, record { frames = r.1; pt = create_pte s.pt (vpn - first) pfn prot })
        else (false, record s { frames = r.1 })
  ])

  unfoldable pub dealloc_page : ℕ → Space → Run (Bool × Space)
  dealloc_page vpn s =
      let (pfn, pt') = destroy_pte s.pt (vpn - first) in
      if in_region vpn s && (entry s.pt (vpn - first)).valid
      then (free_frame base s.frames pfn >>= λ r. ok (r.0, record { frames = r.1; pt = pt' }))
      else ok (false, s)

  -- `none` is -1.
  unfoldable pub unmap_no_free : ℕ → Space → Option ℕ × Space
  unmap_no_free vpn s =
      let (pfn, pt') = destroy_pte s.pt (vpn - first) in
      if in_region vpn s then (some pfn, record s { pt = pt' }) else (none, s)

  -- the loop of `undo_allocation`, for `n` pages from `vpn` on
  unfoldable pub undo_allocation : ℕ → ℕ → Space → Run Space
  undo_allocation zero vpn s = ok s
  undo_allocation (suc n) vpn s = dealloc_page vpn s >>= λ r. undo_allocation n (vpn + 1) r.1

  -- The loop that allocates `n` pages from `vpn` on. If one of them fails, the pages from `start` up
  -- to it are given back.
  pub alloc_pages : Prot → ℕ → ℕ → ℕ → Space → Run (Bool × Space)
  alloc_pages prot start zero vpn s = ok (true, s)
  alloc_pages prot start (suc n) vpn s = alloc_page vpn prot s >>= λ r. elim r.0 [
    | true ↦ alloc_pages prot start n (vpn + 1) r.1
    | false ↦ undo_allocation (vpn - start) start r.1 >>= λ s'. ok (false, s')
  ]
