-- ===== src/UserMemory/Bytes.antt =====
-- The bytes of a process in its frames, as the memory accesses of the kernel's code reach them through the page table.
-- A page has `page_size` bytes. A write below region 1 is one to the kernel's own memory, which the model does not follow: it ends
-- `wild`. A write to a page of region 1 that is not valid or may not be written is a fault. A read is total: the kernel's code
-- reads the memory of a process only where check_c_buf, check_c_string or check_argv has passed, so that a
-- page that is not valid can be met only in the later bytes of a pointer of an argument vector.
pub mod Access
use cs58final_project.Prelude.{
  ℕ, ◌+◌, ◌-◌, ◌%◌, ◌&&◌, ltb, List, [], ◌∷◌, get_or, set, if◌then◌else◌,
}
use cs58final_project.Prelude.Run.{Run, ok, fault, wild, ◌>>=◌}
use cs58final_project.Pages.{Pte, entry}
use cs58final_project.UserMemory.{Layout, write_frame}

module _ (l : Layout) (page_size : ℕ) where
  -- the entry for the page of an address
  abbrev pub page_of : List Pte → ℕ → Pte
  page_of pt addr = entry pt (l.page_down addr - l.first)

  pub peek : List Pte → (ℕ → List ℕ) → ℕ → ℕ
  peek pt contents addr = get_or (contents (page_of pt addr).pfn) (addr % page_size) 0

  unfoldable pub poke : List Pte → ℕ → ℕ → (ℕ → List ℕ) → Run (ℕ → List ℕ)
  poke pt addr b contents =
      let e = page_of pt addr in
      if ltb (l.page_down addr) l.first
      then wild
      else if e.valid && e.prot.write
      then ok (write_frame contents e.pfn (set (contents e.pfn) (addr % page_size) b))
      else fault

  -- the bytes from an address on
  unfoldable pub store : List Pte → ℕ → List ℕ → (ℕ → List ℕ) → Run (ℕ → List ℕ)
  store pt addr [] contents = ok contents
  store pt addr (b ∷ bs) contents = poke pt addr b contents >>= λ c. store pt (addr + 1) bs c
