-- ===== src/KernelMemory.antt =====
-- yalnix_framework/src/kernel_memory.c: the pages of region 0, the kernel's heap and its stacks. Of
-- hardware.h and the loader the model takes the first frame, the pages of the kernel's text, data and
-- stack, the page behind an address (`UP_TO_PAGE(a) >> PAGESHIFT`) and the address of a page as parameters.
-- Register contexts and `WriteRegister` are left out; the bytes of the kernel's stacks are those of
-- their frames.
pub mod Brk
pub mod Stack
pub mod Copy
pub mod StackBytes
pub mod Boot
mod Tests
use cs58final_project.Prelude.{
  ℕ, zero, suc, ◌+◌, ◌-◌, Bool, true, false, not, ◌&&◌, ◌||◌, Option, none, some, List, [], ◌∷◌,
  ◌++◌, ltb, leb, ◌==◌, if◌then◌else◌, length, set, take, drop, replicate,
}
use cs58final_project.Prelude.Run.{Run, ok, fault, ◌>>=◌}
use cs58final_project.Machine.{error, success}
use cs58final_project.Frames.{Frames, acquire_frame, free_frame}
use cs58final_project.Pages.{
  Prot, Pte, zero_pte, entry, create_pte, read_write, read_exec, Space, in_region, unmap_no_free,
  undo_allocation, alloc_pages,
}

-- the frames, `region0_pt`, `vm_enabled` and `current_brk_page`
pub record KernelMem : Type 0 where
  pub space : Space
  pub vm_enabled : Bool
  pub current_brk_page : ℕ

pub record KernelLayout : Type 0 where
  pub base : ℕ
  pub text_page : ℕ
  pub data_page : ℕ
  pub orig_brk_page : ℕ
  pub stack_page : ℕ
  pub stack_pages : ℕ
  pub region_pages : ℕ
  pub page_up : ℕ → ℕ
  pub page_address : ℕ → ℕ

unfoldable pub enable_vm : KernelMem → KernelMem
enable_vm m = record m { vm_enabled = true }

module _ (l : KernelLayout) where
  pub init_kernel_brk : KernelMem → KernelMem
  init_kernel_brk m = record m { current_brk_page = l.orig_brk_page }

  -- one of the loops of `init_region0_pt`, for `n` pages from `vpn` on: each is mapped to the frame of its number
  pub identity_map : Prot → ℕ → ℕ → Space → Run (Bool × Space)
  identity_map prot zero vpn s = ok (true, s)
  identity_map prot (suc n) vpn s = acquire_frame l.base s.frames vpn >>= λ r.
      let rest =
        identity_map prot n (vpn + 1)
          (record { frames = r.1; pt = create_pte s.pt vpn vpn prot }) in
      if r.0 then rest else ok (false, record s { frames = r.1 })

  -- with the stack's entries for the idle process
  pub init_region0_pt : KernelMem → Run (Option (List Pte) × KernelMem)
  init_region0_pt m =
      let s0 = record m.space { pt = replicate l.region_pages zero_pte } in
      let failed : Space → Run (Option (List Pte) × KernelMem) =
        λ s. ok (none, record m { space = s }) in
      identity_map read_exec (l.data_page - l.text_page) l.text_page s0 >>= λ r1.
      if not r1.0
      then failed r1.1
      else identity_map read_write (m.current_brk_page - l.data_page) l.data_page r1.1 >>= λ r2.
          if not r2.0
          then failed r2.1
          else identity_map read_write l.stack_pages l.stack_page r2.1 >>= λ r3.
              if not r3.0
              then failed r3.1
              else ok
                  (some (take l.stack_pages (drop l.stack_page r3.1.pt)), record m { space = r3.1 })

  -- `heap_page >= stack_page - 2` without a negative number.
  unfoldable pub set_kernel_brk : ℕ → KernelMem → Run (ℕ × KernelMem)
  set_kernel_brk addr m =
      let heap_page = l.page_up addr in
      let curr = m.current_brk_page in
      let moved : Space → KernelMem = λ s. record m { space = s; current_brk_page = heap_page } in
      if ltb heap_page l.orig_brk_page || leb l.stack_page (heap_page + 2)
      then ok (error, m)
      else if not m.vm_enabled
      then ok (success, moved m.space)
      else if ltb curr heap_page
      then (alloc_pages l.base 0 read_write curr (heap_page - curr) curr m.space >>= λ r.
          ok (if r.0 then (success, moved r.1) else (error, record m { space = r.1 })))
      else (undo_allocation l.base 0 (curr - heap_page) heap_page m.space >>= λ s.
          ok (success, moved s))

  -- The `memcpy` of `KCCopy`, page by page for `n` pages: from `from` to `to`. A page that is not valid is a fault.
  unfoldable pub copy_stack : ℕ → ℕ → ℕ → List Pte → (ℕ → List ℕ) → Run (ℕ → List ℕ)
  copy_stack zero from to pt contents = ok contents
  copy_stack (suc n) from to pt contents =
      let target = (entry pt to).pfn in
      let bytes = contents (entry pt from).pfn in
      let rest =
        copy_stack n (from + 1) (to + 1) pt (λ f. if f == target then bytes else contents f) in
      if (entry pt from).valid && (entry pt to).valid then rest else fault

  -- the loop of `KCCopy`, for `n` pages from `vpn` on: the entries of the new stack
  unfoldable pub take_pages : ℕ → ℕ → Space → Run (List Pte × Space)
  take_pages zero vpn s = ok ([], s)
  take_pages (suc n) vpn s =
      let (unmapped, s') = unmap_no_free l.base 0 vpn s in
      let rest = take_pages n (vpn + 1) s' in
      elim unmapped [
        | none ↦ fault
        | some pfn ↦
            rest >>= λ r. ok (record { valid = true; pfn = pfn; prot = read_write } ∷ r.0, r.1)
      ]

  -- `none` is NULL; or else the stack entries of the new process, and the bytes of the frames.
  unfoldable pub kc_copy :
      KernelMem → (ℕ → List ℕ) → Run (Option (List Pte × (ℕ → List ℕ)) × KernelMem)
  kc_copy m contents =
      let true_brk = m.current_brk_page in
      set_kernel_brk (l.page_address (true_brk + l.stack_pages)) m >>= λ r.
      let copied = copy_stack l.stack_pages l.stack_page true_brk r.1.space.pt contents in
      let taken = take_pages l.stack_pages true_brk r.1.space in
      if r.0 == error
      then ok (none, r.1)
      else copied >>= λ bytes. taken >>= λ t.
          ok (some (t.0, bytes), record r.1 { space = t.1; current_brk_page = true_brk })

  -- `memcpy` of entries into the table, from index `i` on
  unfoldable pub install : List Pte → ℕ → List Pte → List Pte
  install [] i pt = pt
  install (e ∷ es) i pt = install es (i + 1) (set pt i e)

  -- The kernel stack of the next process is mapped.
  unfoldable pub kc_switch : List Pte → KernelMem → KernelMem
  kc_switch ks_pt m = record m {
    space = record m.space { pt = install ks_pt l.stack_page m.space.pt };
  }

  unfoldable pub free_no_unmap : ℕ → Space → Run (Bool × Space)
  free_no_unmap vpn s =
      if in_region l.base 0 vpn s && (entry s.pt vpn).valid
      then (free_frame l.base s.frames (entry s.pt vpn).pfn >>= λ r.
          ok (r.0, record s { frames = r.1 }))
      else ok (false, s)

  -- the loop of `deallocate_kernel_stack`, for `n` pages from `vpn` on
  unfoldable pub free_pages : ℕ → ℕ → Space → Run Space
  free_pages zero vpn s = ok s
  free_pages (suc n) vpn s = free_no_unmap vpn s >>= λ r. free_pages n (vpn + 1) r.1

  unfoldable pub deallocate_kernel_stack : KernelMem → Run KernelMem
  deallocate_kernel_stack m =
      free_pages l.stack_pages l.stack_page m.space >>= λ s. ok (record m { space = s })
