-- ===== src/UserMemory.antt =====
-- yalnix_framework/src/user_memory.c: the pages of region 1, which belong to a process. Of hardware.h
-- the model takes the first page of region 1, the page of an address (`DOWN_TO_PAGE(a) >>
-- PAGESHIFT`) and the page behind it (`UP_TO_PAGE(a) >> PAGESHIFT`) as parameters. An address is a
-- number: a negative one is below region 1 for every test. The memory context of the running process
-- is in the state; `WriteRegister` has no effect on it.
pub mod Brk
pub mod Stack
pub mod Pointers
pub mod Fork
pub mod Copies
pub mod Child
pub mod Bytes
pub mod Moves
pub mod Prots
mod Tests
use cs58final_project.Prelude.{
  ℕ, zero, suc, ◌+◌, ◌-◌, Bool, true, false, not, ◌&&◌, ◌||◌, Option, none, some, List, ltb, leb,
  ◌==◌, if◌then◌else◌, length, get_or, set,
}
use cs58final_project.Prelude.Run.{Run, ok, fault, ◌>>=◌}
use cs58final_project.Machine.{error, success}
use cs58final_project.Frames.{Frames, free_frame}
use cs58final_project.Pages.{
  Prot, Pte, zero_pte, entry, create_pte, read_write, read_exec, Space, in_region, alloc_page,
  unmap_no_free, undo_allocation, alloc_pages,
}

-- `mem_ctx_t`
pub record MemCtx : Type 0 where
  pub region1_pt : List Pte
  pub curr_brk_page : ℕ
  pub orig_brk_page : ℕ
  pub txt_start_page : ℕ
  pub data_start_page : ℕ

-- the frames, and the memory context of the running process
pub record UserMem : Type 0 where
  pub frames : Frames
  pub ctx : MemCtx

abbrev pub space_of : UserMem → Space
space_of m = record { frames = m.frames; pt = m.ctx.region1_pt }

abbrev pub with_space : UserMem → Space → UserMem
with_space m s = record { frames = s.frames; ctx = record m.ctx { region1_pt = s.pt } }

-- the hardware's numbers: first frame, first page of region 1, and the pages of an address
pub record Layout : Type 0 where
  pub base : ℕ
  pub first : ℕ
  pub page_down : ℕ → ℕ
  pub page_up : ℕ → ℕ
  pub vmem_base : ℕ
  pub vmem_limit : ℕ

module _ (l : Layout) where
  -- one page behind the last one of region 1
  abbrev pub limit_vpn : UserMem → ℕ
  limit_vpn m = l.first + length m.ctx.region1_pt

  pub init_region1_pt : UserMem → Run (Bool × UserMem)
  init_region1_pt m =
      let ctx = record m.ctx {
        txt_start_page = l.first;
        data_start_page = l.first;
        orig_brk_page = l.first;
        curr_brk_page = l.first;
      } in
      let m' = record m { ctx = ctx } in
      alloc_page l.base l.first (l.page_down (l.vmem_limit - 1)) read_write (space_of m') >>= λ r.
      ok (r.0, with_space m' r.1)

  -- Register 0. `heap_page >= stack_page - 1` without a negative number.
  pub kernel_brk_impl : ℕ → ℕ → UserMem → Run (ℕ × UserMem)
  kernel_brk_impl addr sp m =
      let heap_page = l.page_up addr in
      let curr = m.ctx.curr_brk_page in
      let moved : Space → UserMem = λ s. record {
        frames = s.frames;
        ctx = record m.ctx { region1_pt = s.pt; curr_brk_page = heap_page };
      } in
      if ltb heap_page m.ctx.orig_brk_page || leb (l.page_down sp) (heap_page + 1)
      then ok (error, m)
      else if ltb curr heap_page
      then (alloc_pages l.base l.first read_write curr (heap_page - curr) curr (space_of m) >>= λ r.
          ok (if r.0 then (success, moved r.1) else (error, with_space m r.1)))
      else (undo_allocation l.base l.first (curr - heap_page) heap_page (space_of m) >>= λ s.
          ok (success, moved s))

  pub has_perms : ℕ → Bool → UserMem → Bool
  has_perms addr needs_write m =
      let e = entry m.ctx.region1_pt (l.page_down addr - l.first) in
      not (ltb addr l.vmem_base || leb l.vmem_limit addr)
      && (e.valid && (e.prot.read && (not needs_write || e.prot.write)))

  -- The loop of `expand_stack`, for `n` pages from `vpn` up to the end of the region. Whether a page could be had
  -- is not looked at.
  pub expand_loop : ℕ → ℕ → Space → Run Space
  expand_loop zero vpn s = ok s
  expand_loop (suc n) vpn s =
      if (entry s.pt (vpn - l.first)).valid
      then ok s
      else (alloc_page l.base l.first vpn read_write s >>= λ r. expand_loop n (vpn + 1) r.1)

  pub expand_stack : ℕ → UserMem → Run (Bool × UserMem)
  expand_stack sp m =
      let page = l.page_down sp in
      if ltb sp l.vmem_base || leb l.vmem_limit sp
      then ok (false, m)
      else if ltb page (m.ctx.curr_brk_page + 1)
      then ok (false, m)
      else (expand_loop (limit_vpn m - page) page (space_of m) >>= λ s. ok (true, with_space m s))

  pub alloc_region : ℕ → ℕ → Prot → UserMem → Run (Bool × UserMem)
  alloc_region start end prot m =
      if ltb start l.first || ltb (limit_vpn m) end
      then ok (false, m)
      else (alloc_pages l.base l.first prot start (end - start) start (space_of m) >>= λ r.
          ok (r.0, with_space m r.1))

  pub change_prot : ℕ → Prot → List Pte → List Pte
  change_prot vpn prot pt =
      let i = vpn - l.first in
      if ltb vpn l.first || leb (length pt) i
      then pt
      else if (entry pt i).valid
      then set pt i (record (entry pt i) { prot = prot })
      else pt

  pub change_prots : ℕ → ℕ → Prot → List Pte → List Pte
  change_prots zero vpn prot pt = pt
  change_prots (suc n) vpn prot pt = change_prots n (vpn + 1) prot (change_prot vpn prot pt)

  pub prot_region : ℕ → ℕ → Prot → UserMem → UserMem
  prot_region start end prot m =
      if ltb start l.first || ltb (limit_vpn m) end then m else record m {
        ctx = record m.ctx { region1_pt = change_prots (end - start) start prot m.ctx.region1_pt };
      }

  -- the next process brings its context
  pub uc_switch : MemCtx → UserMem → UserMem
  uc_switch next m = record m { ctx = next }

  pub deallocate_region1 : UserMem → Run UserMem
  deallocate_region1 m =
      undo_allocation l.base l.first (length m.ctx.region1_pt) l.first (space_of m) >>= λ s.
      ok (with_space m s)

  -- The loop of `destroy_pt` over the entries from index `i` on: `free_frame` for each valid one.
  unfoldable pub destroy_pt : ℕ → ℕ → List Pte → Frames → Run Frames
  destroy_pt zero i pt frames = ok frames
  destroy_pt (suc n) i pt frames =
      let rest = λ (r : Bool × Frames). destroy_pt n (i + 1) pt r.1 in
      (if (entry pt i).valid then free_frame l.base frames (entry pt i).pfn else ok (true, frames))
      >>= rest

-- The state of a fork: the parent's memory, the child's page table, and the bytes of each frame.
pub record ForkMem : Type 0 where
  pub mem : UserMem
  pub child_pt : List Pte
  pub contents : ℕ → List ℕ

abbrev pub write_frame : (ℕ → List ℕ) → ℕ → List ℕ → ℕ → List ℕ
write_frame contents f bytes g = if g == f then bytes else contents g

module _ (l : Layout) where
  -- One round of a loop of `UCCopy`: the page is copied into a frame mapped at the break, which is then
  -- unmapped and given to the child. Reading a page that is not valid is a fault.
  unfoldable pub copy_page : ℕ → ℕ → Prot → ForkMem → Run (Bool × ForkMem)
  copy_page brk vpn prot f =
      let source = entry f.mem.ctx.region1_pt (vpn - l.first) in
      alloc_page l.base l.first brk read_write (space_of f.mem) >>= λ r.
      let (unmapped, s) = unmap_no_free l.base l.first brk r.1 in
      if not r.0 then ok (false, record f { mem = with_space f.mem r.1 }) else elim unmapped [
        | none ↦ fault
        | some pfn ↦
            if not source.valid
            then fault
            else ok (
              true,
              record {
                mem = with_space f.mem s;
                child_pt = create_pte f.child_pt (vpn - l.first) pfn prot;
                contents = write_frame f.contents pfn (f.contents source.pfn);
              },
            )
      ]

  -- The loop, for `n` pages from `vpn` on. If there is no frame, the child's frames below are given back.
  unfoldable pub copy_pages : ℕ → ℕ → ℕ → Prot → ForkMem → Run (Bool × ForkMem)
  copy_pages brk zero vpn prot f = ok (true, f)
  copy_pages brk (suc n) vpn prot f = copy_page brk vpn prot f >>= λ r. elim r.0 [
    | true ↦ copy_pages brk n (vpn + 1) prot r.1
    | false ↦ destroy_pt l (vpn - l.first) 0 r.1.child_pt r.1.mem.frames >>= λ frames.
        ok (false, record r.1 { mem = record r.1.mem { frames = frames } })
  ]

  -- text, data with heap, and stack; the child's context at the end
  unfoldable pub uc_copy : ℕ → ForkMem → Run (Bool × ForkMem × MemCtx)
  uc_copy sp f =
      let c = f.mem.ctx in
      let stack = l.page_down sp in
      let child : ForkMem → MemCtx = λ g. record c { region1_pt = g.child_pt } in
      let zero_ctx : MemCtx = record {
        region1_pt = f.child_pt;
        curr_brk_page = 0;
        orig_brk_page = 0;
        txt_start_page = 0;
        data_start_page = 0;
      } in
      let failed : ForkMem → Run (Bool × ForkMem × MemCtx) =
        λ g. ok (false, g, record zero_ctx { region1_pt = g.child_pt }) in
      if leb stack c.curr_brk_page
      then failed f
      else copy_pages c.curr_brk_page (c.data_start_page - c.txt_start_page) c.txt_start_page
          read_exec f
        >>= λ r1.
            if not r1.0
            then failed r1.1
            else copy_pages c.curr_brk_page (c.curr_brk_page - c.data_start_page) c.data_start_page
                read_write r1.1
              >>= λ r2.
                  if not r2.0
                  then failed r2.1
                  else copy_pages c.curr_brk_page (limit_vpn l f.mem - stack) stack read_write r2.1
                    >>= λ r3. if r3.0 then ok (true, r3.1, child r3.1) else failed r3.1
