-- ===== src/Loader.antt =====
-- yalnix_framework/src/load_program.c. The file is an argument: whether it could be opened, what LoadInfo says of it, and
-- what `read` gives for a place and a size, `none` for another count, which is taken to have stored nothing: the process
-- is killed then. Strings are lists of bytes without the zero at their end. The page of an address less
-- REGION1_BASE_VPN is never computed on its own, since it may be negative.
pub mod Build
pub mod Moves
pub mod Arguments
mod Tests
use cs58final_project.Prelude.{
  ℕ, zero, suc, ◌+◌, ◌-◌, ◌*◌, ◌/◌, ◌%◌, Bool, true, false, not, Option, none, some, List, [], ◌∷◌,
  ◌++◌, map, ltb, leb, ◌==◌, if◌then◌else◌, length, get_or, set, replicate,
}
use cs58final_project.Prelude.Run.{Run, ok, fault, ◌>>=◌}
use cs58final_project.Pages.{Pte, entry, read_write, read_exec}
use cs58final_project.UserMemory.{
  MemCtx, UserMem, Layout, limit_vpn, alloc_region, prot_region, deallocate_region1,
}
use cs58final_project.UserMemory.Bytes.{store}

-- `struct load_info`
pub record LoadInfo : Type 0 where
  pub entry : ℕ
  pub t_vaddr : ℕ
  pub t_faddr : ℕ
  pub t_npg : ℕ
  pub id_vaddr : ℕ
  pub id_faddr : ℕ
  pub id_npg : ℕ
  pub ud_npg : ℕ
  pub id_end : ℕ
  pub ud_end : ℕ

pub record File : Type 0 where
  pub opened : Bool
  pub info : Option LoadInfo
  pub read : ℕ → ℕ → Option (List ℕ)

-- PAGESIZE, sizeof(void *), POST_ARGV_NULL_SPACE, INITIAL_STACK_FRAME_SIZE and MAX_PT_LEN, and the
-- bytes of a pointer in memory, to and fro
pub record Abi : Type 0 where
  pub page_size : ℕ
  pub pointer_size : ℕ
  pub post_argv_null_space : ℕ
  pub initial_stack_frame_size : ℕ
  pub max_pt_len : ℕ
  pub pointer_bytes : ℕ → List ℕ
  pub pointer_of : List ℕ → ℕ

-- The bytes that the arguments take, each with its zero.
pub args_size : List (List ℕ) → ℕ
args_size [] = 0
args_size (a ∷ args) = length a + 1 + args_size args

-- Where the parts of the new process go: first pages and numbers of pages, and the addresses of the
-- arguments `cp`, of their pointers `cpp`, and of the stack.
pub record Plan : Type 0 where
  pub text : ℕ
  pub text_npg : ℕ
  pub start : ℕ
  pub data_npg : ℕ
  pub stack_npg : ℕ
  pub cp : ℕ
  pub cpp : ℕ
  pub sp : ℕ

-- ERROR leaves the memory alone, and may have set the stack pointer. KILL comes after the old pages are gone.
pub data LoadResult : Type 0 where
  load_error : Option ℕ → LoadResult
  kill : ℕ → UserMem → (ℕ → List ℕ) → LoadResult
  loaded : ℕ → ℕ → UserMem → (ℕ → List ℕ) → LoadResult

module _ (l : Layout) where
  -- the new pages of region 1, or false for KILL
  pub build : Plan → UserMem → Run (Bool × UserMem)
  build p m = deallocate_region1 l m >>= λ m0.
      alloc_region l p.text (p.text + p.text_npg) read_write m0 >>= λ r1.
      if not r1.0
      then ok (false, r1.1)
      else alloc_region l p.start (p.start + p.data_npg) read_write r1.1 >>= λ r2.
          if not r2.0
          then ok (false, r2.1)
          else alloc_region l (limit_vpn l r2.1 - p.stack_npg) (limit_vpn l r2.1) read_write r2.1

  -- The pages of the text are for reading and executing from now on, and the break is behind the data.
  pub finish : Plan → UserMem → UserMem
  finish p m =
      let m' = prot_region l p.text (p.text + p.text_npg) read_exec m in
      let brk = p.start + p.data_npg in
      record m' {
        ctx = record m'.ctx {
          txt_start_page = p.text;
          data_start_page = p.start;
          orig_brk_page = brk;
          curr_brk_page = brk;
        };
      }

module _ (l : Layout) (a : Abi) where
  -- `cpp - INITIAL_STACK_FRAME_SIZE` counts pointers.
  pub plan : List (List ℕ) → LoadInfo → UserMem → Plan
  plan args li m =
      let cp = l.vmem_limit - args_size args in
      let cpp = (cp - (length args + 3 + a.post_argv_null_space) * a.pointer_size) / 8 * 8 in
      let sp = cpp - a.initial_stack_frame_size * a.pointer_size in
      record {
        text = l.page_down li.t_vaddr;
        text_npg = li.t_npg;
        start = l.page_down li.id_vaddr;
        data_npg = li.id_npg + li.ud_npg;
        stack_npg = limit_vpn l m - l.page_down sp;
        cp = cp;
        cpp = cpp;
        sp = sp;
      }

  -- `stack_npg + data_pg1 + data_npg >= MAX_PT_LEN`
  pub too_large : Plan → Bool
  too_large p = leb (a.max_pt_len + l.first) (p.stack_npg + p.start + p.data_npg)

  -- writes into the pages of a table
  abbrev put_bytes : List Pte → ℕ → List ℕ → (ℕ → List ℕ) → Run (ℕ → List ℕ)
  put_bytes pt = store l a.page_size pt

  -- the arguments from `cp` on, their pointers from `cpp` on, and two NULL pointers
  pub store_args : List Pte → ℕ → ℕ → List (List ℕ) → (ℕ → List ℕ) → Run (ℕ → List ℕ)
  store_args pt cp cpp [] contents =
      put_bytes pt cpp (a.pointer_bytes 0 ++ a.pointer_bytes 0) contents
  store_args pt cp cpp (arg ∷ args) contents =
      put_bytes pt cpp (a.pointer_bytes cp) contents >>= λ c1.
      put_bytes pt cp (arg ++ 0 ∷ []) c1 >>= λ c2.
      store_args pt (cp + length arg + 1) (cpp + a.pointer_size) args c2

  -- argc, the argument vector and the strings, on a stack that is cleared first
  pub build_stack : List Pte → Plan → List (List ℕ) → (ℕ → List ℕ) → Run (ℕ → List ℕ)
  build_stack pt p args contents =
      put_bytes pt p.cpp (replicate (l.vmem_limit - p.cpp) 0) contents >>= λ c1.
      put_bytes pt p.cpp (a.pointer_bytes (length args)) c1 >>= λ c2.
      store_args pt p.cp (p.cpp + a.pointer_size) args c2

  -- the two segments from the file, into the pages that were built
  pub read_segments : File → LoadInfo → List Pte → (ℕ → List ℕ) → Run (Bool × (ℕ → List ℕ))
  read_segments file li pt contents = elim (file.read li.t_faddr (li.t_npg * a.page_size)) [
    | none ↦ ok (false, contents)
    | some text ↦ put_bytes pt li.t_vaddr text contents >>= λ c1.
        elim (file.read li.id_faddr (li.id_npg * a.page_size)) [
          | none ↦ ok (false, c1)
          | some bytes ↦ put_bytes pt li.id_vaddr bytes c1 >>= λ c2. ok (true, c2)
        ]
  ]

  -- what follows the checks
  pub load_checked :
      File → LoadInfo → List (List ℕ) → Plan → UserMem → (ℕ → List ℕ) → Run LoadResult
  load_checked file li args p m contents = build l p m >>= λ r.
      if not r.0
      then ok (kill p.sp r.1 contents)
      else read_segments file li r.1.ctx.region1_pt contents >>= λ s.
          if not s.0
          then ok (kill p.sp r.1 s.1)
          else let m' = finish l p r.1 in
            put_bytes m'.ctx.region1_pt li.id_end (replicate (li.ud_end - li.id_end) 0) s.1
            >>= λ c1.
                build_stack m'.ctx.region1_pt p args c1 >>= λ c2. ok (loaded li.entry p.sp m' c2)

  -- what follows `LoadInfo`; `allocated` says whether there is memory for the copies of the arguments
  pub load_file :
      Bool → File → List (List ℕ) → UserMem → (ℕ → List ℕ) → Option LoadInfo → Run LoadResult
  load_file allocated file args m contents none = ok (load_error none)
  load_file allocated file args m contents (some li) =
      let p = plan args li m in
      if ltb li.entry l.vmem_base
      then ok (load_error none)
      else if too_large p
      then ok (load_error none)
      else if not allocated
      then ok (load_error (some p.sp))
      else load_checked file li args p m contents

  pub load_program : Bool → File → List (List ℕ) → UserMem → (ℕ → List ℕ) → Run LoadResult
  load_program allocated file args m contents =
      if not file.opened
      then ok (load_error none)
      else load_file allocated file args m contents file.info
