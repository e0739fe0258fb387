-- ===== src/UserMemory/Child.antt =====
-- UCCopy as a whole: text, data with heap, and stack of the child.
use cs58final_project.Prelude.{ℕ, ◌+◌, ◌-◌, ◌≤◌, ◌≡◌, true, false, length}
use cs58final_project.Frames.Inv.{is_free}
use cs58final_project.Pages.{Prot, entry, read_write, read_exec}
use cs58final_project.Pages.Range.{within}
use cs58final_project.Pages.Fill.{TooFew}
use cs58final_project.UserMemory.{MemCtx, Layout, ForkMem, space_of, limit_vpn}
use cs58final_project.UserMemory.Fork.{Forks, Apart, Copied}

module _ (l : Layout) where
  -- The child of `g` has the `n` pages from index `k` on of the parent of `f`.
  pub record HasCopies (prot : Prot) (f g : ForkMem) (k n : ℕ) : Type 0 where
    pub valid : (j : ℕ) → within k n j ≡ true → (entry g.child_pt j).valid ≡ true
    pub protected : (j : ℕ) → within k n j ≡ true → (entry g.child_pt j).prot ≡ prot
    pub bytes :
        (j : ℕ)
        → within k n j ≡ true
        → g.contents (entry g.child_pt j).pfn ≡ f.contents (entry f.mem.ctx.region1_pt j).pfn
    -- in a frame that nobody had before the fork
    pub fresh :
        (j : ℕ)
        → within k n j ≡ true
        → is_free f.mem.frames ((entry g.child_pt j).pfn - l.base) ≡ true

  -- The parent has its pages, and they have their bytes.
  pub record KeepsParent (f g : ForkMem) : Type 0 where
    pub valid :
        (j : ℕ) → (entry g.mem.ctx.region1_pt j).valid ≡ (entry f.mem.ctx.region1_pt j).valid
    pub entries :
        (j : ℕ)
        → (entry f.mem.ctx.region1_pt j).valid ≡ true
        → entry g.mem.ctx.region1_pt j ≡ entry f.mem.ctx.region1_pt j
    pub size : length g.mem.ctx.region1_pt ≡ length f.mem.ctx.region1_pt
    pub bytes :
        (m : ℕ) → is_free f.mem.frames m ≡ false → g.contents (m + l.base) ≡ f.contents (m + l.base)
    pub used : (m : ℕ) → is_free f.mem.frames m ≡ false → is_free g.mem.frames m ≡ false

  module _ (sp : ℕ) (f : ForkMem) where
    abbrev c : MemCtx
    c = f.mem.ctx

    abbrev pub stack : ℕ
    stack = l.page_down sp

    -- index and number of the pages of text, of data with heap, and of the stack
    abbrev pub text_index : ℕ
    text_index = c.txt_start_page - l.first

    abbrev pub text_pages : ℕ
    text_pages = c.data_start_page - c.txt_start_page

    abbrev pub data_index : ℕ
    data_index = c.data_start_page - l.first

    abbrev pub data_pages : ℕ
    data_pages = c.curr_brk_page - c.data_start_page

    abbrev pub stack_index : ℕ
    stack_index = stack - l.first

    abbrev pub stack_pages : ℕ
    stack_pages = limit_vpn l f.mem - stack

    -- What holds of a process that forks, and of the empty table of its child.
    pub record CanFork : Type 0 where
      pub forks : Forks l c.curr_brk_page f
      pub low : l.first ≤ c.txt_start_page
      pub text : c.txt_start_page ≤ c.data_start_page
      pub data_heap : c.data_start_page ≤ c.curr_brk_page
      pub high : stack ≤ limit_vpn l f.mem
      pub text_valid :
          (j : ℕ) → within text_index text_pages j ≡ true → (entry c.region1_pt j).valid ≡ true
      pub data_valid :
          (j : ℕ) → within data_index data_pages j ≡ true → (entry c.region1_pt j).valid ≡ true
      pub stack_valid :
          (j : ℕ) → within stack_index stack_pages j ≡ true → (entry c.region1_pt j).valid ≡ true
      pub empty : (j : ℕ) → (entry f.child_pt j).valid ≡ false

    -- a child with a copy of every page
    pub record IsCopy (g : ForkMem) : Type 0 where
      pub text : HasCopies read_exec f g text_index text_pages
      pub data_heap : HasCopies read_write f g data_index data_pages
      pub stack : HasCopies read_write f g stack_index stack_pages
      pub parent : KeepsParent f g
      -- no two pages of the child share a frame, none has one of the parent's, and all of them are in use
      pub apart : Apart l.base (space_of g.mem) g.child_pt

    -- The part for which fewer frames are free than it has pages, once the parts before it are copied.
    pub data RunsOut : Type 0 where
      no_text : TooFew l.base (space_of f.mem) text_pages → RunsOut
      no_data :
          (g1 : ForkMem)
          → Copied l read_exec f g1 text_index text_pages
          → TooFew l.base (space_of g1.mem) data_pages
          → RunsOut
      no_stack :
          (g1 g2 : ForkMem)
          → Copied l read_exec f g1 text_index text_pages
          → Copied l read_write g1 g2 data_index data_pages
          → TooFew l.base (space_of g2.mem) stack_pages
          → RunsOut

    -- the context of a child that is given up
    abbrev failed_ctx : ForkMem → MemCtx
    failed_ctx g = record {
      region1_pt = g.child_pt;
      curr_brk_page = 0;
      orig_brk_page = 0;
      txt_start_page = 0;
      data_start_page = 0;
    }
