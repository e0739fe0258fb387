-- ===== src/Kernel/State.antt =====
-- The whole kernel: the state of every part in one record, the views that the parts have of it, and the switch to another
-- process with its memory. `mem_ctx` of yalnix_framework/src/user_memory.c is the context of the running process. A
-- process that a call has blocked has the rest of that call in `pending`.
use cs58final_project.Prelude.{ℕ, Bool, List, ◌==◌, if◌then◌else◌}
use cs58final_project.Prelude.Run.{Run, ok, ◌>>=◌}
use cs58final_project.Process.{update}
use cs58final_project.Sched.{Sched}
use cs58final_project.Frames.{Frames}
use cs58final_project.Pages.{Pte}
use cs58final_project.UserMemory.{MemCtx, UserMem, Layout}
use cs58final_project.UserMemory.Bytes.{peek, store}
use cs58final_project.KernelMemory.{KernelMem, KernelLayout, kc_switch}
use cs58final_project.Pipe.{Pipes}
use cs58final_project.Pipe.Calls.{PipeSys}
use cs58final_project.Tty.{Tty, Transmit, TtySys}
use cs58final_project.Sync.{Lock, Cvar, Sync}
use cs58final_project.Loader.{Abi, File}

-- the rest of a call that has blocked
pub data Pending : Type 0 where
  nothing : Pending
  -- the status goes to the pointer
  child_status : ℕ → Pending
  -- the pipe with this index, a length, and a buffer
  pipe_bytes : ℕ → ℕ → ℕ → Pending
  tty_written : Pending
  tty_bytes : Pending

pub record Kern : Type 0 where
  pub sched : Sched
  pub frames : Frames
  pub contents : ℕ → List ℕ
  pub contexts : ℕ → MemCtx
  pub stacks : ℕ → List Pte
  pub region0_pt : List Pte
  pub vm_enabled : Bool
  pub current_brk_page : ℕ
  pub pipes : Pipes
  pub ttys : ℕ → Tty
  pub log : List Transmit
  pub locks : List Lock
  pub cvars : List Cvar
  pub open_lock_idx : ℕ
  pub open_cvar_idx : ℕ
  pub sp : ℕ → ℕ
  pub pc : ℕ → ℕ
  pub pending : ℕ → Pending

-- the machine's numbers
pub record Machine : Type 0 where
  pub layout : Layout
  pub kernel_layout : KernelLayout
  pub abi : Abi
  pub num_terminals : ℕ
  pub max_line : ℕ
  pub buffer_len : ℕ
  pub int_bytes : ℕ → List ℕ

-- Both regions use the same physical frames.
abbrev pub kernel_numbers : Machine → KernelLayout
kernel_numbers mc = record mc.kernel_layout { base = mc.layout.base }

-- What a trap gets from outside: whether the i-th allocation has memory, the address and the identifier of a new PCB,
-- and the files.
pub record Library : Type 0 where
  pub alloc : ℕ → Bool
  pub new_pcb : ℕ
  pub new_pid : ℕ
  pub open_file : List ℕ → File

-- The machine halts, or a process runs.
pub data Outcome : Type 0 where
  halted : Outcome
  goes_on : Kern → Outcome

-- a function with another value at one place
abbrev pub at {ℓ} : {A : Type ℓ} → (ℕ → A) → ℕ → A → ℕ → A
at f p a q = if q == p then a else f q

abbrev pub running : Kern → ℕ
running k = k.sched.running_proc

abbrev pub user_mem : Kern → UserMem
user_mem k = record { frames = k.frames; ctx = k.contexts (running k) }

abbrev pub with_user_mem : Kern → UserMem → Kern
with_user_mem k m = record k { frames = m.frames; contexts = at k.contexts (running k) m.ctx }

abbrev pub kernel_mem : Kern → KernelMem
kernel_mem k = record {
  space = record { frames = k.frames; pt = k.region0_pt };
  vm_enabled = k.vm_enabled;
  current_brk_page = k.current_brk_page;
}

abbrev pub with_kernel_mem : Kern → KernelMem → Kern
with_kernel_mem k m = record k {
  frames = m.space.frames;
  region0_pt = m.space.pt;
  vm_enabled = m.vm_enabled;
  current_brk_page = m.current_brk_page;
}

abbrev pub sync_of : Kern → Sync
sync_of k = record {
  locks = k.locks;
  cvars = k.cvars;
  open_lock_idx = k.open_lock_idx;
  open_cvar_idx = k.open_cvar_idx;
  sched = k.sched;
}

abbrev pub pipe_sys : Kern → PipeSys
pipe_sys k = record { table = k.pipes; sched = k.sched }

abbrev pub tty_sys : Kern → TtySys
tty_sys k = record { ttys = k.ttys; sched = k.sched; log = k.log }

-- what the code sees of the user's memory
abbrev pub user_byte : Machine → Kern → ℕ → ℕ
user_byte mc k = peek mc.layout mc.abi.page_size (k.contexts (running k)).region1_pt k.contents

-- The kernel writes into the memory of the running process.
unfoldable pub put_user : Machine → ℕ → List ℕ → Kern → Run Kern
put_user mc addr bytes k =
    store mc.layout mc.abi.page_size (k.contexts (running k)).region1_pt addr bytes k.contents
    >>= λ c. ok (record k { contents = c })

-- `p->uc.regs[0] = r0`
abbrev pub set_reg0 : ℕ → ℕ → Sched → Sched
set_reg0 p r0 s = record s { procs = update s.procs p (record (s.procs p) { reg0 = r0 }) }

abbrev pub return_to : ℕ → ℕ → Kern → Kern
return_to p r0 k = record k { sched = set_reg0 p r0 k.sched }

-- `KernelContextSwitch(KCSwitch, ...)`: the kernel stack of the process that runs now is mapped.
abbrev pub switch_stack : Machine → Kern → Kern
switch_stack mc k =
    with_kernel_mem k (kc_switch (kernel_numbers mc) (k.stacks (running k)) (kernel_mem k))

-- The scheduler's part of a call is done. If another process runs now, its kernel stack is mapped, and with it
-- `mem_ctx` is its own: the rest of `FullContextSwitch`.
unfoldable pub resched : Machine → Kern → Sched → Kern
resched mc k s =
    let k' = record k { sched = s } in
    if s.running_proc == running k then k' else switch_stack mc k'
