-- ===== src/Pipe.antt =====
-- yalnix_framework/src/pipe.c: pipes with a circular buffer that grows, and the table of pipes.
-- Registers are 32-bit patterns. Bytes are only moved, so a byte is any number. `calloc` and
-- `malloc` are Boolean arguments: whether there is memory. The blocked readers are a list of PCBs,
-- first to last. A length is a number without wrap-around.
pub mod Ring
pub mod Grow
pub mod Table
pub mod Calls
mod Tests
use cs58final_project.Prelude.{
  ℕ, zero, suc, ◌+◌, ◌-◌, ◌*◌, ◌%◌, ◌^◌, Bool, true, false, not, ◌&&◌, ◌||◌, Option, none, some,
  List, [], ◌∷◌, ◌++◌, ltb, leb, ◌==◌, if◌then◌else◌, length, get_elem?, get_or, set, replicate,
  min,
}
use cs58final_project.Prelude.Run.{Run, ok, out_of_fuel, ◌>>=◌}

pub record Pipe : Type 0 where
  pub in_use : Bool
  pub buf : List ℕ
  pub cap : ℕ
  pub head : ℕ
  pub len : ℕ
  pub readers : List ℕ

-- `calloc`, or `memset` to zero
abbrev pub zero_pipe : Pipe
zero_pipe = record { in_use = false; buf = []; cap = 0; head = 0; len = 0; readers = [] }

-- The table holds `pipes[0 .. pipes_size)`, so its length is `pipes_size`.
pub record Pipes : Type 0 where
  pub pipes : List Pipe
  pub open_pipe_idx : ℕ

pub init_pipes : Bool → Option Pipes
init_pipes allocated =
    if allocated then some (record { pipes = replicate 10 zero_pipe; open_pipe_idx = 0 }) else none

-- Circular buffer operations

-- `while (new_cap < needed) new_cap *= 2`
pub double : ℕ → ℕ → ℕ → Run ℕ
double zero new_cap needed = out_of_fuel
double (suc fuel) new_cap needed =
    let rest = double fuel (new_cap * 2) needed in if ltb new_cap needed then rest else ok new_cap

-- the `n` bytes from index `h` on, going round at `cap`
pub linearize : List ℕ → ℕ → ℕ → ℕ → List ℕ
linearize buf cap h zero = []
linearize buf cap h (suc n) = get_or buf (h % cap) 0 ∷ linearize buf cap (h + 1) n

-- The bytes behind the copied ones are not yet written; the model has zeros there.
pub ensure_capacity : Bool → Pipe → ℕ → Run (Bool × Pipe)
ensure_capacity allocated p needed =
    if leb needed p.cap
    then ok (true, p)
    else double (needed + 1) p.cap needed >>= λ new_cap.
        if allocated
        then ok (
          true,
          record p {
            buf = linearize p.buf p.cap p.head p.len ++ replicate (new_cap - p.len) 0;
            cap = new_cap;
            head = 0;
          },
        )
        else ok (false, p)

pub append_bytes : Pipe → List ℕ → Pipe
append_bytes p [] = p
append_bytes p (b ∷ bs) =
    append_bytes (record p { buf = set p.buf ((p.head + p.len) % p.cap) b; len = p.len + 1 }) bs

-- the loop of `read_bytes`: the bytes that go to the caller's buffer, and the new head
pub read_loop : Pipe → ℕ → ℕ → List ℕ × ℕ
read_loop p head zero = ([], head)
read_loop p head (suc n) =
    let (bytes, head') = read_loop p ((head + 1) % p.cap) n in (get_or p.buf head 0 ∷ bytes, head')

-- The result is the number of bytes with the bytes themselves.
pub read_bytes : Pipe → ℕ → ℕ × List ℕ × Pipe
read_bytes p n =
    let bytes = if ltb p.len n then p.len else n in
    let (out, head) = read_loop p p.head bytes in
    let len = p.len - bytes in
    (bytes, out, record p { len = len; head = if len == 0 then 0 else head })

-- The table of pipes

-- A negative identifier is none of the numbers below the table's size.
pub get_pipe : Pipes → ℕ → Option Pipe
get_pipe t i = elim (get_elem? t.pipes i) [
  | none ↦ none
  | some p ↦ if p.in_use then some p else none
]

-- `while (open_pipe_idx < pipes_size && pipes[open_pipe_idx].in_use) open_pipe_idx++`,
-- over the entries from the index on
pub skip_open : List Pipe → ℕ → ℕ
skip_open [] i = i
skip_open (p ∷ ps) i = let rest = skip_open ps (i + 1) in if p.in_use then rest else i

abbrev pub from : ℕ → List Pipe → List Pipe
from zero ps = ps
from (suc n) [] = []
from (suc n) (p ∷ ps) = from n ps

-- the pipe that `new_pipe` sets up
abbrev pub fresh_pipe : ℕ → Pipe
fresh_pipe buffer_len = record zero_pipe {
  in_use = true;
  buf = replicate buffer_len 0;
  cap = buffer_len;
}

-- `grown` and `buffer` say whether the table and the buffer could be allocated; `none` is ERROR.
pub new_pipe : ℕ → Bool → Bool → Pipes → Option ℕ × Pipes
new_pipe buffer_len grown buffer t =
    let size = length t.pipes in
    let full = leb size t.open_pipe_idx in
    let table = if full then t.pipes ++ replicate size zero_pipe else t.pipes in
    let i = t.open_pipe_idx in
    let opened = set table i (fresh_pipe buffer_len) in
    if full && not grown
    then (none, t)
    else if buffer
    then (some i, record { pipes = opened; open_pipe_idx = skip_open (from i opened) i })
    else (none, record t { pipes = set table i zero_pipe })

pub reclaimed : Pipes → ℕ → Pipes
reclaimed t i = record {
  pipes = set t.pipes i zero_pipe;
  open_pipe_idx = if ltb i t.open_pipe_idx then i else t.open_pipe_idx;
}

abbrev pub no_readers : List ℕ → Bool
no_readers [] = true
no_readers (p ∷ ps) = false

pub pipe_reclaim : Pipes → ℕ → Bool × Pipes
pipe_reclaim t i = elim (get_pipe t i) [
  | none ↦ (false, t)
  | some p ↦ if no_readers p.readers then (true, reclaimed t i) else (false, t)
]
