-- ===== src/Sleep.antt =====
-- yalnix_framework/src/scheduler.c, the min-heap of sleeping processes. A process is the number of
-- its PCB; the clock tick at which it should resume (`wake_up`) is the parameter `key`, since no
-- heap routine writes it. The list holds `arr[0 .. length)`, so its length is the field `length`.
pub mod Order
pub mod Up
pub mod Down
pub mod Ops
mod Tests
use cs58final_project.Prelude.{
  ℕ, zero, suc, ◌+◌, ◌-◌, ◌*◌, ◌/◌, Bool, true, false, not, ◌&&◌, Option, none, some, List, [], ◌∷◌,
  ◌++◌, ltb, leb, ◌==◌, if◌then◌else◌, length, get_or, set, take,
}
use cs58final_project.Prelude.Run.{Run, ok, out_of_fuel, ◌>>=◌}
use cs58final_project.Prelude.Arrays.{swap}

pub record Sleepers : Type 0 where
  pub arr : List ℕ
  pub current_size : ℕ

-- `calloc` and `memcpy`: the entries stay, if there is memory.
pub resize_heap : Bool → ℕ → Sleepers → Bool × Sleepers
resize_heap allocated size h =
    if allocated then (true, record h { current_size = size }) else (false, h)

-- The array is halved if it is less than half full; 5 is HEAP_MIN_SIZE.
pub shrink : Bool → Sleepers → Sleepers
shrink allocated h =
    if ltb (length h.arr) (h.current_size / 2) && ltb 5 h.current_size
    then (resize_heap allocated (h.current_size / 2) h).1
    else h

module _ (key : ℕ → ℕ) where
  abbrev pub key_at : List ℕ → ℕ → ℕ
  key_at a i = key (get_or a i 0)

  abbrev pub compare : List ℕ → ℕ → ℕ → Bool
  compare a i j = ltb (key_at a i) (key_at a j)

  -- the `while (i > 0)` of `add_to_heap`
  pub sift_up : ℕ → List ℕ → ℕ → Run (List ℕ)
  sift_up zero a i = out_of_fuel
  sift_up (suc fuel) a i =
      let parent = (i - 1) / 2 in
      let rise = sift_up fuel (swap a parent i) parent in
      if i == 0 then ok a else if compare a parent i then ok a else rise

  -- Whether the process was added; there is no room if the array is full and cannot grow.
  pub add_to_heap : Bool → Sleepers → ℕ → Run (Bool × Sleepers)
  add_to_heap allocated h p =
      let n = length h.arr in
      let (room, h') =
        if leb h.current_size n then resize_heap allocated (h.current_size * 2) h else (true, h) in
      if room
      then (sift_up (n + 1) (h'.arr ++ p ∷ []) n >>= λ a. ok (true, record h' { arr = a }))
      else ok (false, h')

  -- The smallest of an entry and its children: the two tests run in order, each against `least`.
  pub least_of : List ℕ → ℕ → ℕ
  least_of a i =
      let left = 2 * i + 1 in
      let right = 2 * i + 2 in
      let least = if ltb left (length a) && compare a left i then left else i in
      if ltb right (length a) && compare a right least then right else least

  -- the `while (true)` of `remove_from_heap`
  pub sift_down : ℕ → List ℕ → ℕ → Run (List ℕ)
  sift_down zero a i = out_of_fuel
  sift_down (suc fuel) a i =
      let least = least_of a i in
      let sink = sift_down fuel (swap a least i) least in if least == i then ok a else sink

  -- The last entry moves to the root; then the array may shrink.
  pub remove_from_heap : Bool → Sleepers → Run (Option ℕ × Sleepers)
  remove_from_heap allocated h =
      let n = length h.arr - 1 in
      if length h.arr == 0
      then ok (none, h)
      else sift_down (n + 1) (take n (set h.arr 0 (get_or h.arr n 0))) 0 >>= λ a.
          ok (some (get_or h.arr 0 0), shrink allocated (record h { arr = a }))
