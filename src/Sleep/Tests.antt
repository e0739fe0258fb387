-- ===== src/Sleep/Tests.antt =====
-- The heap of sleepers at concrete entries: processes 1, 2 and 3, which wake at their own number.
use cs58final_project.Prelude.{
  ℕ, zero, suc, ◌+◌, ◌≤◌, ◌<◌, ◌≡◌, arith, false, some, [], ◌∷◌, length,
}
use cs58final_project.Prelude.Run.{ok}
use cs58final_project.Prelude.Arrays.{count}
use cs58final_project.Sleep.{Sleepers, remove_from_heap}
use cs58final_project.Sleep.Order.{IsHeap}
use cs58final_project.Sleep.Ops.{IsValid, remove_from_heap_lem}

abbrev number : ℕ → ℕ
number p = p

abbrev three : Sleepers
three = record { arr = 1 ∷ 3 ∷ 2 ∷ []; current_size = 20 }

three-IsHeap : IsHeap number three.arr
three-IsHeap zero p q = absurd (omega arith)
three-IsHeap (suc zero) p q = omega arith
three-IsHeap (suc (suc zero)) p q = omega arith
three-IsHeap (suc (suc (suc c))) p q = absurd (omega arith)

three-IsValid : IsValid number three
three-IsValid = record { heap = three-IsHeap; room = omega arith; some_room = omega arith }

remove_from_heap_lem_example :
    (h' : Sleepers) × (remove_from_heap number false three ≡ ok (some 1, h'))
    × IsValid number h'
    × (length h'.arr + 1 ≡ 3)
    × ((x : ℕ) → count x (1 ∷ h'.arr) ≡ count x three.arr)
    × ((x : ℕ) → 0 < count x h'.arr → 1 ≤ x)
remove_from_heap_lem_example = remove_from_heap_lem number false three three-IsValid (omega arith)
