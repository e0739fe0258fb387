-- ===== src/Sync/Tables/Laws.antt =====
-- new_lock and delete_lock: the table as a partial map from identifiers to live locks.
use cs58final_project.Prelude.{
  ℕ, ◌<◌, ◌≡◌, refl, sym, ap, ◌∙◌, Bool, true, false, arith, Option, none, some, List, [], ltb,
  ◌==◌, if◌then◌else◌, length, set, Bool-cases, inl, inr, ◌⊎◌, get_elem?,
}
use cs58final_project.Prelude.Int.{ltb_ℤ, pos}
use cs58final_project.Sync.{Lock, zero_lock, live_lock}
use cs58final_project.Sync.Slots.Laws.{live, is_some, keep, live-outside}
use cs58final_project.Sync.Tables.{
  Table, open_slot, close_slot, lock_used, fresh_lock, new_lock, delete_lock,
}
use cs58final_project.Sync.Tables.Valid.{
  TableIsValid, grow-Grown, open_slot-IsValid, close_slot-IsValid,
}

is_some-none : (o : Option Lock) → is_some lock_used o ≡ false → o ≡ none
is_some-none none h = refl
is_some-none (some l) h = absurd (ground arith)

live_lock-live : (ls : List Lock) (i : ℕ) → live_lock ls i ≡ live lock_used ls i
unfolding live_lock
live_lock-live ls i =
    elim (get_elem? ls i)
      as (λ o.
        elim o [ none ↦ none | some l ↦ if l.in_use then some l else none ] ≡ keep lock_used o) [
          | none ↦ refl
          | some l ↦ refl
        ]

-- In a valid table with a free entry or memory to grow, and with memory for the holders, a lock is
-- created with an identifier that no lock had, and with all its permits; every other lock is left
-- alone and the table stays valid.
pub new_lock_lem :
    (allocated : Bool) (capacity : ℕ) (t : Table Lock)
    → TableIsValid lock_used t
    → (allocated ≡ true) ⊎ (t.open_idx < length t.slots)
    → (k : ℕ) × (t' : Table Lock) × (new_lock allocated true capacity t ≡ (some k, t'))
      × TableIsValid lock_used t'
      × (live lock_used t.slots k ≡ none)
      × ((j : ℕ)
          → live lock_used t'.slots j
            ≡ (if j == k then some (fresh_lock capacity) else live lock_used t.slots j))
unfolding new_lock
new_lock_lem allocated capacity t v enough =
    elim (grow-Grown lock_used zero_lock t refl v allocated) [
      | inl (e, refused, full) ↦ elim enough [
        | inl got ↦ absurd (ground (arith, sym refused ∙ got))
        | inr room ↦ absurd (omega (arith, full, room))
      ]
      | inr (t', e, g) ↦
          let (v', at) = open_slot-IsValid lock_used (fresh_lock capacity) t' refl g.valid g.room in
          (
            t'.open_idx,
            open_slot lock_used (fresh_lock capacity) t',
            rw (e, new_lock) refl,
            v',
            sym (g.same t'.open_idx)
                ∙ is_some-none (live lock_used t'.slots t'.open_idx) g.valid.gap,
            λ j.
                at j
                ∙ ap
                    (λ (o : Option Lock).
                      if j == t'.open_idx then some (fresh_lock capacity) else o)
                    (g.same j),
          )
    ]

-- In a valid table, a live lock that no process needs can be deleted: its identifier, and no other,
-- stops being live, and the table stays valid, whether or not there is memory for a smaller one.
pub delete_lock_lem :
    (allocated : Bool) (i : ℕ) (t : Table Lock) (l : Lock)
    → TableIsValid lock_used t
    → live lock_used t.slots i ≡ some l
    → ltb_ℤ (pos 0) l.needed_by ≡ false
    → (t' : Table Lock) × (delete_lock allocated i t ≡ (true, t'))
      × TableIsValid lock_used t'
      × ((j : ℕ) → live lock_used t'.slots j ≡ (if j == i then none else live lock_used t.slots j))
unfolding delete_lock
delete_lock_lem allocated i t l v found unneeded =
    let x : Lock = record l { in_use = false; pids = [] } in
    let inside : i < length t.slots = elim (Bool-cases (ltb i (length t.slots))) [
      | inl below ↦ ground arith
      | inr above ↦ absurd (ground (arith, live-outside lock_used t.slots i))
    ] in
    let (valid, at) = close_slot-IsValid lock_used t i x allocated refl v inside in
    (
      close_slot lock_used allocated i (set t.slots i x) t.open_idx,
      rw (live_lock-live t.slots i ∙ found, delete_lock, unneeded),
      valid,
      at,
    )
