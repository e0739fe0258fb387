-- ===== src/UserMemory/Pointers.antt =====
-- yalnix_framework/src/syscalls.c: the checks of the pointers that a call gets from a process. User
-- memory is a function from addresses to bytes, or to the pointers that stand there.
use cs58final_project.Prelude.{
  ℕ, zero, suc, ◌+◌, ◌*◌, ◌≤◌, ◌<◌, ◌≡◌, ◌↔◌, refl, Bool, true, false, not, arith, inl, inr, ◌==◌,
  if◌then◌else◌, Bool-cases,
}
use cs58final_project.Machine.{is_negative}
use cs58final_project.UserMemory.{UserMem, Layout, has_perms}

-- MAX_STRING_LEN and MAX_ARGV_LEN
abbrev pub max_string_len : ℕ
max_string_len = 1024

abbrev pub max_argv_len : ℕ
max_argv_len = 1024

module _ (l : Layout) (m : UserMem) where
  -- The loop over a buffer, for `n` bytes from `a` on.
  pub buf_loop : ℕ → ℕ → Bool → Bool
  buf_loop zero a needs_write = true
  buf_loop (suc n) a needs_write =
      let rest = buf_loop n (a + 1) needs_write in
      if not (has_perms l a needs_write m) then false else rest

  -- `len` is a register: for a negative one the loop makes no round.
  pub check_c_buf : ℕ → ℕ → Bool → Bool
  check_c_buf str len needs_write =
      if str == 0 then false else buf_loop (if is_negative len then 0 else len) str needs_write

  -- the loop of `check_c_string` and, with pointers of `step` bytes, of `check_argv`, for `n` rounds from `a` on
  pub until_zero : (ℕ → ℕ) → ℕ → ℕ → ℕ → Bool
  until_zero memory step zero a = false
  until_zero memory step (suc n) a =
      let rest = until_zero memory step n (a + step) in
      if not (has_perms l a false m) then false else if memory a == 0 then true else rest

  pub check_c_string : (ℕ → ℕ) → ℕ → Bool
  check_c_string memory str = if str == 0 then false else until_zero memory 1 max_string_len str

  pub check_argv : (ℕ → ℕ) → ℕ → ℕ → Bool
  check_argv pointers pointer_size argv =
      if argv == 0 then false else until_zero pointers pointer_size max_argv_len argv

  buf_loop-all :
      (n a : ℕ) (w : Bool)
      → buf_loop n a w ≡ true
      → (i : ℕ) → i < n
      → has_perms l (a + i) w m ≡ true
  unfolding buf_loop
  buf_loop-all zero a w h i lt = absurd (omega arith)
  buf_loop-all (suc n) a w h zero lt = let e : a + 0 ≡ a = omega arith in rw e (ground (arith, h))
  buf_loop-all (suc n) a w h (suc i) lt =
      let e : a + suc i ≡ a + 1 + i = omega arith in
      rw e (buf_loop-all n (a + 1) w (ground (arith, h)) i (omega arith))

  all-buf_loop :
      (n a : ℕ) (w : Bool)
      → ((i : ℕ) → i < n → has_perms l (a + i) w m ≡ true)
      → buf_loop n a w ≡ true
  unfolding buf_loop
  all-buf_loop zero a w h = refl
  all-buf_loop (suc n) a w h =
      let e : a + 0 ≡ a = omega arith in
      let first : has_perms l a w m ≡ true = rw e at (h 0 (omega arith)) in
      rw first (
        all-buf_loop n (a + 1) w (λ i lt.
          let next : a + 1 + i ≡ a + suc i = omega arith in rw next (h (suc i) (omega arith))))

  -- A buffer of a process passes check_c_buf exactly if it is not NULL and the process may read, or where that
  -- is needed write, each of its bytes.
  pub check_c_buf_lem :
      (str len : ℕ) (w : Bool)
      → is_negative len ≡ false
      → (check_c_buf str len w ≡ true)
        ↔ ((0 < str) × ((i : ℕ) → i < len → has_perms l (str + i) w m ≡ true))
  unfolding check_c_buf
  check_c_buf_lem str len w pos =
      let count : (if is_negative len then 0 else len) ≡ len = ground (arith, pos) in
      elim (Bool-cases (str == 0)) [
        | inl null ↦
            (λ h. absurd (ground (arith, h)), λ (ne, all). absurd (ground (arith, null, ne)))
        | inr some_str ↦ (
          λ h. (ground arith, buf_loop-all len str w (rw (some_str, count) at h)),
          λ (ne, all). rw (some_str, count) (all-buf_loop len str w all),
        )
      ]

  -- A string or an argument vector that ends: an entry with zero, with no zero and read permission before it.
  pub record Ends (memory : ℕ → ℕ) (step n a : ℕ) : Type 0 where
    pub index : ℕ
    pub below : index < n
    pub stop : memory (a + step * index) ≡ 0
    pub allowed : (i : ℕ) → i ≤ index → has_perms l (a + step * i) false m ≡ true

  allowed_suc :
      (step k a : ℕ)
      → has_perms l a false m ≡ true
      → ((i : ℕ) → i ≤ k → has_perms l (a + step + step * i) false m ≡ true)
      → (i : ℕ) → i ≤ suc k
      → has_perms l (a + step * i) false m ≡ true
  allowed_suc step k a first rest zero le = let e : a + step * 0 ≡ a = omega arith in rw e first
  allowed_suc step k a first rest (suc i) le =
      let e : a + step * suc i ≡ a + step + step * i = omega arith in rw e (rest i (omega arith))

  until_zero-Ends :
      (memory : ℕ → ℕ) (step n a : ℕ) → until_zero memory step n a ≡ true → Ends memory step n a
  unfolding until_zero
  until_zero-Ends memory step zero a h = absurd (ground (arith, h))
  until_zero-Ends memory step (suc n) a h =
      let here : a + step * 0 ≡ a = omega arith in
      let first : has_perms l a false m ≡ true = ground (arith, h) in
      elim (Bool-cases (memory a == 0)) [
        | inl stops ↦ record {
          index = 0;
          below = omega arith;
          stop = rw here (ground arith);
          allowed = λ i le.
              let e : a + step * i ≡ a = let none : i ≡ 0 = omega arith in rw none here in
              rw e first;
        }
        | inr more ↦
            let t = until_zero-Ends memory step n (a + step) (ground (arith, h)) in
            record {
              index = suc t.index;
              below = omega (arith, t.below);
              stop =
                  let e : a + step * suc t.index ≡ a + step + step * t.index = omega arith in
                  rw e t.stop;
              allowed = allowed_suc step t.index a first t.allowed;
            }
      ]

  until_zero-at :
      (memory : ℕ → ℕ) (step n a k : ℕ)
      → k < n
      → memory (a + step * k) ≡ 0
      → ((i : ℕ) → i ≤ k → has_perms l (a + step * i) false m ≡ true)
      → until_zero memory step n a ≡ true
  unfolding until_zero
  until_zero-at memory step zero a k lt stop allowed = absurd (omega arith)
  until_zero-at memory step (suc n) a zero lt stop allowed =
      let e : a + step * 0 ≡ a = omega arith in
      let first : has_perms l a false m ≡ true = rw e at (allowed 0 (omega arith)) in
      let null : memory a ≡ 0 = rw e at stop in ground (arith, first, null)
  until_zero-at memory step (suc n) a (suc k) lt stop allowed =
      let e : a + step * 0 ≡ a = omega arith in
      let first : has_perms l a false m ≡ true = rw e at (allowed 0 (omega arith)) in
      let next : (i : ℕ) → a + step * suc i ≡ a + step + step * i = λ i. omega arith in
      let rest =
        until_zero-at memory step n (a + step) k (omega arith) (rw (next k) at stop)
          (λ i le. rw (next i) at (allowed (suc i) (omega arith))) in
      ground (arith, first, rest)

  checked :
      (memory : ℕ → ℕ) (step a : ℕ)
      → ((if a == 0 then false else until_zero memory step 1024 a) ≡ true)
        ↔ ((0 < a) × Ends memory step 1024 a)
  checked memory step a = elim (Bool-cases (a == 0)) [
    | inl null ↦ (λ h. absurd (ground (arith, h)), λ (ne, e). absurd (ground (arith, null, ne)))
    | inr some_a ↦ (
      λ h. (ground arith, until_zero-Ends memory step 1024 a (rw some_a at h)),
      λ (ne, e). rw some_a (until_zero-at memory step 1024 a e.index e.below e.stop e.allowed),
    )
  ]

  -- A string passes check_c_string exactly if it is not NULL and one of its first 1024 bytes is zero, up to which
  -- the process may read; an argument vector passes check_argv exactly if it is not NULL and one of its first 1024 pointers
  -- is NULL, and of each pointer up to that one the process may read the first byte. Of the other bytes of a pointer
  -- nothing is checked.
  pub check_strings_lem :
      (memory pointers : ℕ → ℕ) (pointer_size str argv : ℕ)
      → ((check_c_string memory str ≡ true) ↔ ((0 < str) × Ends memory 1 1024 str))
        × ((check_argv pointers pointer_size argv ≡ true)
            ↔ ((0 < argv) × Ends pointers pointer_size 1024 argv))
  unfolding check_c_string check_argv
  check_strings_lem memory pointers pointer_size str argv =
      (checked memory 1 str, checked pointers pointer_size argv)
