-- ===== src/Kernel/Memory.antt =====
-- The calls of yalnix_framework/src/syscalls.c that work on a process's memory or on a buffer in it. A buffer is checked
-- before the call of the pipe or terminal sees it.
use cs58final_project.Prelude.{
  ℕ, ◌+◌, ◌<◌, ◌≡◌, Bool, true, false, [], ◌⊎◌, inl, inr, if◌then◌else◌, Bool-cases,
}
use cs58final_project.Prelude.Run.{Run, ok}
use cs58final_project.Machine.{error, is_negative}
use cs58final_project.Pipe.Calls
use cs58final_project.Pipe.Calls.{PipeSys, ReadResult, pipe_read, pipe_write}
use cs58final_project.Tty
use cs58final_project.Tty.{TtySys, TtyResult, kernel_tty_read, kernel_tty_write}
use cs58final_project.UserMemory.{UserMem, Layout, has_perms, kernel_brk_impl}
use cs58final_project.UserMemory.Pointers.{check_c_buf, check_c_buf_lem}

module _ (l : Layout) (m : UserMem) where
  unfoldable pub kernel_brk : ℕ → ℕ → Run (ℕ × UserMem)
  kernel_brk r0 sp = kernel_brk_impl l r0 sp m

  pub tty_read_call : ℕ → ℕ → ℕ → ℕ → TtySys → TtyResult
  tty_read_call num_terminals r0 r1 r2 k =
      if check_c_buf l m r1 r2 true
      then kernel_tty_read num_terminals r0 r1 r2 k
      else Tty.returned error [] k

  pub tty_write_call : ℕ → ℕ → Bool → (ℕ → ℕ) → ℕ → ℕ → ℕ → TtySys → Run TtyResult
  tty_write_call max_line num_terminals allocated memory r0 r1 r2 k =
      if check_c_buf l m r1 r2 false
      then kernel_tty_write max_line num_terminals allocated memory r0 r1 r2 k
      else ok (Tty.returned error [] k)

  pub pipe_read_call : ℕ → ℕ → ℕ → PipeSys → ReadResult
  pipe_read_call r0 r1 r2 k =
      if check_c_buf l m r1 r2 true then pipe_read r0 r1 r2 k else Calls.returned error [] k

  pub pipe_write_call : Bool → (ℕ → ℕ) → ℕ → ℕ → ℕ → PipeSys → Run (ℕ × PipeSys)
  pipe_write_call allocated memory r0 r1 r2 k =
      if check_c_buf l m r1 r2 false then pipe_write allocated memory r0 r1 r2 k else ok (error, k)

  -- The call goes on with a buffer of the process, each byte of which it may read, or write where that is needed; a
  -- negative length is left to the call.
  abbrev pub IsAccessible : ℕ → ℕ → Bool → Type 0
  IsAccessible r1 r2 w =
      (is_negative r2 ≡ true) ⊎ ((0 < r1) × ((i : ℕ) → i < r2 → has_perms l (r1 + i) w m ≡ true))

  -- a guarded result: that of the call, or the refusal
  guard_lem {ℓ} :
      {R : Type ℓ} (r1 r2 : ℕ) (w : Bool) (call refusal : R)
      → let result : R = if check_c_buf l m r1 r2 w then call else refusal in
        (result ≡ refusal) ⊎ (IsAccessible r1 r2 w × (result ≡ call))
  guard_lem r1 r2 w call refusal = elim (Bool-cases (check_c_buf l m r1 r2 w)) [
    | inr bad ↦ inl (rw bad)
    | inl good ↦ inr (
      elim (Bool-cases (is_negative r2)) [
        | inl negative ↦ inl negative
        | inr len ↦ inr ((check_c_buf_lem l m r1 r2 w len).0 good)
      ],
      rw good,
    )
  ]

  module _ (r0 r1 r2 num_terminals max_line : ℕ) (allocated : Bool) (memory : ℕ → ℕ) (t : TtySys)
      (p : PipeSys) where
    -- Reads and writes of terminals and pipes return ERROR and change nothing, or they go on with a buffer each byte
    -- of which the process may read, and write to for a read; a negative length is left to the call itself.
    pub buffer_calls_lem :
        ((tty_read_call num_terminals r0 r1 r2 t ≡ Tty.returned error [] t)
          ⊎ (IsAccessible r1 r2 true
              × (tty_read_call num_terminals r0 r1 r2 t
                  ≡ kernel_tty_read num_terminals r0 r1 r2 t)))
        × ((tty_write_call max_line num_terminals allocated memory r0 r1 r2 t
              ≡ ok (Tty.returned error [] t))
            ⊎ (IsAccessible r1 r2 false
                × (tty_write_call max_line num_terminals allocated memory r0 r1 r2 t
                    ≡ kernel_tty_write max_line num_terminals allocated memory r0 r1 r2 t)))
        × ((pipe_read_call r0 r1 r2 p ≡ Calls.returned error [] p)
            ⊎ (IsAccessible r1 r2 true × (pipe_read_call r0 r1 r2 p ≡ pipe_read r0 r1 r2 p)))
        × ((pipe_write_call allocated memory r0 r1 r2 p ≡ ok (error, p))
            ⊎ (IsAccessible r1 r2 false
                × (pipe_write_call allocated memory r0 r1 r2 p
                    ≡ pipe_write allocated memory r0 r1 r2 p)))
    unfolding tty_read_call tty_write_call pipe_read_call pipe_write_call
    buffer_calls_lem = (
      guard_lem r1 r2 true (kernel_tty_read num_terminals r0 r1 r2 t) (Tty.returned error [] t),
      guard_lem r1 r2 false (kernel_tty_write max_line num_terminals allocated memory r0 r1 r2 t)
          (ok (Tty.returned error [] t)),
      guard_lem r1 r2 true (pipe_read r0 r1 r2 p) (Calls.returned error [] p),
      guard_lem r1 r2 false (pipe_write allocated memory r0 r1 r2 p) (ok (error, p)),
    )
