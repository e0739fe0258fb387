-- ===== src/Tty/Lines.antt =====
-- The lines that a terminal received: a read takes the next bytes of them, and no line is reordered.
use mathlib.Core.List.{append_assoc, append-nil}
use cs58final_project.Prelude.{
  ℕ, ◌+◌, ◌-◌, ◌≤◌, ◌≡◌, sym, ap, ◌∙◌, true, false, arith, List, [], ◌∷◌, ◌++◌, leb, ◌==◌, length,
  length-take, length-drop, take, drop, take-append-drop, min, Bool-cases, ◌⊎◌, inl, inr,
}
use cs58final_project.Machine.{error, wait_and_switch}
use cs58final_project.Tty.{
  RxLine, take_bytes, read_count, Tty, TtySys, TtyResult, put, set_pcb, bad_args, rq_push,
  consume_into_user, kernel_tty_read, returned, blocked,
}
use cs58final_project.Tty.Chunks.{drop-add, drop-all}
use cs58final_project.Tty.Advance.{list-cases}

-- a case distinction on a list that is known
pub cons_case {ℓ κ} :
    {A : Type ℓ} {B : Type κ} (xs : List A) (y : A) (ys : List A) (d : B) (f : A → List A → B)
    → xs ≡ y ∷ ys
    → (elim xs as (λ x. B) [ [] ↦ d | x ∷ rest ↦ f x rest ]) ≡ f y ys
cons_case xs y ys d f e = rw e

nil_case {ℓ κ} :
    {A : Type ℓ} {B : Type κ} (xs : List A) (d : B) (f : A → List A → B)
    → xs ≡ []
    → (elim xs as (λ x. B) [ [] ↦ d | x ∷ rest ↦ f x rest ]) ≡ d
nil_case xs d f e = rw e

-- what is left of a line
abbrev pub left : RxLine → List ℕ
left line = drop line.off line.buf

-- the bytes that wait for readers
pub unread : List RxLine → List ℕ
unread [] = []
unread (line ∷ rest) = left line ++ unread rest

-- A line holds its bytes, and some of them may be read.
pub record IsLine (line : RxLine) : Type 0 where
  pub size : line.len ≡ length line.buf
  pub inside : line.off ≤ line.len

abbrev pub AreLines : List RxLine → Type 0
AreLines [] = Unit {0}
AreLines (line ∷ rest) = IsLine line × AreLines rest

pub AreLines-snoc :
    (rx : List RxLine) (line : RxLine) → AreLines rx → IsLine line → AreLines (rx ++ line ∷ [])
AreLines-snoc [] line a b = (b, tt)
AreLines-snoc (l ∷ rx) line a b = (a.0, AreLines-snoc rx line a.1 b)

pub unread-snoc :
    (rx : List RxLine) (line : RxLine) → unread (rx ++ line ∷ []) ≡ unread rx ++ left line
unfolding unread
unread-snoc [] line = append-nil (left line)
unread-snoc (l ∷ rx) line =
    ap (λ (bs : List ℕ). left l ++ bs) (unread-snoc rx line)
    ∙ sym (append_assoc (left l) (unread rx) (left line))

-- What a read of `n` bytes of the first line takes from the lines of a terminal.
pub record Consumed (rx : List RxLine) (n : ℕ) (bytes : List ℕ) (rx' : List RxLine) : Type 0 where
  pub lines : AreLines rx'
  pub count : n ≡ length bytes
  pub order : unread rx ≡ bytes ++ unread rx'

module _ (t : Tty) (line : RxLine) (rest : List RxLine) (l : IsLine line) (ls : AreLines rest) where
  take_bytes_lem :
      (n : ℕ)
      → line.off + n ≤ line.len
      → (bytes : List ℕ) × (rx' : List RxLine) × (take_bytes t line rest n
          ≡ (n, bytes, record t { rx = rx' }))
        × Consumed (line ∷ rest) n bytes rx'
  unfolding take_bytes unread
  take_bytes_lem n fits =
      let bytes = take n (left line) in
      let size : n ≡ length bytes =
        omega (arith, length-take n (left line), length-drop line.off line.buf, l.size, fits) in
      let split = take-append-drop n (left line) in
      let behind : drop n (left line) ≡ drop (line.off + n) line.buf =
        sym (drop-add line.off n line.buf) in
      elim (Bool-cases (leb line.len (line.off + n))) [
        | inl used ↦ (
          bytes,
          rest,
          rw used,
          record {
            lines = ls;
            count = size;
            order =
                let whole : bytes ≡ left line =
                  sym (append-nil bytes)
                  ∙ ap (λ (bs : List ℕ). bytes ++ bs)
                      (sym
                        (behind ∙ drop-all (line.off + n) line.buf (ground (arith, used, l.size))))
                  ∙ split in
                ap (λ (bs : List ℕ). bs ++ unread rest) (sym whole);
          },
        )
        | inr more ↦
            let line' : RxLine = record line { off = line.off + n } in
            (
              bytes,
              line' ∷ rest,
              rw more,
              record {
                lines = (record { size = l.size; inside = fits }, ls);
                count = size;
                order =
                    ap (λ (bs : List ℕ). bs ++ unread rest)
                      (sym split ∙ ap (λ (bs : List ℕ). bytes ++ bs) behind)
                    ∙ append_assoc bytes (left line') (unread rest);
              },
            )
      ]

  read_count-inside : (len : ℕ) → line.off + read_count line len ≤ line.len
  unfolding read_count
  read_count-inside len = ground (arith, l.inside)

  pub read_count_lem : (len : ℕ) → read_count line len ≡ min (line.len - line.off) len
  unfolding read_count
  read_count_lem len = ground arith

-- What a reader of `len` bytes gets from the first line.
pub consume-first :
    (t : Tty) (line : RxLine) (rest : List RxLine) (len : ℕ)
    → t.rx ≡ line ∷ rest
    → AreLines t.rx
    → (bytes : List ℕ) × (rx' : List RxLine) × (consume_into_user t len
        ≡ (read_count line len, bytes, record t { rx = rx' }))
      × Consumed t.rx (read_count line len) bytes rx'
unfolding consume_into_user
consume-first t line rest len e lines =
    let (l, ls) : IsLine line × AreLines rest = rw e at lines in
    let (bytes, rx', run, c) =
      take_bytes_lem t line rest l ls (read_count line len)
        (read_count-inside t line rest l ls len) in
    (
      bytes,
      rx',
      cons_case t.rx line rest (0, [], t) (λ l ls. take_bytes t l ls (read_count l len)) e ∙ run,
      record { lines = c.lines; count = c.count; order = ap unread e ∙ c.order },
    )

module _ (num_terminals r0 r1 r2 : ℕ) (k : TtySys) where
  abbrev caller : ℕ
  caller = k.sched.running_proc

  -- the state in which the caller of a read waits for a line
  abbrev pub waiting_reader : TtySys
  waiting_reader =
      let pcb = record (k.sched.procs caller) { io_user_buf = r1; io_len = r2; io_tty_id = r0 } in
      record (put k r0 (rq_push (k.ttys r0) caller)) {
        sched = wait_and_switch (set_pcb k.sched caller pcb);
      }

  -- what a read stores and leaves
  abbrev pub ended : ℕ × List ℕ × Tty → TtyResult
  ended r = returned r.0 r.1 (put k r0 r.2)

  pub kernel_tty_read-lines :
      (line : RxLine) (rest : List RxLine)
      → bad_args num_terminals r0 r1 r2 ≡ false
      → (r2 == 0) ≡ false
      → (k.ttys r0).rx ≡ line ∷ rest
      → kernel_tty_read num_terminals r0 r1 r2 k ≡ ended (consume_into_user (k.ttys r0) r2)
  unfolding kernel_tty_read
  kernel_tty_read-lines line rest good more e =
      rw (good, more)
        (cons_case (k.ttys r0).rx line rest (blocked waiting_reader)
          (λ l ls. ended (consume_into_user (k.ttys r0) r2)) e)

  -- A read with arguments out of range returns ERROR, and one of no bytes returns 0; both change
  -- nothing. Of a terminal without lines the caller waits, behind the other readers. Or else the read
  -- returns the number of bytes that it stored: as many as the first line has left, at most as many as were
  -- asked for, and they are the next bytes of the terminal's lines, which then go on behind them.
  pub kernel_tty_read_lem :
      AreLines (k.ttys r0).rx
      → ((bad_args num_terminals r0 r1 r2 ≡ true)
          × (kernel_tty_read num_terminals r0 r1 r2 k ≡ returned error [] k))
        ⊎ ((((r2 == 0) ≡ true) × (kernel_tty_read num_terminals r0 r1 r2 k ≡ returned 0 [] k))
            ⊎ ((((k.ttys r0).rx ≡ [])
                  × (kernel_tty_read num_terminals r0 r1 r2 k ≡ blocked waiting_reader))
                ⊎ ((line : RxLine) × (rest : List RxLine) × (bytes : List ℕ) × (rx' : List RxLine)
                    × ((k.ttys r0).rx ≡ line ∷ rest)
                    × (kernel_tty_read num_terminals r0 r1 r2 k
                        ≡ returned
                            (length bytes)
                            bytes
                            (put k r0 (record (k.ttys r0) { rx = rx' })))
                    × (length bytes ≡ min (length (left line)) r2)
                    × (unread (k.ttys r0).rx ≡ bytes ++ unread rx')
                    × AreLines rx')))
  unfolding kernel_tty_read
  kernel_tty_read_lem lines = elim (Bool-cases (bad_args num_terminals r0 r1 r2)) [
    | inl bad ↦ inl (bad, rw bad)
    | inr good ↦ elim (Bool-cases (r2 == 0)) [
      | inl empty ↦ inr (inl (empty, rw (good, empty)))
      | inr more ↦ elim (list-cases (k.ttys r0).rx) [
        | inl e ↦ inr (
            inr (
              inl (
                e,
                rw (good, more)
                    (nil_case (k.ttys r0).rx (blocked waiting_reader)
                      (λ l ls. ended (consume_into_user (k.ttys r0) r2)) e),
              )))
        | inr (line, rest, e) ↦
            let (bytes, rx', run, c) = consume-first (k.ttys r0) line rest r2 e lines in
            let (l, ls) : IsLine line × AreLines rest = rw e at lines in
            let count = read_count_lem (k.ttys r0) line rest l ls r2 in
            let size = length-drop line.off line.buf in
            let stored = put k r0 (record (k.ttys r0) { rx = rx' }) in
            inr (
              inr (
                inr (
                  line,
                  rest,
                  bytes,
                  rx',
                  e,
                  kernel_tty_read-lines line rest good more e
                      ∙ ap ended run
                      ∙ ap (λ (n : ℕ). returned n bytes stored) c.count,
                  omega (arith, c.count, count, size, l.size),
                  c.order,
                  c.lines,
                )))
      ]
    ]
  ]
