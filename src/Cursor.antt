-- ===== src/Cursor.antt =====
-- lib/buffer/cursor.c: a reading position in a buffer of bytes that the caller owns.
pub mod Unread
pub mod Steps
pub mod Prefix
pub mod SkipWhile
mod Tests
use k4c.Base.{
  ℕ, zero, suc, ◌+◌, ◌-◌, ltb, leb, ◌==◌, ◌&&◌, ◌||◌, if◌then◌else◌, Bool, true, false, Option,
  none, some, List, [], ◌∷◌, length, get_elem?, take, drop, Run, done, panic, out_of_fuel, not,
  and_then,
}
use k4c.Base.Bytes.{same_bytes}
use k4c.Size.{add_size, sub_size}
use k4c.Status.{Status, ok, eof, is_ok}

-- `struct k4c_buf_cursor`; `bytes` is what stands at `data`
pub record Cursor : Type 0 where
  pub bytes : List ℕ
  pub len : ℕ
  pub pos : ℕ

-- `k4c_buf_cursor_create`; the data is `none` for NULL
unfoldable pub create : Option (List ℕ) → ℕ → Run Cursor
create none len = if len == 0 then done (record { bytes = []; len = len; pos = 0 }) else panic
create (some bytes) len = done (record { bytes = bytes; len = len; pos = 0 })

-- `k4c_buf_cursor_create_from_cstr`; the text is given without its final zero byte
unfoldable pub create_from_cstr : List ℕ → Run Cursor
unfolding create
create_from_cstr text = create (some text) (length text)

-- `k4c_buf_cursor_at_end`
unfoldable pub at_end : Cursor → Bool
at_end c = leb c.len c.pos

-- `k4c_buf_cursor_remaining`
unfoldable pub remaining : Cursor → ℕ
remaining c = if leb c.len c.pos then 0 else c.len - c.pos

-- `k4c_buf_cursor_peek_at`
unfoldable pub peek_at : Cursor → ℕ → Status × Option ℕ
unfolding remaining
peek_at c offset =
    if leb (remaining c) offset
    then (eof, none)
    else (ok, get_elem? c.bytes (add_size c.pos offset))

-- `k4c_buf_cursor_peek`
unfoldable pub peek : Cursor → Status × Option ℕ
unfolding peek_at
peek c = peek_at c 0

-- `k4c_buf_cursor_starts_with`, at `len` bytes of `prefix`
unfoldable pub starts_with : Cursor → List ℕ → ℕ → Bool
unfolding remaining same_bytes
starts_with c prefix len =
    if ltb (remaining c) len then false else same_bytes len (drop c.pos c.bytes) prefix

-- `cursor->pos += count`
abbrev pub advance : Cursor → ℕ → Cursor
advance c count = record c { pos = add_size c.pos count }

-- `k4c_buf_cursor_next`
unfoldable pub next : Cursor → Status × Option ℕ × Cursor
unfolding peek
next c = let (st, out) = peek c in if is_ok st then (ok, out, advance c 1) else (st, none, c)

-- `k4c_buf_cursor_skip`
unfoldable pub skip : Cursor → ℕ → Status × Cursor
unfolding remaining
skip c count = if ltb (remaining c) count then (eof, c) else (ok, advance c count)

-- `k4c_buf_cursor_next_if`
unfoldable pub next_if : Cursor → ℕ → Bool × Cursor
unfolding peek
next_if c expected =
    let (st, out) = peek c in
    elim out [
      | none ↦ (false, c)
      | some byte ↦
          if not (is_ok st) || not (byte == expected) then (false, c) else (true, advance c 1)
    ]

-- the loop of `k4c_buf_cursor_skip_while`; the predicate has its context applied
unfoldable pub skip_loop : (ℕ → Bool) → ℕ → Cursor → Run Cursor
skip_loop predicate zero c = out_of_fuel
skip_loop predicate (suc fuel) c =
    let rest = skip_loop predicate fuel (advance c 1) in
    let (st, out) = peek c in
    let round : Run Cursor = elim out [
      | none ↦ done c
      | some byte ↦ if not (is_ok st) || not (predicate byte) then done c else rest
    ] in
    if at_end c then done c else round

-- `k4c_buf_cursor_skip_while`: every round moves the position, up to `len`
unfoldable pub skip_while : Cursor → (ℕ → Bool) → Run (ℕ × Cursor)
unfolding skip_loop
skip_while c predicate =
    and_then (skip_loop predicate (c.len + 1) c) λ r. done (sub_size r.pos c.pos, r)

-- `k4c_buf_cursor_is_ascii_whitespace`: space, tab, newline, carriage return, form feed, vertical tab
unfoldable pub is_ascii_whitespace : ℕ → Bool
is_ascii_whitespace byte =
    byte == b' ' || byte == 9 || byte == 10 || byte == 13 || byte == 12 || byte == 11

-- `k4c_buf_cursor_skip_ascii_whitespace`
unfoldable pub skip_ascii_whitespace : Cursor → Run Cursor
unfolding skip_while is_ascii_whitespace
skip_ascii_whitespace c = and_then (skip_while c is_ascii_whitespace) (λ r. done r.1)
