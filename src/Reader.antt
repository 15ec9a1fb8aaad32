-- ===== src/Reader.antt =====
-- lib/io/reader/reader.c: a buffered reader over a source of bytes. The source's `read` function is
-- a field, with its context applied; it answers with a status and the bytes that it wrote.
-- The cursor that a function hands out holds the bytes as they stand when it returns.
pub mod Buffer
pub mod Rebase
pub mod Fill
pub mod Take
pub mod Gather
pub mod Array
pub mod FindByte
pub mod Segment
pub mod Round
pub mod Delimiter
mod Tests
use k4c.Base.{
  ℕ, zero, suc, ◌+◌, ltb, leb, ◌==◌, if◌then◌else◌, Bool, true, false, Option, none, some, List, [],
  ◌∷◌, ◌++◌, length, get_elem?, take, drop, Run, done, panic, out_of_fuel, and_then, Prog, pure,
  abort, lift, ◌>>=◌,
}
use k4c.Base.Bytes.{find_byte}
use k4c.Size.{add_size, sub_size}
use k4c.Status.{Status, ok, overflow, eof, is_ok}
use k4c.Cursor
use k4c.Cursor.{Cursor}

-- the bytes of `xs` from the index `i` on are replaced by `bytes`
abbrev pub patch : List ℕ → ℕ → List ℕ → List ℕ
patch xs i bytes = take i xs ++ (bytes ++ drop (i + length bytes) xs)

-- `struct k4c_reader`; `cells` is what stands at `data`, and `read` is `vtable->read` at `ctx`
pub record Reader (W : Type 0) : Type 0 where
  pub read : ℕ → Prog W (Status × List ℕ)
  pub cells : List ℕ
  pub pos : ℕ
  pub len : ℕ
  pub capacity : ℕ

module _ {W : Type 0} where
  -- the buffered bytes at the start of `cells`, and the position back at zero
  abbrev pub compacted : Reader W → ℕ → Reader W
  compacted r available = record r {
    cells = patch r.cells 0 (take available (drop r.pos r.cells));
    pos = 0;
    len = available;
  }

  -- `k4c_reader_rebase`
  unfoldable pub rebase : Reader W → ℕ → Status × Reader W
  rebase r capacity =
      let available = sub_size r.len r.pos in
      if ltb r.capacity capacity
      then (overflow, r)
      else (if leb capacity (sub_size r.capacity r.pos)
          then (ok, r)
          else (if ltb capacity available
              then (overflow, r)
              else (if available == 0
                  then (ok, record r { pos = 0; len = 0 })
                  else (ok, compacted r available))))

  -- what `k4c_reader_fill_more` makes of the source's answer
  abbrev pub filled : Reader W → Status × List ℕ → Status × Reader W
  filled r (st, bytes) = (
    if ltb 0 (length bytes) then ok else (if is_ok st then eof else st),
    record r { cells = patch r.cells r.len bytes; len = add_size r.len (length bytes) },
  )

  -- the part of `k4c_reader_fill_more` after the room is made
  unfoldable pub read_more : ℕ → Status × Reader W → Prog W (Status × Reader W)
  read_more max_read_len (st, r) =
      let free_capacity = sub_size r.capacity r.len in
      let read_capacity = if ltb max_read_len free_capacity then max_read_len else free_capacity in
      let received : Prog W (Status × Reader W) = do
        answer ← r.read read_capacity
        if ltb read_capacity (length answer.1) then abort else pure (filled r answer)
      in if is_ok st
        then (if read_capacity == 0 then pure (overflow, r) else received)
        else pure (st, r)

  -- `k4c_reader_fill_more`
  unfoldable pub fill_more : Reader W → ℕ → ℕ → Prog W (Status × Reader W)
  unfolding rebase read_more
  fill_more r required_capacity max_read_len = read_more max_read_len (rebase r required_capacity)

  -- `k4c_reader_create`; the arguments are `none` for NULL
  unfoldable pub create :
      Option (ℕ → Prog W (Status × List ℕ)) → Option (List ℕ) → ℕ → Run (Reader W)
  create (some read) (some cells) capacity =
      if ltb 0 capacity
      then done (record { read = read; cells = cells; pos = 0; len = 0; capacity = capacity })
      else panic
  create _ _ capacity = panic

  -- the end of `k4c_reader_take_byte`
  abbrev pub give_byte : Status × Reader W → (Status × Option ℕ) × Reader W
  give_byte (st, r) =
      if is_ok st
      then ((ok, get_elem? r.cells r.pos), record r { pos = add_size r.pos 1 })
      else ((st, none), r)

  -- `k4c_reader_take_byte`
  unfoldable pub take_byte : Reader W → Prog W ((Status × Option ℕ) × Reader W)
  take_byte r =
      let fresh : Prog W ((Status × Option ℕ) × Reader W) = do
        answer ← fill_more r 1 r.capacity
        pure (give_byte answer)
      in if r.capacity == 0
        then abort
        else (if leb r.len r.pos then fresh else pure (give_byte (ok, r)))

  -- a cursor over the next `count` buffered bytes
  abbrev pub window : Reader W → ℕ → Run Cursor
  window r count = Cursor.create (some (drop r.pos r.cells)) count

  -- what a loop does after filling: the next round, or the end on an error
  abbrev pub go_on :
      (Reader W → Prog W (Status × Reader W)) → Status × Reader W → Prog W (Status × Reader W)
  go_on next_round (st, r) = if is_ok st then next_round r else pure (st, r)

  -- the loop of `k4c_reader_take_array`
  unfoldable pub gather : ℕ → ℕ → Reader W → Prog W (Status × Reader W)
  gather zero count r w = out_of_fuel
  gather (suc fuel) count r w =
      let next_round = gather fuel count in
      let available = sub_size r.len r.pos in
      let round = (fill_more r count (sub_size count available) >>= go_on next_round) w in
      if ltb available count then round else done ((ok, r), w)

  -- the end of `k4c_reader_take_array`
  abbrev pub give_array : ℕ → Status × Reader W → Prog W ((Status × Option Cursor) × Reader W)
  give_array count (st, r) =
      if is_ok st
      then (do
        out ← lift (window r count)
        pure ((ok, some out), record r { pos = add_size r.pos count }))
      else pure ((st, none), r)

  -- `k4c_reader_take_array`; each round of the loop reads a byte or more
  unfoldable pub take_array : Reader W → ℕ → Prog W ((Status × Option Cursor) × Reader W)
  unfolding gather Cursor.create
  take_array r count =
      let taken : Prog W ((Status × Option Cursor) × Reader W) = do
        answer ← gather (count + 1) count r
        give_array count answer
      in if r.capacity == 0
        then abort
        else (if ltb r.capacity count then pure ((overflow, none), r) else taken)

  -- the cursor over the next `count` bytes, which the position passes
  abbrev pub give_through : Reader W → ℕ → Reader W → Prog W ((Status × Option Cursor) × Reader W)
  give_through r count passed = do out ← lift (window r count); pure ((ok, some out), passed)

  -- what `k4c_reader_take_delimiter` does after it filled for a missing delimiter
  abbrev pub after_missing :
      (Reader W → Prog W ((Status × Option Cursor) × Reader W))
      → Status × Reader W
      → Prog W ((Status × Option Cursor) × Reader W)
  after_missing next_round (ok, r) = next_round r
  after_missing next_round (eof, r) =
      let available = sub_size r.len r.pos in
      if available == 0
      then pure ((eof, none), r)
      else give_through r available (record r { pos = r.len })
  after_missing next_round (st, r) = pure ((st, none), r)

  -- what it does after it filled an empty buffer
  abbrev pub after_empty :
      (Reader W → Prog W ((Status × Option Cursor) × Reader W))
      → Status × Reader W
      → Prog W ((Status × Option Cursor) × Reader W)
  after_empty next_round (st, r) = if is_ok st then next_round r else pure ((st, none), r)

  -- a round of the loop of `k4c_reader_take_delimiter`
  unfoldable pub seek_round :
      (Reader W → Prog W ((Status × Option Cursor) × Reader W))
      → ℕ
      → Reader W
      → Prog W ((Status × Option Cursor) × Reader W)
  unfolding Cursor.create
  seek_round next_round delimiter r =
      let available = sub_size r.len r.pos in
      let found = find_byte delimiter (take available (drop r.pos r.cells)) in
      let refill : Prog W ((Status × Option Cursor) × Reader W) = do
        answer ← fill_more r (add_size available 1) r.capacity
        after_missing next_round answer
      in let examined : Prog W ((Status × Option Cursor) × Reader W) = elim found [
        | none ↦ if available == r.capacity then pure ((overflow, none), r) else refill
        | some i ↦ give_through r (add_size i 1) (record r { pos = add_size r.pos (add_size i 1) })
      ] in
        let empty : Prog W ((Status × Option Cursor) × Reader W) = do
          answer ← fill_more r 1 r.capacity
          after_empty next_round answer
        in if available == 0 then empty else examined

  unfoldable pub seek : ℕ → ℕ → Reader W → Prog W ((Status × Option Cursor) × Reader W)
  unfolding seek_round
  seek zero delimiter r w = out_of_fuel
  seek (suc fuel) delimiter r w = seek_round (seek fuel delimiter) delimiter r w

  -- `k4c_reader_take_delimiter`; each round reads a byte or more, until the buffer is full
  unfoldable pub take_delimiter : Reader W → ℕ → Prog W ((Status × Option Cursor) × Reader W)
  unfolding seek
  take_delimiter r delimiter = if r.capacity == 0 then abort else seek (r.capacity + 1) delimiter r
