-- ===== src/FileReader.antt =====
-- lib/io/reader/file_reader.c: the buffered reader over an open file. A view holds the file that the
-- file reader had when the view was made; closing the file reader ends the use of its views.
pub mod View
mod Tests
use k4c.Base.{
  ℕ, ◌==◌, ltb, ◌||◌, if◌then◌else◌, Bool, true, false, Option, none, some, List, [], length, Run,
  Prog, pure, abort, ◌>>=◌,
}
use k4c.Status.{Status, ok, eof, io, invalid_argument}
use k4c.Stdio.{Stdio}
use k4c.Reader
use k4c.Reader.{Reader}

-- `struct k4c_file_reader`; `data` is what stands at `data`
pub record FileReader : Type 0 where
  pub file : Option ℕ
  pub data_cells : Option (List ℕ)
  pub buffer_capacity : ℕ

-- `k4c_file_reader_reset`
abbrev pub reset : FileReader
reset = record { file = none; data_cells = none; buffer_capacity = 0 }

-- `k4c_file_reader_create`
unfoldable pub create : Option ℕ → Option (List ℕ) → ℕ → Status × FileReader
create (some file) (some cells) buffer_capacity =
    if buffer_capacity == 0 then (invalid_argument, reset) else (
      ok,
      record { file = some file; data_cells = some cells; buffer_capacity = buffer_capacity },
    )
create _ _ buffer_capacity = (invalid_argument, reset)

-- `k4c_file_reader_close`
unfoldable pub close : FileReader → Status × FileReader
close reader = (ok, reset)

module _ {W : Type 0} (stdio : Stdio W) where
  -- the answer of `k4c_file_reader_read` once `fread` gave its bytes
  unfoldable pub received : ℕ → List ℕ → Prog W (Status × List ℕ)
  received file bytes =
      let failed : Prog W (Status × List ℕ) = do
        bad ← stdio.ferror file
        if bad then pure (io, bytes) else pure (eof, bytes)
      in if ltb 0 (length bytes) then pure (ok, bytes) else failed

  -- `k4c_file_reader_read`
  unfoldable pub file_read : Option ℕ → ℕ → Prog W (Status × List ℕ)
  unfolding received
  file_read none capacity = abort
  file_read (some file) capacity =
      let answer : Prog W (Status × List ℕ) = do
        bytes ← stdio.fread file capacity
        received file bytes
      in if capacity == 0 then abort else answer

  -- `k4c_file_reader_view`
  unfoldable pub view : FileReader → Run (Reader W)
  unfolding Reader.create
  view reader =
      Reader.create (some (file_read reader.file)) reader.data_cells reader.buffer_capacity
