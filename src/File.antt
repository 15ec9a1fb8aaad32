-- ===== src/File.antt =====
-- lib/io/file.c: whole files. A path is known by a number; the C library is the parameter `stdio`.
pub mod Environment
pub mod ReadAll
pub mod WriteAll
mod Tests
use k4c.Base.{
  ℕ, ◌==◌, ltb, ◌&&◌, if◌then◌else◌, Bool, true, false, not, Option, none, some, List, [], length,
  take, replicate, Prog, pure, abort, done, ◌>>=◌, ◌>>◌,
}
use k4c.Base.Int.{ℤ, pos, negsuc}
use k4c.Size.{size_max, add_size}
use k4c.Status.{Status, ok, io, not_found, invalid_argument, overflow, is_ok}
use k4c.Allocator.{Ptr, Libc, Allocator, alloc, dealloc}
use k4c.Stdio.{Stat, Stdio, errno_is_not_found, file_close, preserve_status}
use k4c.Reader.{patch}

-- the status, the data with the block that holds it, and the length
abbrev pub Loaded : Type 0
Loaded = (Status × Option (Ptr × List ℕ)) × ℕ

-- the end of `k4c_file_size`, once the file is found
unfoldable pub size_of_stat : Bool → ℤ → Status × ℕ
size_of_stat false size = (invalid_argument, 0)
size_of_stat true (negsuc n) = (overflow, 0)
size_of_stat true (pos n) = if ltb size_max n then (overflow, 0) else (ok, n)

module _ {W : Type 0} (stdio : Stdio W) where
  -- the status after a call that failed, by `errno`
  unfoldable pub missing : W → Status
  missing w = if errno_is_not_found stdio w then not_found else io

  -- `k4c_file_stat`
  unfoldable pub file_stat : ℕ → Prog W (Status × Option Stat)
  unfolding missing
  file_stat path = do
    found ← stdio.stat path
    elim found [ none ↦ λ w. done ((missing w, none), w) | some st ↦ pure (ok, some st) ]

  -- `k4c_file_is_dir`
  unfoldable pub is_dir : ℕ → Prog W (Status × Bool)
  unfolding file_stat
  is_dir path = do
    (st, found) ← file_stat path
    elim found [ none ↦ pure (st, false) | some info ↦ pure (ok, info.is_dir) ]

  -- `k4c_file_size`
  unfoldable pub file_size : ℕ → Prog W (Status × ℕ)
  unfolding file_stat size_of_stat
  file_size path = do
    (st, found) ← file_stat path
    elim found [ none ↦ pure (st, 0) | some info ↦ pure (size_of_stat info.is_reg info.size) ]

  -- the test after `fread` in `k4c_file_read_all`; `ferror` is asked only after a full read
  unfoldable pub incomplete : ℕ → ℕ → List ℕ → Prog W Bool
  incomplete file len bytes = if length bytes == len then stdio.ferror file else pure true

  -- `k4c_file_write_all`; `none` is NULL, which goes with a length of zero only
  unfoldable pub write_all : ℕ → Option (List ℕ) → ℕ → Prog W Status
  write_all path none len =
      let opened : Prog W Status = do
        file ← stdio.open_write path
        elim file [ none ↦ pure io | some f ↦ file_close stdio f ]
      in if len == 0 then opened else abort
  write_all path (some bytes) len = do
    file ← stdio.open_write path
    elim file [
      | none ↦ pure io
      | some f ↦
          (let written : Prog W Status = do
            count ← stdio.fwrite f (take len bytes)
            closed ← file_close stdio f
            pure (if count == len then closed else preserve_status io closed)
            in if ltb 0 len then written else file_close stdio f)
    ]

  module _ (libc : Libc W) (a : Option (Allocator W)) where
    -- the end of `k4c_file_read_all`, once all the bytes are read
    unfoldable pub finish : ℕ → ℕ → Ptr → List ℕ → Prog W Loaded
    finish file len block bytes = do
      st ← file_close stdio file
      elim (is_ok st) [
        | false ↦ do dealloc libc a block; pure ((io, none), 0)
        | true ↦ pure ((ok, some (block, patch (replicate (add_size len 1) 0) 0 bytes)), len)
      ]

    -- what it does when they are not: the data and the file are given back
    unfoldable pub give_up : ℕ → Ptr → Prog W Loaded
    give_up file block = do
      dealloc libc a block
      closed ← file_close stdio file
      pure ((preserve_status io closed, none), 0)

    -- the reading of the bytes into the new block
    unfoldable pub fill_block : ℕ → ℕ → Ptr → Prog W Loaded
    unfolding incomplete finish give_up
    fill_block file len block = do
      bytes ← stdio.fread file len
      bad ← incomplete file len bytes
      elim bad [ true ↦ give_up file block | false ↦ finish file len block bytes ]

    -- the part of `k4c_file_read_all` after the file is open
    unfoldable pub load : ℕ → ℕ → Prog W Loaded
    unfolding fill_block
    load file len = do
      (st, block) ← alloc libc a (add_size len 1)
      elim (is_ok st) [
        | false ↦ (do closed ← file_close stdio file; pure ((preserve_status st closed, none), 0))
        | true ↦ fill_block file len block
      ]

    -- the part that opens the file
    unfoldable pub open_all : ℕ → ℕ → Prog W Loaded
    unfolding load missing
    open_all path len = do
      file ← stdio.open_read path
      elim file [ none ↦ λ w. done (((missing w, none), 0), w) | some f ↦ load f len ]

    -- `k4c_file_read_all`
    unfoldable pub read_all : ℕ → Prog W Loaded
    unfolding file_size open_all
    read_all path = do
      (st, len) ← file_size path
      elim (is_ok st) [
        | false ↦ pure ((st, none), 0)
        | true ↦ if len == size_max then pure ((overflow, none), 0) else open_all path len
      ]
