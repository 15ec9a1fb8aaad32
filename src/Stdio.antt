-- ===== src/Stdio.antt =====
-- What lib/io takes from the C library, and lib/io/common.h. A file is known by a number, a path by
-- another.
use k4c.Base.{ℕ, ◌==◌, ◌||◌, if◌then◌else◌, Bool, Option, List, Prog, pure, ◌>>=◌}
use k4c.Base.Int.{ℤ}
use k4c.Status.{Status, ok, io, is_ok}

-- the fields of `struct stat` that the code reads, its mode by the tests that it makes
pub record Stat : Type 0 where
  pub is_dir : Bool
  pub is_reg : Bool
  pub size : ℤ

pub record Stdio (W : Type 0) : Type 0 where
  pub stat : ℕ → Prog W (Option Stat)
  pub errno : W → ℕ
  pub enoent : ℕ
  pub enotdir : ℕ
  pub open_read : ℕ → Prog W (Option ℕ)
  pub open_write : ℕ → Prog W (Option ℕ)
  pub fread : ℕ → ℕ → Prog W (List ℕ)
  pub fwrite : ℕ → List ℕ → Prog W ℕ
  pub ferror : ℕ → Prog W Bool
  pub fclose : ℕ → Prog W ℕ

-- `k4c_io_preserve_status`
abbrev pub preserve_status : Status → Status → Status
preserve_status status cleanup_status = if is_ok status then cleanup_status else status

module _ {W : Type 0} (stdio : Stdio W) where
  -- `k4c_io_errno_is_not_found`
  abbrev pub errno_is_not_found : W → Bool
  errno_is_not_found w = stdio.errno w == stdio.enoent || stdio.errno w == stdio.enotdir

  -- `k4c_io_file_close`
  abbrev pub file_close : ℕ → Prog W Status
  file_close file = do result ← stdio.fclose file; pure (if result == 0 then ok else io)
