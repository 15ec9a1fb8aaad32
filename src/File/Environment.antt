-- ===== src/File/Environment.antt =====
-- What reading a whole file takes from the C library and the allocator, and how it may end.
use k4c.Base.{
  ℕ, ◌+◌, ◌-◌, ◌≤◌, ◌≡◌, ◌⊎◌, Bool, true, false, Option, none, some, List, [], ◌∷◌, ◌++◌, length,
  done, Returns,
}
use k4c.Base.Int.{pos}
use k4c.Size.{size_max}
use k4c.Status.{Status, ok, invalid_argument, overflow, is_ok}
use k4c.Allocator.{Ptr, Libc, Allocator, alloc, dealloc}
use k4c.Allocator.Lawful.{Lawful}
use k4c.Stdio.{Stat, Stdio}
use k4c.File.{Loaded}

-- the open files are counted by `handles`, the live blocks by `blocks`
abbrev pub Quiet : {W : Type 0} → (W → ℕ) → (W → ℕ) → W → W → Type 0
Quiet blocks handles w w' = (blocks w' ≡ blocks w) × (handles w' ≡ handles w)

-- What the code takes from the C library and the allocator. `content` is what a file on disk holds,
-- which no one changes meanwhile, and `regular` whether it is a regular file: then `stat` gives its
-- size. `left` is what an open file has still to deliver, all of it at first; `fread` delivers as
-- much as is asked for and there. `fclose` closes the file even when it reports an error. Where a
-- call fails there is a `Fault`.
pub record Environment {W : Type 0} (stdio : Stdio W) (libc : Libc W) (a : Option (Allocator W))
    (blocks handles : W → ℕ) (limit : ℕ) (content : ℕ → List ℕ) (regular : ℕ → Bool)
    (left : ℕ → W → List ℕ) (Fault : Type 0) : Type 0 where
  pub stat_law :
      (path : ℕ) (w : W)
      → Returns (stdio.stat path w) λ r.
        Quiet blocks handles w r.1
        × (r.0 ≡ none → Fault)
        × ((info : Stat)
            → r.0 ≡ some info
            → (info.is_reg ≡ regular path)
              × (regular path ≡ true → info.size ≡ pos (length (content path))))
  pub open_law :
      (path : ℕ) (w : W)
      → Returns (stdio.open_read path w) λ r.
        (blocks r.1 ≡ blocks w)
        × (r.0 ≡ none → (handles r.1 ≡ handles w) × Fault)
        × ((file : ℕ)
            → r.0 ≡ some file
            → (handles r.1 ≡ handles w + 1) × (left file r.1 ≡ content path))
  pub fread_law :
      (file n : ℕ) (w : W)
      → Returns (stdio.fread file n w) λ r.
        Quiet blocks handles w r.1
        × (left file w ≡ r.0 ++ left file r.1)
        × (n ≤ length (left file w) → (length r.0 ≡ n) ⊎ Fault)
  pub ferror_law :
      (file : ℕ) (w : W)
      → Returns (stdio.ferror file w) λ r. Quiet blocks handles w r.1 × (r.0 ≡ true → Fault)
  pub fclose_law :
      (file : ℕ) (w : W)
      → Returns
          (stdio.fclose file w)
          λ r. (blocks r.1 ≡ blocks w) × (handles r.1 ≡ handles w - 1) × ((r.0 ≡ 0) ⊎ Fault)
  pub lawful : Lawful libc a blocks limit
  pub alloc_apart :
      (size : ℕ) (w : W) (r : (Status × Ptr) × W)
      → alloc libc a size w ≡ done r
      → (handles r.1 ≡ handles w)
        × ((file : ℕ) → left file r.1 ≡ left file w)
        × (is_ok r.0.0 ≡ false → Fault)
  pub dealloc_apart :
      (block : Ptr) (w : W) (r : Unit {0} × W)
      → dealloc libc a block w ≡ done r
      → handles r.1 ≡ handles w

-- why the reading of a file may fail
abbrev pub Refuses : Type 0 → Bool → List ℕ → Status → Type 0
Refuses Fault regular text st =
    (is_ok st ≡ false)
    × (Fault
        ⊎ (((st ≡ invalid_argument) × (regular ≡ false))
            ⊎ ((st ≡ overflow) × (size_max ≤ length text))))

module _ {W : Type 0} (blocks handles : W → ℕ) (Fault : Type 0) where
  -- From `before` blocks and `open_files` open files: either the whole text in one new block, with a
  -- zero byte behind it, and its length, or an error that has a reason and no new block. No further
  -- file is open.
  abbrev pub Loads : ℕ → ℕ → Bool → List ℕ → Loaded × W → Type 0
  Loads before open_files regular text r =
      (handles r.1 ≡ open_files)
      × (((block : Ptr) × (r.0.0 ≡ (ok, some (block, text ++ 0 ∷ [])))
            × (r.0.1 ≡ length text)
            × (blocks r.1 ≡ before + 1))
          ⊎ (Refuses Fault regular text r.0.0.0
              × (r.0.0.1 ≡ none)
              × (r.0.1 ≡ 0)
              × (blocks r.1 ≡ before)))
