-- ===== src/File/WriteAll.antt =====
-- `k4c_file_write_all`: it leaves no file open, and reports success only for what is written.
use k4c.Base.{
  ℕ, ◌+◌, ◌-◌, ◌==◌, ltb, ◌≡◌, refl, sym, ap, ◌∙◌, inl, inr, arith, Bool-cases, if◌then◌else◌, pure,
  ◌>>=◌, none, some, Option-cases, List, [], ◌∷◌, ◌++◌, length, take-length, take, Returns,
  and_then-Returns,
}
use k4c.Status.{Status, ok, io}
use k4c.Stdio.{Stdio, file_close, preserve_status}
use k4c.File.{write_all}

-- `handles` counts the open files. `fwrite` answers with the number of bytes that it wrote, which
-- are then at the end of what `put` says that a file was given.
pub record Writable {W : Type 0} (stdio : Stdio W) (handles : W → ℕ) (put : W → List ℕ)
    : Type 0 where
  pub open_law :
      (path : ℕ) (w : W)
      → Returns (stdio.open_write path w) λ r.
        (r.0 ≡ none → handles r.1 ≡ handles w)
        × ((file : ℕ) → r.0 ≡ some file → (handles r.1 ≡ handles w + 1) × (put r.1 ≡ []))
  pub fwrite_law :
      (file : ℕ) (bytes : List ℕ) (w : W)
      → Returns
          (stdio.fwrite file bytes w)
          λ r. (handles r.1 ≡ handles w) × (r.0 ≡ length bytes → put r.1 ≡ put w ++ bytes)
  pub fclose_law :
      (file : ℕ) (w : W)
      → Returns (stdio.fclose file w) λ r. (handles r.1 ≡ handles w - 1) × (put r.1 ≡ put w)

nil_of_length : (bytes : List ℕ) → length bytes ≡ 0 → bytes ≡ []
nil_of_length [] e = refl
nil_of_length (x ∷ bytes) e = absurd (omega (arith, e))

module _ {W : Type 0} (stdio : Stdio W) (handles : W → ℕ) (put : W → List ℕ)
    (env : Writable stdio handles put) where
  abbrev Closes : W → Status × W → Type 0
  Closes w r = (handles r.1 ≡ handles w - 1) × (put r.1 ≡ put w)

  file_close-Closes : (file : ℕ) (w : W) → Returns (file_close stdio file w) (Closes w)
  file_close-Closes file w = and_then-Returns (env.fclose_law file w) λ r q. (_, refl, q)

  -- the write to the open file, and its closing
  written :
      (file : ℕ) (bytes : List ℕ) (len : ℕ) (w : W) (open_files : ℕ)
      → length bytes ≡ len
      → handles w ≡ open_files + 1
      → put w ≡ []
      → Returns
          ((do
            count ← stdio.fwrite file (take len bytes)
            closed ← file_close stdio file
            pure (if count == len then closed else preserve_status io closed))
            w)
          λ r. (handles r.1 ≡ open_files) × (r.0 ≡ ok → put r.1 ≡ bytes)
  written file bytes len w open_files whole one_more empty =
      and_then-Returns (env.fwrite_law file (take len bytes) w) λ s (kept, grown).
        and_then-Returns (file_close-Closes file s.1) λ c (less, same).
          elim (Bool-cases (s.0 == len)) [
            | inl full ↦
                let all : take len bytes ≡ bytes = take-length len bytes whole in
                let count : s.0 ≡ length (take len bytes) =
                  ground (arith, full) ∙ sym (ap length all ∙ whole) in
                rw full (
                  _,
                  refl,
                  (
                    omega (arith, less, kept, one_more),
                    λ f. same ∙ grown count ∙ rw (empty, all) refl,
                  ),
                )
            | inr short ↦ rw short (_, refl, (omega (arith, less, kept, one_more), λ f. cc))
          ]

  -- For data of `len` bytes, `write_all` returns, and as many files are open as before. When it
  -- reports success, what was put into the file is the data.
  pub write_all-closed :
      (path : ℕ) (bytes : List ℕ) (len : ℕ) (w : W)
      → length bytes ≡ len
      → Returns
          (write_all stdio path (some bytes) len w)
          λ r. (handles r.1 ≡ handles w) × (r.0 ≡ ok → put r.1 ≡ bytes)
  unfolding write_all
  write_all-closed path bytes len w whole =
      and_then-Returns (env.open_law path w) λ r (closed, opened). elim (Option-cases r.0) [
        | inl e ↦ rw e (_, refl, (closed e, λ f. cc))
        | inr (file, e) ↦
            let (one_more, empty) = opened file e in
            elim (Bool-cases (ltb 0 len)) [
              | inl more ↦
                  rw (e, more) (written file bytes len r.1 (handles w) whole one_more empty)
              | inr none_left ↦
                  let (c, run, (less, kept)) = file_close-Closes file r.1 in
                  let nothing : bytes ≡ [] = nil_of_length bytes (ground (arith, whole)) in
                  rw (e, none_left)
                    (c, run, (omega (arith, less, one_more), λ f. kept ∙ empty ∙ sym nothing))
            ]
      ]
