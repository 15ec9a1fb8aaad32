-- ===== src/FileReader/View.antt =====
-- A view over an open file delivers the bytes of the file.
use k4c.Base.{
  ℕ, ◌==◌, ltb, ◌≤◌, ◌<◌, ◌≡◌, ◌≢◌, refl, sym, ◌∙◌, inl, inr, arith, true, false, Bool-cases, some,
  List, [], ◌∷◌, ◌++◌, length, done, Returns,
}
use k4c.Size.{size_max}
use k4c.Status.{Status, ok, eof, io}
use k4c.Stdio.{Stdio}
use k4c.Reader.Buffer.{IsValid}
use k4c.Reader.Fill.{Explains, Delivers, stream}
use k4c.FileReader.{create, received, file_read, view}

-- What C says of reading: `left` is what a file has still to deliver. `fread` gives at most as many
-- bytes as it is asked for, the next ones; when it gives none, the file is at its end or `ferror`
-- says that there was an error.
pub record Readable {W : Type 0} (stdio : Stdio W) (left : ℕ → W → List ℕ) : Type 0 where
  pub fread_law :
      (file n : ℕ) (w : W)
      → 0 < n
      → Returns (stdio.fread file n w) λ a. (length a.0 ≤ n) × (left file w ≡ a.0 ++ left file a.1)
  pub ferror_law :
      (file n : ℕ) (w w' : W)
      → 0 < n
      → stdio.fread file n w ≡ done ([], w')
      → Returns
          (stdio.ferror file w')
          λ a. (left file a.1 ≡ left file w') × (a.0 ≡ false → left file w' ≡ [])

-- the fault that a file may report
abbrev pub IsIo : Status → Type 0
IsIo st = st ≡ io

IsIo-ne : (st : Status) → IsIo st → (st ≢ ok) × (st ≢ eof)
IsIo-ne st e = (λ f. cc, λ f. cc)

module _ {W : Type 0} (stdio : Stdio W) (left : ℕ → W → List ℕ) where
  received_lem :
      Readable stdio left
      → (file n : ℕ) (w : W) (bytes : List ℕ) (w' : W) → 0 < n
      → stdio.fread file n w ≡ done (bytes, w')
      → length bytes ≤ n
      → left file w ≡ bytes ++ left file w'
      → Returns (received stdio file bytes w') λ a.
        (length a.0.1 ≤ n)
        × (left file w ≡ a.0.1 ++ left file a.1)
        × Explains IsIo (left file w) a.0.0 a.0.1
  unfolding received
  received_lem law file n w [] w' some_asked run few next =
      let ((bad, w''), checked, (same, end)) = law.ferror_law file n w w' some_asked run in
      elim (Bool-cases bad) [
        | inl e ↦ rw (checked, e) (_, refl, (few, next ∙ sym same, inr (inr refl)))
        | inr e ↦ rw (checked, e) (_, refl, (few, next ∙ sym same, inr (inl (refl, next ∙ end e))))
      ]
  received_lem law file n w (byte ∷ bytes) w' some_asked run few next =
      let got : ltb 0 (length (byte ∷ bytes)) ≡ true = ground arith in
      rw got (_, refl, (few, next, tt))

  file_read-Delivers :
      Readable stdio left → (file : ℕ) → Delivers (left file) IsIo (file_read stdio (some file))
  unfolding file_read
  file_read-Delivers law file = record {
    read_law = λ n w h.
        let positive : (n == 0) ≡ false = ground arith in
        let ((bytes, w'), run, (few, next)) = law.fread_law file n w h in
        rw (positive, run) (received_lem law file n w bytes w' h run few next);
    fault_law = IsIo-ne;
  }

  -- A file reader created over an open file and storage of `buffer_capacity` cells has a view. The
  -- view is a valid reader with nothing unread yet; its stream is what the file has still to
  -- deliver, and its source delivers that stream with I/O errors as its only faults.
  pub view-Delivers :
      Readable stdio left
      → (file : ℕ) (cells : List ℕ) (buffer_capacity : ℕ) → 0 < buffer_capacity
      → length cells ≡ buffer_capacity
      → buffer_capacity ≤ size_max
      → (w : W)
      → ((create (some file) (some cells) buffer_capacity).0 ≡ ok)
        × Returns (view stdio (create (some file) (some cells) buffer_capacity).1) λ r.
          IsValid r × (stream (left file) r w ≡ left file w) × Delivers (left file) IsIo r.read
  unfolding create view
  view-Delivers law file cells buffer_capacity h stored small w =
      let positive : (buffer_capacity == 0) ≡ false = ground arith in
      let room : ltb 0 buffer_capacity ≡ true = ground arith in
      rw (positive, room)
        (
          refl,
          (
            _,
            refl,
            (
              record {
                stored = stored;
                read_in = omega arith;
                within = omega arith;
                room = h;
                small = small;
              },
              refl,
              file_read-Delivers law file,
            ),
          ),
        )
