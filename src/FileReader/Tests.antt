-- ===== src/FileReader/Tests.antt =====
-- A file whose bytes are the state of the machine.
use k4c.Base.{
  ℕ, zero, suc, ◌<◌, ◌≡◌, refl, arith, true, false, some, List, [], ◌∷◌, ◌++◌, length, take, drop,
  length-take, Run, done, Returns, and_then,
}
use k4c.Base.Int.{pos}
use k4c.Status.{ok}
use k4c.Stdio.{Stdio}
use k4c.Reader.{take_byte, fill_more}
use k4c.Reader.Buffer.{IsValid, take-drop}
use k4c.Reader.Fill.{Delivers, stream}
use k4c.FileReader.{create, view, file_read}
use k4c.FileReader.View.{Readable, IsIo, view-Delivers}

abbrev one_file : Stdio (List ℕ)
one_file = record {
  stat = λ path w. done (some (record { is_dir = false; is_reg = true; size = pos (length w) }), w);
  errno = λ w. 0;
  enoent = 2;
  enotdir = 20;
  open_read = λ path w. done (some 3, w);
  open_write = λ path w. done (some 3, []);
  fread = λ file n w. done (take n w, drop n w);
  fwrite = λ file bytes w. done (length bytes, w ++ bytes);
  ferror = λ file w. done (false, w);
  fclose = λ file w. done (0, w);
}

at_end :
    (n : ℕ) (w w' : List ℕ)
    → 0 < n
    → ◌≡◌ {A = Run (List ℕ × List ℕ)} (done (take n w, drop n w)) (done ([], w'))
    → w' ≡ []
at_end zero w w' h e = absurd (omega arith)
at_end (suc n) [] w' h e = cc
at_end (suc n) (x ∷ w) w' h e = cc

one_file-Readable : Readable one_file (λ file w. w)
one_file-Readable = record {
  fread_law = λ file n w h. (_, refl, (omega (arith, length-take n w), take-drop n w));
  ferror_law = λ file n w w' h run. (_, refl, (refl, λ e. at_end n w w' h run));
}

view-Delivers_example :
    ((create (some 3) (some (0 ∷ 0 ∷ [])) 2).0 ≡ ok)
    × Returns (view one_file (create (some 3) (some (0 ∷ 0 ∷ [])) 2).1) λ r.
      IsValid r
      × (stream (λ w. w) r (7 ∷ 8 ∷ 9 ∷ []) ≡ 7 ∷ 8 ∷ 9 ∷ [])
      × Delivers (λ w. w) IsIo r.read
view-Delivers_example =
    view-Delivers one_file (λ file w. w) one_file-Readable 3 (0 ∷ 0 ∷ []) 2 (omega arith) refl
      (omega arith) (7 ∷ 8 ∷ 9 ∷ [])

-- the status and the byte that the view of the file gives first
first_byte :
    and_then
      (view one_file (create (some 3) (some (0 ∷ 0 ∷ [])) 2).1)
      (λ r. and_then (take_byte r (7 ∷ 8 ∷ 9 ∷ [])) (λ a. done a.0.0))
    ≡ done (ok, some 7)
unfolding create view take_byte fill_more file_read
first_byte = refl
