-- ===== src/File/Tests.antt =====
-- A machine with one file on disk, which counts its open files and its blocks.
use k4c.Base.{
  ℕ, ◌+◌, ◌-◌, ◌≡◌, refl, sym, ap, arith, inl, length-take, false, true, none, some, List, [], ◌∷◌,
  take, drop, length, Run, done, Returns, ◌==◌,
}
use k4c.Base.Int.{pos}
use k4c.Size.{size_max}
use k4c.Status.{ok}
use k4c.Allocator.{Libc, alloc, resize, dealloc}
use k4c.Allocator.Lawful.{Lawful}
use k4c.Stdio.{Stdio}
use k4c.Reader.Buffer.{take-drop}
use k4c.File.{read_all, write_all}
use k4c.File.Environment.{Environment, Loads}
use k4c.File.ReadAll.{read_all-Loads}

record Machine : Type 0 where
  blocks : ℕ
  handles : ℕ
  left : List ℕ

abbrev text : List ℕ
text = 7 ∷ 8 ∷ 9 ∷ []

abbrev libc : Libc Machine
libc = record {
  malloc = λ n w. done (some 64, record w { blocks = w.blocks + 1 });
  realloc = λ p n w. done (some 64, w);
  free = λ p w. done (tt, record w { blocks = w.blocks - 1 });
}

abbrev disk : Stdio Machine
disk = record {
  stat = λ path w. done (some (record { is_dir = false; is_reg = true; size = pos 3 }), w);
  errno = λ w. 0;
  enoent = 2;
  enotdir = 20;
  open_read = λ path w. done (some 3, record w { handles = w.handles + 1; left = text });
  open_write = λ path w. done (some 3, record w { handles = w.handles + 1; left = [] });
  fread = λ file n w. done (take n w.left, record w { left = drop n w.left });
  fwrite = λ file bytes w. done (length bytes, w);
  ferror = λ file w. done (false, w);
  fclose = λ file w. done (0, record w { handles = w.handles - 1 });
}

libc-Lawful : Lawful libc none (λ w. w.blocks) size_max
unfolding alloc resize dealloc
libc-Lawful = record {
  alloc_law = λ n w h room. (_, refl, (refl, refl));
  resize_law = λ ptr n w h ne.
      let positive : (n == 0) ≡ false = ground arith in rw positive (_, refl, (refl, refl));
  dealloc_law = λ ptr w ne. (_, refl, refl);
}

-- the machine that a run ends with
abbrev ends_with : {A : Type 0} → Run (A × Machine) → Machine
ends_with (done r) = r.1
ends_with _ = record { blocks = 0; handles = 0; left = [] }

-- nothing fails on this machine
disk-Environment :
    Environment disk libc none
      (λ w. w.blocks)
      (λ w. w.handles)
      size_max
      (λ path. text)
      (λ path. true)
      (λ file w. w.left)
      ⊥
unfolding alloc dealloc
disk-Environment = record {
  stat_law = λ path w. (_, refl, ((refl, refl), (λ e. cc), (λ info e. (cc e, λ h. cc e))));
  open_law = λ path w. (_, refl, (refl, (λ e. cc), (λ file e. (refl, refl))));
  fread_law = λ file n w.
      (_, refl, ((refl, refl), take-drop n w.left, λ h. inl (omega (arith, length-take n w.left))));
  ferror_law = λ file w. (_, refl, ((refl, refl), λ e. cc));
  fclose_law = λ file w. (_, refl, (refl, refl, inl refl));
  lawful = libc-Lawful;
  alloc_apart = λ size w r e. (
    ap (λ x. (ends_with x).handles) (sym e),
    (λ file. ap (λ x. (ends_with x).left) (sym e)),
    λ bad. cc (e, bad),
  );
  dealloc_apart = λ block w r e. ap (λ x. (ends_with x).handles) (sym e);
}

abbrev idle : Machine
idle = record { blocks = 2; handles = 1; left = [] }

-- writing three bytes opens a file and closes it again
write_three : write_all disk 5 (some text) 3 idle ≡ done (ok, idle)
unfolding write_all
write_three = refl

-- so the whole file is read
read_all-Loads_example :
    Returns
      (read_all disk libc none 5 idle)
      (Loads (λ w. w.blocks) (λ w. w.handles) ⊥ 2 1 true text)
read_all-Loads_example =
    read_all-Loads disk libc none (λ w. w.blocks) (λ w. w.handles) size_max (λ path. text)
      (λ path. true) (λ file w. w.left) ⊥ disk-Environment 5 idle (omega arith)
