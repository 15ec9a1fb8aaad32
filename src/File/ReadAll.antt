-- ===== src/File/ReadAll.antt =====
-- `k4c_file_read_all`, from its parts. The end of a run is stated for a path and what it holds.
use k4c.Base.{
  ℕ, ◌+◌, ◌-◌, ◌≤◌, ◌<◌, ◌==◌, ◌≡◌, ◌≢◌, refl, sym, ap, ◌∙◌, ◌⊎◌, inl, inr, arith, Bool, true,
  false, Bool-cases, Option, none, some, Option-cases, List, [], ◌∷◌, ◌++◌, suc, zero, ltb, length,
  take-length, if◌then◌else◌, take, replicate, drop, Returns, and_then-Returns,
}
use k4c.Base.Int.{ℤ, pos}
use k4c.Size.{size_max, add_size}
use k4c.Status.{Status, ok, io, is_ok}
use k4c.Allocator.{Ptr, Libc, Allocator, alloc}
use k4c.Allocator.Lawful.{Obtains, Obtains-cases}
use k4c.Stdio.{Stat, Stdio, errno_is_not_found, file_close}
use k4c.Reader.{patch}
use k4c.Reader.Buffer.{take_front, add_size-le}
use k4c.File.{
  Loaded, missing, file_stat, file_size, size_of_stat, finish, give_up, fill_block, load, open_all,
  read_all,
}
use k4c.File.Environment.{Quiet, Environment, Refuses, Loads}

-- the zero byte behind the data
drop-replicate : (n : ℕ) → drop {A = ℕ} n (replicate (suc n) 0) ≡ 0 ∷ []
drop-replicate zero = refl
drop-replicate (suc n) = drop-replicate n

terminated :
    (len : ℕ) (bytes : List ℕ)
    → length bytes ≡ len
    → len < size_max
    → patch (replicate (add_size len 1) 0) 0 bytes ≡ bytes ++ 0 ∷ []
terminated len bytes e h =
    let size : add_size len 1 ≡ suc len = add_size-le len 1 (omega arith) ∙ omega arith in
    let start : 0 + length bytes ≡ len = omega (arith, e) in
    rw (size, start) (ap (λ z. bytes ++ z) (drop-replicate len))

-- the size of a regular file, or the reason why there is none
abbrev Sizes : Type 0 → Bool → List ℕ → Status × ℕ → Type 0
Sizes Fault regular text r =
    ((r.0 ≡ ok) × (r.1 ≡ length text) × (length text ≤ size_max)) ⊎ Refuses Fault regular text r.0

size_of_stat-Sizes :
    (Fault : Type 0) (regular : Bool) (text : List ℕ) (is_reg : Bool) (size : ℤ)
    → is_reg ≡ regular
    → (regular ≡ true → size ≡ pos (length text))
    → Sizes Fault regular text (size_of_stat is_reg size)
unfolding size_of_stat
size_of_stat-Sizes Fault false text is_reg size e h = rw e (inr (refl, inr (inl (refl, refl))))
size_of_stat-Sizes Fault true text is_reg size e h =
    elim (Bool-cases (ltb size_max (length text))) [
      | inl large ↦ rw (e, h refl, large) (inr (refl, inr (inr (refl, ground arith))))
      | inr fits ↦ rw (e, h refl, fits) (inl (refl, refl, ground arith))
    ]

module _ {W : Type 0} (stdio : Stdio W) (libc : Libc W) (a : Option (Allocator W))
    (blocks handles : W → ℕ) (limit : ℕ) (content : ℕ → List ℕ) (regular : ℕ → Bool)
    (left : ℕ → W → List ℕ) (Fault : Type 0)
    (env : Environment stdio libc a blocks handles limit content regular left Fault) where
  -- the end of the reading of a path
  abbrev Ends : ℕ → ℕ → ℕ → Loaded × W → Type 0
  Ends path before open_files =
      Loads blocks handles Fault before open_files (regular path) (content path)

  -- a file that did not close
  file_close-Fault :
      (result : ℕ) → (result ≡ 0) ⊎ Fault → is_ok (if result == 0 then ok else io) ≡ false → Fault
  file_close-Fault result (inl e) bad =
      let closed : (result == 0) ≡ true = ground arith in absurd (cc (closed, bad))
  file_close-Fault result (inr fault) bad = fault

  file_close-handles :
      (file : ℕ) (w : W)
      → Returns
          (file_close stdio file w)
          λ r. (blocks r.1 ≡ blocks w) × (handles r.1 ≡ handles w - 1) × (is_ok r.0 ≡ false → Fault)
  file_close-handles file w =
      and_then-Returns (env.fclose_law file w)
        λ r (same, fewer, failed). (_, refl, (same, fewer, file_close-Fault r.0 failed))

  give_up-Ends :
      (path file before open_files : ℕ) (block : Ptr) (w : W)
      → Fault
      → block ≢ none
      → blocks w ≡ before + 1
      → handles w ≡ open_files + 1
      → Returns (give_up stdio libc a file block w) (Ends path before open_files)
  unfolding give_up
  give_up-Ends path file before open_files block w fault h b o =
      let (r, run, less) = env.lawful.dealloc_law block w h in
      let apart = env.dealloc_apart block w r run in
      let (s, closed, (same, fewer, _)) = file_close-handles file r.1 in
      rw (run, closed)
        (
          _,
          refl,
          (
            omega (arith, fewer, apart),
            inr ((refl, inl fault), refl, refl, omega (arith, same, less)),
          ),
        )

  finish-Ends :
      (path file before open_files : ℕ) (block : Ptr) (bytes : List ℕ) (len : ℕ) (w : W)
      → block ≢ none
      → blocks w ≡ before + 1
      → handles w ≡ open_files + 1
      → bytes ≡ content path
      → len ≡ length (content path)
      → len < size_max
      → Returns (finish stdio libc a file len block bytes w) (Ends path before open_files)
  unfolding finish
  finish-Ends path file before open_files block bytes len w h b o all e small =
      and_then-Returns (file_close-handles file w) λ r (same, fewer, failed).
        elim (Bool-cases (is_ok r.0)) [
          | inl good ↦
              rw (good, terminated len bytes (ap length all ∙ sym e) small)
                (
                  _,
                  refl,
                  (
                    omega (arith, fewer),
                    inl (
                      block,
                      ap (λ t. (ok, some (block, t ++ 0 ∷ []))) all,
                      e,
                      omega (arith, same),
                    ),
                  ),
                )
          | inr bad ↦
              let (d, run, less) = env.lawful.dealloc_law block r.1 h in
              let apart = env.dealloc_apart block r.1 d run in
              rw (bad, run)
                (
                  _,
                  refl,
                  (
                    omega (arith, fewer, apart),
                    inr ((refl, inl (failed bad)), refl, refl, omega (arith, same, less)),
                  ),
                )
        ]

  -- a full read gives the whole text
  read_full :
      (path len : ℕ) (bytes rest : List ℕ)
      → content path ≡ bytes ++ rest
      → len ≡ length (content path)
      → length bytes ≡ len
      → bytes ≡ content path
  read_full path len bytes rest next e full =
      sym (take_front bytes rest)
      ∙ ap (take (length bytes)) (sym next)
      ∙ take-length (length bytes) (content path) (sym (full ∙ e))

  fill_block-Ends :
      (path file before open_files : ℕ) (block : Ptr) (len : ℕ) (w : W)
      → block ≢ none
      → blocks w ≡ before + 1
      → handles w ≡ open_files + 1
      → left file w ≡ content path
      → len ≡ length (content path)
      → len < size_max
      → Returns (fill_block stdio libc a file len block w) (Ends path before open_files)
  unfolding fill_block
  fill_block-Ends path file before open_files block len w h b o t e small =
      let ((bytes, w'), run, ((same, kept), next, whole)) = env.fread_law file len w in
      elim (Bool-cases (length bytes == len)) [
        | inr short ↦
            let fault : Fault = elim (whole (omega (arith, e, ap length t))) [
              | inl full ↦ absurd (ground arith)
              | inr fault ↦ fault
            ] in
            rw (run, short)
              (give_up-Ends path file before open_files block w' fault h (same ∙ b) (kept ∙ o))
        | inl full ↦
            let ((bad, w''), asked, ((same', kept'), failed)) = env.ferror_law file w' in
            let all : bytes ≡ content path =
              read_full path len bytes (left file w') (sym t ∙ next) e (ground arith) in
            elim (Bool-cases bad) [
              | inl error ↦
                  rw (run, full, asked, error)
                    (give_up-Ends path file before open_files block w'' (failed error) h
                      (same' ∙ same ∙ b) (kept' ∙ kept ∙ o))
              | inr fine ↦
                  rw (run, full, asked, fine)
                    (finish-Ends path file before open_files block bytes len w'' h
                      (same' ∙ same ∙ b) (kept' ∙ kept ∙ o) all e small)
            ]
      ]

  load-Ends :
      (path file before open_files len : ℕ) (w : W)
      → blocks w ≡ before
      → handles w ≡ open_files + 1
      → left file w ≡ content path
      → len ≡ length (content path)
      → len < size_max
      → before < limit
      → Returns (load stdio libc a file len w) (Ends path before open_files)
  unfolding load
  load-Ends path file before open_files len w b o t e small room =
      let size : add_size len 1 ≡ len + 1 = add_size-le len 1 (omega arith) in
      and_then-Returns (obtained w size (omega (arith, b))) λ r (outcome, kept, same_left, failed).
        elim (Obtains-cases (blocks w) (blocks r.1) r.0 outcome) [
          | inl (st, (p, ptr), c) ↦ rw st (
              fill_block-Ends path file before open_files r.0.1 len r.1 (λ e. cc)
                (c ∙ omega (arith, b)) (kept ∙ o) (same_left file ∙ t) e small)
          | inr (st, c) ↦
              let (s, closed, (same, fewer, _)) = file_close-handles file r.1 in
              let refused : is_ok r.0.0 ≡ false = rw st refl in
              rw (st, closed)
                (
                  _,
                  refl,
                  (
                    omega (arith, fewer, kept),
                    inr ((rw st refl, inl (failed refused)), refl, refl, omega (arith, same, c)),
                  ),
                )
        ]
    where
      obtained :
          (v : W)
          → add_size len 1 ≡ len + 1
          → blocks v < limit
          → Returns (alloc libc a (add_size len 1) v) λ r.
            Obtains (blocks v) (blocks r.1) r.0
            × (handles r.1 ≡ handles v)
            × ((f : ℕ) → left f r.1 ≡ left f v)
            × (is_ok r.0.0 ≡ false → Fault)
      obtained v size free =
          let (r, run, outcome) =
            env.lawful.alloc_law (add_size len 1) v (omega (arith, size)) free in
          let (kept, same_left, failed) = env.alloc_apart (add_size len 1) v r run in
          (r, run, (outcome, kept, same_left, failed))

  -- the status of a file that is not found, or cannot be read
  missing-error : (w : W) → is_ok (missing stdio w) ≡ false
  unfolding missing
  missing-error w = elim (Bool-cases (errno_is_not_found stdio w)) [
    | inl e ↦ rw e refl
    | inr e ↦ rw e refl
  ]

  -- what `stat` found, or the reason why it did not
  abbrev Found : ℕ → W → (Status × Option Stat) × W → Type 0
  Found path w r =
      Quiet blocks handles w r.1
      × (((r.0.1 ≡ none) × (is_ok r.0.0 ≡ false) × Fault)
          ⊎ ((info : Stat) × (r.0.1 ≡ some info)
              × Sizes Fault (regular path) (content path) (size_of_stat info.is_reg info.size)))

  file_stat-Found : (path : ℕ) (w : W) → Returns (file_stat stdio path w) (Found path w)
  unfolding file_stat
  file_stat-Found path w = and_then-Returns (env.stat_law path w) λ r (quiet, absent, found).
      elim (Option-cases r.0) [
        | inl e ↦ rw e (_, refl, (quiet, inl (refl, missing-error r.1, absent e)))
        | inr (info, e) ↦
            let (is, size) = found info e in
            let sizes =
              size_of_stat-Sizes Fault (regular path) (content path) info.is_reg info.size is
                size in
            rw e (_, refl, (quiet, inr (info, refl, sizes)))
      ]

  file_size-Sizes :
      (path : ℕ) (w : W)
      → Returns
          (file_size stdio path w)
          λ r. Quiet blocks handles w r.1 × Sizes Fault (regular path) (content path) r.0
  unfolding file_size
  file_size-Sizes path w = and_then-Returns (file_stat-Found path w) λ r (quiet, outcome).
      elim outcome [
        | inl (e, error, fault) ↦ rw e (_, refl, (quiet, inr (error, inl fault)))
        | inr (info, e, sizes) ↦ rw e (_, refl, (quiet, sizes))
      ]

  open_all-Ends :
      (path len : ℕ) (w : W)
      → len ≡ length (content path)
      → len < size_max
      → blocks w < limit
      → Returns (open_all stdio libc a path len w) (Ends path (blocks w) (handles w))
  unfolding open_all
  open_all-Ends path len w size small room =
      and_then-Returns (env.open_law path w) λ r (same, closed, opened). elim (Option-cases r.0) [
        | inl e ↦
            let (kept, fault) = closed e in
            rw e (_, refl, (kept, inr ((missing-error r.1, inl fault), refl, refl, same)))
        | inr (file, e) ↦
            let (one_more, fresh) = opened file e in
            rw e (
              load-Ends path file (blocks w) (handles w) len r.1 same one_more fresh size small
                room)
      ]

  -- Over a C library and an allocator that act as `Environment` says, where no one changes the files
  -- meanwhile, and with room for one more block: `read_all` returns, and as many files are open as
  -- before. Either it succeeds: then it gives the whole content of the file with a zero byte behind
  -- it, in one new block, and its length. Or it reports an error, gives nothing and leaves no block
  -- behind; then a call of the C library or of the allocator has failed, the status is
  -- `invalid_argument` and the file is not regular, or the status is `overflow` and the file has
  -- SIZE_MAX bytes or more.
  pub read_all-Loads :
      (path : ℕ) (w : W)
      → blocks w < limit
      → Returns
          (read_all stdio libc a path w)
          (Loads blocks handles Fault (blocks w) (handles w) (regular path) (content path))
  unfolding read_all
  read_all-Loads path w room =
      and_then-Returns (file_size-Sizes path w) λ r ((same, kept), outcome). elim outcome [
        | inr (bad, reason) ↦ rw bad (_, refl, (kept, inr ((bad, reason), refl, refl, same)))
        | inl (good, size, bound) ↦ elim (Bool-cases (r.0.1 == size_max)) [
          | inl full ↦
              let large : size_max ≤ length (content path) = ground arith in
              rw (good, full)
                (_, refl, (kept, inr ((refl, inr (inr (refl, large))), refl, refl, same)))
          | inr small ↦
              rw (good, small, sym same, sym kept)
                (open_all-Ends path r.0.1 r.1 size (ground arith) (omega (arith, same)))
        ]
      ]
