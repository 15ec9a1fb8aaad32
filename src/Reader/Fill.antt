-- ===== src/Reader/Fill.antt =====
-- `k4c_reader_fill_more`, for a source that delivers a stream of bytes.
use k4c.Base.{
  ℕ, suc, ◌+◌, ◌-◌, ◌≤◌, ◌<◌, ◌≡◌, ◌≢◌, refl, sym, ap, ◌∙◌, ◌⊎◌, inl, inr, arith, ltb, ◌==◌,
  if◌then◌else◌, true, false, List, [], ◌∷◌, ◌++◌, length, append_assoc, Prog, Returns,
  and_then-Returns,
}
use k4c.Size.{sub_size, add_size}
use k4c.Status.{
  Status, ok, invalid_argument, no_memory, overflow, out_of_range, not_found, eof, io, invalid_data,
  unsupported, is_ok,
}
use k4c.Reader.{Reader, rebase, filled, read_more, fill_more}
use k4c.Reader.Buffer.{
  IsValid, unread, length-unread, segment-patch, length-patch, sub_size-le, add_size-le,
}
use k4c.Reader.Rebase.{Keeps, Rebased, rebase-Rebased}

-- what an answer without bytes says when `before` was still to come
abbrev pub Stops : (Status → Type 0) → List ℕ → Status → Type 0
Stops Fault before st = ((st ≡ eof) × (before ≡ [])) ⊎ Fault st

abbrev pub Explains : (Status → Type 0) → List ℕ → Status → List ℕ → Type 0
Explains Fault before st [] = ((st ≡ ok) × (before ≡ [])) ⊎ Stops Fault before st
Explains Fault before st (byte ∷ bytes) = Unit

-- `content` is the stream that the source has still to deliver. A call for some bytes gives at most
-- as many, the first of the stream; it gives none only at the end of the stream or with a fault.
pub record Delivers {W : Type 0} (content : W → List ℕ) (Fault : Status → Type 0)
    (read : ℕ → Prog W (Status × List ℕ)) : Type 0 where
  pub read_law :
      (n : ℕ) (w : W)
      → 0 < n
      → Returns (read n w) λ a.
        (length a.0.1 ≤ n)
        × (content w ≡ a.0.1 ++ content a.1)
        × Explains Fault (content w) a.0.0 a.0.1
  pub fault_law : (st : Status) → Fault st → (st ≢ ok) × (st ≢ eof)

is_ok-ne : (st : Status) → st ≢ ok → is_ok st ≡ false
is_ok-ne ok h = absurd (h refl)
is_ok-ne invalid_argument h = refl
is_ok-ne no_memory h = refl
is_ok-ne overflow h = refl
is_ok-ne out_of_range h = refl
is_ok-ne not_found h = refl
is_ok-ne eof h = refl
is_ok-ne io h = refl
is_ok-ne invalid_data h = refl
is_ok-ne unsupported h = refl

pub Stops-ne_ok :
    {Fault : Status → Type 0} {st : Status} {before : List ℕ}
    → ((s : Status) → Fault s → (s ≢ ok) × (s ≢ eof))
    → Stops Fault before st
    → is_ok st ≡ false
Stops-ne_ok faults (inl (e, end)) = rw e refl
Stops-ne_ok {st} faults (inr f) = is_ok-ne st (faults st f).0

-- the whole stream: what is unread, and then what the source has still to deliver
abbrev pub stream : {W : Type 0} → (W → List ℕ) → Reader W → W → List ℕ
stream content r w = unread r ++ content w

module _ {W : Type 0} (content : W → List ℕ) (Fault : Status → Type 0) where
  -- how filling may end when at most `most` bytes are asked for
  pub record Filled (r : Reader W) (most : ℕ) (w : W) (o : (Status × Reader W) × W) : Type 0 where
    pub keeps : Keeps r o.0.1
    pub arrived : List ℕ
    pub extended : unread o.0.1 ≡ unread r ++ arrived
    pub taken : content w ≡ arrived ++ content o.1
    pub outcome :
        ((o.0.0 ≡ ok) × (0 < length arrived) × (length arrived ≤ most))
        ⊎ ((arrived ≡ []) × Stops Fault (content w) o.0.0)

  filled_status :
      (st : Status) (bytes : List ℕ) {most : ℕ} {before : List ℕ}
      → ((s : Status) → Fault s → (s ≢ ok) × (s ≢ eof))
      → length bytes ≤ most
      → Explains Fault before st bytes
      → (((if ltb 0 (length bytes) then ok else (if is_ok st then eof else st)) ≡ ok)
          × (0 < length bytes)
          × (length bytes ≤ most))
        ⊎ ((bytes ≡ [])
            × Stops Fault before
                (if ltb 0 (length bytes) then ok else (if is_ok st then eof else st)))
  filled_status st [] faults h (inl (e, end)) = rw (e, is_ok) (inr (refl, inl (refl, end)))
  filled_status st [] faults h (inr (inl (e, end))) = rw (e, is_ok) (inr (refl, inl (refl, end)))
  filled_status st [] faults h (inr (inr f)) = rw (is_ok-ne st (faults st f).0) (inr (refl, inr f))
  filled_status st (b ∷ bytes) faults h x =
      let some_bytes : ltb 0 (suc (length bytes)) ≡ true = ground arith in
      rw some_bytes (inl (refl, omega arith, h))

  filled-Filled :
      {r : Reader W} {w w' : W} {most : ℕ} (st : Status) (bytes : List ℕ)
      → ((s : Status) → Fault s → (s ≢ ok) × (s ≢ eof))
      → IsValid r
      → length bytes ≤ r.capacity - r.len
      → length bytes ≤ most
      → content w ≡ bytes ++ content w'
      → Explains Fault (content w) st bytes
      → Filled r most w (filled r (st, bytes), w')
  filled-Filled {r} st bytes faults v room bound taken x =
      let sum : add_size r.len (length bytes) ≡ r.len + length bytes =
        add_size-le r.len (length bytes) (omega (arith, v.within, v.small)) in
      record {
        keeps = record {
          valid = record {
            stored =
                length-patch r.cells r.len bytes (omega (arith, v.stored, v.within)) ∙ v.stored;
            read_in = rw sum (omega (arith, v.read_in));
            within = rw sum (omega (arith, v.within));
            room = v.room;
            small = v.small;
          };
          same_source = refl;
          same_capacity = refl;
        };
        arrived = bytes;
        extended =
            rw sum (
              segment-patch r.cells r.pos r.len bytes v.read_in
                (omega (arith, v.stored, v.within)));
        taken = taken;
        outcome = filled_status st bytes faults bound x;
      }

  read_more-Filled :
      {r : Reader W}
      → IsValid r
      → Delivers content Fault r.read
      → r.len < r.capacity
      → (most : ℕ) → 0 < most
      → (w : W) → Returns (read_more most (ok, r) w) (Filled r most w)
  unfolding read_more
  read_more-Filled {r} v source room most h w =
      let free : sub_size r.capacity r.len ≡ r.capacity - r.len =
        sub_size-le r.capacity r.len v.within v.small in
      let asked : ℕ = if ltb most (r.capacity - r.len) then most else r.capacity - r.len in
      let bounds : (0 < asked) × (asked ≤ most) × (asked ≤ r.capacity - r.len) = ground arith in
      let positive : (asked == 0) ≡ false = ground arith in
      rw (free, positive)
        (and_then-Returns (source.read_law asked w bounds.0) λ ((st, bytes), w') (few, taken, x).
          let fits : ltb asked (length bytes) ≡ false = ground arith in
          rw fits (
            _,
            refl,
            filled-Filled st bytes source.fault_law v (omega arith) (omega arith) taken x,
          ))

  pub source_Delivers :
      {read read' : ℕ → Prog W (Status × List ℕ)}
      → read' ≡ read
      → Delivers content Fault read
      → Delivers content Fault read'
  source_Delivers e source = rw e source

  Rebased-Filled :
      {r : Reader W} {required most : ℕ} {w : W} {rebased : Status × Reader W}
      → Rebased r required rebased
      → (o : (Status × Reader W) × W) → Filled rebased.1 most w o
      → Filled r most w o
  Rebased-Filled b o f = record {
    keeps = record {
      valid = f.keeps.valid;
      same_source = f.keeps.same_source ∙ b.keeps.same_source;
      same_capacity = f.keeps.same_capacity ∙ b.keeps.same_capacity;
    };
    arrived = f.arrived;
    extended = f.extended ∙ ap (λ u. u ++ f.arrived) b.same_unread;
    taken = f.taken;
    outcome = f.outcome;
  }

  after_rebase :
      {r : Reader W} {required : ℕ}
      → IsValid r
      → Delivers content Fault r.read
      → r.len - r.pos < required
      → (most : ℕ) → 0 < most
      → (w : W) (o : Status × Reader W) → Rebased r required o
      → Returns (read_more most o w) (Filled r most w)
  after_rebase {r} v source less most h w (st, r') b =
      let held : r'.len - r'.pos ≡ r.len - r.pos =
        sym (length-unread b.keeps.valid) ∙ ap length b.same_unread ∙ length-unread v in
      let room : r'.len < r'.capacity =
        omega (arith, held, b.fits, b.keeps.same_capacity, b.keeps.valid.read_in) in
      let (o, run, f) =
        read_more-Filled b.keeps.valid (source_Delivers b.keeps.same_source source) room most h w in
      rw b.success (o, run, Rebased-Filled b o f)

  -- For a valid reader, a source that delivers a stream, and a window that its buffer can hold and
  -- that is larger than what is unread: `fill_more` returns, it keeps the invariant, and appends to
  -- the unread bytes the next ones of the stream. It succeeds with one of them or more and at most
  -- as many as it was asked for; or it gets none, at the end of the stream with the status EOF, or
  -- with a fault of the source.
  pub fill_more-Filled :
      {r : Reader W}
      → IsValid r
      → Delivers content Fault r.read
      → (required : ℕ) → required ≤ r.capacity
      → r.len - r.pos < required
      → (most : ℕ) → 0 < most
      → (w : W) → Returns (fill_more r required most w) (Filled r most w)
  unfolding fill_more
  fill_more-Filled {r} v source required fits less most h w =
      after_rebase v source less most h w (rebase r required) (rebase-Rebased v required fits)

  pub Filled-stream :
      {r : Reader W} {most : ℕ} {w : W} (o : (Status × Reader W) × W)
      → Filled r most w o
      → stream content o.0.1 o.1 ≡ stream content r w
  Filled-stream {r} {w} o f =
      rw (f.extended, f.taken) (append_assoc (unread r) f.arrived (content o.1))
