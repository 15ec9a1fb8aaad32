-- ===== src/Reader/Take.antt =====
-- Taking a byte from the stream.
use k4c.Base.{
  ℕ, suc, ◌+◌, ◌-◌, ◌≤◌, ◌<◌, ◌≡◌, refl, sym, ap, ◌∙◌, ◌⊎◌, inl, inr, arith, leb, ◌==◌, false,
  Bool-cases, Option, none, some, List, [], ◌∷◌, ◌++◌, length, length-append, drop, get_elem?,
  get_elem?-some, drop-cons, Returns, and_then-Returns,
}
use k4c.Size.{add_size}
use k4c.Status.{Status, ok}
use k4c.Reader.{Reader, take_byte, give_byte}
use k4c.Reader.Buffer.{IsValid, unread, length-unread, drop-segment, add_size-le}
use k4c.Reader.Rebase.{Keeps, Keeps-trans}
use k4c.Reader.Fill.{Stops, Delivers, Filled, fill_more-Filled, stream, Stops-ne_ok, Filled-stream}

module _ {W : Type 0} where
  -- the position moves past some of the unread bytes
  pub advance_lem :
      {r : Reader W}
      → IsValid r
      → (n : ℕ) → n ≤ r.len - r.pos
      → Keeps r (record r { pos = add_size r.pos n })
        × (unread (record r { pos = add_size r.pos n }) ≡ drop n (unread r))
  advance_lem {r} v n h =
      let sum : add_size r.pos n ≡ r.pos + n =
        add_size-le r.pos n (omega (arith, v.read_in, v.within, v.small)) in
      (
        record {
          valid = record {
            stored = v.stored;
            read_in = rw sum (omega (arith, v.read_in));
            within = v.within;
            room = v.room;
            small = v.small;
          };
          same_source = refl;
          same_capacity = refl;
        },
        rw sum (sym (drop-segment r.cells r.pos r.len n)),
      )

  first_byte :
      {r : Reader W}
      → IsValid r
      → r.pos < r.len
      → (x : ℕ) × (get_elem? r.cells r.pos ≡ some x) × (unread r ≡ x ∷ drop 1 (unread r))
  first_byte {r} v h =
      let (x, e) = get_elem?-some r.cells r.pos (omega (arith, v.stored, v.within)) in
      let more : r.len - r.pos ≡ suc (r.len - r.pos - 1) = omega arith in
      (x, e, rw (drop-cons r.cells r.pos e, more) refl)

module _ {W : Type 0} (content : W → List ℕ) (Fault : Status → Type 0) where
  abbrev pub TakesByte : Reader W → W → ((Status × Option ℕ) × Reader W) × W → Type 0
  TakesByte r w o =
      Keeps r o.0.1
      × (((x : ℕ) × (o.0.0.0 ≡ ok)
            × (o.0.0.1 ≡ some x)
            × (stream content r w ≡ x ∷ stream content o.0.1 o.1))
          ⊎ ((o.0.0.1 ≡ none)
              × (stream content o.0.1 o.1 ≡ stream content r w)
              × (unread r ≡ [])
              × Stops Fault (stream content r w) o.0.0.0))

  -- the end of taking a byte, when one is unread
  given_byte :
      {r : Reader W} (w : W)
      → IsValid r
      → r.pos < r.len
      → let r' = record r { pos = add_size r.pos 1 } in
        (x : ℕ) × (get_elem? r.cells r.pos ≡ some x)
        × (stream content r w ≡ x ∷ stream content r' w)
        × Keeps r r'
  given_byte {r} w v h =
      let (x, e, split) = first_byte v h in
      let (keeps, rest) = advance_lem v 1 (omega arith) in
      (x, e, ap (λ u. u ++ content w) (split ∙ ap (◌∷◌ x) (sym rest)), keeps)

  fresh_byte :
      {r : Reader W} {w : W}
      → IsValid r
      → Delivers content Fault r.read
      → r.len ≤ r.pos
      → (o : (Status × Reader W) × W) → Filled content Fault r r.capacity w o
      → TakesByte r w (give_byte o.0, o.1)
  fresh_byte {r} {w} v source end ((st, r'), w') f =
      let none_unread : r.len - r.pos ≡ 0 = omega arith in
      let same = Filled-stream content Fault ((st, r'), w') f in
      elim (f.outcome) [
        | inl (e, got, few) ↦
            let held : r'.len - r'.pos ≡ length (unread r ++ f.arrived) =
              sym (length-unread f.keeps.valid) ∙ ap length f.extended in
            let more : r'.pos < r'.len = omega (arith, held, length-append (unread r) f.arrived) in
            let (x, found, split, keeps) = given_byte w' f.keeps.valid more in
            rw e (Keeps-trans f.keeps keeps, inl (x, refl, found, sym same ∙ split))
        | inr (e, stop) ↦
            let nothing : unread r ≡ [] = rw none_unread refl in
            rw (Stops-ne_ok source.fault_law stop)
              (f.keeps, inr (refl, same, nothing, rw none_unread stop))
      ]

  -- On a valid reader over a source that delivers a stream, `take_byte` returns and keeps the
  -- invariant. It gives the first byte of the stream and leaves the others; or it gives none and
  -- leaves the stream, when nothing is unread and either the stream is at its end and the status is
  -- EOF, or the source reports a fault.
  pub take_byte-TakesByte :
      {r : Reader W}
      → IsValid r
      → Delivers content Fault r.read
      → (w : W) → Returns (take_byte r w) (TakesByte r w)
  unfolding take_byte
  take_byte-TakesByte {r} v source w =
      let room : (r.capacity == 0) ≡ false = ground (arith, v.room) in
      rw room (elim (Bool-cases (leb r.len r.pos)) [
        | inl end ↦ rw end (
            and_then-Returns
              (fill_more-Filled content Fault v source 1 v.room (ground arith) r.capacity v.room w)
              λ o f. (_, refl, fresh_byte v source (ground arith) o f))
        | inr more ↦
            let (x, found, split, keeps) = given_byte w v (ground arith) in
            rw more (_, refl, (keeps, inl (x, refl, found, split)))
      ])
