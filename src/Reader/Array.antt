-- ===== src/Reader/Array.antt =====
-- Taking an array of bytes from the stream, and the cursor over them.
use k4c.Base.{
  ℕ, ◌+◌, ◌-◌, ◌≤◌, ◌<◌, ◌≡◌, ◌≢◌, refl, sym, ap, ◌∙◌, ◌⊎◌, inl, inr, arith, ltb, ◌==◌, false,
  Option, none, some, List, ◌++◌, length, length-append, length-drop, length-take, take, drop,
  append_assoc, done, Returns, and_then-Returns,
}
use k4c.Status.{Status, ok, eof, overflow}
use k4c.Cursor.{Cursor}
use k4c.Cursor
use k4c.Reader.{Reader, give_array, take_array}
use k4c.Reader.Buffer.{IsValid, unread, length-unread, take-segment, take-drop}
use k4c.Cursor.Unread
use k4c.Reader.Rebase.{Keeps, Keeps-trans}
use k4c.Reader.Fill.{Stops, Delivers, stream, Stops-ne_ok}
use k4c.Reader.Take.{advance_lem}
use k4c.Reader.Gather.{Gathers, gather-Gathers}

-- a cursor over the next `count` unread bytes
abbrev pub window_cursor : {W : Type 0} → Reader W → ℕ → Cursor
window_cursor r count = record { bytes = drop r.pos r.cells; len = count; pos = 0 }

module _ {W : Type 0} where
  pub window_cursor-unread :
      {r : Reader W}
      → IsValid r
      → (count : ℕ) → count ≤ r.len - r.pos
      → Cursor.Unread.IsValid (window_cursor r count)
        × (Cursor.Unread.unread (window_cursor r count) ≡ take count (unread r))
  window_cursor-unread {r} v count h =
      let whole : count - 0 ≡ count = omega arith in
      (
        record {
          stored = omega (arith, length-drop r.pos r.cells, v.stored, v.within);
          small = omega (arith, v.within, v.small);
          inside = omega arith;
        },
        rw whole (take-segment r.cells r.pos r.len count (omega (arith, v.read_in))),
      )

pub split_append :
    (u : List ℕ) (n : ℕ) (z : List ℕ) {front back : List ℕ}
    → front ≡ take n u
    → back ≡ drop n u
    → u ++ z ≡ front ++ (back ++ z)
split_append u n z e f =
    rw (e, f) (ap (λ t. t ++ z) (take-drop n u) ∙ append_assoc (take n u) (drop n u) z)

module _ {W : Type 0} (content : W → List ℕ) (Fault : Status → Type 0) where
  -- The stream begins with the bytes of the cursor, `count` of them, and goes on with what is left.
  abbrev Gives : ℕ → Reader W → W → ((Status × Option Cursor) × Reader W) × W → Type 0
  Gives count r w o =
      (c : Cursor) × (o.0.0 ≡ (ok, some c))
      × Cursor.Unread.IsValid c
      × (length (Cursor.Unread.unread c) ≡ count)
      × (stream content r w ≡ Cursor.Unread.unread c ++ stream content o.0.1 o.1)

  abbrev pub TakesArray : ℕ → Reader W → W → ((Status × Option Cursor) × Reader W) × W → Type 0
  TakesArray count r w o =
      Keeps r o.0.1
      × (Gives count r w o
          ⊎ ((o.0.0.1 ≡ none)
              × (stream content o.0.1 o.1 ≡ stream content r w)
              × (((o.0.0.0 ≡ eof) × (length (stream content r w) < count)) ⊎ Fault o.0.0.0)))

  give_array-TakesArray :
      {count : ℕ} {r : Reader W} (w : W)
      → ((s : Status) → Fault s → (s ≢ ok) × (s ≢ eof))
      → (o : (Status × Reader W) × W) → Gathers content Fault count r w o
      → Returns (give_array count o.0 o.1) (TakesArray count r w)
  unfolding Cursor.create
  give_array-TakesArray {count} w faults ((st, s), w') (keeps, same, inl (e, enough)) =
      let inside : count ≤ s.len - s.pos = omega (arith, length-unread keeps.valid) in
      let (valid, bytes) = window_cursor-unread keeps.valid count inside in
      let (moved, rest) = advance_lem keeps.valid count inside in
      rw e (
        _,
        refl,
        (
          Keeps-trans keeps moved,
          inl (
            window_cursor s count,
            refl,
            valid,
            ap length bytes ∙ omega (arith, length-take count (unread s), enough),
            sym same ∙ split_append (unread s) count (content w') bytes rest,
          ),
        ),
      )
  give_array-TakesArray {count} {r} w faults ((st, s), w') (keeps, same, inr (few, stop)) =
      rw (Stops-ne_ok faults stop) (_, refl, (keeps, inr (refl, same, short stop)))
    where
      short :
          Stops Fault (content w') st
          → ((st ≡ eof) × (length (stream content r w) < count)) ⊎ Fault st
      short (inl (e, none_left)) = inl (
        e,
        omega (
          arith,
          ap length (sym same),
          length-append (unread s) (content w'),
          ap length none_left,
          few,
        ),
      )
      short (inr f) = inr f

  -- On a valid reader over a source that delivers a stream, and for a count within the capacity,
  -- `take_array` returns and keeps the invariant. It gives a valid cursor over the first `count`
  -- bytes of the stream and leaves the others; or it gives none and leaves the stream, when the
  -- stream has fewer bytes and the status is EOF, or the source reports a fault.
  pub take_array-TakesArray :
      {r : Reader W}
      → IsValid r
      → Delivers content Fault r.read
      → (count : ℕ) → count ≤ r.capacity
      → (w : W) → Returns (take_array r count w) (TakesArray count r w)
  unfolding take_array
  take_array-TakesArray {r} v source count fits w =
      let room : (r.capacity == 0) ≡ false = ground (arith, v.room) in
      let holds : ltb r.capacity count ≡ false = ground arith in
      rw (room, holds)
        (and_then-Returns
          (gather-Gathers content Fault (count + 1) count v source fits w (omega arith))
          λ o g. give_array-TakesArray w source.fault_law o g)

  -- a larger count is refused with OVERFLOW, and nothing changes
  pub take_array-overflow :
      (r : Reader W) (count : ℕ) (w : W)
      → IsValid r
      → r.capacity < count
      → take_array r count w ≡ done (((overflow, none), r), w)
  unfolding take_array
  take_array-overflow r count w v h = ground (arith, v.room)
