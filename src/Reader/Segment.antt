-- ===== src/Reader/Segment.antt =====
-- What taking the bytes through a delimiter promises, and its ends that give a cursor.
use mathlib.Core.Path.{subst}
use k4c.Base.{
  Avoids, ℕ, suc, ◌-◌, ◌≤◌, ◌<◌, ◌≡◌, refl, sym, ◌∙◌, ◌⊎◌, inl, inr, arith, Option, none, some,
  List, [], ◌∷◌, ◌++◌, length, take-length, take, Returns,
}
use k4c.Base.Bytes.{find_byte}
use k4c.Size.{add_size}
use k4c.Status.{Status, ok, overflow, eof}
use k4c.Cursor.{Cursor}
use k4c.Cursor
use k4c.Cursor.Unread
use k4c.Reader.{Reader, give_through}
use k4c.Reader.Buffer.{IsValid, unread, length-unread, add_size-le}
use k4c.Reader.Rebase.{Keeps, Keeps-trans}
use k4c.Reader.Fill.{stream}
use k4c.Reader.Take.{advance_lem}
use k4c.Reader.Array.{window_cursor, window_cursor-unread, split_append}
use k4c.Reader.FindByte.{find_byte-some}

append_empty : {a b y z : List ℕ} → a ≡ b → y ≡ [] → z ≡ [] → a ++ y ≡ b ++ z
append_empty e f g = rw (e, f, g) refl

-- the bytes end with the delimiter, or they are the last ones and hold none
abbrev pub EndsAt : ℕ → List ℕ → List ℕ → Type 0
EndsAt delimiter bytes rest =
    ((front : List ℕ) × (bytes ≡ front ++ delimiter ∷ []) × Avoids delimiter front)
    ⊎ ((0 < length bytes) × Avoids delimiter bytes × (rest ≡ []))

module _ {W : Type 0} (content : W → List ℕ) (Fault : Status → Type 0) (delimiter : ℕ) where
  abbrev pub Outcome : Type 0
  Outcome = ((Status × Option Cursor) × Reader W) × W

  -- the stream begins with the bytes of the cursor, and goes on with what is left
  abbrev pub Gives : Reader W → W → Outcome → Type 0
  Gives r w o =
      (c : Cursor) × (o.0.0 ≡ (ok, some c))
      × Cursor.Unread.IsValid c
      × (stream content r w ≡ Cursor.Unread.unread c ++ stream content o.0.1 o.1)
      × EndsAt delimiter (Cursor.Unread.unread c) (stream content o.0.1 o.1)

  -- why nothing is given: the end of the stream, no delimiter in a full buffer, or a fault
  abbrev pub Reasons : ℕ → List ℕ → Status → Type 0
  Reasons capacity bytes st =
      ((st ≡ eof) × (bytes ≡ []))
      ⊎ ((st ≡ overflow) × (capacity ≤ length bytes) × Avoids delimiter (take capacity bytes))
      ⊎ Fault st

  abbrev pub TakesDelimiter : Reader W → W → Outcome → Type 0
  TakesDelimiter r w o =
      Keeps r o.0.1
      × (Gives r w o
          ⊎ ((o.0.0.1 ≡ none)
              × (stream content o.0.1 o.1 ≡ stream content r w)
              × Reasons r.capacity (stream content r w) o.0.0.0))

  pub TakesDelimiter-step :
      {r s : Reader W} (w w' : W) (o : Outcome)
      → Keeps r s
      → stream content s w' ≡ stream content r w
      → TakesDelimiter s w' o
      → TakesDelimiter r w o
  TakesDelimiter-step {r} {s} w w' o keeps same (k, inl (c, e, valid, begins, ends)) =
      (Keeps-trans keeps k, inl (c, e, valid, sym same ∙ begins, ends))
  TakesDelimiter-step {r} {s} w w' o keeps same (k, inr (e, left, why)) =
      let moved : Reasons s.capacity (stream content r w) o.0.0.0 =
        subst (λ bytes. Reasons s.capacity bytes o.0.0.0) same why in
      (
        Keeps-trans keeps k,
        inr (
          e,
          left ∙ same,
          subst (λ n. Reasons n (stream content r w) o.0.0.0) keeps.same_capacity moved,
        ),
      )

  -- a delimiter among the unread bytes
  pub found_lem :
      {r : Reader W}
      → IsValid r
      → (i : ℕ) → find_byte delimiter (unread r) ≡ some i
      → (w : W)
      → Returns
          (give_through r (add_size i 1) (record r { pos = add_size r.pos (add_size i 1) }) w)
          (TakesDelimiter r w)
  unfolding Cursor.create
  found_lem {r} v i e w =
      let (inside, avoids, upto) = find_byte-some delimiter (unread r) i e in
      let fits : suc i ≤ r.len - r.pos = omega (arith, length-unread v) in
      let count : add_size i 1 ≡ suc i =
        add_size-le i 1 (omega (arith, v.within, v.small)) ∙ omega arith in
      let (valid, bytes) = window_cursor-unread v (suc i) fits in
      let (moved, rest) = advance_lem v (suc i) fits in
      rw count (
        _,
        refl,
        (
          moved,
          inl (
            window_cursor r (suc i),
            refl,
            valid,
            split_append (unread r) (suc i) (content w) bytes rest,
            inl (take i (unread r), bytes ∙ upto, avoids),
          ),
        ),
      )

  -- no delimiter, and no more bytes to come
  pub last_lem :
      {r : Reader W} {w : W}
      → IsValid r
      → Avoids delimiter (unread r)
      → content w ≡ []
      → 0 < r.len - r.pos
      → Returns (give_through r (r.len - r.pos) (record r { pos = r.len }) w) (TakesDelimiter r w)
  unfolding Cursor.create
  last_lem {r} {w} v avoids end some_left =
      let (valid, bytes) = window_cursor-unread v (r.len - r.pos) (omega arith) in
      let whole : take (r.len - r.pos) (unread r) ≡ unread r =
        take-length (r.len - r.pos) (unread r) (length-unread v) in
      let none_left : r.len - r.len ≡ 0 = omega arith in
      let over : stream content (record r { pos = r.len }) w ≡ [] = rw (none_left, end) refl in
      (
        _,
        refl,
        (
          record {
            valid = record {
              stored = v.stored;
              read_in = omega arith;
              within = v.within;
              room = v.room;
              small = v.small;
            };
            same_source = refl;
            same_capacity = refl;
          },
          inl (
            window_cursor r (r.len - r.pos),
            refl,
            valid,
            append_empty (sym (bytes ∙ whole)) end over,
            inr (rw (bytes, whole, length-unread v) some_left, rw (bytes, whole) avoids, over),
          ),
        ),
      )
