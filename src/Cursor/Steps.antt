-- ===== src/Cursor/Steps.antt =====
-- Peeking, reading, skipping and matching a prefix, as operations on the list of the unread bytes.
use k4c.Base.{
  ℕ, zero, suc, ◌+◌, ◌-◌, ◌≤◌, ◌<◌, ◌≡◌, refl, sym, ◌⊎◌, inl, inr, arith, ltb, leb, Bool-cases,
  Option, none, some, List, [], ◌∷◌, length, get_elem?, get_elem?-some, get_elem?-take,
  get_elem?-none, drop, ap, ◌∙◌,
}
use k4c.Status.{Status, ok, eof}
use k4c.Cursor.{Cursor, peek_at, peek, next, skip, advance}
use k4c.Cursor.Unread.{
  IsValid, unread, length-unread, remaining_lem, advance_pos, advance-IsValid, unread-advance,
}

-- the answer of an operation that looks for one byte
abbrev pub found : Option ℕ → Status × Option ℕ
found none = (eof, none)
found (some byte) = (ok, some byte)

get_elem?-drop : (n : ℕ) (xs : List ℕ) (i : ℕ) → get_elem? (drop n xs) i ≡ get_elem? xs (n + i)
get_elem?-drop zero xs i = let e : 0 + i ≡ i = omega arith in rw e refl
get_elem?-drop (suc n) [] i = refl
get_elem?-drop (suc n) (x ∷ xs) i =
    let e : suc n + i ≡ suc (n + i) = omega arith in rw e (get_elem?-drop n xs i)

get_elem?-unread :
    (c : Cursor) (i : ℕ)
    → i < c.len - c.pos
    → get_elem? (unread c) i ≡ get_elem? c.bytes (c.pos + i)
get_elem?-unread c i h =
    get_elem?-take (c.len - c.pos) (drop c.pos c.bytes) i h ∙ get_elem?-drop c.pos c.bytes i

-- On a valid cursor and any offset, a peek answers with the unread byte at that offset, and with
-- end of file where there is no such byte.
pub peek_at-unread :
    {c : Cursor} → IsValid c → (offset : ℕ) → peek_at c offset ≡ found (get_elem? (unread c) offset)
unfolding peek_at
peek_at-unread {c} v offset = elim (Bool-cases (leb (c.len - c.pos) offset)) [
  | inl e ↦
      rw (remaining_lem v, e, get_elem?-none (unread c) offset (ground (arith, length-unread v)))
        refl
  | inr e ↦
      let h : offset < c.len - c.pos = ground arith in
      let (b, at) = get_elem?-some c.bytes (c.pos + offset) (omega (arith, v.stored)) in
      rw (remaining_lem v, e, advance_pos v offset (omega arith), get_elem?-unread c offset h, at)
        refl
]

pub peek-unread : {c : Cursor} → IsValid c → peek c ≡ found (get_elem? (unread c) 0)
unfolding peek
peek-unread v = peek_at-unread v 0

-- What reading a byte does: it takes the first unread byte off, or changes nothing at the end.
abbrev pub Reads : Cursor → Type 0
Reads c =
    ((unread c ≡ []) × (next c ≡ (eof, none, c)))
    ⊎ ((byte : ℕ) × (rest : List ℕ) × (unread c ≡ byte ∷ rest)
        × (next c ≡ (ok, some byte, advance c 1))
        × IsValid (advance c 1)
        × (unread (advance c 1) ≡ rest))

reads : {c : Cursor} → IsValid c → (bytes : List ℕ) → unread c ≡ bytes → Reads c
unfolding next peek
reads {c} v [] e =
    let answer : peek_at c 0 ≡ (eof, none) = peek_at-unread v 0 ∙ rw e refl in
    inl (e, rw answer refl)
reads {c} v (byte ∷ rest) e =
    let answer : peek_at c 0 ≡ (ok, some byte) = peek_at-unread v 0 ∙ rw e refl in
    let size : suc (length rest) ≡ c.len - c.pos = ap length (sym e) ∙ length-unread v in
    let fits : 1 ≤ c.len - c.pos = omega (arith, size) in
    inr (
      byte,
      rest,
      e,
      rw answer refl,
      advance-IsValid v 1 fits,
      unread-advance v 1 fits ∙ ap (drop 1) e,
    )

-- On a valid cursor, `next` returns the first unread byte and leaves exactly the others unread; with
-- nothing unread it answers end of file and the cursor stays as it is.
pub next-Reads : {c : Cursor} → IsValid c → Reads c
next-Reads {c} v = reads v (unread c) refl

-- On a valid cursor and any count, `skip` drops that many unread bytes where there are as many, and
-- otherwise answers end of file and leaves the cursor as it is.
pub skip-unread :
    {c : Cursor}
    → IsValid c
    → (count : ℕ)
    → ((count ≤ length (unread c))
        × (skip c count ≡ (ok, advance c count))
        × IsValid (advance c count)
        × (unread (advance c count) ≡ drop count (unread c)))
      ⊎ ((length (unread c) < count) × (skip c count ≡ (eof, c)))
unfolding skip
skip-unread {c} v count = elim (Bool-cases (ltb (c.len - c.pos) count)) [
  | inl e ↦ rw (length-unread v, remaining_lem v) (inr (ground arith, rw e refl))
  | inr e ↦
      let h : count ≤ c.len - c.pos = ground arith in
      rw (length-unread v, remaining_lem v)
        (inl (h, rw e refl, advance-IsValid v count h, unread-advance v count h))
]
