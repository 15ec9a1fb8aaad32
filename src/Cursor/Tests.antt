-- ===== src/Cursor/Tests.antt =====
-- A cursor at work on seven bytes, and its theorems there.
use k4c.Base.{◌≡◌, ◌↔◌, refl, arith, true, [], ◌∷◌, Returns, done}
use k4c.Cursor.{
  Cursor, at_end, peek, create_from_cstr, starts_with, skip_while, skip_ascii_whitespace,
  is_ascii_whitespace, advance,
}
use k4c.Cursor.Unread.{IsValid, unread}
use k4c.Cursor.Prefix.{BeginsWith, starts_with-BeginsWith}
use k4c.Cursor.SkipWhile.{count_while, drop_while, skip_while-Stops}

-- the text " \tab\ncd", with its first byte read
abbrev text : Cursor
text = record { bytes = 32 ∷ 9 ∷ 97 ∷ 98 ∷ 10 ∷ 99 ∷ 100 ∷ []; len = 7; pos = 1 }

text-IsValid : IsValid text
text-IsValid = record { stored = omega arith; small = omega arith; inside = omega arith }

create_runs : create_from_cstr (97 ∷ []) ≡ done (record { bytes = 97 ∷ []; len = 1; pos = 0 })
unfolding create_from_cstr
create_runs = refl

skip_ascii_whitespace_runs : skip_ascii_whitespace text ≡ done (advance text 1)
unfolding skip_ascii_whitespace skip_while at_end peek
skip_ascii_whitespace_runs = refl

starts_with-BeginsWith_example :
    (starts_with text (9 ∷ 97 ∷ 0 ∷ []) 2 ≡ true) ↔ BeginsWith (unread text) (9 ∷ 97 ∷ [])
starts_with-BeginsWith_example =
    starts_with-BeginsWith text-IsValid (9 ∷ 97 ∷ 0 ∷ []) 2 (omega arith)

skip_while-Stops_example : Returns (skip_while text is_ascii_whitespace) λ r.
    (r.0 ≡ count_while is_ascii_whitespace (unread text))
    × IsValid r.1
    × (unread r.1 ≡ drop_while is_ascii_whitespace (unread text))
skip_while-Stops_example = skip_while-Stops text-IsValid is_ascii_whitespace
