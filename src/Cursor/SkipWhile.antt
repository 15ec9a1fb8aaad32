-- ===== src/Cursor/SkipWhile.antt =====
-- The loop that skips the bytes with a property, against the split of a list at its first byte
-- without it.
use k4c.Base.{
  ℕ, zero, suc, ◌+◌, ◌-◌, ◌≤◌, ◌<◌, ◌≡◌, refl, sym, inl, inr, arith, if◌then◌else◌, Bool-cases,
  Bool, true, false, some, List, [], ◌∷◌, length, ap, ◌∙◌, Returns, leb,
}
use native.Mathlib.Nat.{mod-eq_of_lt, add-mod_right}
use k4c.Size.{size_max, sub_size, word}
use k4c.Status.{ok}
use k4c.Cursor.{Cursor, at_end, peek, skip_loop, skip_while, advance}
use k4c.Cursor.Unread.{IsValid, unread, length-unread, advance-IsValid, unread-advance, advance_pos}
use k4c.Cursor.Steps.{peek-unread}

sub_size_lem : {len n : ℕ} (i j : ℕ) → i ≡ j + n → i ≤ len → len ≤ size_max → sub_size i j ≡ n
sub_size_lem {len} {n} i j e h k =
    let moved : i + word - j ≡ n + word = omega (arith, e) in
    rw (moved, add-mod_right n word) (mod-eq_of_lt (omega (arith, e)))

module _ (predicate : ℕ → Bool) where
  abbrev pub count_while : List ℕ → ℕ
  count_while [] = 0
  count_while (x ∷ xs) = if predicate x then suc (count_while xs) else 0

  abbrev pub drop_while : List ℕ → List ℕ
  drop_while [] = []
  drop_while (x ∷ xs) = if predicate x then drop_while xs else x ∷ xs

  -- where the loop stops when it starts at `c`
  abbrev pub Stops : Cursor → Cursor → Type 0
  Stops c r =
      IsValid r × (unread r ≡ drop_while (unread c)) × (r.pos ≡ c.pos + count_while (unread c))

  skip_loop-Stops :
      (fuel : ℕ) {c : Cursor}
      → IsValid c
      → (bytes : List ℕ) → unread c ≡ bytes
      → length bytes < fuel
      → Returns (skip_loop predicate fuel c) (Stops c)
  unfolding skip_loop at_end
  skip_loop-Stops zero v bytes e h = absurd (omega arith)
  skip_loop-Stops (suc fuel) {c} v [] e h =
      let size : 0 ≡ c.len - c.pos = ap length (sym e) ∙ length-unread v in
      let end : leb c.len c.pos ≡ true = ground arith in rw (end, e) (c, refl, (v, e, omega arith))
  skip_loop-Stops (suc fuel) {c} v (byte ∷ rest) e h =
      let answer : peek c ≡ (ok, some byte) = peek-unread v ∙ rw e refl in
      let size : suc (length rest) ≡ c.len - c.pos = ap length (sym e) ∙ length-unread v in
      let more : leb c.len c.pos ≡ false = ground arith in
      let fits : 1 ≤ c.len - c.pos = omega (arith, size) in
      elim (Bool-cases (predicate byte)) [
        | inl p ↦
            let tail : unread (advance c 1) ≡ rest = unread-advance v 1 fits ∙ rw e refl in
            let (r, run, (valid, left, at)) =
              skip_loop-Stops fuel (advance-IsValid v 1 fits) rest tail (omega arith) in
            rw (more, answer, answer, e, p)
              (
                r,
                run,
                (
                  valid,
                  left ∙ ap drop_while tail,
                  let next = advance_pos v 1 fits in omega (arith, at, next, ap count_while tail),
                ),
              )
        | inr p ↦ rw (more, answer, answer, e, p) (c, refl, (v, e, omega arith))
      ]

-- On a valid cursor and for every predicate, `skip_while` ends; it leaves unread exactly the bytes
-- from the first one without the property, and returns the number of those before it.
pub skip_while-Stops :
    {c : Cursor}
    → IsValid c
    → (predicate : ℕ → Bool)
    → Returns (skip_while c predicate) λ r.
      (r.0 ≡ count_while predicate (unread c))
      × IsValid r.1
      × (unread r.1 ≡ drop_while predicate (unread c))
unfolding skip_while
skip_while-Stops {c} v predicate =
    let (r, run, (valid, left, at)) =
      skip_loop-Stops predicate (c.len + 1) v (unread c) refl (omega (arith, length-unread v)) in
    let moved = sub_size_lem r.pos c.pos at valid.inside valid.small in
    rw run ((sub_size r.pos c.pos, r), refl, (moved, valid, left))
