-- ===== src/Reader/Buffer.antt =====
-- The invariant of the buffered reader, and what its buffer holds unread.
use k4c.Base.{
  ℕ, zero, suc, ◌+◌, ◌-◌, ◌≤◌, ◌<◌, ◌≡◌, refl, sym, ap, ◌∙◌, arith, List, [], ◌∷◌, ◌++◌, length,
  take, drop, length-take, length-drop, length-append,
}
use native.Mathlib.Nat.{mod-eq_of_lt, add-mod_right}
use k4c.Cursor.Unread.{drop-take, drop-drop}
use k4c.Size.{size_max, word, sub_size, add_size}
use k4c.Reader.{Reader, patch}

-- on valid sizes the arithmetic of C does not wrap
pub sub_size-le : (a b : ℕ) → b ≤ a → a ≤ size_max → sub_size a b ≡ a - b
sub_size-le a b h k =
    let moved : a + word - b ≡ a - b + word = omega arith in
    rw (moved, add-mod_right (a - b) word) (mod-eq_of_lt (omega arith))

pub add_size-le : (a b : ℕ) → a + b ≤ size_max → add_size a b ≡ a + b
add_size-le a b h = mod-eq_of_lt (omega arith)

pub record IsValid {W : Type 0} (r : Reader W) : Type 0 where
  pub stored : length r.cells ≡ r.capacity
  pub read_in : r.pos ≤ r.len
  pub within : r.len ≤ r.capacity
  pub room : 0 < r.capacity
  pub small : r.capacity ≤ size_max

-- the bytes from `pos` to `len`
abbrev pub segment : List ℕ → ℕ → ℕ → List ℕ
segment cells pos len = take (len - pos) (drop pos cells)

abbrev pub unread : {W : Type 0} → Reader W → List ℕ
unread r = segment r.cells r.pos r.len

pub length-segment :
    (cells : List ℕ) (pos len : ℕ) → len ≤ length cells → length (segment cells pos len) ≡ len - pos
length-segment cells pos len h =
    omega (arith, length-take (len - pos) (drop pos cells), length-drop pos cells)

pub length-unread : {W : Type 0} {r : Reader W} → IsValid r → length (unread r) ≡ r.len - r.pos
length-unread {r} v = length-segment r.cells r.pos r.len (omega (arith, v.stored, v.within))

pub length-patch :
    (xs : List ℕ) (i : ℕ) (bytes : List ℕ)
    → i + length bytes ≤ length xs
    → length (patch xs i bytes) ≡ length xs
length-patch xs i bytes h = omega (
  arith,
  length-append (take i xs) (bytes ++ drop (i + length bytes) xs),
  length-append bytes (drop (i + length bytes) xs),
  length-take i xs,
  length-drop (i + length bytes) xs,
)

pub take_front : (bytes rest : List ℕ) → take (length bytes) (bytes ++ rest) ≡ bytes
take_front [] rest = refl
take_front (x ∷ bytes) rest = ap (◌∷◌ x) (take_front bytes rest)

-- writing bytes at the end of a segment extends it by them
pub segment-patch :
    (cells : List ℕ) (pos len : ℕ) (bytes : List ℕ)
    → pos ≤ len
    → len ≤ length cells
    → segment (patch cells len bytes) pos (len + length bytes) ≡ segment cells pos len ++ bytes
segment-patch cells zero zero bytes h k =
    let e : 0 + length bytes - 0 ≡ length bytes = omega arith in rw e (take_front bytes _)
segment-patch [] pos (suc len) bytes h k = absurd (omega arith)
segment-patch (x ∷ cells) zero (suc len) bytes h k =
    let e : suc len + length bytes ≡ suc (len + length bytes) = omega arith in
    let m : suc (len + length bytes) - 0 ≡ suc (len + length bytes - 0) = omega arith in
    let n : suc len - 0 ≡ suc (len - 0) = omega arith in
    rw (e, m, n) (ap (◌∷◌ x) (segment-patch cells 0 len bytes (omega arith) (omega arith)))
segment-patch cells (suc pos) zero bytes h k = absurd (omega arith)
segment-patch (x ∷ cells) (suc pos) (suc len) bytes h k =
    let e : suc len + length bytes ≡ suc (len + length bytes) = omega arith in
    let m : suc (len + length bytes) - suc pos ≡ len + length bytes - pos = omega arith in
    let n : suc len - suc pos ≡ len - pos = omega arith in
    rw (e, m, n) (segment-patch cells pos len bytes (omega arith) (omega arith))

-- moving the unread bytes to the front keeps them
pub segment-front : (cells bytes : List ℕ) → segment (patch cells 0 bytes) 0 (length bytes) ≡ bytes
segment-front cells bytes =
    let e : length bytes - 0 ≡ length bytes = omega arith in rw e (take_front bytes _)

take-take : (n m : ℕ) (xs : List ℕ) → n ≤ m → take n (take m xs) ≡ take n xs
take-take zero m xs h = refl
take-take (suc n) zero xs h = absurd (omega arith)
take-take (suc n) (suc m) [] h = refl
take-take (suc n) (suc m) (x ∷ xs) h = ap (◌∷◌ x) (take-take n m xs (omega arith))

pub drop-segment :
    (cells : List ℕ) (pos len n : ℕ) → drop n (segment cells pos len) ≡ segment cells (pos + n) len
drop-segment cells pos len n =
    let e : len - pos - n ≡ len - (pos + n) = omega arith in
    drop-take n (len - pos) (drop pos cells) ∙ rw (e, drop-drop n pos cells) refl

pub take-segment :
    (cells : List ℕ) (pos len n : ℕ)
    → pos + n ≤ len
    → take n (drop pos cells) ≡ take n (segment cells pos len)
take-segment cells pos len n h = sym (take-take n (len - pos) (drop pos cells) (omega arith))

-- a list is its first bytes and the others
pub take-drop : (n : ℕ) (xs : List ℕ) → xs ≡ take n xs ++ drop n xs
take-drop zero xs = refl
take-drop (suc n) [] = refl
take-drop (suc n) (x ∷ xs) = ap (◌∷◌ x) (take-drop n xs)
