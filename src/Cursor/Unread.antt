-- ===== src/Cursor/Unread.antt =====
-- The cursor on the list of the bytes that it has not read yet.
use k4c.Base.{
  ℕ, zero, suc, ◌+◌, ◌-◌, ◌≤◌, ◌≡◌, refl, sym, arith, List, [], ◌∷◌, length, take, drop,
  length-take, length-drop, ◌∙◌,
}
use k4c.Size.{add_size, size_max}
use k4c.Cursor.{Cursor, remaining, advance}
use native.Mathlib.Nat.{mod-eq_of_lt}

-- the buffer holds `len` bytes, and the position is in it
pub record IsValid (c : Cursor) : Type 0 where
  pub stored : c.len ≤ length c.bytes
  pub small : c.len ≤ size_max
  pub inside : c.pos ≤ c.len

-- the bytes from the position to the end
abbrev pub unread : Cursor → List ℕ
unread c = take (c.len - c.pos) (drop c.pos c.bytes)

drop-nil : (n : ℕ) → drop {A = ℕ} n [] ≡ []
drop-nil zero = refl
drop-nil (suc n) = refl

take-nil : (n : ℕ) → take {A = ℕ} n [] ≡ []
take-nil zero = refl
take-nil (suc n) = refl

pub drop-drop : (m n : ℕ) (xs : List ℕ) → drop m (drop n xs) ≡ drop (n + m) xs
drop-drop m zero xs = let e : 0 + m ≡ m = omega arith in rw e refl
drop-drop m (suc n) [] = drop-nil m ∙ sym (drop-nil (suc n + m))
drop-drop m (suc n) (x ∷ xs) =
    let e : suc n + m ≡ suc (n + m) = omega arith in rw e (drop-drop m n xs)

pub drop-take : (n m : ℕ) (xs : List ℕ) → drop n (take m xs) ≡ take (m - n) (drop n xs)
drop-take zero m xs = let e : m - 0 ≡ m = omega arith in rw e refl
drop-take (suc n) zero xs = let e : 0 - suc n ≡ 0 = omega arith in rw e refl
drop-take (suc n) (suc m) [] = sym (take-nil (suc m - suc n))
drop-take (suc n) (suc m) (x ∷ xs) =
    let e : suc m - suc n ≡ m - n = omega arith in rw e (drop-take n m xs)

pub length-unread : {c : Cursor} → IsValid c → length (unread c) ≡ c.len - c.pos
length-unread {c} v =
    ground (arith, length-take (c.len - c.pos) (drop c.pos c.bytes), length-drop c.pos c.bytes)

pub remaining_lem : {c : Cursor} → IsValid c → remaining c ≡ c.len - c.pos
unfolding remaining
remaining_lem {c} v = ground arith

pub advance_pos :
    {c : Cursor} → IsValid c → (n : ℕ) → n ≤ c.len - c.pos → add_size c.pos n ≡ c.pos + n
advance_pos {c} v n h = mod-eq_of_lt (omega arith)

pub advance-IsValid : {c : Cursor} → IsValid c → (n : ℕ) → n ≤ c.len - c.pos → IsValid (advance c n)
advance-IsValid {c} v n h = ground (arith, advance_pos v n h)

pub unread-advance :
    {c : Cursor}
    → IsValid c
    → (n : ℕ) → n ≤ c.len - c.pos
    → unread (advance c n) ≡ drop n (unread c)
unread-advance {c} v n h =
    let e : c.len - (c.pos + n) ≡ c.len - c.pos - n = omega arith in
    rw
      (
        advance_pos v n h,
        e,
        drop-take n (c.len - c.pos) (drop c.pos c.bytes),
        drop-drop n c.pos c.bytes,
      )
      refl
