-- ===== src/Reader/FindByte.antt =====
-- The first occurrence of a byte.
use k4c.Base.{
  Avoids, ℕ, zero, suc, ◌<◌, ◌≡◌, ◌≢◌, ap, inl, inr, arith, none, some, Option-cases, List, [], ◌∷◌,
  ◌++◌, length, take,
}
use k4c.Base.Bytes.{find_byte}

pub find_byte-none : (byte : ℕ) (xs : List ℕ) → find_byte byte xs ≡ none → Avoids byte xs
unfolding find_byte
find_byte-none byte [] e = tt
find_byte-none byte (x ∷ xs) e = ground (arith, find_byte-none byte xs)

find_byte-step :
    (byte x : ℕ) (xs : List ℕ) (i : ℕ)
    → find_byte byte (x ∷ xs) ≡ some (suc i)
    → (x ≢ byte) × (find_byte byte xs ≡ some i)
unfolding find_byte
find_byte-step byte x xs i e = elim (Option-cases (find_byte byte xs)) [
  | inl e' ↦ ground (arith, e')
  | inr (j, e') ↦ ground (arith, e')
]

-- the index is that of the first occurrence
pub find_byte-some :
    (byte : ℕ) (xs : List ℕ) (i : ℕ)
    → find_byte byte xs ≡ some i
    → (i < length xs) × Avoids byte (take i xs) × (take (suc i) xs ≡ take i xs ++ byte ∷ [])
unfolding find_byte
find_byte-some byte [] i e = cc
find_byte-some byte (x ∷ xs) zero e = elim (Option-cases (find_byte byte xs)) [
  | inl e' ↦ ground (arith, e')
  | inr (j, e') ↦ ground (arith, e')
]
find_byte-some byte (x ∷ xs) (suc i) e =
    let (other, found) = find_byte-step byte x xs i e in
    let (inside, avoids, upto) = find_byte-some byte xs i found in
    (omega arith, (other, avoids), ap (◌∷◌ x) upto)
