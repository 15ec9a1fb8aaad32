-- ===== src/Cursor/Prefix.antt =====
-- Matching a prefix, and the conditional read of one byte.
use k4c.Base.{
  ℕ, zero, suc, ◌-◌, ◌≤◌, ◌≡◌, refl, ◌↔◌, inl, inr, arith, ltb, ◌==◌, Bool-cases, true, List, [],
  ◌∷◌, ◌++◌, length, take, drop, length-append, length-take, ap,
}
use k4c.Base.Bytes.{same_bytes}
use k4c.Cursor.{Cursor, starts_with}
use k4c.Cursor.Unread.{IsValid, unread, length-unread, remaining_lem}

-- The list begins with the other.
abbrev pub BeginsWith : List ℕ → List ℕ → Type 0
BeginsWith xs ys = (rest : List ℕ) × (xs ≡ ys ++ rest)

same_bytes-BeginsWith :
    (n m : ℕ) (xs ys : List ℕ)
    → n ≤ m
    → n ≤ length ys
    → (same_bytes n xs ys ≡ true) ↔ BeginsWith (take m xs) (take n ys)
unfolding same_bytes
same_bytes-BeginsWith zero m xs ys h k = ((λ e. (take m xs, refl)), λ b. refl)
same_bytes-BeginsWith (suc n) zero xs ys h k = absurd (omega arith)
same_bytes-BeginsWith (suc n) (suc m) xs [] h k = absurd (omega arith)
same_bytes-BeginsWith (suc n) (suc m) [] (y ∷ ys) h k =
    ((λ e. absurd cc), λ b. absurd (let e = b.1 in cc))
same_bytes-BeginsWith (suc n) (suc m) (x ∷ xs) (y ∷ ys) h k =
    let (forth, back) = same_bytes-BeginsWith n m xs ys (omega arith) (omega arith) in
    elim (Bool-cases (x == y)) [
      | inl e ↦
          let same : x ≡ y = ground arith in
          rw e ((λ f. let (rest, p) = forth f in (rest, cc)), λ b. back (b.0, let f = b.1 in cc))
      | inr e ↦
          rw e
            ((λ f. absurd cc), λ b. absurd (let f = b.1 in let same : x ≡ y = cc in ground arith))
    ]

-- On a valid cursor, and for a length that the given prefix has, the test answers true exactly when
-- the unread bytes begin with that many bytes of the prefix.
pub starts_with-BeginsWith :
    {c : Cursor}
    → IsValid c
    → (prefix : List ℕ) (len : ℕ) → len ≤ length prefix
    → (starts_with c prefix len ≡ true) ↔ BeginsWith (unread c) (take len prefix)
unfolding starts_with
starts_with-BeginsWith {c} v prefix len h = elim (Bool-cases (ltb (c.len - c.pos) len)) [
  | inl e ↦
      rw (remaining_lem v, e)
        (
          (λ f. absurd cc),
          λ (rest, f). absurd (
              ground (
                arith,
                length-unread v,
                ap length f,
                length-append (take len prefix) rest,
                length-take len prefix,
              )),
        )
  | inr e ↦
      rw (remaining_lem v, e)
        (same_bytes-BeginsWith len (c.len - c.pos) (drop c.pos c.bytes) prefix (ground arith) h)
]
