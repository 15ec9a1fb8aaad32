-- ===== src/BinaryHeap/Order.antt =====
-- The heap order, and what a swap does to the cells.
use k4c.Base.{
  ℕ, zero, suc, ◌+◌, ◌≤◌, ◌<◌, ◌≡◌, ◌≢◌, ◌∙◌, inl, inr, arith, Bool, true, false, Bool-cases, ◌==◌,
  if◌then◌else◌, List, [], ◌∷◌, length, length-set, set, take, get_or-set_self, get_or-set_ne,
}
use k4c.BinaryHeap.{item, swap_at}

-- A strict order in which elements that do not precede one another are interchangeable.
pub record OrderLaws {E : Type 0} (precedes : E → E → Bool) : Type 0 where
  pub asym : (a b : E) → precedes a b ≡ true → precedes b a ≡ false
  pub trans : (a b c : E) → precedes a b ≡ false → precedes b c ≡ false → precedes a c ≡ false

-- the number of elements with a property
abbrev pub count : {E : Type 0} → (E → Bool) → List E → ℕ
count q [] = 0
count q (x ∷ xs) = if q x then suc (count q xs) else count q xs

-- 1 for an element with the property
abbrev pub one_if : Bool → ℕ
one_if b = if b then 1 else 0

module _ {E : Type 0} (junk : E) where
  pub item-swap_at :
      (cells : List E) (i j k : ℕ)
      → i < length cells
      → j < length cells
      → item junk (swap_at junk cells i j) k ≡ (
          if j == k
          then item junk cells i
          else (if i == k then item junk cells j else item junk cells k))
  item-swap_at cells i j k hi hj =
      let inner = set cells i (item junk cells j) in
      let fits : j < length inner = omega (arith, length-set cells i (item junk cells j)) in
      elim (Bool-cases (j == k)) [
        | inl e ↦
            let at : j ≡ k = ground arith in
            rw (e, ← at) (get_or-set_self inner j (item junk cells i) junk fits)
        | inr e ↦
            let off : j ≢ k = ground arith in
            get_or-set_ne inner j k (item junk cells i) junk off ∙ elim (Bool-cases (i == k)) [
              | inl f ↦
                  let at : i ≡ k = ground arith in
                  rw (e, f, ← at) (get_or-set_self cells i (item junk cells j) junk hi)
              | inr f ↦ rw (e, f) (get_or-set_ne cells i k (item junk cells j) junk (ground arith))
            ]
      ]

  pub length-swap_at : (cells : List E) (i j : ℕ) → length (swap_at junk cells i j) ≡ length cells
  length-swap_at cells i j =
      length-set (set cells i (item junk cells j)) j (item junk cells i)
      ∙ length-set cells i (item junk cells j)

  count-set :
      (q : E → Bool) (n : ℕ) (cells : List E) (i : ℕ) (x : E)
      → i < n
      → n ≤ length cells
      → count q (take n (set cells i x)) + one_if (q (item junk cells i))
        ≡ count q (take n cells) + one_if (q x)
  count-set q zero cells i x h l = absurd (omega arith)
  count-set q (suc n) [] i x h l = absurd (omega arith)
  count-set q (suc n) (c ∷ cells) zero x h l = ground arith
  count-set q (suc n) (c ∷ cells) (suc i) x h l = ground (arith, count-set q n cells i x)

  -- a swap among the first `n` cells keeps what they hold
  pub count-swap_at :
      (q : E → Bool) (n : ℕ) (cells : List E) (i j : ℕ)
      → i < n
      → j < n
      → n ≤ length cells
      → count q (take n (swap_at junk cells i j)) ≡ count q (take n cells)
  count-swap_at q n cells i j hi hj l =
      let inner = set cells i (item junk cells j) in
      let same : item junk inner j ≡ item junk cells j = elim (Bool-cases (i == j)) [
        | inl e ↦
            let at : i ≡ j = ground arith in
            rw (← at) (get_or-set_self cells i (item junk cells i) junk (omega arith))
        | inr e ↦ get_or-set_ne cells i j (item junk cells j) junk (ground arith)
      ] in
      let first = count-set q n cells i (item junk cells j) hi l in
      let second =
        count-set q n inner j (item junk cells i) hj
          (omega (arith, length-set cells i (item junk cells j))) in
      omega (arith, first, rw same at second)
