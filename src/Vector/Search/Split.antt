-- ===== src/Vector/Search/Split.antt =====
-- On a partitioned vector the searches find the split point.
use k4c.Base.{
  ℕ, zero, suc, ◌+◌, ◌-◌, ◌/◌, ◌≤◌, ◌<◌, ◌≡◌, refl, ◌∙◌, ◌⊎◌, inl, inr, arith, ltb, leb, ◌&&◌, ◌||◌,
  not, Bool, true, false, none, some, Returns, Bool-cases, get_elem?-some,
}
use k4c.Base.Int.{ℤ, is_negative, is_zero}
use k4c.Vector.{Vector, get}
use k4c.Vector.Valid.{IsValid}
use k4c.Vector.Search.{search_loop, lower_bound, upper_bound, matches, binary_search}

module _ {W E : Type 0} (v : Vector W E) where
  -- a test of the element at an index, false where there is none
  abbrev pub test_at : (E → Bool) → ℕ → Bool
  test_at before i = elim (get v i) [ none ↦ false | some x ↦ before x ]

  -- the elements that pass the test stand first
  abbrev pub IsPartitioned : (E → Bool) → Type 0
  IsPartitioned before =
      (i j : ℕ) → i ≤ j → j < v.size → test_at before j ≡ true → test_at before i ≡ true

  -- `r` is the number of elements that pass the test, and they stand first
  abbrev pub Splits : (E → Bool) → ℕ → Type 0
  Splits before r =
      (r ≤ v.size)
      × ((i : ℕ) → i < r → test_at before i ≡ true)
      × ((i : ℕ) → r ≤ i → i < v.size → test_at before i ≡ false)

  get-some : (i : ℕ) → IsValid v → i < v.size → (x : E) × (get v i ≡ some x)
  unfolding get
  get-some i valid h =
      let inside : leb v.size i ≡ false = ground arith in
      rw inside (get_elem?-some v.cells i (omega (arith, valid.stored, valid.within)))

  -- the loop narrows the range in which the split point lies
  search_loop-Splits :
      (before : E → Bool) (fuel first count : ℕ)
      → IsValid v
      → IsPartitioned before
      → count < fuel
      → first + count ≤ v.size
      → ((i : ℕ) → i < first → test_at before i ≡ true)
      → ((i : ℕ) → first + count ≤ i → i < v.size → test_at before i ≡ false)
      → Returns (search_loop v before fuel first count) (Splits before)
  unfolding search_loop
  search_loop-Splits before zero first count valid part f inside below above = absurd (omega arith)
  search_loop-Splits before (suc fuel) first count valid part f inside below above =
      let step = count / 2 in
      let mid = first + step in
      elim (Bool-cases (ltb 0 count)) [
        | inr e ↦ rw e (first, refl, (omega arith, below, λ i p q. above i (ground arith) q))
        | inl e ↦
            let pos : 0 < count = ground arith in
            let (x, item) = get-some mid valid (omega arith) in
            let at_mid : test_at before mid ≡ before x = rw (item, test_at) refl in
            rw (e, item)
              (elim (Bool-cases (before x)) [
                | inl t ↦ rw t (
                    search_loop-Splits before fuel (mid + 1) (count - (step + 1)) valid part
                      (omega arith) (omega arith)
                      (λ i p. part i mid (omega arith) (omega arith) (at_mid ∙ t))
                      (λ i p q. above i (omega arith) q))
                | inr t ↦ rw t (
                    search_loop-Splits before fuel first step valid part (omega arith) (omega arith)
                      below (λ i p q. ground (arith, part mid i (omega arith) q, at_mid)))
              ])
      ]

  module _ (key : E) (cmp : E → E → ℤ) where
    match_not_below :
        (i : ℕ)
        → test_at (λ x. is_negative (cmp x key)) i ≡ true
        → matches v key cmp (get v i) ≡ false
    unfolding matches
    match_not_below i h = ground arith

    match_or_below :
        (i : ℕ)
        → (matches v key cmp (get v i) ≡ true
            → test_at (λ x. is_negative (cmp x key) || is_zero (cmp x key)) i ≡ true)
          × (test_at (λ x. is_negative (cmp x key) || is_zero (cmp x key)) i ≡ true
              → test_at (λ x. is_negative (cmp x key)) i ≡ false
              → matches v key cmp (get v i) ≡ true)
    unfolding matches
    match_or_below i = ground arith

  module _ (key : E) (cmp : E → E → ℤ) (valid : IsValid v) where
    -- On a valid vector whose elements below the key stand first, `lower_bound` returns the number
    -- of elements that compare below the key: those before it do, and those from it on do not.
    pub lower_bound-Splits :
        IsPartitioned (λ x. is_negative (cmp x key))
        → Returns (lower_bound v key cmp) (Splits (λ x. is_negative (cmp x key)))
    unfolding lower_bound
    lower_bound-Splits part =
        search_loop-Splits _ (v.size + 1) 0 v.size valid part (omega arith) (omega arith)
          (λ i p. absurd (omega arith)) (λ i p q. absurd (omega arith))

    -- On a valid vector whose elements not above the key stand first, `upper_bound` returns the
    -- number of elements that the key does not compare below: those before it are such, and those
    -- from it on are above the key.
    pub upper_bound-Splits :
        IsPartitioned (λ x. not (is_negative (cmp key x)))
        → Returns (upper_bound v key cmp) (Splits (λ x. not (is_negative (cmp key x))))
    unfolding upper_bound
    upper_bound-Splits part =
        search_loop-Splits _ (v.size + 1) 0 v.size valid part (omega arith) (omega arith)
          (λ i p. absurd (omega arith)) (λ i p q. absurd (omega arith))

    -- What the search finds: the first match, or the size where nothing matches.
    abbrev pub Finds : ℕ → Type 0
    Finds r =
        ((r < v.size)
          × (matches v key cmp (get v r) ≡ true)
          × ((i : ℕ) → i < r → matches v key cmp (get v i) ≡ false))
        ⊎ ((r ≡ v.size) × ((i : ℕ) → i < v.size → matches v key cmp (get v i) ≡ false))

    nowhere :
        (r : ℕ)
        → Splits (λ x. is_negative (cmp x key)) r
        → ltb r v.size && matches v key cmp (get v r) ≡ false
        → IsPartitioned (λ x. is_negative (cmp x key) || is_zero (cmp x key))
        → (i : ℕ) → i < v.size
        → matches v key cmp (get v i) ≡ false
    nowhere r s e part i q = elim (Bool-cases (ltb i r)) [
      | inl p ↦ match_not_below key cmp i (s.1 i (ground arith))
      | inr p ↦
          let past : r ≤ i = ground arith in
          ground (
            arith,
            match_or_below key cmp i,
            match_or_below key cmp r,
            part r i past q,
            s.2 r (omega arith) (omega arith),
          )
    ]

    -- On a valid vector whose elements below the key stand first, and whose elements not above the
    -- key stand first, `binary_search` returns the first index whose element compares equal to the
    -- key, or the size if there is none.
    pub binary_search-Finds :
        IsPartitioned (λ x. is_negative (cmp x key))
        → IsPartitioned (λ x. is_negative (cmp x key) || is_zero (cmp x key))
        → Returns (binary_search v key cmp) Finds
    unfolding binary_search
    binary_search-Finds below_first equal_first =
        let (r, run, s) = lower_bound-Splits below_first in
        rw run (elim (Bool-cases (ltb r v.size && matches v key cmp (get v r))) [
          | inl e ↦ rw e (
            r,
            refl,
            inl (ground arith, ground arith, λ i p. match_not_below key cmp i (s.1 i p)),
          )
          | inr e ↦ rw e (v.size, refl, inr (refl, nowhere r s e equal_first))
        ])
