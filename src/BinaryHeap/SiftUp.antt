-- ===== src/BinaryHeap/SiftUp.antt =====
-- Sifting up restores the heap order.
use k4c.Base.{
  ℕ, zero, suc, ◌-◌, ◌/◌, ◌≤◌, ◌<◌, ◌≡◌, ◌≢◌, refl, ◌∙◌, inl, inr, arith, Bool, true, false,
  Bool-cases, ◌==◌, ltb, if◌then◌else◌, List, length, take, Returns,
}
use k4c.BinaryHeap.{item, swap_at, sift_up}
use k4c.BinaryHeap.Order.{OrderLaws, count, item-swap_at, length-swap_at, count-swap_at}

-- the index of the parent
abbrev pub parent : ℕ → ℕ
parent i = (i - 1) / 2

module _ {E : Type 0} (junk : E) (precedes : E → E → Bool) where
  -- No element among the first `n` precedes its parent.
  abbrev pub Ordered : ℕ → List E → Type 0
  Ordered n cells =
      (i : ℕ) → 0 < i → i < n → precedes (item junk cells i) (item junk cells (parent i)) ≡ false

  -- The order holds but for `idx` and its parent, and the children of `idx` may move up.
  pub record Rising (n : ℕ) (cells : List E) (idx : ℕ) : Type 0 where
    pub others :
        (i : ℕ)
        → 0 < i
        → i < n
        → i ≢ idx
        → precedes (item junk cells i) (item junk cells (parent i)) ≡ false
    pub over :
        (c : ℕ)
        → 0 < c
        → c < n
        → parent c ≡ idx
        → 0 < idx
        → precedes (item junk cells c) (item junk cells (parent idx)) ≡ false

  -- the cells in another order, with the heap order
  abbrev pub Sifted : ℕ → List E → List E → Type 0
  Sifted n cells after =
      Ordered n after
      × (length after ≡ length cells)
      × ((q : E → Bool) → count q (take n after) ≡ count q (take n cells))

  module _ (laws : OrderLaws precedes) (n : ℕ) (cells : List E) (idx : ℕ) (l : n ≤ length cells)
      (h : idx < n) (pos : 0 < idx) (rising : Rising n cells idx)
      (up : precedes (item junk cells idx) (item junk cells (parent idx)) ≡ true) where
    abbrev p : ℕ
    p = parent idx

    abbrev f : ℕ → E
    f k = item junk cells k

    abbrev g : ℕ → E
    g k = item junk (swap_at junk cells idx p) k

    g-eq : (k : ℕ) → g k ≡ (if p == k then f idx else (if idx == k then f p else f k))
    g-eq k = item-swap_at junk cells idx p k (omega arith) (omega arith)

    g-parent : g p ≡ f idx
    g-parent = g-eq p ∙ (let e : (p == p) ≡ true = ground arith in rw e refl)

    g-idx : g idx ≡ f p
    g-idx =
        g-eq idx
        ∙ (let e : (p == idx) ≡ false = ground arith in
            let d : (idx == idx) ≡ true = ground arith in rw (e, d) refl)

    g-other : (k : ℕ) → k ≢ p → k ≢ idx → g k ≡ f k
    g-other k a b =
        g-eq k
        ∙ (let e : (p == k) ≡ false = ground arith in
            let d : (idx == k) ≡ false = ground arith in rw (e, d) refl)

    down : precedes (f p) (f idx) ≡ false
    down = laws.asym (f idx) (f p) up

    swap_others : (i : ℕ) → 0 < i → i < n → i ≢ p → precedes (g i) (g (parent i)) ≡ false
    swap_others i a b c = elim (Bool-cases (i == idx)) [
      | inl e ↦ let at : i ≡ idx = ground arith in rw (at, g-idx, g-parent) down
      | inr e ↦
          let off : i ≢ idx = ground arith in
          elim (Bool-cases (parent i == p)) [
            | inl d ↦
                let at : parent i ≡ p = ground arith in
                let sibling : precedes (f i) (f p) ≡ false = rw (← at) (rising.others i a b off) in
                rw (at, g-parent, g-other i c off) (laws.trans (f i) (f p) (f idx) sibling down)
            | inr d ↦ elim (Bool-cases (parent i == idx)) [
              | inl m ↦
                  let at : parent i ≡ idx = ground arith in
                  rw (at, g-idx, g-other i c off) (rising.over i a b at pos)
              | inr m ↦
                  rw (g-other i c off, g-other (parent i) (ground arith) (ground arith))
                    (rising.others i a b off)
            ]
          ]
    ]

    swap_over :
        (c : ℕ) → 0 < c → c < n → parent c ≡ p → 0 < p → precedes (g c) (g (parent p)) ≡ false
    swap_over c a b e pp =
        let above : precedes (f p) (f (parent p)) ≡ false =
          rising.others p pp (omega arith) (omega arith) in
        let apart = g-other (parent p) (omega arith) (omega arith) in
        elim (Bool-cases (c == idx)) [
          | inl m ↦ let at : c ≡ idx = ground arith in rw (at, g-idx, apart) above
          | inr m ↦
              let off : c ≢ idx = ground arith in
              let sibling : precedes (f c) (f p) ≡ false = rw (← e) (rising.others c a b off) in
              rw (g-other c (omega arith) off, apart)
                (laws.trans (f c) (f p) (f (parent p)) sibling above)
        ]

    swap-Rising : Rising n (swap_at junk cells idx p) p
    swap-Rising = record { others = swap_others; over = swap_over }

  settled :
      (n : ℕ) (cells : List E) (idx : ℕ)
      → Rising n cells idx
      → (0 < idx → precedes (item junk cells idx) (item junk cells (parent idx)) ≡ false)
      → Ordered n cells
  settled n cells idx rising last i a b = elim (Bool-cases (i == idx)) [
    | inl e ↦ let at : i ≡ idx = ground arith in rw at (last (omega arith))
    | inr e ↦ rising.others i a b (ground arith)
  ]

  -- With one round more than the index, sifting up returns: the first `n` cells hold the same
  -- elements, in heap order.
  pub sift_up-Sifted :
      (laws : OrderLaws precedes) (fuel n : ℕ) (cells : List E) (idx : ℕ)
      → n ≤ length cells
      → idx < n
      → idx < fuel
      → Rising n cells idx
      → Returns (sift_up junk precedes fuel cells idx) (λ r. Sifted n cells r)
  unfolding sift_up
  sift_up-Sifted laws zero n cells idx l h fit rising = absurd (omega arith)
  sift_up-Sifted laws (suc fuel) n cells idx l h fit rising = elim (Bool-cases (ltb 0 idx)) [
    | inr e ↦
        rw e (_, refl, (settled n cells idx rising (λ pos. absurd (ground arith)), refl, λ q. refl))
    | inl e ↦ elim (Bool-cases (precedes (item junk cells idx) (item junk cells (parent idx)))) [
      | inr d ↦ rw (e, d) (_, refl, (settled n cells idx rising (λ pos. d), refl, λ q. refl))
      | inl d ↦
          let pos : 0 < idx = ground arith in
          let same = length-swap_at junk cells idx (parent idx) in
          let (r, run, s) =
            sift_up-Sifted laws fuel n (swap_at junk cells idx (parent idx)) (parent idx)
              (omega arith) (omega arith) (omega arith)
              (swap-Rising laws n cells idx l h pos rising d) in
          rw (e, d)
            (
              r,
              run,
              (
                s.0,
                s.1 ∙ same,
                λ q. s.2 q ∙ count-swap_at junk q n cells idx (parent idx) h (omega arith) l,
              ),
            )
    ]
  ]
