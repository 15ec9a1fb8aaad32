-- ===== src/BinaryHeap/SiftDown.antt =====
-- Sifting down restores the heap order.
use k4c.Base.{
  ℕ, zero, suc, ◌+◌, ◌*◌, ◌^◌, ◌≤◌, ◌<◌, ◌≡◌, ◌≢◌, refl, ◌∙◌, inl, inr, ◌⊎◌, arith, Bool, true,
  false, Bool-cases, ◌==◌, ltb, if◌then◌else◌, List, length, Returns,
}
use k4c.Size.{add_size, mul_size}
use k4c.BinaryHeap.{item, swap_at, best_of, sift_down}
use k4c.BinaryHeap.Order.{OrderLaws, item-swap_at, length-swap_at, count-swap_at}
use k4c.BinaryHeap.SiftUp.{parent, Ordered, Sifted}

module _ {E : Type 0} (junk : E) (precedes : E → E → Bool) where
  -- The order holds but between `idx` and its children, which may move up past it.
  pub record Sinking (n : ℕ) (cells : List E) (idx : ℕ) : Type 0 where
    pub others :
        (i : ℕ)
        → 0 < i
        → i < n
        → parent i ≢ idx
        → precedes (item junk cells i) (item junk cells (parent i)) ≡ false
    pub over :
        (c : ℕ)
        → 0 < c
        → c < n
        → parent c ≡ idx
        → 0 < idx
        → precedes (item junk cells c) (item junk cells (parent idx)) ≡ false

  -- the child that comes first, or the index itself if no child precedes it
  pub record Chosen (n : ℕ) (cells : List E) (idx b : ℕ) : Type 0 where
    pub least :
        (c : ℕ)
        → 0 < c
        → c < n
        → parent c ≡ idx
        → precedes (item junk cells c) (item junk cells b) ≡ false
    pub which :
        (b ≡ idx)
        ⊎ ((b < n)
            × (parent b ≡ idx)
            × (idx < b)
            × (precedes (item junk cells b) (item junk cells idx) ≡ true))

  module _ (laws : OrderLaws precedes) (n : ℕ) (cells : List E) (idx : ℕ) where
    abbrev f : ℕ → E
    f k = item junk cells k

    irrefl : (a : E) → precedes a a ≡ false
    irrefl a = elim (Bool-cases (precedes a a)) [ inl e ↦ laws.asym a a e | inr e ↦ e ]

    -- a test of `best_of`
    test :
        (candidate best : ℕ)
        → ((candidate < n)
            × (precedes (f candidate) (f best) ≡ true)
            × (best_of junk precedes n cells candidate best ≡ candidate))
          ⊎ ((candidate < n → precedes (f candidate) (f best) ≡ false)
              × (best_of junk precedes n cells candidate best ≡ best))
    test c b = elim (Bool-cases (ltb c n)) [
      | inr e ↦ inr ((λ lt. absurd (ground arith)), rw e refl)
      | inl e ↦ elim (Bool-cases (precedes (f c) (f b))) [
        | inl d ↦ inl (ground arith, d, rw (e, d) refl)
        | inr d ↦ inr ((λ lt. d), rw (e, d) refl)
      ]
    ]

    children :
        (b : ℕ)
        → (2 * idx + 1 < n → precedes (f (2 * idx + 1)) (f b) ≡ false)
        → (2 * idx + 2 < n → precedes (f (2 * idx + 2)) (f b) ≡ false)
        → (c : ℕ) → 0 < c
        → c < n
        → parent c ≡ idx
        → precedes (f c) (f b) ≡ false
    children b left right c pos lt e = elim (Bool-cases (c == 2 * idx + 1)) [
      | inl d ↦ let at : c ≡ 2 * idx + 1 = ground arith in rw at (left (omega arith))
      | inr d ↦ let at : c ≡ 2 * idx + 2 = ground arith in rw at (right (omega arith))
    ]

    best_of-Chosen : Chosen n cells idx (
        best_of junk precedes n cells
          (2 * idx + 2)
          (best_of junk precedes n cells (2 * idx + 1) idx))
    best_of-Chosen = elim (test (2 * idx + 1) idx) [
      | inl (lt, first, e) ↦ rw e (elim (test (2 * idx + 2) (2 * idx + 1)) [
        | inl (lt', second, e') ↦ rw e' (record {
          least =
              children (2 * idx + 2) (λ h. laws.asym (f (2 * idx + 2)) (f (2 * idx + 1)) second)
                (λ h. irrefl (f (2 * idx + 2)));
          which = inr (
            lt',
            omega arith,
            omega arith,
            elim (Bool-cases (precedes (f (2 * idx + 2)) (f idx))) [
              | inl d ↦ d
              | inr d ↦
                  let no =
                    laws.trans (f (2 * idx + 2)) (f idx) (f (2 * idx + 1)) d
                      (laws.asym (f (2 * idx + 1)) (f idx) first) in
                  cc
            ],
          );
        })
        | inr (second, e') ↦ rw e' (record {
          least = children (2 * idx + 1) (λ h. irrefl (f (2 * idx + 1))) second;
          which = inr (lt, omega arith, omega arith, first);
        })
      ])
      | inr (first, e) ↦ rw e (elim (test (2 * idx + 2) idx) [
        | inl (lt', second, e') ↦ rw e' (record {
          least =
              children (2 * idx + 2)
                (λ h.
                  laws.trans (f (2 * idx + 1)) (f idx) (f (2 * idx + 2)) (first h)
                    (laws.asym (f (2 * idx + 2)) (f idx) second))
                (λ h. irrefl (f (2 * idx + 2)));
          which = inr (lt', omega arith, omega arith, second);
        })
        | inr (second, e') ↦ rw e' (record { least = children idx first second; which = inl refl })
      ])
    ]

    module _ (l : n ≤ length cells) (h : idx < n) (sinking : Sinking n cells idx) (b : ℕ)
        (chosen : Chosen n cells idx b) where
      stays : b ≡ idx → Ordered junk precedes n cells
      stays e i pos lt = elim (Bool-cases (parent i == idx)) [
        | inl d ↦
            let at : parent i ≡ idx = ground arith in rw (at, ← e) (chosen.least i pos lt (at))
        | inr d ↦ sinking.others i pos lt (ground arith)
      ]

      module _ (lt : b < n) (child : parent b ≡ idx) (below : idx < b)
          (up : precedes (f b) (f idx) ≡ true) where
        abbrev g : ℕ → E
        g k = item junk (swap_at junk cells idx b) k

        g-eq : (k : ℕ) → g k ≡ (if b == k then f idx else (if idx == k then f b else f k))
        g-eq k = item-swap_at junk cells idx b k (omega arith) (omega arith)

        g-b : g b ≡ f idx
        g-b = g-eq b ∙ (let e : (b == b) ≡ true = ground arith in rw e refl)

        g-idx : g idx ≡ f b
        g-idx =
            g-eq idx
            ∙ (let e : (b == idx) ≡ false = ground arith in
                let d : (idx == idx) ≡ true = ground arith in rw (e, d) refl)

        g-other : (k : ℕ) → k ≢ b → k ≢ idx → g k ≡ f k
        g-other k a c =
            g-eq k
            ∙ (let e : (b == k) ≡ false = ground arith in
                let d : (idx == k) ≡ false = ground arith in rw (e, d) refl)

        swap_others : (i : ℕ) → 0 < i → i < n → parent i ≢ b → precedes (g i) (g (parent i)) ≡ false
        swap_others i pos small apart = elim (Bool-cases (i == b)) [
          | inl e ↦
              let at : i ≡ b = ground arith in
              rw (at, child, g-b, g-idx) (laws.asym (f b) (f idx) up)
          | inr e ↦ elim (Bool-cases (i == idx)) [
            | inl d ↦
                let at : i ≡ idx = ground arith in
                rw (at, g-idx, g-other (parent idx) (omega arith) (omega arith))
                  (sinking.over b (omega arith) lt child (omega arith))
            | inr d ↦
                let same = g-other i (ground arith) (ground arith) in
                elim (Bool-cases (parent i == idx)) [
                  | inl m ↦
                      let at : parent i ≡ idx = ground arith in
                      rw (at, same, g-idx) (chosen.least i pos small at)
                  | inr m ↦
                      let off : parent i ≢ idx = ground arith in
                      rw (same, g-other (parent i) apart off) (sinking.others i pos small off)
                ]
          ]
        ]

        swap-Sinking : Sinking n (swap_at junk cells idx b) b
        swap-Sinking = record {
          others = swap_others;
          over = λ c pos small e q.
              let kept : precedes (f c) (f (parent c)) ≡ false =
                sinking.others c pos small (omega arith) in
              rw (child, g-idx, g-other c (omega arith) (omega arith)) (rw e at kept);
        }

  -- With one round more than the elements below the index, and fewer than 2^63 elements, sifting down
  -- returns: the first `n` cells hold the same elements, in heap order.
  pub sift_down-Sifted :
      (laws : OrderLaws precedes) (fuel n : ℕ) (cells : List E) (idx : ℕ)
      → n ≤ length cells
      → n < 2 ^ 63
      → idx < n
      → n ≤ fuel + idx
      → Sinking n cells idx
      → Returns (sift_down junk precedes fuel n cells idx) (λ r. Sifted junk precedes n cells r)
  unfolding sift_down
  sift_down-Sifted laws zero n cells idx l small h fit sinking = absurd (omega arith)
  sift_down-Sifted laws (suc fuel) n cells idx l small h fit sinking =
      let left : add_size (mul_size 2 idx) 1 ≡ 2 * idx + 1 = omega arith in
      let right : add_size (2 * idx + 1) 1 ≡ 2 * idx + 2 = omega arith in
      let b =
        best_of junk precedes n cells (2 * idx + 2)
          (best_of junk precedes n cells (2 * idx + 1) idx) in
      let chosen = best_of-Chosen laws n cells idx in
      rw (left, right)
        (elim (chosen.which) [
          | inl e ↦
              let stop : (b == idx) ≡ true = ground arith in
              rw stop (_, refl, (stays laws n cells idx l h sinking b chosen e, refl, λ q. refl))
          | inr (lt, child, below, up) ↦
              let further : (b == idx) ≡ false = ground arith in
              let (r, run, s) =
                sift_down-Sifted laws fuel n (swap_at junk cells idx b) b
                  (omega (arith, length-swap_at junk cells idx b)) small lt (omega arith)
                  (swap-Sinking laws n cells idx l h sinking b chosen lt child below up) in
              rw further (
                r,
                run,
                (
                  s.0,
                  s.1 ∙ length-swap_at junk cells idx b,
                  λ q. s.2 q ∙ count-swap_at junk q n cells idx b h lt l,
                ),
              )
        ])
