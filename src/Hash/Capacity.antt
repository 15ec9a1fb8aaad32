-- ===== src/Hash/Capacity.antt =====
-- The capacity for a number of entries: the least power of two, from 16 on, that keeps the load.
use k4c.Base.{
  ℕ, zero, suc, ◌+◌, ◌-◌, ◌*◌, ◌/◌, ◌^◌, ◌≤◌, ◌<◌, ◌≡◌, refl, ◌⊎◌, inl, inr, arith, leb, ltb,
  Bool-cases, true, Returns,
}
use k4c.Base.Bits.{power_bound, power_small}
use native.Mathlib.Nat.{pow-suc, pow-le-pow_right}
use k4c.Size.{size_max}
use k4c.Size.Checked.{size_add_overflow_lem, size_mul_overflow_lem}
use k4c.Status.{Status, ok, overflow}
use k4c.Hash.Common.{capacity_loop, capacity_for_size, should_grow}

-- A power of two from 16 on that takes `scaled` / 4 entries, the least such; or an overflow, which
-- comes only for more than 3 * 2^62.
abbrev pub Suits : ℕ → Status × ℕ → Type 0
Suits scaled r =
    ((r.0 ≡ ok)
      × ((k : ℕ) × (r.1 ≡ 2 ^ k))
      × (16 ≤ r.1)
      × (r.1 * 3 ≤ size_max)
      × (scaled ≤ r.1 * 3)
      × ((r.1 ≡ 16) ⊎ (r.1 / 2 * 3 < scaled)))
    ⊎ ((r.0 ≡ overflow) × (2 ^ 62 * 3 < scaled))

half_power : (k : ℕ) → 2 ^ suc k / 2 ≡ 2 ^ k
half_power k = omega (arith, pow-suc 2 k)

-- a power of two below 2^64 whose triple is no `size_t` is 2^63
top_power : (k : ℕ) → k < 64 → size_max < 2 ^ k * 3 → 2 ^ k / 2 ≡ 2 ^ 62
top_power k h big = elim (Bool-cases (ltb k 63)) [
  | inl e ↦
      absurd (omega (arith, pow-le-pow_right {n = 2} (omega arith) {i = k} {j = 62} (ground arith)))
  | inr e ↦ let top : k ≡ 63 = ground arith in rw top refl
]

capacity_loop-Suits :
    (fuel k c scaled : ℕ)
    → k < 64
    → c ≡ 2 ^ k
    → 16 ≤ c
    → scaled ≤ size_max
    → ((c ≡ 16) ⊎ (c / 2 * 3 < scaled))
    → 64 - k < fuel
    → Returns (capacity_loop fuel c scaled) (Suits scaled)
unfolding capacity_loop
capacity_loop-Suits zero k c s hk e low fit least f = absurd (omega arith)
capacity_loop-Suits (suc fuel) k c s hk e low fit least f =
    let bound = power_bound k hk in
    let triple = size_mul_overflow_lem c 3 (omega arith) in
    let double = size_mul_overflow_lem c 2 (omega arith) in
    elim (Bool-cases (leb (c * 3) size_max)) [
      | inr p ↦
          let top = top_power k hk (ground arith) in
          rw (triple, p, capacity_loop) (_, refl, inr (refl, ground arith))
      | inl p ↦ elim (Bool-cases (leb s (c * 3))) [
        | inl q ↦
            rw (triple, p, q, capacity_loop)
              (_, refl, inl (refl, (k, e), low, ground arith, ground arith, least))
        | inr q ↦
            let small : c * 3 ≤ size_max = ground arith in
            let fits : leb (c * 2) size_max ≡ true = ground arith in
            let twice : c * 2 ≡ 2 ^ suc k = omega (arith, pow-suc 2 k) in
            let next = power_small k hk (omega arith) in
            let (r, run, g) =
              capacity_loop-Suits fuel (suc k) (c * 2) s next twice (omega arith) fit
                (inr (ground (arith, p))) (omega arith) in
            rw (triple, p, q, double, fits, capacity_loop) (r, run, g)
      ]
    ]

-- For every `size_t` the capacity for that number of entries is found: the least power of two from
-- 16 on of which three quarters are at least the size; or an overflow is reported, and that only
-- for a size whose fourfold is above 3 * 2^62.
pub capacity_for_size-Suits :
    (size : ℕ) → size ≤ size_max → Returns (capacity_for_size size) (Suits (size * 4))
unfolding capacity_for_size
capacity_for_size-Suits size h = elim (Bool-cases (leb (size * 4) size_max)) [
  | inl p ↦
      rw (size_mul_overflow_lem size 4 h, p, capacity_for_size)
        (capacity_loop-Suits 65 4 16 (size * 4) (omega arith) refl (omega arith) (ground arith)
          (inl refl) (omega arith))
  | inr p ↦
      rw (size_mul_overflow_lem size 4 h, p, capacity_for_size) (_, refl, inr (refl, ground arith))
]

-- With a capacity whose triple is a `size_t`, the table is asked to grow exactly when one entry more
-- is above three quarters of the capacity.
pub should_grow-eq :
    (size capacity : ℕ)
    → size * 4 ≤ capacity * 3
    → capacity * 3 ≤ size_max
    → should_grow size capacity ≡ ltb (capacity * 3) ((size + 1) * 4)
unfolding should_grow
should_grow-eq size capacity load small =
    let one = size_add_overflow_lem size 1 (omega arith) (omega arith) in
    let one_fits : leb (size + 1) size_max ≡ true = ground arith in
    let four = size_mul_overflow_lem (size + 1) 4 (omega arith) in
    let three = size_mul_overflow_lem capacity 3 (omega arith) in
    let three_fits : leb (capacity * 3) size_max ≡ true = ground arith in
    elim (Bool-cases (leb ((size + 1) * 4) size_max)) [
      | inl p ↦ rw (one, one_fits, four, p, three, three_fits, should_grow) refl
      | inr p ↦ rw (one, one_fits, four, p, should_grow) (ground arith)
    ]
