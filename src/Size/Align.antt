-- ===== src/Size/Align.antt =====
-- Rounding up to a power of two.
use k4c.Base.{
  ℕ, zero, suc, ◌+◌, ◌-◌, ◌*◌, ◌/◌, ◌%◌, ◌^◌, ◌≤◌, ◌<◌, ◌≡◌, Option, none, some, arith, leb,
  bit_and, if◌then◌else◌, ap,
}
use k4c.Base.Bits.{bit_and-low_mask, bit_and_shift}
use k4c.Size.{word, size_max, complement, sub_size, align_up, size_add_overflow, align_up_overflow}
use k4c.Size.Checked.{size_add_overflow_lem}
use native.Mathlib.Nat.{
  one-le-pow, div-add-mod, div-lt_iff_lt-mul, mod-eq_of_lt, mod-lt, mul-mod_right, pow-suc,
  pow-le-pow_right, zero-add, one-mul,
}
use Prim.Native.Nat.add

pow-add : (k n : ℕ) → 2 ^ (k + n) ≡ 2 ^ k * 2 ^ n
pow-add zero n = rw (zero-add, one-mul)
pow-add (suc k) n = rw (add.suc, pow-suc 2 (k + n), pow-suc 2 k) (omega (arith, pow-add k n))

mul-pred : (p m : ℕ) → 1 ≤ m → p * (m - 1) + p ≡ p * m
mul-pred p zero h = absurd (omega arith)
mul-pred p (suc m) h = let e : suc m - 1 ≡ m = omega arith in rw e (omega arith)

-- with `k < 64` the alignment `2 ^ k` is a `size_t`, and divides the word
module _ (k : ℕ) (small : k < 64) where
  alignment_bounds : (1 ≤ 2 ^ k) × (2 ^ k ≤ 2 ^ 63)
  alignment_bounds =
      (one-le-pow k 2 (omega arith), pow-le-pow_right (omega arith) {i = k} {j = 63} (omega arith))

  word-eq-mul : word ≡ 2 ^ k * 2 ^ (64 - k)
  word-eq-mul =
      rw (← pow-add k (64 - k)) (ap (λ (t : ℕ). 2 ^ t) {x = 64} {y = k + (64 - k)} (omega arith))

  complement-eq : complement (2 ^ k - 1) ≡ 2 ^ k * (2 ^ (64 - k) - 1)
  complement-eq = omega (
    arith,
    word-eq-mul,
    alignment_bounds,
    mul-pred (2 ^ k) (2 ^ (64 - k)) (one-le-pow (64 - k) 2 (omega arith)),
  )

  -- clearing the low bits rounds down
  bit_and-complement :
      (v : ℕ) → v ≤ size_max → bit_and v (complement (2 ^ k - 1)) ≡ 2 ^ k * (v / 2 ^ k)
  bit_and-complement v h =
      let fits : v / 2 ^ k < 2 ^ (64 - k) =
        (div-lt_iff_lt-mul alignment_bounds.0).1 (omega (arith, word-eq-mul)) in
      rw (
        complement-eq,
        bit_and_shift k v (2 ^ (64 - k) - 1),
        bit_and-low_mask (64 - k) (v / 2 ^ k),
        mod-eq_of_lt fits,
      )

  sub_size-one : sub_size (2 ^ k) 1 ≡ 2 ^ k - 1
  sub_size-one = omega (arith, alignment_bounds)

  -- what `align_up_overflow` computes, on both branches
  align_up_overflow-eq :
      (value : ℕ)
      → value ≤ size_max
      → align_up_overflow value (2 ^ k) ≡ (
          if leb (value + (2 ^ k - 1)) size_max
          then some (2 ^ k * ((value + (2 ^ k - 1)) / 2 ^ k))
          else none)
  unfolding align_up_overflow
  align_up_overflow-eq value h =
      rw (align_up_overflow, sub_size-one)
        (ground (
          arith,
          alignment_bounds,
          size_add_overflow_lem value (2 ^ k - 1),
          bit_and-complement (value + (2 ^ k - 1)),
        ))

  -- `out` is the least multiple of the alignment from `value` on, and a `size_t`; or adding the
  -- alignment less one to `value` passes SIZE_MAX.
  abbrev pub Rounds : ℕ → Option ℕ → Type 0
  Rounds value (some out) =
      (value ≤ out) × (out < value + 2 ^ k) × (out % 2 ^ k ≡ 0) × (out ≤ size_max)
  Rounds value none = size_max < value + (2 ^ k - 1)

  -- For an alignment `2 ^ k` with `k < 64` and any `size_t` value, the checked rounding returns the
  -- least multiple of the alignment that is not below the value, a `size_t`; it refuses only where adding
  -- the alignment less one passes SIZE_MAX.
  pub align_up_overflow-Rounds :
      (value : ℕ) → value ≤ size_max → Rounds value (align_up_overflow value (2 ^ k))
  align_up_overflow-Rounds value h =
      let up = value + (2 ^ k - 1) in
      rw (align_up_overflow-eq value h) (
        ground (
          arith,
          alignment_bounds,
          div-add-mod up (2 ^ k),
          mul-mod_right (2 ^ k) (up / 2 ^ k),
          mod-lt up {m = 2 ^ k} (alignment_bounds.0),
        ))

  -- For an alignment `2 ^ k` with `k < 64`, the unchecked rounding agrees with the checked one
  -- wherever the latter succeeds.
  pub align_up-align_up_overflow :
      (value out : ℕ)
      → value ≤ size_max
      → align_up_overflow value (2 ^ k) ≡ some out
      → align_up value (2 ^ k) ≡ out
  unfolding align_up align_up_overflow size_add_overflow
  align_up-align_up_overflow value out h e = ground (arith, sub_size-one)

-- the platform's alignment is 16
pub align_up_overflow-sixteen :
    (value : ℕ)
    → value ≤ size_max
    → align_up_overflow value 16
      ≡ (if leb (value + 15) size_max then some (16 * ((value + 15) / 16)) else none)
align_up_overflow-sixteen value h = align_up_overflow-eq 4 (omega arith) value h
