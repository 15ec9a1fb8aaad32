-- ===== src/Base/Bits.antt =====
-- `&` with a low mask, and with the complement of one, as arithmetic.
use Prim.Native.Nat.{
  ℕ, zero, suc, ◌+◌, ◌-◌, ◌*◌, ◌/◌, ◌%◌, ◌^◌, ◌≤◌, ◌<◌, min, bit_and, digits, bit_and-bitwise,
}
use mathlib.Core.Path.{◌≡◌, refl, sym, ap, ◌∙◌}
use native.Mathlib.Nat.{
  pow-suc, pow-le-pow_right, one-le-pow, mul_comm, div-one, one-mul, div-add-mod,
  div-div-eq-div-mul,
}
use mathlib.Core.Logic.{inl, inr}
use k4c.Base.Tests.{ltb, Bool-cases}
use native.Mathlib.Omega.{arith}

-- what `bit_and` computes, by halving both numbers up to `fuel` times
abbrev halving : ℕ → ℕ → ℕ → ℕ
halving fuel x y = digits (λ _. 0) min fuel x y

halving-suc : (fuel x y : ℕ) → x ≤ fuel → halving (suc fuel) x y ≡ halving fuel x y
halving-suc zero x y h = let e : x ≡ 0 = omega arith in rw e refl
halving-suc (suc fuel) zero y h = refl
halving-suc (suc fuel) (suc x) y h =
    ap (λ (t : ℕ). t * 2 + min (suc x % 2) (y % 2))
      (halving-suc fuel (suc x / 2) (y / 2) (omega arith))

-- more fuel than the first number changes nothing
halving_more : (extra x y : ℕ) → halving (extra + x) x y ≡ halving x x y
halving_more zero x y = let e : 0 + x ≡ x = omega arith in rw e refl
halving_more (suc extra) x y =
    let e : suc extra + x ≡ suc (extra + x) = omega arith in
    rw e (halving-suc (extra + x) x y (omega arith) ∙ halving_more extra x y)

halving-zero : (fuel x : ℕ) → halving fuel x 0 ≡ 0
halving-zero zero x = refl
halving-zero (suc fuel) zero = refl
halving-zero (suc fuel) (suc x) = omega (arith, halving-zero fuel (suc x / 2))

bit_and-zero : (x : ℕ) → bit_and x 0 ≡ 0
bit_and-zero x = bit_and-bitwise x 0 ∙ halving-zero x x

-- the lowest digits apart from the others
bit_and_halves : (x y : ℕ) → bit_and x y ≡ bit_and (x / 2) (y / 2) * 2 + min (x % 2) (y % 2)
bit_and_halves zero y = omega (arith, bit_and-bitwise 0 y, bit_and-bitwise 0 (y / 2))
bit_and_halves (suc x) y =
    let e : x - suc x / 2 + suc x / 2 ≡ x = omega arith in
    let enough : halving x (suc x / 2) (y / 2) ≡ bit_and (suc x / 2) (y / 2) =
      ap (λ (t : ℕ). halving t (suc x / 2) (y / 2)) (sym e)
      ∙ halving_more (x - suc x / 2) (suc x / 2) (y / 2)
      ∙ sym (bit_and-bitwise (suc x / 2) (y / 2)) in
    omega (arith, bit_and-bitwise (suc x) y, enough)

half_of_double : (n : ℕ) → (n * 2 / 2 ≡ n) × (n * 2 % 2 ≡ 0)
half_of_double n = omega arith

div_double : (a p : ℕ) → a / (p * 2) ≡ a / 2 / p
div_double a p = rw (mul_comm p 2) (sym (div-div-eq-div-mul a 2 p))

mod_double : (a p : ℕ) → a % (p * 2) ≡ a / 2 % p * 2 + a % 2
mod_double a p =
    omega
      (arith, div-add-mod a (p * 2), div-add-mod (a / 2) p, ap (λ (t : ℕ). p * t) (div_double a p))

-- a mask of `k` low ones keeps the remainder by `2 ^ k`
pub bit_and-low_mask : (k a : ℕ) → bit_and a (2 ^ k - 1) ≡ a % 2 ^ k
bit_and-low_mask zero a = omega (arith, bit_and-zero a)
bit_and-low_mask (suc k) a = rw (pow-suc 2 k) (
    omega (
      arith,
      bit_and_halves a (2 ^ k * 2 - 1),
      one-le-pow k 2,
      bit_and-low_mask k (a / 2),
      mod_double a (2 ^ k),
      ap (bit_and (a / 2)) halved,
    ))
  where
    halved : (2 ^ k * 2 - 1) / 2 ≡ 2 ^ k - 1
    halved = omega (arith, one-le-pow k 2)

-- a mask that ends in `k` zeros works on the digits above them
pub bit_and_shift : (k a m : ℕ) → bit_and a (2 ^ k * m) ≡ 2 ^ k * bit_and (a / 2 ^ k) m
bit_and_shift zero a m = simp (div-one, one-mul)
bit_and_shift (suc k) a m =
    rw (pow-suc 2 k, div_double a (2 ^ k))
      (omega (
        arith,
        bit_and_halves a (2 ^ k * 2 * m),
        bit_and_shift k (a / 2) m,
        ap (bit_and (a / 2)) halved,
      ))
  where
    halved : 2 ^ k * 2 * m / 2 ≡ 2 ^ k * m
    halved = omega arith

-- powers of two in 64 bits
pub power_bound : (k : ℕ) → k < 64 → 2 ^ k ≤ 2 ^ 63
power_bound k h = pow-le-pow_right (omega arith) {i = k} {j = 63} (omega arith)

pub power_small : (k : ℕ) → k < 64 → 2 ^ k < 2 ^ 63 → suc k < 64
power_small k h small = elim (Bool-cases (ltb k 63)) [
  | inl e ↦ ground arith
  | inr e ↦
      absurd (omega (arith, pow-le-pow_right {n = 2} (omega arith) {i = 63} {j = k} (ground arith)))
]
