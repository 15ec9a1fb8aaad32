-- ===== src/Size.antt =====
-- lib/mem/size.h: `size_t` arithmetic, plain and checked, and rounding up to an alignment.
-- An out parameter beside a `true` result is `none`; beside `false` it is `some` of what is written.
pub mod Checked
pub mod Align
mod Tests
use k4c.Base.{
  ℕ, ◌+◌, ◌-◌, ◌*◌, ◌/◌, ◌%◌, ◌^◌, bit_and, Option, none, some, ltb, ◌==◌, if◌then◌else◌, not, ◌&&◌,
}

-- One more than SIZE_MAX, on a platform whose `size_t` has 64 bits.
abbrev pub word : ℕ
word = 2 ^ 64

abbrev pub size_max : ℕ
size_max = word - 1

-- The arithmetic of C on `size_t`, which wraps.
abbrev pub add_size : ℕ → ℕ → ℕ
add_size a b = (a + b) % word

abbrev pub sub_size : ℕ → ℕ → ℕ
sub_size a b = (a + word - b) % word

abbrev pub mul_size : ℕ → ℕ → ℕ
mul_size a b = a * b % word

-- `~mask`
abbrev pub complement : ℕ → ℕ
complement mask = size_max - mask

unfoldable pub align_up : ℕ → ℕ → ℕ
align_up value alignment =
    let mask = sub_size alignment 1 in bit_and (add_size value mask) (complement mask)

unfoldable pub size_add_overflow : ℕ → ℕ → Option ℕ
size_add_overflow lhs rhs = if ltb (size_max - rhs) lhs then none else some (add_size lhs rhs)

unfoldable pub size_mul_overflow : ℕ → ℕ → Option ℕ
size_mul_overflow lhs rhs =
    if not (rhs == 0) && ltb (size_max / rhs) lhs then none else some (mul_size lhs rhs)

unfoldable pub align_up_overflow : ℕ → ℕ → Option ℕ
unfolding size_add_overflow
align_up_overflow value alignment =
    let mask = sub_size alignment 1 in
    elim (size_add_overflow value mask) [
      | none ↦ none
      | some out ↦ some (bit_and out (complement mask))
    ]
