-- ===== src/Size/Checked.antt =====
-- The checked sum and product: exact where they succeed, and refused exactly where they would wrap.
use k4c.Base.{ℕ, zero, suc, ◌+◌, ◌*◌, ◌≤◌, ◌≡◌, none, some, arith, leb, if◌then◌else◌}
use k4c.Size.{size_max, size_add_overflow, size_mul_overflow}
use native.Mathlib.Nat.{le-div_iff_mul-le}

-- For every pair of `size_t` values the checked sum succeeds exactly when the true sum is a
-- `size_t`, and then returns it.
pub size_add_overflow_lem :
    (lhs rhs : ℕ)
    → lhs ≤ size_max
    → rhs ≤ size_max
    → size_add_overflow lhs rhs ≡ (if leb (lhs + rhs) size_max then some (lhs + rhs) else none)
unfolding size_add_overflow
size_add_overflow_lem lhs rhs p q = ground arith

-- For every pair of `size_t` values the checked product succeeds exactly when the true product is a
-- `size_t`, and then returns it.
pub size_mul_overflow_lem :
    (lhs rhs : ℕ)
    → lhs ≤ size_max
    → size_mul_overflow lhs rhs ≡ (if leb (lhs * rhs) size_max then some (lhs * rhs) else none)
unfolding size_mul_overflow
size_mul_overflow_lem lhs zero p = ground arith
size_mul_overflow_lem lhs (suc rhs) p =
    let fits = le-div_iff_mul-le {k = suc rhs} {x = lhs} {y = size_max} (omega arith) in
    ground (arith, fits.0, fits.1)

-- a checked sum is at least its first term
pub size_add_overflow-ge :
    (lhs rhs : ℕ) {n : ℕ} → lhs ≤ size_max → size_add_overflow lhs rhs ≡ some n → lhs ≤ n
unfolding size_add_overflow
size_add_overflow-ge lhs rhs {n} h e = ground arith
