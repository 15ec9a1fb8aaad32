-- ===== src/Base/Bytes.antt =====
-- What the code takes from string.h.
use Prim.Native.Nat.{ℕ, zero, suc, compare, Ordering}
use k4c.Base.Int.{ℤ, pos, negsuc}
use mathlib.Core.Bool.{Bool, true, false, ◌&&◌}
use mathlib.Core.List.{List, [], ◌∷◌}
use mathlib.Core.Option
use mathlib.Core.Option.{Option, none, some}
use k4c.Base.Tests.{◌==◌, if◌then◌else◌}

-- `memcmp(xs, ys, n) == 0` on the first `n` bytes of each
unfoldable pub same_bytes : ℕ → List ℕ → List ℕ → Bool
same_bytes zero xs ys = true
same_bytes (suc n) (x ∷ xs) (y ∷ ys) = x == y && same_bytes n xs ys
same_bytes (suc n) xs ys = false

-- `memcmp(xs, ys, n)`, as far as its sign: the order of the first bytes that differ
unfoldable pub byte_order : ℕ → List ℕ → List ℕ → ℤ
byte_order zero xs ys = pos 0
byte_order (suc n) (x ∷ xs) (y ∷ ys) =
    let rest = byte_order n xs ys in
    elim (compare x y) [ Ordering.lt ↦ negsuc 0 | Ordering.eq ↦ rest | Ordering.gt ↦ pos 1 ]
byte_order (suc n) xs ys = pos 0

-- `memchr(xs, byte, length xs)`, as an index
unfoldable pub find_byte : ℕ → List ℕ → Option ℕ
find_byte byte [] = none
find_byte byte (x ∷ xs) = if x == byte then some 0 else Option.map suc (find_byte byte xs)
