-- ===== src/Heap/Accounts.antt =====
-- The count of the free bytes.
use k4c.Base.{ℕ, ◌+◌, ◌-◌, ◌*◌, ◌≤◌, ◌≡◌, inl, inr, arith, Bool-cases, List, [], ◌∷◌, length}
use native.Mathlib.Nat.{mod-eq_of_lt}
use k4c.Size.{size_max, add_size}
use k4c.Heap.{Block, Heap, free_bytes, available}
use k4c.Heap.Tiling.{Tiles, IsValid, live, Tiles-bounds}

-- the bytes of the payloads in use
abbrev pub live_bytes : List (ℕ × ℕ) → ℕ
live_bytes [] = 0
live_bytes ((ptr, n) ∷ ps) = n + live_bytes ps

free_bytes-Tiles :
    (bs : List Block) (start end total : ℕ)
    → Tiles start end bs
    → total + (end - start) ≤ size_max
    → free_bytes bs total + live_bytes (live bs) + 32 * length bs + start ≡ total + end
free_bytes-Tiles [] start end total t small = omega arith
free_bytes-Tiles (b ∷ bs) start end total (at, multiple, some_bytes, t) small =
    let bound = Tiles-bounds (start + (32 + b.size)) end bs t in
    elim (Bool-cases (b.is_free)) [
      | inl e ↦
          let sum : add_size total b.size ≡ total + b.size = mod-eq_of_lt (omega arith) in
          rw (e, sum)
            (omega (
              arith,
              free_bytes-Tiles bs (start + (32 + b.size)) end (total + b.size) t (omega arith),
            ))
      | inr e ↦
          rw e
            (omega (arith, free_bytes-Tiles bs (start + (32 + b.size)) end total t (omega arith)))
    ]

-- On a valid heap, the bytes that `available` reports, the bytes of the payloads in use and a
-- header of 32 bytes for every block add up to the capacity.
pub available_adds_up :
    {h : Heap}
    → IsValid h
    → available h + live_bytes (live h.blocks) + 32 * length h.blocks ≡ h.capacity
unfolding available
available_adds_up {h} v =
    let small = v.small in
    omega
      (arith, free_bytes-Tiles h.blocks h.buffer (h.buffer + h.capacity) 0 v.tiles (omega arith))
