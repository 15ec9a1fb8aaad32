-- ===== src/Hash.antt =====
-- lib/hash: the hash function, the chained table that the map and the set share, and both.
pub mod Common
pub mod Capacity
pub mod Keys
pub mod Map
pub mod Set
mod Tests
use k4c.Base.{ℕ, zero, suc, ◌*◌, ◌%◌, bit_xor, List, [], ◌∷◌}
use k4c.Size.{mul_size}

-- the loop of `k4c_fnv1a_hash`, over at most `len` bytes
fnv_loop : ℕ → List ℕ → ℕ → ℕ
fnv_loop zero bytes hash = hash
fnv_loop (suc len) [] hash = hash
fnv_loop (suc len) (byte ∷ bytes) hash =
    fnv_loop len bytes (mul_size (bit_xor hash byte) 1099511628211)

-- `k4c_fnv1a_hash` of lib/hash/fnv.h
unfoldable pub fnv1a_hash : List ℕ → ℕ → ℕ
unfolding fnv_loop
fnv1a_hash bytes len = fnv_loop len bytes 14695981039346656037
