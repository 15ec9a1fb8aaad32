-- ===== src/Hash/Map/Valid.antt =====
-- When a map is in order, and what it maps a key to.
use k4c.Base.{done, false, ◌==◌, arith, ℕ, ◌<◌, ◌≡◌, ◌≢◌, refl, Bool, Option, none, List}
use k4c.Hash.Keys.{hash_of, same_key, matches_key, KeyLaws, keyed}
use k4c.Hash.Common.Table.{Keyed, lookup}
use k4c.Hash.Common.Order.{InOrder}
use k4c.Hash.Map.{Entry, HashMap, entry_find, value_at, get, value_of}

module _ {W K V : Type 0} (bytes : K → List ℕ) where
  -- The keys keep the laws, the table is in order, and the sizes are `size_t`.
  pub record IsValid (map : HashMap W K V) : Type 0 where
    pub laws : KeyLaws bytes map.key_size map.key_eq
    pub order :
        InOrder
          (hash_of bytes map.key_size map.key_eq)
          (matches_key bytes map.key_size map.key_eq Entry.key Entry.hash)
          map.size
          map.capacity
          map.buckets
    pub sized : 0 < map.key_size
    pub address : map.address ≢ none

  -- equality of keys in the map
  abbrev pub same : HashMap W K V → K → K → Bool
  same map = same_key bytes map.key_size map.key_eq

  abbrev pub hash_in : HashMap W K V → K → ℕ
  hash_in map = hash_of bytes map.key_size map.key_eq

  abbrev pub matches_in : HashMap W K V → K → Entry K V → Bool
  matches_in map = matches_key bytes map.key_size map.key_eq Entry.key Entry.hash

  -- the entry of a key
  abbrev pub entry_in : HashMap W K V → K → Option (Entry K V)
  entry_in map = lookup (hash_in map) (matches_in map) map.capacity map.buckets.chains

  pub value_at-entry_in :
      (map : HashMap W K V) (k : K) → value_at bytes map k ≡ value_of (entry_in map k)
  unfolding value_at
  value_at-entry_in map k = refl

  pub entry_find-entry_in : (map : HashMap W K V) (k : K) → entry_find bytes map k ≡ entry_in map k
  unfolding entry_find
  entry_find-entry_in map k = refl

  pub keyed_in :
      {map : HashMap W K V}
      → IsValid map
      → Keyed (hash_in map) Entry.hash (matches_in map) (same map)
  keyed_in {map} v = keyed bytes map.key_size map.key_eq Entry.key Entry.hash v.laws

  -- `get` returns what the abstract view has
  pub get-value_at :
      {map : HashMap W K V} (k : K) → IsValid map → get bytes map k ≡ done (value_at bytes map k)
  unfolding get value_at
  get-value_at {map} k v =
      let positive : (map.key_size == 0) ≡ false = ground (arith, v.sized) in rw positive refl
