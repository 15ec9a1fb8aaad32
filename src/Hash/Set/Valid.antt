-- ===== src/Hash/Set/Valid.antt =====
-- When a set is in order, and what it maps a elem to.
use k4c.Base.{
  done, false, ◌==◌, arith, inl, inr, Option-cases, true, ℕ, ◌<◌, ◌≡◌, ◌≢◌, refl, Bool, Option,
  none, some, List,
}
use k4c.Hash.Keys.{hash_of, same_key, matches_key, KeyLaws, keyed}
use k4c.Hash.Common.Table.{Keyed, lookup}
use k4c.Hash.Common.Order.{InOrder}
use k4c.Hash.Set.{Entry, HashSet, entry_find, elem_at, get, contains, elem_of}

-- whether there is an element
abbrev pub is_some : {E : Type 0} → Option E → Bool
is_some none = false
is_some (some elem) = true

module _ {W E : Type 0} (bytes : E → List ℕ) where
  -- The keys keep the laws, the table is in order, and the sizes are `size_t`.
  pub record IsValid (hs : HashSet W E) : Type 0 where
    pub laws : KeyLaws bytes hs.elem_size hs.elem_eq
    pub order :
        InOrder
          (hash_of bytes hs.elem_size hs.elem_eq)
          (matches_key bytes hs.elem_size hs.elem_eq Entry.elem Entry.hash)
          hs.size
          hs.capacity
          hs.buckets
    pub sized : 0 < hs.elem_size
    pub address : hs.address ≢ none

  -- equality of keys in the set
  abbrev pub same : HashSet W E → E → E → Bool
  same hs = same_key bytes hs.elem_size hs.elem_eq

  abbrev pub hash_in : HashSet W E → E → ℕ
  hash_in hs = hash_of bytes hs.elem_size hs.elem_eq

  abbrev pub matches_in : HashSet W E → E → Entry E → Bool
  matches_in hs = matches_key bytes hs.elem_size hs.elem_eq Entry.elem Entry.hash

  -- the entry of a elem
  abbrev pub entry_in : HashSet W E → E → Option (Entry E)
  entry_in hs = lookup (hash_in hs) (matches_in hs) hs.capacity hs.buckets.chains

  pub elem_at-entry_in : (hs : HashSet W E) (k : E) → elem_at bytes hs k ≡ elem_of (entry_in hs k)
  unfolding elem_at
  elem_at-entry_in hs k = refl

  pub entry_find-entry_in : (hs : HashSet W E) (k : E) → entry_find bytes hs k ≡ entry_in hs k
  unfolding entry_find
  entry_find-entry_in hs k = refl

  pub keyed_in :
      {hs : HashSet W E} → IsValid hs → Keyed (hash_in hs) Entry.hash (matches_in hs) (same hs)
  keyed_in {hs} v = keyed bytes hs.elem_size hs.elem_eq Entry.elem Entry.hash v.laws

  -- `get` returns what the abstract view has
  pub get-elem_at :
      {hs : HashSet W E} (k : E) → IsValid hs → get bytes hs k ≡ done (elem_at bytes hs k)
  unfolding get elem_at
  get-elem_at {hs} k v =
      let positive : (hs.elem_size == 0) ≡ false = ground (arith, v.sized) in rw positive refl

  -- `contains` tells whether there is one
  pub contains-elem_at :
      {hs : HashSet W E} (k : E)
      → IsValid hs
      → contains bytes hs k ≡ done (is_some (elem_at bytes hs k))
  unfolding contains elem_at
  contains-elem_at {hs} k v =
      let positive : (hs.elem_size == 0) ≡ false = ground (arith, v.sized) in
      elim (Option-cases (entry_find bytes hs k)) [
        | inl e ↦ rw (positive, e) refl
        | inr (n, e) ↦ rw (positive, e) refl
      ]
