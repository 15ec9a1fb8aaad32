-- ===== src/Hash/Set.antt =====
-- lib/hash/hashset.c. `E` is what stands in the memory of an element, and `bytes` reads its bytes. A
-- pointer that a function returns is modelled by what it points to.
pub mod Valid
pub mod Reserve
pub mod Insert
pub mod Remove
pub mod Lifecycle
pub mod Iterate
use k4c.Base.{
  ℕ, zero, suc, ◌+◌, ◌%◌, leb, ◌==◌, if◌then◌else◌, Bool, true, false, Option, none, some, List, [],
  ◌∷◌, set, Run, done, panic, and_then, Prog, pure, abort, lift, ◌>>=◌, ◌>>◌,
}
use k4c.Platform.{sizeof_hash_entry, sizeof_hashset}
use k4c.Size.{add_size, sub_size, size_add_overflow}
use k4c.Status.{Status, ok, overflow, is_ok}
use k4c.Allocator.{Ptr, Libc, Allocator, allocator_copy, alloc, dealloc}
use k4c.Iterator.{Iterator, iterator_from_state, iterator_set_size_hint}
use k4c.Hash.{fnv1a_hash}
use k4c.Hash.Common.{
  default_capacity, Buckets, chain_at, bucket_pushfront, bucket_find, bucket_remove, should_grow,
  capacity_for_size, buckets_create, buckets_rehash, buckets_destroy, ChainsState, next_entry,
  viewed,
}

-- `k4c_hashset_entry`, at its address, with the element in its data
pub record Entry (E : Type 0) : Type 0 where
  pub address : ℕ
  pub hash : ℕ
  pub elem : E

-- `struct k4c_hashset`, with the address that it was allocated at
pub record HashSet (W E : Type 0) : Type 0 where
  pub address : Ptr
  pub size : ℕ
  pub elem_size : ℕ
  pub capacity : ℕ
  pub buckets : Buckets (Entry E)
  pub elem_eq : Option (E → E → Bool)
  pub allocator : Allocator W

module _ {E : Type 0} where
  -- the element of an entry, or NULL
  abbrev pub elem_of : Option (Entry E) → Option E
  elem_of none = none
  elem_of (some entry) = some (entry.elem)

  -- `entry != NULL`
  abbrev pub is_found : Option (Entry E) → Bool
  is_found none = false
  is_found (some entry) = true

module _ {W E : Type 0} where
  -- the set with one chain replaced
  abbrev pub with_chain : HashSet W E → ℕ → List (Entry E) → HashSet W E
  with_chain s bucket chain = record s {
    buckets = record s.buckets { chains = set s.buckets.chains bucket chain };
  }

  -- the stores at the end of `k4c_hashset_reserve`, which an error leaves out
  abbrev pub rehashed : HashSet W E → ℕ → Status × Option (Buckets (Entry E)) → Status × HashSet W E
  rehashed s new_capacity (st, none) = (st, s)
  rehashed s new_capacity (st, some new_buckets) =
      (ok, record s { buckets = new_buckets; capacity = new_capacity })

  -- the stores at the end of `k4c_hashset_insert`, into an entry at `address`
  abbrev pub store_entry : HashSet W E → ℕ → ℕ → E → HashSet W E
  store_entry s hash address elem = record s {
    buckets = record s.buckets {
      chains =
          bucket_pushfront s.buckets.chains (hash % s.capacity)
            (record { address = address; hash = hash; elem = elem });
    };
    size = add_size s.size 1;
  }

  -- `k4c_hashset_insert` after its allocation: no entry stands beside an error
  abbrev pub link_entry : HashSet W E → ℕ → E → Status × Ptr → Status × HashSet W E
  link_entry s hash elem (st, none) = (st, s)
  link_entry s hash elem (st, some address) = (ok, store_entry s hash address elem)

  module _ (bytes : E → List ℕ) where
    -- the search of `k4c_hashset_entry_get`, `k4c_hashset_insert` and `k4c_hash_common_bucket_find`
    unfoldable pub entry_find : HashSet W E → E → Option (Entry E)
    entry_find s elem =
        let hash = fnv1a_hash (bytes elem) s.elem_size in
        bucket_find bytes Entry.elem Entry.hash (chain_at s.buckets.chains (hash % s.capacity)) elem
          s.elem_size hash s.elem_eq

    -- `k4c_hashset_entry_get`, with the assertion of the search
    unfoldable pub entry_get : HashSet W E → E → Run (Option (Entry E))
    unfolding entry_find
    entry_get s elem = if s.elem_size == 0 then panic else done (entry_find s elem)

    -- the element found
    unfoldable pub elem_at : HashSet W E → E → Option E
    unfolding entry_find
    elem_at s elem = elem_of (entry_find s elem)

    -- `k4c_hashset_contains`
    unfoldable pub contains : HashSet W E → E → Run Bool
    unfolding entry_get
    contains s elem = and_then (entry_get s elem) (λ entry. done (is_found entry))

    -- `k4c_hashset_get`
    unfoldable pub get : HashSet W E → E → Run (Option E)
    unfolding entry_get
    get s elem = and_then (entry_get s elem) (λ entry. done (elem_of entry))

module _ {W E : Type 0} (libc : Libc W) (bytes : E → List ℕ) where
  -- `k4c_hashset_reserve`
  unfoldable pub reserve : HashSet W E → ℕ → Prog W (Status × HashSet W E)
  reserve s size = do
    (st, new_capacity) ← lift (capacity_for_size size)
    elim (is_ok st) [
      | false ↦ pure (st, s)
      | true ↦ if leb new_capacity s.capacity then pure (ok, s) else (do
        r ← buckets_rehash libc s.buckets s.capacity new_capacity (some s.allocator) Entry.hash
        pure (rehashed s new_capacity r))
    ]

  -- the growth in `k4c_hashset_insert`
  unfoldable pub make_room : HashSet W E → Prog W (Status × HashSet W E)
  unfolding reserve
  make_room s =
      if should_grow s.size s.capacity
      then elim (size_add_overflow s.size 1) [
        | none ↦ pure (overflow, s)
        | some reserve_size ↦ reserve s reserve_size
      ]
      else pure (ok, s)

  -- `k4c_hashset_insert` after the growth
  unfoldable pub insert_entry : HashSet W E → E → Prog W (Status × HashSet W E)
  insert_entry s elem = elim (size_add_overflow sizeof_hash_entry s.elem_size) [
    | none ↦ pure (overflow, s)
    | some alloc_size ↦ do
      r ← alloc libc (some s.allocator) alloc_size
      pure (link_entry s (fnv1a_hash (bytes elem) s.elem_size) elem r)
  ]

  -- the growth and what follows it, which an error of the growth leaves out
  unfoldable pub insert_new : HashSet W E → E → Prog W (Status × HashSet W E)
  unfolding make_room insert_entry
  insert_new s elem = do
    (st, roomy) ← make_room s
    elim (is_ok st) [ false ↦ pure (st, roomy) | true ↦ insert_entry roomy elem ]

  -- `k4c_hashset_insert`
  unfoldable pub insert : HashSet W E → E → Prog W (Status × HashSet W E)
  unfolding entry_find insert_new
  insert s elem =
      if s.elem_size == 0
      then abort
      else elim (entry_find bytes s elem) [ some entry ↦ pure (ok, s) | none ↦ insert_new s elem ]

  -- `k4c_hashset_remove` after the search
  abbrev pub release_entry :
      HashSet W E → ℕ → Option (Entry E) × List (Entry E) → Prog W (HashSet W E)
  release_entry s bucket (none, rest) = pure s
  release_entry s bucket (some entry, rest) = do
    dealloc libc (some s.allocator) (some entry.address)
    pure (record (with_chain s bucket rest) { size = sub_size s.size 1 })

  -- `k4c_hashset_remove`
  unfoldable pub remove : HashSet W E → E → Prog W (HashSet W E)
  remove s elem =
      let hash = fnv1a_hash (bytes elem) s.elem_size in
      let bucket = hash % s.capacity in
      if s.elem_size == 0
      then abort
      else release_entry s bucket (
          bucket_remove bytes Entry.elem Entry.hash (chain_at s.buckets.chains bucket) elem
            s.elem_size hash s.elem_eq)

  -- the stores at the end of `k4c_hashset_create`
  abbrev pub fresh : ℕ → Option (E → E → Bool) → Allocator W → Ptr → Buckets (Entry E) → HashSet W E
  fresh elem_size elem_eq owner address buckets = record {
    address = address;
    size = 0;
    elem_size = elem_size;
    capacity = default_capacity;
    buckets = buckets;
    elem_eq = elem_eq;
    allocator = owner;
  }

  -- the second half of `k4c_hashset_create`, once the struct is at `address`; no array stands
  -- beside an error
  unfoldable pub create_buckets :
      ℕ → Option (E → E → Bool) → Allocator W → Ptr → Prog W (Status × Option (HashSet W E))
  create_buckets elem_size elem_eq owner address = do
    (st, created) ← buckets_create libc default_capacity (some owner)
    elim created [
      | none ↦ do dealloc libc (some owner) address; pure (st, none)
      | some buckets ↦ pure (ok, some (fresh elem_size elem_eq owner address buckets))
    ]

  -- `k4c_hashset_create`
  unfoldable pub create :
      ℕ → Option (E → E → Bool) → Option (Allocator W) → Prog W (Status × Option (HashSet W E))
  unfolding create_buckets
  create elem_size elem_eq allocator =
      if elem_size == 0 then abort else elim (size_add_overflow sizeof_hash_entry elem_size) [
        | none ↦ pure (overflow, none)
        | some max_entry_size ↦ do
          (st, address) ← alloc libc allocator sizeof_hashset
          elim (is_ok st) [
            | false ↦ pure (st, none)
            | true ↦ create_buckets elem_size elem_eq (allocator_copy allocator) address
          ]
      ]

  -- `k4c_hashset_entry_destroy`
  abbrev pub entry_destroy : Allocator W → Entry E → Prog W (Unit {0})
  entry_destroy allocator entry = dealloc libc (some allocator) (some entry.address)

  -- `k4c_hashset_destroy`
  unfoldable pub destroy : HashSet W E → Prog W (Unit {0})
  destroy s = do
    buckets_destroy libc s.buckets s.capacity (some s.allocator) (entry_destroy s.allocator)
    dealloc libc (some s.allocator) s.address

module _ {E : Type 0} where
  -- `k4c_hashset_iterator_next`
  abbrev pub hashset_iterator_next : ChainsState (Entry E) → Option E × ChainsState (Entry E)
  hashset_iterator_next s = viewed Entry.elem (next_entry s)

  -- `k4c_hashset_get_iterator`
  unfoldable pub get_iterator : {W : Type 0} → HashSet W E → Iterator (ChainsState (Entry E)) E
  get_iterator s =
      iterator_set_size_hint
        (iterator_from_state hashset_iterator_next
          (record { chains = s.buckets.chains; capacity = s.capacity; bucket = 0; node = [] }))
        s.size
