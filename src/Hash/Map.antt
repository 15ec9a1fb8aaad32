-- ===== src/Hash/Map.antt =====
-- lib/hash/hashmap.c. `K` and `V` are what stands in the memory of a key and of a value, and `bytes`
-- reads the bytes of a key. A pointer that a function returns is modelled by what it points to.
pub mod Valid
pub mod Reserve
pub mod Insert
pub mod Put
pub mod Remove
pub mod Lifecycle
pub mod Iterate
use k4c.Base.{
  ℕ, zero, suc, ◌+◌, ◌%◌, leb, ◌==◌, ◌||◌, if◌then◌else◌, Bool, true, false, Option, none, some,
  List, [], ◌∷◌, set, get_or, Run, done, panic, and_then, Prog, pure, abort, lift, ◌>>=◌, ◌>>◌,
}
use k4c.Platform.{memory_align, sizeof_hash_entry, sizeof_hashmap}
use k4c.Size.{add_size, sub_size, size_add_overflow, align_up_overflow}
use k4c.Status.{Status, ok, overflow, is_ok}
use k4c.Allocator.{Ptr, Libc, Allocator, allocator_copy, alloc, dealloc}
use k4c.Iterator.{Iterator, iterator_from_state, iterator_set_size_hint}
use k4c.Hash.{fnv1a_hash}
use k4c.Hash.Common.{
  default_capacity, Buckets, chain_at, bucket_pushfront, matches, bucket_find, bucket_remove,
  change_first, should_grow, capacity_for_size, buckets_create, buckets_rehash, buckets_destroy,
  ChainsState, next_entry, viewed,
}

-- `k4c_hashmap_entry`, at its address, with the key and the value in its data
pub record Entry (K V : Type 0) : Type 0 where
  pub address : ℕ
  pub hash : ℕ
  pub key : K
  pub value : V

-- `struct k4c_hashmap`, with the address that it was allocated at
pub record HashMap (W K V : Type 0) : Type 0 where
  pub address : Ptr
  pub size : ℕ
  pub key_size : ℕ
  pub value_size : ℕ
  pub capacity : ℕ
  pub buckets : Buckets (Entry K V)
  pub key_eq : Option (K → K → Bool)
  pub allocator : Allocator W

-- the size of an entry, computed by `k4c_hashmap_create` and by `k4c_hashmap_put`
unfoldable pub entry_alloc_size : ℕ → ℕ → Option ℕ
entry_alloc_size key_size value_size = elim (align_up_overflow key_size memory_align) [
  | none ↦ none
  | some value_offset ↦ elim (size_add_overflow value_offset value_size) [
    | none ↦ none
    | some payload_size ↦ size_add_overflow sizeof_hash_entry payload_size
  ]
]

module _ {K V : Type 0} where
  -- the value of an entry, or NULL
  abbrev pub value_of : Option (Entry K V) → Option V
  value_of none = none
  value_of (some entry) = some (entry.value)

module _ {W K V : Type 0} where
  -- the map with one chain replaced
  abbrev pub with_chain : HashMap W K V → ℕ → List (Entry K V) → HashMap W K V
  with_chain map bucket chain = record map {
    buckets = record map.buckets { chains = set map.buckets.chains bucket chain };
  }

  -- the stores at the end of `k4c_hashmap_reserve`, which an error leaves out
  abbrev pub rehashed :
      HashMap W K V → ℕ → Status × Option (Buckets (Entry K V)) → Status × HashMap W K V
  rehashed map new_capacity (st, none) = (st, map)
  rehashed map new_capacity (st, some new_buckets) =
      (ok, record map { buckets = new_buckets; capacity = new_capacity })

  -- the stores at the end of `k4c_hashmap_put`, into an entry at `address`
  abbrev pub store_entry : HashMap W K V → ℕ → ℕ → K → V → HashMap W K V
  store_entry map hash address key value = record map {
    buckets = record map.buckets {
      chains =
          bucket_pushfront map.buckets.chains (hash % map.capacity)
            (record { address = address; hash = hash; key = key; value = value });
    };
    size = add_size map.size 1;
  }

  -- `k4c_hashmap_put` after its allocation: no entry stands beside an error
  abbrev pub link_entry : HashMap W K V → ℕ → K → V → Status × Ptr → Status × HashMap W K V
  link_entry map hash key value (st, none) = (st, map)
  link_entry map hash key value (st, some address) = (ok, store_entry map hash address key value)

  module _ (bytes : K → List ℕ) where
    -- the search of `k4c_hashmap_entry_get`, `k4c_hashmap_put` and `k4c_hash_common_bucket_find`
    unfoldable pub entry_find : HashMap W K V → K → Option (Entry K V)
    entry_find map key =
        let hash = fnv1a_hash (bytes key) map.key_size in
        bucket_find bytes Entry.key Entry.hash (chain_at map.buckets.chains (hash % map.capacity))
          key map.key_size hash map.key_eq

    -- `k4c_hashmap_entry_get`, with the assertion of the search
    unfoldable pub entry_get : HashMap W K V → K → Run (Option (Entry K V))
    unfolding entry_find
    entry_get map key = if map.key_size == 0 then panic else done (entry_find map key)

    -- the value found
    unfoldable pub value_at : HashMap W K V → K → Option V
    unfolding entry_find
    value_at map key = value_of (entry_find map key)

    -- `k4c_hashmap_get`
    unfoldable pub get : HashMap W K V → K → Run (Option V)
    unfolding entry_get
    get map key = and_then (entry_get map key) (λ entry. done (value_of entry))

    -- the write of `k4c_hashmap_put` to the entry found
    abbrev pub overwrite : HashMap W K V → K → V → HashMap W K V
    overwrite map key value =
        let hash = fnv1a_hash (bytes key) map.key_size in
        let bucket = hash % map.capacity in
        with_chain map bucket (
          change_first (matches bytes Entry.key Entry.hash map.key_size map.key_eq key hash)
            (λ (entry : Entry K V). record entry { value = value })
            (chain_at map.buckets.chains bucket))

module _ {W K V : Type 0} (libc : Libc W) (bytes : K → List ℕ) where
  -- `k4c_hashmap_reserve`
  unfoldable pub reserve : HashMap W K V → ℕ → Prog W (Status × HashMap W K V)
  reserve map size = do
    (st, new_capacity) ← lift (capacity_for_size size)
    elim (is_ok st) [
      | false ↦ pure (st, map)
      | true ↦ if leb new_capacity map.capacity then pure (ok, map) else (do
        r ←
            buckets_rehash libc map.buckets map.capacity new_capacity (some map.allocator)
              Entry.hash
        pure (rehashed map new_capacity r))
    ]

  -- the growth in `k4c_hashmap_put`
  unfoldable pub make_room : HashMap W K V → Prog W (Status × HashMap W K V)
  unfolding reserve
  make_room map =
      if should_grow map.size map.capacity
      then elim (size_add_overflow map.size 1) [
        | none ↦ pure (overflow, map)
        | some reserve_size ↦ reserve map reserve_size
      ]
      else pure (ok, map)

  -- `k4c_hashmap_put` after the growth
  unfoldable pub insert : HashMap W K V → K → V → Prog W (Status × HashMap W K V)
  insert map key value = elim (entry_alloc_size map.key_size map.value_size) [
    | none ↦ pure (overflow, map)
    | some alloc_size ↦ do
      r ← alloc libc (some map.allocator) alloc_size
      pure (link_entry map (fnv1a_hash (bytes key) map.key_size) key value r)
  ]

  -- the growth and what follows it, which an error of the growth leaves out
  unfoldable pub put_new : HashMap W K V → K → V → Prog W (Status × HashMap W K V)
  unfolding make_room insert
  put_new map key value = do
    (st, roomy) ← make_room map
    elim (is_ok st) [ false ↦ pure (st, roomy) | true ↦ insert roomy key value ]

  -- `k4c_hashmap_put`
  unfoldable pub put : HashMap W K V → K → V → Prog W (Status × HashMap W K V)
  unfolding entry_find put_new
  put map key value = if map.key_size == 0 then abort else elim (entry_find bytes map key) [
    | some entry ↦ pure (ok, overwrite bytes map key value)
    | none ↦ put_new map key value
  ]

  -- `k4c_hashmap_remove` after the search
  abbrev pub release_entry :
      HashMap W K V → ℕ → Option (Entry K V) × List (Entry K V) → Prog W (HashMap W K V)
  release_entry map bucket (none, rest) = pure map
  release_entry map bucket (some entry, rest) = do
    dealloc libc (some map.allocator) (some entry.address)
    pure (record (with_chain map bucket rest) { size = sub_size map.size 1 })

  -- `k4c_hashmap_remove`
  unfoldable pub remove : HashMap W K V → K → Prog W (HashMap W K V)
  remove map key =
      let hash = fnv1a_hash (bytes key) map.key_size in
      let bucket = hash % map.capacity in
      if map.key_size == 0
      then abort
      else release_entry map bucket (
          bucket_remove bytes Entry.key Entry.hash (chain_at map.buckets.chains bucket) key
            map.key_size hash map.key_eq)

  -- the stores at the end of `k4c_hashmap_create`
  abbrev pub fresh :
      ℕ → ℕ → Option (K → K → Bool) → Allocator W → Ptr → Buckets (Entry K V) → HashMap W K V
  fresh key_size value_size key_eq owner address buckets = record {
    address = address;
    size = 0;
    key_size = key_size;
    value_size = value_size;
    capacity = default_capacity;
    buckets = buckets;
    key_eq = key_eq;
    allocator = owner;
  }

  -- the second half of `k4c_hashmap_create`, once the struct is at `address`; no array stands
  -- beside an error
  unfoldable pub create_buckets :
      ℕ → ℕ → Option (K → K → Bool) → Allocator W → Ptr → Prog W (Status × Option (HashMap W K V))
  create_buckets key_size value_size key_eq owner address = do
    (st, created) ← buckets_create libc default_capacity (some owner)
    elim created [
      | none ↦ do dealloc libc (some owner) address; pure (st, none)
      | some buckets ↦ pure (ok, some (fresh key_size value_size key_eq owner address buckets))
    ]

  -- `k4c_hashmap_create`
  unfoldable pub create :
      ℕ
      → ℕ
      → Option (K → K → Bool)
      → Option (Allocator W)
      → Prog W (Status × Option (HashMap W K V))
  unfolding create_buckets
  create key_size value_size key_eq allocator =
      if key_size == 0 || value_size == 0
      then abort
      else elim (entry_alloc_size key_size value_size) [
        | none ↦ pure (overflow, none)
        | some max_entry_size ↦ do
          (st, address) ← alloc libc allocator sizeof_hashmap
          elim (is_ok st) [
            | false ↦ pure (st, none)
            | true ↦ create_buckets key_size value_size key_eq (allocator_copy allocator) address
          ]
      ]

  -- `k4c_hashmap_entry_destroy`
  abbrev pub entry_destroy : Allocator W → Entry K V → Prog W (Unit {0})
  entry_destroy allocator entry = dealloc libc (some allocator) (some entry.address)

  -- `k4c_hashmap_destroy`
  unfoldable pub destroy : HashMap W K V → Prog W (Unit {0})
  destroy map = do
    buckets_destroy libc map.buckets map.capacity (some map.allocator) (entry_destroy map.allocator)
    dealloc libc (some map.allocator) map.address

-- `k4c_hashmap_iterator_type`
pub data IteratorType : Type 0 where
  iterator_entry : IteratorType
  iterator_key : IteratorType
  iterator_value : IteratorType

-- what the pointer points to that an iterator gives: a `k4c_hashmap_entry_view`, a key or a value
pub data Item (K V : Type 0) : Type 0 where
  entry_view : K → V → Item K V
  key_item : K → Item K V
  value_item : V → Item K V

module _ {K V : Type 0} where
  -- what the callback of an iterator shows of an entry
  abbrev pub item_of : IteratorType → Entry K V → Item K V
  item_of IteratorType.iterator_entry entry = entry_view entry.key entry.value
  item_of IteratorType.iterator_key entry = key_item (entry.key)
  item_of IteratorType.iterator_value entry = value_item (entry.value)

  -- `k4c_hashmap_iterator_next`, `k4c_hashmap_key_iterator_next`, `k4c_hashmap_value_iterator_next`
  abbrev pub hashmap_iterator_next :
      IteratorType → ChainsState (Entry K V) → Option (Item K V) × ChainsState (Entry K V)
  hashmap_iterator_next type s = viewed (item_of type) (next_entry s)

  -- `k4c_hashmap_get_iterator`
  unfoldable pub get_iterator :
      {W : Type 0} → HashMap W K V → IteratorType → Iterator (ChainsState (Entry K V)) (Item K V)
  get_iterator map type =
      iterator_set_size_hint
        (iterator_from_state (hashmap_iterator_next type)
          (record { chains = map.buckets.chains; capacity = map.capacity; bucket = 0; node = [] }))
        map.size
