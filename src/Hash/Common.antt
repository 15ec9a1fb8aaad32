-- ===== src/Hash/Common.antt =====
-- lib/hash/common.h and common.c: the table of chained buckets under the map and the set. `N` is
-- what a node's owner holds, and a chain is the list of its nodes, the head first.
pub mod Chain
pub mod Table
pub mod Update
pub mod Rehash
pub mod Order
pub mod Entries
pub mod Destroy
pub mod Visit
use k4c.Base.{
  ℕ, zero, suc, ◌+◌, ◌-◌, ◌*◌, ◌%◌, ltb, leb, ◌==◌, ◌&&◌, if◌then◌else◌, Bool, true, false, Option,
  none, some, List, [], ◌∷◌, ◌++◌, get_or, set, take, replicate, Run, done, out_of_fuel, Prog, pure,
  abort, ◌>>=◌, ◌>>◌,
}
use k4c.Base.Bytes.{same_bytes}
use k4c.Size.{size_add_overflow, size_mul_overflow}
use k4c.Platform.{sizeof_bucket}
use k4c.Status.{Status, ok, overflow, is_ok}
use k4c.Allocator.{Ptr, Libc, Allocator, alloc, dealloc}

-- K4C_HASH_COMMON_DEFAULT_CAPACITY
abbrev pub default_capacity : ℕ
default_capacity = 16

-- K4C_HASH_COMMON_MAX_LOAD_NUMERATOR
abbrev pub max_load_numerator : ℕ
max_load_numerator = 3

-- K4C_HASH_COMMON_MAX_LOAD_DENOMINATOR
abbrev pub max_load_denominator : ℕ
max_load_denominator = 4

-- `k4c_hash_common_should_grow`
unfoldable pub should_grow : ℕ → ℕ → Bool
should_grow size capacity = elim (size_add_overflow size 1) [
  | none ↦ true
  | some next_size ↦ elim (size_mul_overflow next_size max_load_denominator) [
    | none ↦ true
    | some scaled_size ↦ elim (size_mul_overflow capacity max_load_numerator) [
      | none ↦ false
      | some scaled_capacity ↦ ltb scaled_capacity scaled_size
    ]
  ]
]

-- the loop of `k4c_hash_common_capacity_for_size`
unfoldable pub capacity_loop : ℕ → ℕ → ℕ → Run (Status × ℕ)
capacity_loop zero capacity scaled_size = out_of_fuel
capacity_loop (suc fuel) capacity scaled_size =
    elim (size_mul_overflow capacity max_load_numerator) [
      | none ↦ done (overflow, 0)
      | some scaled_capacity ↦ elim (leb scaled_size scaled_capacity) [
        | true ↦ done (ok, capacity)
        | false ↦ elim (size_mul_overflow capacity 2) [
          | none ↦ done (overflow, 0)
          | some doubled ↦ capacity_loop fuel doubled scaled_size
        ]
      ]
    ]

-- `k4c_hash_common_capacity_for_size`; the capacity doubles at most 64 times
unfoldable pub capacity_for_size : ℕ → Run (Status × ℕ)
unfolding capacity_loop
capacity_for_size size = elim (size_mul_overflow size max_load_denominator) [
  | none ↦ done (overflow, 0)
  | some scaled_size ↦ capacity_loop 65 default_capacity scaled_size
]

-- `k4c_hash_common_value_eq`; `bytes` reads what stands at a pointer to a value
unfoldable pub value_eq : {K : Type 0} → (K → List ℕ) → K → K → ℕ → Option (K → K → Bool) → Bool
value_eq bytes lhs rhs size none = same_bytes size (bytes lhs) (bytes rhs)
value_eq bytes lhs rhs size (some eq) = eq lhs rhs

-- the array of buckets: its address, and the chain of each
pub record Buckets (N : Type 0) : Type 0 where
  pub address : Ptr
  pub chains : List (List N)

-- the chain of a bucket
abbrev pub chain_at : {N : Type 0} → List (List N) → ℕ → List N
chain_at chains i = get_or chains i []

-- `k4c_hash_common_bucket_pushfront`
abbrev pub bucket_pushfront : {N : Type 0} → List (List N) → ℕ → N → List (List N)
bucket_pushfront chains i node = set chains i (node ∷ chain_at chains i)

-- the loop of `k4c_hash_common_bucket_find`, with the test on a node
unfoldable pub first : {N : Type 0} → (N → Bool) → List N → Option N
first test [] = none
first test (node ∷ rest) = let further = first test rest in if test node then some node else further

-- a write to the node that `k4c_hash_common_bucket_find` returned
abbrev pub change_first : {N : Type 0} → (N → Bool) → (N → N) → List N → List N
change_first test change [] = []
change_first test change (node ∷ rest) =
    let further = change_first test change rest in
    if test node then change node ∷ rest else node ∷ further

-- a removed node, with the chain that is left
abbrev pub behind_node : {N : Type 0} → N → Option N × List N → Option N × List N
behind_node node (removed, rest) = (removed, node ∷ rest)

-- the loop of `k4c_hash_common_bucket_remove`, with the test on a node
unfoldable pub remove_first : {N : Type 0} → (N → Bool) → List N → Option N × List N
remove_first test [] = (none, [])
remove_first test (node ∷ rest) =
    let further = remove_first test rest in
    if test node then (some node, rest) else behind_node node further

-- the loop of `k4c_hash_common_buckets_rehash` over one chain
abbrev pub move_chain : {N : Type 0} → (N → ℕ) → ℕ → List N → List (List N) → List (List N)
move_chain entry_hash new_capacity [] chains = chains
move_chain entry_hash new_capacity (node ∷ rest) chains =
    move_chain entry_hash new_capacity rest
      (bucket_pushfront chains (entry_hash node % new_capacity) node)

-- the loop of `k4c_hash_common_buckets_rehash` over the buckets
abbrev pub move_chains : {N : Type 0} → (N → ℕ) → ℕ → List (List N) → List (List N) → List (List N)
move_chains entry_hash new_capacity [] chains = chains
move_chains entry_hash new_capacity (chain ∷ rest) chains =
    move_chains entry_hash new_capacity rest (move_chain entry_hash new_capacity chain chains)

module _ {K N : Type 0} (bytes : K → List ℕ) (entry_value : N → K) (entry_hash : N → ℕ) where
  -- the test of both loops on a node
  abbrev pub matches : ℕ → Option (K → K → Bool) → K → ℕ → N → Bool
  matches value_size eq value hash node =
      entry_hash node == hash && value_eq bytes (entry_value node) value value_size eq

  -- `k4c_hash_common_bucket_find`
  abbrev pub bucket_find : List N → K → ℕ → ℕ → Option (K → K → Bool) → Option N
  bucket_find chain value value_size hash eq = first (matches value_size eq value hash) chain

  -- `k4c_hash_common_bucket_remove`
  abbrev pub bucket_remove : List N → K → ℕ → ℕ → Option (K → K → Bool) → Option N × List N
  bucket_remove chain value value_size hash eq =
      remove_first (matches value_size eq value hash) chain

module _ {W N : Type 0} (libc : Libc W) where
  -- `k4c_hash_common_buckets_create`
  unfoldable pub buckets_create : ℕ → Option (Allocator W) → Prog W (Status × Option (Buckets N))
  buckets_create capacity a =
      if capacity == 0 then abort else elim (size_mul_overflow sizeof_bucket capacity) [
        | none ↦ pure (overflow, none)
        | some alloc_size ↦ do
          (st, buckets) ← alloc libc a alloc_size
          elim (is_ok st) [
            | false ↦ pure (st, none)
            | true ↦ pure (ok, some (record { address = buckets; chains = replicate capacity [] }))
          ]
      ]

  -- the rest of `k4c_hash_common_buckets_rehash`, with what `k4c_hash_common_buckets_create` gave:
  -- no array stands beside an error
  abbrev pub move_into :
      Buckets N
      → ℕ
      → ℕ
      → Option (Allocator W)
      → (N → ℕ)
      → Status × Option (Buckets N)
      → Prog W (Status × Option (Buckets N))
  move_into buckets capacity new_capacity a entry_hash (st, none) = pure (st, none)
  move_into buckets capacity new_capacity a entry_hash (st, some fresh) =
      let moved = move_chains entry_hash new_capacity (take capacity buckets.chains) fresh.chains in
      (do dealloc libc a buckets.address; pure (ok, some (record fresh { chains = moved })))

  -- `k4c_hash_common_buckets_rehash`
  unfoldable pub buckets_rehash :
      Buckets N → ℕ → ℕ → Option (Allocator W) → (N → ℕ) → Prog W (Status × Option (Buckets N))
  unfolding buckets_create
  buckets_rehash buckets capacity new_capacity a entry_hash = if capacity == 0 then abort else (do
    created ← buckets_create new_capacity a
    move_into buckets capacity new_capacity a entry_hash created)

  -- the loop of `k4c_hash_common_buckets_destroy` over one chain; `entry_destroy` frees an entry
  unfoldable pub destroy_chain : (N → Prog W (Unit {0})) → List N → Prog W (Unit {0})
  destroy_chain entry_destroy [] = pure tt
  destroy_chain entry_destroy (node ∷ rest) = do
    entry_destroy node
    destroy_chain entry_destroy rest

  -- the loop of `k4c_hash_common_buckets_destroy` over the buckets
  unfoldable pub destroy_chains : (N → Prog W (Unit {0})) → List (List N) → Prog W (Unit {0})
  unfolding destroy_chain
  destroy_chains entry_destroy [] = pure tt
  destroy_chains entry_destroy (chain ∷ rest) = do
    destroy_chain entry_destroy chain
    destroy_chains entry_destroy rest

  -- `k4c_hash_common_buckets_destroy`
  unfoldable pub buckets_destroy :
      Buckets N → ℕ → Option (Allocator W) → (N → Prog W (Unit {0})) → Prog W (Unit {0})
  unfolding destroy_chains
  buckets_destroy buckets capacity a entry_destroy = do
    destroy_chains entry_destroy (take capacity buckets.chains)
    dealloc libc a buckets.address

-- the common part of `k4c_hashmap_iterator_state` and `k4c_hashset_iterator_state`: the chains and
-- the capacity of the table, and the nodes from `node` on
pub record ChainsState (N : Type 0) : Type 0 where
  pub chains : List (List N)
  pub capacity : ℕ
  pub bucket : ℕ
  pub node : List N

module _ {N : Type 0} where
  -- the loop over empty buckets in both iterators, which ends when no bucket is left
  unfoldable pub skip_empty : ℕ → ChainsState N → ChainsState N
  skip_empty zero s = s
  skip_empty (suc buckets_left) s = elim s.node [
    | [] ↦
        skip_empty buckets_left
          (record s { node = chain_at s.chains s.bucket; bucket = s.bucket + 1 })
    | node ∷ rest ↦ s
  ]

  -- the node that the iterator stands at, if any, and the iterator behind it
  abbrev pub step_over : ChainsState N → List N → Option N × ChainsState N
  step_over s [] = (none, s)
  step_over s (node ∷ rest) = (some node, record s { node = rest })

  -- `k4c_hashmap_iterator_next_entry`, and the same code in `k4c_hashset_iterator_next`
  unfoldable pub next_entry : ChainsState N → Option N × ChainsState N
  unfolding skip_empty
  next_entry s = let s' = skip_empty (s.capacity - s.bucket) s in step_over s' s'.node

  -- an iterator's answer: what it shows of the entry, if there is one
  abbrev pub viewed : {E : Type 0} → (N → E) → Option N × ChainsState N → Option E × ChainsState N
  viewed view (none, s) = (none, s)
  viewed view (some entry, s) = (some (view entry), s)
