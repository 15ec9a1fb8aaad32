-- ===== src/Hash/Tests.antt =====
-- Maps and sets at work, over the test allocator; a key or an element is one byte.
use k4c.Base.{
  ℕ, ◌≤◌, ◌<◌, ◌≡◌, ◌≢◌, ◌++◌, refl, arith, false, ◌⊎◌, none, some, List, [], ◌∷◌, length,
  replicate, Returns, done, if◌then◌else◌,
}
use k4c.Size.{size_max, size_mul_overflow}
use k4c.Status.{ok, is_ok}
use k4c.Allocator.{Ptr, Libc, Allocator, dealloc}
use k4c.TestAllocator.{Machine, beside}
use k4c.TestAllocator.Fixture.{bump, owner, start, live, owner-Lawful}
use k4c.Hash.{fnv1a_hash}
use k4c.Hash.Keys.{KeyLaws, memcmp-KeyLaws}
use k4c.Hash.Set
use k4c.Hash.Set.Valid as ValidSet
use k4c.Hash.Set.Insert.{Inserts, insert-Inserts, link_entry-Inserts}
use k4c.Hash.Set.Remove.{Discards, remove-Discards}
use k4c.Hash.Set.Lifecycle as SetLifecycle
use k4c.Hash.Common.{Buckets, capacity_for_size, should_grow, first}
use k4c.Hash.Map
use k4c.Hash.Map.{Entry, HashMap}
use k4c.Hash.Map.Valid.{IsValid, same}
use k4c.Hash.Map.Insert.{Puts, link_entry-Puts}
use k4c.Hash.Map.Put.{put-Puts, get-put}
use k4c.Hash.Map.Remove.{Removes, remove-Removes}
use k4c.Hash.Map.Reserve.{reserve_lem}
use k4c.Hash.Map.Lifecycle.{CreatesMap, create-CreatesMap, blocks_of, destroy-freed, fresh_lem}

-- the one byte of a key
abbrev byte_of : ℕ → List ℕ
byte_of k = k ∷ []

byte_of-KeyLaws : KeyLaws byte_of 1 none
byte_of-KeyLaws = memcmp-KeyLaws byte_of 1 (λ k. refl)

-- the FNV-1a hash of the letter a, as published
fnv1a_hash-a : fnv1a_hash (97 ∷ []) 1 ≡ 12638187200555641996
unfolding fnv1a_hash
fnv1a_hash-a = refl

capacity_for_twelve : capacity_for_size 12 ≡ done (ok, 16)
unfolding capacity_for_size size_mul_overflow
capacity_for_twelve = refl

capacity_for_thirteen : capacity_for_size 13 ≡ done (ok, 32)
unfolding capacity_for_size size_mul_overflow
capacity_for_thirteen = refl

abbrev no_entries : Buckets (Entry ℕ ℕ)
no_entries = record { address = some 80; chains = replicate 16 [] }

abbrev empty_map : HashMap (Machine ℕ) ℕ ℕ
empty_map = Map.fresh (beside bump) byte_of 1 4 none owner (some 64) no_entries

empty_map-IsValid : IsValid byte_of empty_map
empty_map-IsValid =
    (fresh_lem (beside bump) byte_of live size_max 1 4 none owner (some 64) no_entries
      byte_of-KeyLaws (omega arith) (λ e. cc) (λ e. cc) refl).0

-- a map that has 42 at the key 7
abbrev one_entry : HashMap (Machine ℕ) ℕ ℕ
one_entry = Map.store_entry empty_map (fnv1a_hash (byte_of 7) 1) 200 7 42

one_entry-IsValid : IsValid byte_of one_entry
unfolding first fnv1a_hash
one_entry-IsValid =
    (link_entry-Puts (beside bump) byte_of live size_max 7 42 2 3 (ok, some 200) empty_map-IsValid
      refl (omega arith) (refl, refl)).valid

put-Puts_example :
    Returns
      (Map.put (beside bump) byte_of one_entry 9 5 start)
      (λ r. Puts byte_of one_entry 9 5 (live start) (live r.1) r.0)
put-Puts_example =
    put-Puts (beside bump) byte_of live size_max 9 5 start owner-Lawful (omega arith)
      one_entry-IsValid

get-put_example : Returns (Map.put (beside bump) byte_of one_entry 9 5 start) λ r.
    ((r.0.0 ≡ ok)
      × ((q : ℕ)
          → Map.get byte_of r.0.1 q
            ≡ (if same byte_of one_entry 9 q then done (some 5) else Map.get byte_of one_entry q)))
    ⊎ ((is_ok r.0.0 ≡ false) × ((q : ℕ) → Map.get byte_of r.0.1 q ≡ Map.get byte_of one_entry q))
get-put_example =
    get-put (beside bump) byte_of live size_max 9 5 start owner-Lawful (omega arith)
      one_entry-IsValid

remove-Removes_example :
    Returns
      (Map.remove (beside bump) byte_of one_entry 7 start)
      (λ r. Removes byte_of one_entry 7 (live start) (live r.1) r.0)
remove-Removes_example =
    remove-Removes (beside bump) byte_of live size_max 7 start owner-Lawful one_entry-IsValid

reserve_lem_example : Returns (Map.reserve (beside bump) byte_of one_entry 100 start) λ r.
    IsValid byte_of r.0.1
    × ((q : ℕ) → Map.value_at byte_of r.0.1 q ≡ Map.value_at byte_of one_entry q)
    × (r.0.1.size ≡ 1)
    × (live r.1 ≡ live start)
    × (16 ≤ r.0.1.capacity)
    × (((r.0.0 ≡ ok) × ((s : ℕ) → s < 100 → should_grow s r.0.1.capacity ≡ false))
        ⊎ ((is_ok r.0.0 ≡ false) × (r.0.1 ≡ one_entry)))
reserve_lem_example =
    reserve_lem (beside bump) byte_of live size_max owner-Lawful one_entry-IsValid 100 start
      (omega arith) (omega arith)

create-CreatesMap_example :
    Returns
      (Map.create {V = ℕ} (beside bump) byte_of 1 4 none (some owner) start)
      (λ r. CreatesMap (beside bump) byte_of live size_max 1 4 none (some owner) 2 (live r.1) r.0)
create-CreatesMap_example =
    create-CreatesMap (beside bump) byte_of live size_max 1 4 none (some owner) start owner-Lawful
      byte_of-KeyLaws (omega arith) (omega arith) (omega arith)

-- a libc that lists the blocks given back to it, and the same map on it
abbrev recorder : Libc (List Ptr)
recorder = record {
  malloc = λ n w. done (some 64, w);
  realloc = λ p n w. done (p, w);
  free = λ p w. done (tt, w ++ p ∷ []);
}

abbrev plain : Allocator (List Ptr)
plain = record { ctx = none; features = 0; vtable = none }

abbrev recorded_empty : HashMap (List Ptr) ℕ ℕ
recorded_empty = Map.fresh recorder byte_of 1 4 none plain (some 64) no_entries

abbrev recorded : HashMap (List Ptr) ℕ ℕ
recorded = Map.store_entry recorded_empty (fnv1a_hash (byte_of 7) 1) 200 7 42

recorded-IsValid : IsValid byte_of recorded
unfolding first fnv1a_hash
recorded-IsValid =
    let empty_IsValid : IsValid byte_of recorded_empty =
      (fresh_lem recorder byte_of length size_max 1 4 none plain (some 64) no_entries
        byte_of-KeyLaws (omega arith) (λ e. cc) (λ e. cc) refl).0 in
    (link_entry-Puts recorder byte_of length size_max 7 42 2 3 (ok, some 200) empty_IsValid refl
      (omega arith) (refl, refl)).valid

plain_frees :
    (block : Ptr) (w : List Ptr)
    → block ≢ none
    → Returns (dealloc recorder (some plain) block w) (λ r. r.1 ≡ w ++ block ∷ [])
unfolding dealloc
plain_frees block w h = (_, refl, refl)

destroy-freed_example :
    Returns
      (Map.destroy recorder byte_of recorded (some 48 ∷ []))
      (λ r. r.1 ≡ some 48 ∷ some 200 ∷ some 80 ∷ some 64 ∷ [])
    × (length (blocks_of recorded) ≡ 3)
unfolding fnv1a_hash
destroy-freed_example =
    destroy-freed recorder byte_of (λ w. w) recorded (some 48 ∷ []) plain_frees recorded-IsValid

abbrev no_elems : Buckets (Set.Entry ℕ)
no_elems = record { address = some 80; chains = replicate 16 [] }

abbrev empty_set : Set.HashSet (Machine ℕ) ℕ
empty_set = Set.fresh (beside bump) byte_of 1 none owner (some 64) no_elems

empty_set-IsValid : ValidSet.IsValid byte_of empty_set
empty_set-IsValid =
    (SetLifecycle.fresh_lem (beside bump) byte_of live size_max 1 none owner (some 64) no_elems
      byte_of-KeyLaws (omega arith) (λ e. cc) (λ e. cc) refl).0

-- a set that has 7
abbrev one_elem : Set.HashSet (Machine ℕ) ℕ
one_elem = Set.store_entry empty_set (fnv1a_hash (byte_of 7) 1) 200 7

one_elem-IsValid : ValidSet.IsValid byte_of one_elem
unfolding first fnv1a_hash
one_elem-IsValid =
    (link_entry-Inserts (beside bump) byte_of live size_max 7 2 3 (ok, some 200) empty_set-IsValid
      refl (omega arith) (refl, refl)).valid

insert-Inserts_example :
    Returns
      (Set.insert (beside bump) byte_of one_elem 9 start)
      (λ r. Inserts byte_of one_elem 9 (live start) (live r.1) r.0)
insert-Inserts_example =
    insert-Inserts (beside bump) byte_of live size_max 9 start owner-Lawful (omega arith)
      one_elem-IsValid

remove-Discards_example :
    Returns
      (Set.remove (beside bump) byte_of one_elem 7 start)
      (λ r. Discards byte_of one_elem 7 (live start) (live r.1) r.0)
remove-Discards_example =
    remove-Discards (beside bump) byte_of live size_max 7 start owner-Lawful one_elem-IsValid
