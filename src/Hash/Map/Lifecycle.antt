-- ===== src/Hash/Map/Lifecycle.antt =====
-- `create` and `destroy` of a map: what a new map is, and which blocks go back.
use k4c.Base.{
  Prog, pure, ◌>>◌, ℕ, ◌+◌, ◌<◌, ◌≡◌, ◌≢◌, refl, sym, ap, ◌∙◌, inl, inr, arith, Bool, false, Option,
  none, some, List, [], ◌==◌, ◌∷◌, ◌++◌, length, length-append, length-map, append_assoc, replicate,
  Returns, and_then-Returns, Option-cases,
}
use mathlib.Core.List.{map}
use k4c.Platform.{sizeof_hashmap}
use k4c.Status.{Status, ok, is_ok}
use k4c.Allocator.{Ptr, Libc, Allocator, allocator_copy, dealloc}
use k4c.Allocator.Lawful.{Lawful, Obtains-cases, copy_Lawful}
use k4c.Hash.Keys.{KeyLaws, hash_of, matches_key}
use k4c.Hash.Common.{Buckets}
use k4c.Hash.Common.Rehash.{total-empty, nodes, length-nodes}
use k4c.Hash.Common.Order.{Fresh, buckets_create-Fresh, empty-Holds, lookup-empty}
use k4c.Hash.Common.Destroy.{buckets_destroy-Frees, frees_next}
use k4c.Hash.Map.{
  Entry, HashMap, entry_alloc_size, value_at, value_of, fresh, create_buckets, create, destroy,
  entry_destroy,
}
use k4c.Hash.Map.Valid.{IsValid, value_at-entry_in, entry_in}

module _ {W K V : Type 0} (libc : Libc W) (bytes : K → List ℕ) (live : W → ℕ) (limit : ℕ) where
  -- A creation yields a valid map without keys in two new blocks, or an error and no new block.
  abbrev pub CreatesMap :
      ℕ
      → ℕ
      → Option (K → K → Bool)
      → Option (Allocator W)
      → ℕ
      → ℕ
      → Status × Option (HashMap W K V)
      → Type 0
  CreatesMap key_size value_size key_eq a before after (st, some map) =
      (st ≡ ok)
      × IsValid bytes map
      × ((k : K) → value_at bytes map k ≡ none)
      × (map.size ≡ 0)
      × (map.key_size ≡ key_size)
      × (map.value_size ≡ value_size)
      × (map.key_eq ≡ key_eq)
      × (map.allocator ≡ allocator_copy a)
      × (after ≡ before + 2)
  CreatesMap key_size value_size key_eq a before after (st, none) =
      (is_ok st ≡ false) × (after ≡ before)

  pub fresh_lem :
      (ks vs : ℕ) (eq : Option (K → K → Bool)) (owner : Allocator W) (p : Ptr)
      (b : Buckets (Entry K V))
      → KeyLaws bytes ks eq
      → 0 < ks
      → p ≢ none
      → b.address ≢ none
      → b.chains ≡ replicate 16 []
      → IsValid bytes (fresh libc bytes ks vs eq owner p b)
        × ((k : K) → value_at bytes (fresh libc bytes ks vs eq owner p b) k ≡ none)
  fresh_lem ks vs eq owner p b laws positive hp hb empty =
      let map = fresh libc bytes ks vs eq owner p b in
      let hash = hash_of bytes ks eq in
      let matches = matches_key bytes ks eq (Entry.key {V = V}) Entry.hash in
      (
        record {
          laws = laws;
          sized = positive;
          order = record {
            holds = rw empty (empty-Holds hash matches 16 (omega arith));
            counted = rw empty (sym (total-empty (Entry K V) 16));
            load = omega arith;
            small = omega arith;
            address = hb;
          };
          address = hp;
        },
        λ k.
            let absent : entry_in bytes map k ≡ none = rw empty (lookup-empty hash matches 16 k) in
            value_at-entry_in bytes map k ∙ ap value_of absent,
      )

  created-CreatesMap :
      (ks vs : ℕ) (eq : Option (K → K → Bool)) (a : Option (Allocator W)) (p : Ptr) (before now : ℕ)
      (w : W) (created : Status × Option (Buckets (Entry K V)))
      → Lawful libc (some (allocator_copy a)) live limit
      → KeyLaws bytes ks eq
      → 0 < ks
      → p ≢ none
      → now ≡ before + 1
      → Fresh
          (hash_of bytes ks eq)
          (matches_key bytes ks eq (Entry.key {V = V}) Entry.hash)
          libc
          live
          limit
          16
          now
          (live w)
          created
      → Returns
          (elim created.1 as (λ _. Prog W (Status × Option (HashMap W K V))) [
            | none ↦ do dealloc libc (some (allocator_copy a)) p; pure (created.0, none)
            | some buckets ↦
                pure (ok, some (fresh libc bytes ks vs eq (allocator_copy a) p buckets))
          ]
            w)
          (λ r. CreatesMap ks vs eq a before (live r.1) r.0)
  created-CreatesMap ks vs eq a p before now w (st, none) owner laws positive hp one (e, c) =
      and_then-Returns (owner.dealloc_law p w hp) λ r d. (_, refl, (e, omega arith))
  created-CreatesMap ks vs eq a p before now w (st, some b) owner laws positive hp one
        (e, empty, hb, c) =
      let (valid, gets) = fresh_lem ks vs eq (allocator_copy a) p b laws positive hp hb empty in
      (_, refl, (refl, valid, gets, refl, refl, refl, refl, refl, omega arith))

  create_buckets-CreatesMap :
      (ks vs : ℕ) (eq : Option (K → K → Bool)) (a : Option (Allocator W)) (p : Ptr) (before : ℕ)
      (w : W)
      → Lawful libc a live limit
      → KeyLaws bytes ks eq
      → 0 < ks
      → p ≢ none
      → live w ≡ before + 1
      → live w < limit
      → Returns
          (create_buckets libc bytes ks vs eq (allocator_copy a) p w)
          (λ r. CreatesMap ks vs eq a before (live r.1) r.0)
  unfolding create_buckets
  create_buckets-CreatesMap ks vs eq a p before w lawful laws positive hp one room =
      let owner = copy_Lawful libc lawful in
      and_then-Returns
        (buckets_create-Fresh (hash_of bytes ks eq)
          (matches_key bytes ks eq (Entry.key {V = V}) Entry.hash) libc live limit 16
          (some (allocator_copy a)) w owner (omega arith) room)
        λ r f. created-CreatesMap ks vs eq a p before (live w) r.1 r.0 owner laws positive hp one f

  -- With positive sizes, keys that keep the laws and an allocator that keeps its contract, creation
  -- returns: either a valid map of these sizes and this equality in which no key has a value, in
  -- two new blocks, or an error with every block given back.
  pub create-CreatesMap :
      (key_size value_size : ℕ) (key_eq : Option (K → K → Bool)) (a : Option (Allocator W)) (w : W)
      → Lawful libc a live limit
      → KeyLaws bytes key_size key_eq
      → 0 < key_size
      → 0 < value_size
      → live w + 1 < limit
      → Returns
          (create libc bytes key_size value_size key_eq a w)
          (λ r. CreatesMap key_size value_size key_eq a (live w) (live r.1) r.0)
  unfolding create
  create-CreatesMap ks vs eq a w lawful laws hk hv room =
      let e1 : (ks == 0) ≡ false = ground arith in
      let e2 : (vs == 0) ≡ false = ground arith in
      elim (Option-cases (entry_alloc_size ks vs)) [
        | inl e ↦ rw (e1, e2, e, create) (_, refl, (refl, refl))
        | inr (n, e) ↦
            rw (e1, e2, e, create)
              (and_then-Returns (lawful.alloc_law sizeof_hashmap w (omega arith) (omega arith))
                λ r o. elim (Obtains-cases (live w) (live r.1) r.0 o) [
                  | inr (st, c) ↦ rw st (_, refl, (rw st refl, c))
                  | inl (st, (p, ptr), c) ↦ rw st (
                      create_buckets-CreatesMap ks vs eq a r.0.1 (live w) r.1 lawful laws hk
                        (λ e. cc) c (omega arith))
                ])
      ]

-- the blocks of a map: those of its entries in the order of the chains, its buckets and its struct
abbrev pub blocks_of : {W K V : Type 0} → HashMap W K V → List Ptr
blocks_of m =
    map (λ e. some (e.address)) (nodes m.buckets.chains) ++ m.buckets.address ∷ m.address ∷ []

-- `freed` lists the blocks given back to the allocator so far, the last one at the end.
module _ {W K V : Type 0} (libc : Libc W) (bytes : K → List ℕ) (freed : W → List Ptr) where
  -- On a valid map, with an allocator whose release of a block returns and adds that block to the
  -- list of freed ones: `destroy` returns, and what it adds to the list is the blocks of the
  -- entries, in the order of the chains, then the buckets and then the struct, two blocks more than
  -- the size.
  pub destroy-freed :
      (m : HashMap W K V) (w : W)
      → ((block : Ptr) (v : W)
          → block ≢ none
          → Returns
              (dealloc libc (some m.allocator) block v)
              (λ r. freed r.1 ≡ freed v ++ block ∷ []))
      → IsValid bytes m
      → Returns (destroy libc bytes m w) (λ r. freed r.1 ≡ freed w ++ blocks_of m)
        × (length (blocks_of m) ≡ m.size + 2)
  unfolding destroy
  destroy-freed m w frees v =
      let address : Entry K V → Ptr = λ e. some (e.address) in
      let entries = map address (nodes m.buckets.chains) in
      (
        and_then-Returns
            (buckets_destroy-Frees libc freed address (entry_destroy libc bytes m.allocator)
              (λ e u. frees (address e) u (λ f. cc)) m.buckets m.capacity (some m.allocator) w frees
              v.order.holds.filled v.order.address)
            λ r c.
              let (s, run, d) = frees m.address r.1 v.address in
              let all =
                frees_next freed w r.1 s.1 (entries ++ m.buckets.address ∷ []) (m.address ∷ []) c
                  d in
              (
                s,
                run,
                all
                    ∙ ap (λ t. freed w ++ t)
                        (append_assoc entries (m.buckets.address ∷ []) (m.address ∷ [])),
              ),
        rw
            (
              length-append entries (m.buckets.address ∷ m.address ∷ []),
              length-map address (nodes m.buckets.chains),
              length-nodes m.buckets.chains,
            )
            (omega (arith, v.order.counted)),
      )
