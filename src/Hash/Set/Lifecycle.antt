-- ===== src/Hash/Set/Lifecycle.antt =====
-- `create` and `destroy` of a set: what a new set is, and that no block leaks.
use k4c.Base.{
  Prog, pure, ◌>>◌, ℕ, ◌+◌, ◌-◌, ◌<◌, ◌≡◌, ◌≢◌, refl, sym, ap, ◌∙◌, inl, inr, arith, Bool, false,
  Option, none, some, List, [], ◌==◌, replicate, Returns, and_then-Returns, Option-cases,
}
use k4c.Platform.{sizeof_hashset, sizeof_hash_entry}
use k4c.Size.{size_add_overflow}
use k4c.Status.{Status, ok, is_ok}
use k4c.Allocator.{Ptr, Libc, Allocator, allocator_copy, dealloc}
use k4c.Allocator.Lawful.{Lawful, Obtains-cases, copy_Lawful}
use k4c.Hash.Keys.{KeyLaws, hash_of, matches_key}
use k4c.Hash.Common.{Buckets}
use k4c.Hash.Common.Rehash.{total-empty}
use k4c.Hash.Common.Order.{Fresh, buckets_create-Fresh, empty-Holds, lookup-empty}
use k4c.Hash.Common.Destroy.{buckets_destroy-releases}
use k4c.Hash.Set.{
  Entry, HashSet, elem_at, elem_of, fresh, create_buckets, create, destroy, entry_destroy,
}
use k4c.Hash.Set.Valid.{IsValid, elem_at-entry_in, entry_in}

module _ {W E : Type 0} (libc : Libc W) (bytes : E → List ℕ) (live : W → ℕ) (limit : ℕ) where
  -- A creation yields a valid set without keys in two new blocks, or an error and no new block.
  abbrev pub CreatesSet :
      ℕ
      → Option (E → E → Bool)
      → Option (Allocator W)
      → ℕ
      → ℕ
      → Status × Option (HashSet W E)
      → Type 0
  CreatesSet elem_size elem_eq a before after (st, some hs) =
      (st ≡ ok)
      × IsValid bytes hs
      × ((k : E) → elem_at bytes hs k ≡ none)
      × (hs.size ≡ 0)
      × (hs.elem_size ≡ elem_size)
      × (hs.elem_eq ≡ elem_eq)
      × (hs.allocator ≡ allocator_copy a)
      × (after ≡ before + 2)
  CreatesSet elem_size elem_eq a before after (st, none) = (is_ok st ≡ false) × (after ≡ before)

  pub fresh_lem :
      (ks : ℕ) (eq : Option (E → E → Bool)) (owner : Allocator W) (p : Ptr) (b : Buckets (Entry E))
      → KeyLaws bytes ks eq
      → 0 < ks
      → p ≢ none
      → b.address ≢ none
      → b.chains ≡ replicate 16 []
      → IsValid bytes (fresh libc bytes ks eq owner p b)
        × ((k : E) → elem_at bytes (fresh libc bytes ks eq owner p b) k ≡ none)
  fresh_lem ks eq owner p b laws positive hp hb empty =
      let hs = fresh libc bytes ks eq owner p b in
      let hash = hash_of bytes ks eq in
      let matches = matches_key bytes ks eq (Entry.elem {E = E}) Entry.hash in
      (
        record {
          laws = laws;
          sized = positive;
          order = record {
            holds = rw empty (empty-Holds hash matches 16 (omega arith));
            counted = rw empty (sym (total-empty (Entry E) 16));
            load = omega arith;
            small = omega arith;
            address = hb;
          };
          address = hp;
        },
        λ k.
            let absent : entry_in bytes hs k ≡ none = rw empty (lookup-empty hash matches 16 k) in
            elem_at-entry_in bytes hs k ∙ ap elem_of absent,
      )

  created-CreatesSet :
      (ks : ℕ) (eq : Option (E → E → Bool)) (a : Option (Allocator W)) (p : Ptr) (before now : ℕ)
      (w : W) (created : Status × Option (Buckets (Entry E)))
      → Lawful libc (some (allocator_copy a)) live limit
      → KeyLaws bytes ks eq
      → 0 < ks
      → p ≢ none
      → now ≡ before + 1
      → Fresh
          (hash_of bytes ks eq)
          (matches_key bytes ks eq (Entry.elem {E = E}) Entry.hash)
          libc
          live
          limit
          16
          now
          (live w)
          created
      → Returns
          (elim created.1 as (λ _. Prog W (Status × Option (HashSet W E))) [
            | none ↦ do dealloc libc (some (allocator_copy a)) p; pure (created.0, none)
            | some buckets ↦ pure (ok, some (fresh libc bytes ks eq (allocator_copy a) p buckets))
          ]
            w)
          (λ r. CreatesSet ks eq a before (live r.1) r.0)
  created-CreatesSet ks eq a p before now w (st, none) owner laws positive hp one (e, c) =
      and_then-Returns (owner.dealloc_law p w hp) λ r d. (_, refl, (e, omega arith))
  created-CreatesSet ks eq a p before now w (st, some b) owner laws positive hp one
        (e, empty, hb, c) =
      let (valid, gets) = fresh_lem ks eq (allocator_copy a) p b laws positive hp hb empty in
      (_, refl, (refl, valid, gets, refl, refl, refl, refl, omega arith))

  create_buckets-CreatesSet :
      (ks : ℕ) (eq : Option (E → E → Bool)) (a : Option (Allocator W)) (p : Ptr) (before : ℕ)
      (w : W)
      → Lawful libc a live limit
      → KeyLaws bytes ks eq
      → 0 < ks
      → p ≢ none
      → live w ≡ before + 1
      → live w < limit
      → Returns
          (create_buckets libc bytes ks eq (allocator_copy a) p w)
          (λ r. CreatesSet ks eq a before (live r.1) r.0)
  unfolding create_buckets
  create_buckets-CreatesSet ks eq a p before w lawful laws positive hp one room =
      let owner = copy_Lawful libc lawful in
      and_then-Returns
        (buckets_create-Fresh (hash_of bytes ks eq)
          (matches_key bytes ks eq (Entry.elem {E = E}) Entry.hash) libc live limit 16
          (some (allocator_copy a)) w owner (omega arith) room)
        λ r f. created-CreatesSet ks eq a p before (live w) r.1 r.0 owner laws positive hp one f

  -- With positive sizes, keys that keep the laws and an allocator that keeps its contract, creation
  -- returns: either a valid set of these sizes and this equality in which no elem has a value, in
  -- two new blocks, or an error with every block given back.
  pub create-CreatesSet :
      (elem_size : ℕ) (elem_eq : Option (E → E → Bool)) (a : Option (Allocator W)) (w : W)
      → Lawful libc a live limit
      → KeyLaws bytes elem_size elem_eq
      → 0 < elem_size
      → live w + 1 < limit
      → Returns
          (create libc bytes elem_size elem_eq a w)
          (λ r. CreatesSet elem_size elem_eq a (live w) (live r.1) r.0)
  unfolding create
  create-CreatesSet ks eq a w lawful laws hk room =
      let e1 : (ks == 0) ≡ false = ground arith in
      elim (Option-cases (size_add_overflow sizeof_hash_entry ks)) [
        | inl e ↦ rw (e1, e, create) (_, refl, (refl, refl))
        | inr (n, e) ↦
            rw (e1, e, create)
              (and_then-Returns (lawful.alloc_law sizeof_hashset w (omega arith) (omega arith))
                λ r o. elim (Obtains-cases (live w) (live r.1) r.0 o) [
                  | inr (st, c) ↦ rw st (_, refl, (rw st refl, c))
                  | inl (st, (p, ptr), c) ↦ rw st (
                      create_buckets-CreatesSet ks eq a r.0.1 (live w) r.1 lawful laws hk (λ e. cc)
                        c (omega arith))
                ])
      ]

  -- On a valid set whose allocator keeps its contract, `destroy` returns and gives back the entries,
  -- the buckets and the struct: two blocks more than the size.
  pub destroy-dealloc_entries :
      (hs : HashSet W E) (w : W)
      → Lawful libc (some hs.allocator) live limit
      → IsValid bytes hs
      → Returns (destroy libc bytes hs w) (λ r. live r.1 ≡ live w - (hs.size + 2))
  unfolding destroy
  destroy-dealloc_entries hs w lawful v =
      and_then-Returns
        (buckets_destroy-releases libc live (entry_destroy libc bytes hs.allocator)
          (λ (e : Entry E) (u : W). lawful.dealloc_law (some (e.address)) u (λ f. cc)) hs.buckets
          hs.capacity (some hs.allocator) w lawful v.order.holds.filled v.order.address)
        λ r c.
          let (s, run, d) = lawful.dealloc_law hs.address r.1 v.address in
          (s, run, omega (arith, v.order.counted))
