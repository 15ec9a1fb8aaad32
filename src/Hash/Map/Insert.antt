-- ===== src/Hash/Map/Insert.antt =====
-- The entry that `put` adds, and what it may have done to the map.
use k4c.Base.{
  ℕ, ◌+◌, ◌*◌, ◌≤◌, ◌<◌, ◌≡◌, refl, ap, ◌∙◌, ◌⊎◌, inl, inr, arith, Bool, true, false, Option, none,
  some, List, Returns, and_then-Returns, if◌then◌else◌, Option-cases,
}
use k4c.Size.{size_add_overflow, add_size, align_up_overflow}
use k4c.Size.Checked.{size_add_overflow-ge}
use k4c.Status.{Status, ok, is_ok}
use k4c.Allocator.{Libc, Ptr}
use k4c.Allocator.Lawful.{Lawful, Obtains}
use k4c.Hash.Keys.{matches_own}
use k4c.Hash.Common.Entries.{pushfront-Edits, change-Edits}
use k4c.Hash.Map.{
  Entry, HashMap, entry_alloc_size, value_at, value_of, overwrite, link_entry, store_entry, insert,
}
use k4c.Hash.Map.Valid.{IsValid, same, hash_in, matches_in, entry_in, value_at-entry_in, keyed_in}
use k4c.Hash.Map.Reserve.{rebuilt}

sum-pos :
    (payload : Option ℕ) {n : ℕ}
    → (elim payload [ none ↦ none | some payload_size ↦ size_add_overflow 48 payload_size ])
      ≡ some n
    → 0 < n
sum-pos none e = cc
sum-pos (some payload_size) {n} e =
    omega (arith, size_add_overflow-ge 48 payload_size (omega arith) e)

payload-pos :
    (offset : Option ℕ) (vs : ℕ) {n : ℕ}
    → (elim offset [
      | none ↦ none
      | some value_offset ↦ elim (size_add_overflow value_offset vs) [
        | none ↦ none
        | some payload_size ↦ size_add_overflow 48 payload_size
      ]
    ])
      ≡ some n
    → 0 < n
payload-pos none vs e = cc
payload-pos (some offset) vs e = sum-pos (size_add_overflow offset vs) e

-- an entry is never empty
entry_alloc_size-pos : (ks vs : ℕ) {n : ℕ} → entry_alloc_size ks vs ≡ some n → 0 < n
unfolding entry_alloc_size
entry_alloc_size-pos ks vs {n} e = payload-pos (align_up_overflow ks 16) vs e

value_of-if :
    {K V : Type 0} (b : Bool) (x y : Option (Entry K V))
    → value_of (if b then x else y) ≡ (if b then value_of x else value_of y)
value_of-if true x y = refl
value_of-if false x y = refl

-- how many entries a put adds, by what the key was mapped to
abbrev pub added : {V : Type 0} → Option V → ℕ
added none = 1
added (some value) = 0

module _ {W K V : Type 0} (bytes : K → List ℕ) where
  -- The key is mapped to the value, every other key as before; or an error, and all keys as before.
  pub record Puts (map : HashMap W K V) (key : K) (value : V) (before after : ℕ)
      (r : Status × HashMap W K V) : Type 0 where
    pub valid : IsValid bytes r.1
    pub outcome :
        ((r.0 ≡ ok)
          × ((q : K)
              → value_at bytes r.1 q
                ≡ (if same bytes map key q then some value else value_at bytes map q))
          × (r.1.size ≡ map.size + added (value_at bytes map key))
          × (after ≡ before + added (value_at bytes map key)))
        ⊎ ((is_ok r.0 ≡ false)
            × ((q : K) → value_at bytes r.1 q ≡ value_at bytes map q)
            × (r.1.size ≡ map.size)
            × (after ≡ before))

  -- what an edit of the table does to every `get`
  value_at-edited :
      (map after : HashMap W K V) (key : K) {value : V} (answer : Entry K V)
      → answer.value ≡ value
      → ((q : K)
          → entry_in bytes after q
            ≡ (if same bytes map key q then some answer else entry_in bytes map q))
      → (q : K)
      → value_at bytes after q ≡ (if same bytes map key q then some value else value_at bytes map q)
  value_at-edited map after key {value} answer e edits q =
      value_at-entry_in bytes after q
      ∙ ap value_of (edits q)
      ∙ value_of-if (same bytes map key q) (some answer) (entry_in bytes map q)
      ∙ rw (e, value_at-entry_in bytes map q) refl

  pub overwrite-Puts :
      {map : HashMap W K V} (key : K) (value : V) (live : ℕ) {entry : Entry K V}
      → IsValid bytes map
      → entry_in bytes map key ≡ some entry
      → Puts map key value live live (ok, overwrite bytes map key value)
  overwrite-Puts {map} key value live {entry} v found =
      let edits =
        change-Edits (hash_in bytes map) (matches_in bytes map) (keyed_in bytes v) v.order key
          (λ (e : Entry K V). record e { value = value }) {node = entry} found (λ q n. refl) in
      let had : value_at bytes map key ≡ some (entry.value) =
        value_at-entry_in bytes map key ∙ ap value_of found in
      record {
        valid = record { laws = v.laws; sized = v.sized; order = edits.order; address = v.address };
        outcome = inl (
          refl,
          value_at-edited map (overwrite bytes map key value) key _ refl edits.lookups,
          rw had (omega arith),
          rw had (omega arith),
        );
      }

  -- a put into the same map in other buckets
  pub rebuilt-Puts :
      {map : HashMap W K V} (n : ℕ) (b : _) (key : K) (value : V) {before after : ℕ}
      {r : Status × HashMap W K V}
      → ((q : K) → value_at bytes (rebuilt map n b) q ≡ value_at bytes map q)
      → Puts (rebuilt map n b) key value before after r
      → Puts map key value before after r
  rebuilt-Puts {map} n b key value same_gets p = record {
    valid = p.valid;
    outcome = elim (p.outcome) [
      | inl (e, gets, size, live) ↦ inl (
        e,
        λ q. gets q ∙ rw (same_gets q) refl,
        rw (← same_gets key) size,
        rw (← same_gets key) live,
      )
      | inr (e, gets, size, live) ↦ inr (e, λ q. gets q ∙ same_gets q, size, live)
    ];
  }

module _ {W K V : Type 0} (libc : Libc W) (bytes : K → List ℕ) (live : W → ℕ) (limit : ℕ) where
  pub link_entry-Puts :
      {map : HashMap W K V} (key : K) (value : V) (before after : ℕ) (r : Status × Ptr)
      → IsValid bytes map
      → entry_in bytes map key ≡ none
      → (map.size + 1) * 4 ≤ map.capacity * 3
      → Obtains before after r
      → Puts bytes map key value before after (link_entry map (hash_in bytes map key) key value r)
  link_entry-Puts key value before after (st, none) v absent enough (e, c) = record {
    valid = v;
    outcome = inr (rw e refl, λ q. refl, refl, c);
  }
  link_entry-Puts {map} key value before after (st, some address) v absent enough (e, c) =
      let node : Entry K V = record {
        address = address;
        hash = hash_in bytes map key;
        key = key;
        value = value;
      } in
      let own = λ (q : K).
        matches_own bytes map.key_size map.key_eq Entry.key Entry.hash v.laws key q node refl
          refl in
      let edits =
        pushfront-Edits (hash_in bytes map) (matches_in bytes map) (keyed_in bytes v) v.order key
          node absent own enough in
      let none_yet : value_at bytes map key ≡ none =
        value_at-entry_in bytes map key ∙ ap value_of absent in
      let after_map = store_entry map (hash_in bytes map key) address key value in
      let plain : add_size map.size 1 ≡ map.size + 1 = omega (arith, v.order.small) in
      record {
        valid = record { laws = v.laws; sized = v.sized; order = edits.order; address = v.address };
        outcome = inl (
          refl,
          value_at-edited bytes map after_map key node refl edits.lookups,
          rw none_yet plain,
          rw none_yet c,
        );
      }

  pub insert-Puts :
      {map : HashMap W K V} (key : K) (value : V) (w : W)
      → Lawful libc (some map.allocator) live limit
      → live w < limit
      → IsValid bytes map
      → entry_in bytes map key ≡ none
      → (map.size + 1) * 4 ≤ map.capacity * 3
      → Returns
          (insert libc bytes map key value w)
          (λ r. Puts bytes map key value (live w) (live r.1) r.0)
  unfolding insert
  insert-Puts {map} key value w lawful room v absent enough =
      elim (Option-cases (entry_alloc_size map.key_size map.value_size)) [
        | inl e ↦
            rw (e, insert)
              (_, refl, record { valid = v; outcome = inr (refl, λ q. refl, refl, refl) })
        | inr (n, e) ↦
            rw (e, insert)
              (and_then-Returns
                (lawful.alloc_law n w (entry_alloc_size-pos map.key_size map.value_size e) room)
                λ r o.
                  (_, refl, link_entry-Puts key value (live w) (live r.1) r.0 v absent enough o))
      ]
