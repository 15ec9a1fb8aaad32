-- ===== src/Hash/Map/Remove.antt =====
-- `remove`: the key is mapped to nothing, and its entry is given back.
use k4c.Base.{
  ◌==◌, ℕ, ◌+◌, ◌-◌, ◌%◌, ◌≡◌, refl, sym, ap, ◌∙◌, arith, Bool, true, false, Option, none, some,
  List, Returns, and_then-Returns, if◌then◌else◌, inl, inr, Bool-cases,
}
use k4c.Size.{sub_size}
use k4c.Allocator.{Libc}
use k4c.Allocator.Lawful.{Lawful}
use k4c.Hash.Common.{chain_at, remove_first}
use k4c.Hash.Common.Chain.{remove_first-first}
use k4c.Hash.Common.Table.{lookup-same}
use k4c.Hash.Common.Entries.{remove-Edits}
use k4c.Hash.Map.{Entry, HashMap, value_at, value_of, release_entry, remove, with_chain}
use k4c.Hash.Map.Valid.{IsValid, same, hash_in, matches_in, entry_in, value_at-entry_in, keyed_in}

-- how many entries a removal takes away, by what the key was mapped to
abbrev pub taken : {V : Type 0} → Option V → ℕ
taken none = 0
taken (some value) = 1

unmapped :
    {K V : Type 0} (b : Bool) (o : Option (Entry K V))
    → value_of (if b then none else o) ≡ (if b then none else value_of o)
unmapped true o = refl
unmapped false o = refl

module _ {W K V : Type 0} (bytes : K → List ℕ) where
  -- Keys equal to `key` have no value any more, and the others what they had.
  pub record Removes (map : HashMap W K V) (key : K) (before after : ℕ) (r : HashMap W K V)
      : Type 0 where
    pub valid : IsValid bytes r
    pub gets :
        (q : K) → value_at bytes r q ≡ (if same bytes map key q then none else value_at bytes map q)
    pub size : r.size + taken (value_at bytes map key) ≡ map.size
    pub live : after ≡ before - taken (value_at bytes map key)

  -- nothing was mapped to a key that equals `key`
  absent-gets :
      {map : HashMap W K V} (key q : K)
      → IsValid bytes map
      → value_at bytes map key ≡ none
      → value_at bytes map q ≡ (if same bytes map key q then none else value_at bytes map q)
  absent-gets {map} key q v none_yet = elim (Bool-cases (same bytes map key q)) [
    | inl e ↦ rw e (
        value_at-entry_in bytes map q
        ∙ ap value_of (
            lookup-same (hash_in bytes map) (matches_in bytes map) (keyed_in bytes v) map.capacity
              map.buckets.chains key q e)
        ∙ sym (value_at-entry_in bytes map key)
        ∙ none_yet)
    | inr e ↦ rw e refl
  ]

module _ {W K V : Type 0} (libc : Libc W) (bytes : K → List ℕ) (live : W → ℕ) (limit : ℕ) where
  release_entry-Removes :
      {map : HashMap W K V} (key : K) (w : W) (r : Option (Entry K V) × List (Entry K V))
      → Lawful libc (some map.allocator) live limit
      → IsValid bytes map
      → r
        ≡ remove_first
            (matches_in bytes map key)
            (chain_at map.buckets.chains (hash_in bytes map key % map.capacity))
      → Returns
          (release_entry libc bytes map (hash_in bytes map key % map.capacity) r w)
          (λ s. Removes bytes map key (live w) (live s.1) s.0)
  release_entry-Removes {map} key w (none, rest) lawful v e =
      let chain = chain_at map.buckets.chains (hash_in bytes map key % map.capacity) in
      let absent : entry_in bytes map key ≡ none =
        sym (remove_first-first (matches_in bytes map key) chain) ∙ sym (ap (λ p. p.0) e) in
      let none_yet : value_at bytes map key ≡ none =
        value_at-entry_in bytes map key ∙ ap value_of absent in
      (
        _,
        refl,
        record {
          valid = v;
          gets = λ q. absent-gets bytes key q v none_yet;
          size = rw none_yet (omega arith);
          live = rw none_yet (omega arith);
        },
      )
  release_entry-Removes {map} key w (some entry, rest) lawful v e =
      let bucket = hash_in bytes map key % map.capacity in
      let chain = chain_at map.buckets.chains bucket in
      let found : entry_in bytes map key ≡ some entry =
        sym (remove_first-first (matches_in bytes map key) chain) ∙ sym (ap (λ p. p.0) e) in
      let had : value_at bytes map key ≡ some (entry.value) =
        value_at-entry_in bytes map key ∙ ap value_of found in
      let left : rest ≡ (remove_first (matches_in bytes map key) chain).1 = ap (λ p. p.1) e in
      let (positive, edits) =
        remove-Edits (hash_in bytes map) (matches_in bytes map) (keyed_in bytes v) v.order key
          found in
      let removed = record (with_chain map bucket rest) { size = sub_size map.size 1 } in
      and_then-Returns (lawful.dealloc_law (some (entry.address)) w (λ e. cc)) λ s c. (
        _,
        refl,
        record {
          valid = record {
            laws = v.laws;
            sized = v.sized;
            order = rw left (edits.order);
            address = v.address;
          };
          gets = λ q.
              value_at-entry_in bytes removed q
              ∙ ap value_of (rw left (edits.lookups q))
              ∙ unmapped (same bytes map key q) (entry_in bytes map q)
              ∙ rw (value_at-entry_in bytes map q) refl;
          size = rw had (omega (arith, v.order.small, v.order.load));
          live = rw had c;
        },
      )

  -- On a valid map whose allocator keeps its contract, `remove` returns, and the map stays valid. No
  -- key that equals `key` has a value any more, every other key has what it had, and the size and
  -- the number of live blocks fall by one exactly if `key` had a value.
  pub remove-Removes :
      {map : HashMap W K V} (key : K) (w : W)
      → Lawful libc (some map.allocator) live limit
      → IsValid bytes map
      → Returns (remove libc bytes map key w) (λ r. Removes bytes map key (live w) (live r.1) r.0)
  unfolding remove
  remove-Removes {map} key w lawful v =
      let positive : (map.key_size == 0) ≡ false = ground (arith, v.sized) in
      rw positive (release_entry-Removes key w _ lawful v refl)
