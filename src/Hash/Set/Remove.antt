-- ===== src/Hash/Set/Remove.antt =====
-- `remove`: the elem is mapped to nothing, and its entry is given back.
use k4c.Base.{
  ◌==◌, ℕ, ◌+◌, ◌-◌, ◌%◌, ◌≡◌, refl, sym, ap, ◌∙◌, arith, Bool, true, false, Option, none, some,
  List, Returns, and_then-Returns, if◌then◌else◌, inl, inr, Bool-cases,
}
use k4c.Size.{sub_size}
use k4c.Allocator.{Libc}
use k4c.Allocator.Lawful.{Lawful}
use k4c.Hash.Common.{chain_at, remove_first}
use k4c.Hash.Common.Chain.{remove_first-first}
use k4c.Hash.Common.Table.{lookup-same}
use k4c.Hash.Common.Entries.{remove-Edits}
use k4c.Hash.Set.{Entry, HashSet, elem_at, elem_of, release_entry, remove, with_chain}
use k4c.Hash.Set.Valid.{IsValid, same, hash_in, matches_in, entry_in, elem_at-entry_in, keyed_in}

-- how many entries a removal takes away, by what the elem was mapped to
abbrev pub taken : {E : Type 0} → Option E → ℕ
taken none = 0
taken (some kept) = 1

unmapped :
    {E : Type 0} (b : Bool) (o : Option (Entry E))
    → elem_of (if b then none else o) ≡ (if b then none else elem_of o)
unmapped true o = refl
unmapped false o = refl

module _ {W E : Type 0} (bytes : E → List ℕ) where
  -- Keys equal to `elem` have no value any more, and the others what they had.
  pub record Discards (hs : HashSet W E) (elem : E) (before after : ℕ) (r : HashSet W E)
      : Type 0 where
    pub valid : IsValid bytes r
    pub gets :
        (q : E) → elem_at bytes r q ≡ (if same bytes hs elem q then none else elem_at bytes hs q)
    pub size : r.size + taken (elem_at bytes hs elem) ≡ hs.size
    pub live : after ≡ before - taken (elem_at bytes hs elem)

  -- nothing was mapped to a elem that equals `elem`
  absent-gets :
      {hs : HashSet W E} (elem q : E)
      → IsValid bytes hs
      → elem_at bytes hs elem ≡ none
      → elem_at bytes hs q ≡ (if same bytes hs elem q then none else elem_at bytes hs q)
  absent-gets {hs} elem q v none_yet = elim (Bool-cases (same bytes hs elem q)) [
    | inl e ↦ rw e (
        elem_at-entry_in bytes hs q
        ∙ ap elem_of (
            lookup-same (hash_in bytes hs) (matches_in bytes hs) (keyed_in bytes v) hs.capacity
              hs.buckets.chains elem q e)
        ∙ sym (elem_at-entry_in bytes hs elem)
        ∙ none_yet)
    | inr e ↦ rw e refl
  ]

module _ {W E : Type 0} (libc : Libc W) (bytes : E → List ℕ) (live : W → ℕ) (limit : ℕ) where
  release_entry-Discards :
      {hs : HashSet W E} (elem : E) (w : W) (r : Option (Entry E) × List (Entry E))
      → Lawful libc (some hs.allocator) live limit
      → IsValid bytes hs
      → r
        ≡ remove_first
            (matches_in bytes hs elem)
            (chain_at hs.buckets.chains (hash_in bytes hs elem % hs.capacity))
      → Returns
          (release_entry libc bytes hs (hash_in bytes hs elem % hs.capacity) r w)
          (λ s. Discards bytes hs elem (live w) (live s.1) s.0)
  release_entry-Discards {hs} elem w (none, rest) lawful v e =
      let chain = chain_at hs.buckets.chains (hash_in bytes hs elem % hs.capacity) in
      let absent : entry_in bytes hs elem ≡ none =
        sym (remove_first-first (matches_in bytes hs elem) chain) ∙ sym (ap (λ p. p.0) e) in
      let none_yet : elem_at bytes hs elem ≡ none =
        elem_at-entry_in bytes hs elem ∙ ap elem_of absent in
      (
        _,
        refl,
        record {
          valid = v;
          gets = λ q. absent-gets bytes elem q v none_yet;
          size = rw none_yet (omega arith);
          live = rw none_yet (omega arith);
        },
      )
  release_entry-Discards {hs} elem w (some entry, rest) lawful v e =
      let bucket = hash_in bytes hs elem % hs.capacity in
      let chain = chain_at hs.buckets.chains bucket in
      let found : entry_in bytes hs elem ≡ some entry =
        sym (remove_first-first (matches_in bytes hs elem) chain) ∙ sym (ap (λ p. p.0) e) in
      let had : elem_at bytes hs elem ≡ some (entry.elem) =
        elem_at-entry_in bytes hs elem ∙ ap elem_of found in
      let left : rest ≡ (remove_first (matches_in bytes hs elem) chain).1 = ap (λ p. p.1) e in
      let (positive, edits) =
        remove-Edits (hash_in bytes hs) (matches_in bytes hs) (keyed_in bytes v) v.order elem
          found in
      let removed = record (with_chain hs bucket rest) { size = sub_size hs.size 1 } in
      and_then-Returns (lawful.dealloc_law (some (entry.address)) w (λ e. cc)) λ s c. (
        _,
        refl,
        record {
          valid = record {
            laws = v.laws;
            sized = v.sized;
            order = rw left (edits.order);
            address = v.address;
          };
          gets = λ q.
              elem_at-entry_in bytes removed q
              ∙ ap elem_of (rw left (edits.lookups q))
              ∙ unmapped (same bytes hs elem q) (entry_in bytes hs q)
              ∙ rw (elem_at-entry_in bytes hs q) refl;
          size = rw had (omega (arith, v.order.small, v.order.load));
          live = rw had c;
        },
      )

  -- On a valid set whose allocator keeps its contract, `remove` returns, and the set stays valid. No
  -- elem that equals `elem` has a value any more, every other elem has what it had, and the size and
  -- the number of live blocks fall by one exactly if `elem` had a value.
  pub remove-Discards :
      {hs : HashSet W E} (elem : E) (w : W)
      → Lawful libc (some hs.allocator) live limit
      → IsValid bytes hs
      → Returns (remove libc bytes hs elem w) (λ r. Discards bytes hs elem (live w) (live r.1) r.0)
  unfolding remove
  remove-Discards {hs} elem w lawful v =
      let positive : (hs.elem_size == 0) ≡ false = ground (arith, v.sized) in
      rw positive (release_entry-Discards elem w _ lawful v refl)
