-- ===== src/Hash/Set/Insert.antt =====
-- `insert`: the set has the element, and nothing else changes; or an error, and no element changes.
use k4c.Base.{
  ◌==◌, ℕ, ◌+◌, ◌*◌, ◌≤◌, ◌<◌, ◌≡◌, refl, ap, ◌∙◌, ◌⊎◌, inl, inr, arith, Bool, true, false, Option,
  none, some, List, Prog, pure, Returns, and_then-Returns, if◌then◌else◌, Bool-cases, Option-cases,
}
use k4c.Platform.{sizeof_hash_entry}
use k4c.Size.{add_size, size_add_overflow}
use k4c.Size.Checked.{size_add_overflow-ge}
use k4c.Status.{Status, ok, is_ok}
use k4c.Allocator.{Libc, Ptr}
use k4c.Allocator.Lawful.{Lawful, Obtains}
use k4c.Hash.Common.{Buckets}
use k4c.Hash.Common.Table.{lookup-same}
use k4c.Hash.Keys.{matches_own}
use k4c.Hash.Common.Entries.{pushfront-Edits}
use k4c.Hash.Set.{
  Entry, HashSet, elem_at, elem_of, link_entry, store_entry, insert_entry, insert_new, insert,
}
use k4c.Hash.Set.Valid.{
  IsValid, same, hash_in, matches_in, entry_in, elem_at-entry_in, entry_find-entry_in, keyed_in,
}
use k4c.Hash.Set.Reserve.{Rebuilds, rebuilt, make_room-Rebuilds, rebuilt-IsValid, elem_at-rebuilt}

elem_of-if :
    {E : Type 0} (b : Bool) (x y : Option (Entry E))
    → elem_of (if b then x else y) ≡ (if b then elem_of x else elem_of y)
elem_of-if true x y = refl
elem_of-if false x y = refl

-- how many entries an insertion adds, by what the set had
abbrev pub added : {E : Type 0} → Option E → ℕ
added none = 1
added (some old) = 0

-- the element that the set has in the end: its own, if it had one
abbrev pub kept : {E : Type 0} → Option E → E → E
kept none elem = elem
kept (some old) elem = old

module _ {W E : Type 0} (bytes : E → List ℕ) where
  -- The set has the element, and no other element changes; or an error, and no element changes.
  pub record Inserts (s : HashSet W E) (elem : E) (before after : ℕ) (r : Status × HashSet W E)
      : Type 0 where
    pub valid : IsValid bytes r.1
    pub outcome :
        ((r.0 ≡ ok)
          × ((q : E)
              → elem_at bytes r.1 q ≡ (
                  if same bytes s elem q
                  then some (kept (elem_at bytes s elem) elem)
                  else elem_at bytes s q))
          × (r.1.size ≡ s.size + added (elem_at bytes s elem))
          × (after ≡ before + added (elem_at bytes s elem)))
        ⊎ ((is_ok r.0 ≡ false)
            × ((q : E) → elem_at bytes r.1 q ≡ elem_at bytes s q)
            × (r.1.size ≡ s.size)
            × (after ≡ before))

  -- an element that is there already
  present-Inserts :
      {s : HashSet W E} (elem : E) (live : ℕ) {entry : Entry E}
      → IsValid bytes s
      → entry_in bytes s elem ≡ some entry
      → Inserts s elem live live (ok, s)
  present-Inserts {s} elem live {entry} v found =
      let had : elem_at bytes s elem ≡ some (entry.elem) =
        elem_at-entry_in bytes s elem ∙ ap elem_of found in
      record {
        valid = v;
        outcome = inl (
          refl,
          λ q. elim (Bool-cases (same bytes s elem q)) [
            | inl e ↦
                elem_at-entry_in bytes s q
                ∙ ap elem_of (
                    lookup-same (hash_in bytes s) (matches_in bytes s) (keyed_in bytes v) s.capacity
                      s.buckets.chains elem q e
                    ∙ found)
                ∙ rw (e, had) refl
            | inr e ↦ rw e refl
          ],
          rw had (omega arith),
          rw had (omega arith),
        );
      }

  -- an insertion into the same set in other buckets
  rebuilt-Inserts :
      {s : HashSet W E} (n : ℕ) (b : Buckets (Entry E)) (elem : E) {before after : ℕ}
      {r : Status × HashSet W E}
      → ((q : E) → elem_at bytes (rebuilt s n b) q ≡ elem_at bytes s q)
      → Inserts (rebuilt s n b) elem before after r
      → Inserts s elem before after r
  rebuilt-Inserts n b elem same_gets p = record {
    valid = p.valid;
    outcome = elim (p.outcome) [
      | inl (e, gets, size, live) ↦ inl (
        e,
        λ q. gets q ∙ rw (same_gets q, same_gets elem) refl,
        rw (← same_gets elem) size,
        rw (← same_gets elem) live,
      )
      | inr (e, gets, size, live) ↦ inr (e, λ q. gets q ∙ same_gets q, size, live)
    ];
  }

module _ {W E : Type 0} (libc : Libc W) (bytes : E → List ℕ) (live : W → ℕ) (limit : ℕ) where
  pub link_entry-Inserts :
      {s : HashSet W E} (elem : E) (before after : ℕ) (r : Status × Ptr)
      → IsValid bytes s
      → entry_in bytes s elem ≡ none
      → (s.size + 1) * 4 ≤ s.capacity * 3
      → Obtains before after r
      → Inserts bytes s elem before after (link_entry s (hash_in bytes s elem) elem r)
  link_entry-Inserts elem before after (st, none) v absent enough (e, c) = record {
    valid = v;
    outcome = inr (rw e refl, λ q. refl, refl, c);
  }
  link_entry-Inserts {s} elem before after (st, some address) v absent enough (e, c) =
      let node : Entry E = record { address = address; hash = hash_in bytes s elem; elem = elem } in
      let own = λ (q : E).
        matches_own bytes s.elem_size s.elem_eq Entry.elem Entry.hash v.laws elem q node refl
          refl in
      let edits =
        pushfront-Edits (hash_in bytes s) (matches_in bytes s) (keyed_in bytes v) v.order elem node
          absent own enough in
      let none_yet : elem_at bytes s elem ≡ none =
        elem_at-entry_in bytes s elem ∙ ap elem_of absent in
      let after_set = store_entry s (hash_in bytes s elem) address elem in
      let plain : add_size s.size 1 ≡ s.size + 1 = omega (arith, v.order.small) in
      record {
        valid = record { laws = v.laws; sized = v.sized; order = edits.order; address = v.address };
        outcome = inl (
          refl,
          λ q.
              elem_at-entry_in bytes after_set q
              ∙ ap elem_of (edits.lookups q)
              ∙ elem_of-if (same bytes s elem q) (some node) (entry_in bytes s q)
              ∙ rw (none_yet, elem_at-entry_in bytes s q) refl,
          rw none_yet plain,
          rw none_yet c,
        );
      }

  insert_entry-Inserts :
      {s : HashSet W E} (elem : E) (w : W)
      → Lawful libc (some s.allocator) live limit
      → live w < limit
      → IsValid bytes s
      → entry_in bytes s elem ≡ none
      → (s.size + 1) * 4 ≤ s.capacity * 3
      → Returns
          (insert_entry libc bytes s elem w)
          (λ r. Inserts bytes s elem (live w) (live r.1) r.0)
  unfolding insert_entry
  insert_entry-Inserts {s} elem w lawful room v absent enough =
      elim (Option-cases (size_add_overflow sizeof_hash_entry s.elem_size)) [
        | inl e ↦
            rw (e, insert_entry)
              (_, refl, record { valid = v; outcome = inr (refl, λ q. refl, refl, refl) })
        | inr (n, e) ↦
            rw (e, insert_entry)
              (and_then-Returns
                (lawful.alloc_law n w
                  (omega (arith, size_add_overflow-ge 48 s.elem_size (omega arith) e)) room)
                λ r o. (_, refl, link_entry-Inserts elem (live w) (live r.1) r.0 v absent enough o))
      ]

  -- after the growth
  insert_roomy :
      {s : HashSet W E} (elem : E) (w : W) (before : ℕ) (st : Status) (roomy : HashSet W E)
      → Lawful libc (some s.allocator) live limit
      → live w < limit
      → live w ≡ before
      → IsValid bytes s
      → entry_in bytes s elem ≡ none
      → Rebuilds bytes s (s.size + 1) (st, roomy)
      → Returns
          ((elim (is_ok st) as (λ _. Prog W (Status × HashSet W E)) [
            | false ↦ pure (st, roomy)
            | true ↦ insert_entry libc bytes roomy elem
          ])
            w)
          (λ r. Inserts bytes s elem before (live r.1) r.0)
  insert_roomy {s} elem w before st roomy lawful room same_live v absent k =
      let ready = rebuilt-IsValid libc bytes live limit lawful v k in
      let gets = elem_at-rebuilt libc bytes live limit lawful v k in
      elim (k.outcome) [
        | inr (e, f) ↦ rw e (
          _,
          refl,
          record { valid = ready; outcome = inr (e, gets, ap HashSet.size k.eq, same_live) },
        )
        | inl (e, enough) ↦
            rw (e, k.eq, ← same_live)
              (let (r, run, p) =
                  insert_entry-Inserts {s = rebuilt s k.n k.b} elem w lawful room (rw k.eq at ready)
                    (k.lookups elem ∙ absent) enough in
                (r, run, rebuilt-Inserts bytes k.n k.b elem (rw k.eq at gets) p))
      ]

  insert_new-Inserts :
      {s : HashSet W E} (elem : E) (w : W)
      → Lawful libc (some s.allocator) live limit
      → live w < limit
      → IsValid bytes s
      → entry_in bytes s elem ≡ none
      → Returns (insert_new libc bytes s elem w) (λ r. Inserts bytes s elem (live w) (live r.1) r.0)
  unfolding insert_new
  insert_new-Inserts elem w lawful room v absent =
      and_then-Returns (make_room-Rebuilds libc bytes live limit lawful v w room) λ r k.
        insert_roomy elem r.1 (live w) r.0.0 r.0.1 lawful (omega (arith, k.1)) k.1 v absent k.0

  -- On a valid set whose allocator keeps its contract, `insert` returns, and the set stays valid.
  -- Either it reports success: then for every element that equals `elem` the set has the one that it
  -- had, or else `elem`, for every other what it had, and the size and the number of live blocks rise
  -- by one exactly if it had none. Or it reports an error: then the set has what it had, and the size
  -- and the number of live blocks are unchanged.
  pub insert-Inserts :
      {s : HashSet W E} (elem : E) (w : W)
      → Lawful libc (some s.allocator) live limit
      → live w < limit
      → IsValid bytes s
      → Returns (insert libc bytes s elem w) (λ r. Inserts bytes s elem (live w) (live r.1) r.0)
  unfolding insert
  insert-Inserts {s} elem w lawful room v =
      let positive : (s.elem_size == 0) ≡ false = ground (arith, v.sized) in
      elim (Option-cases (entry_in bytes s elem)) [
        | inl absent ↦
            rw (entry_find-entry_in bytes s elem, positive, absent, insert)
              (insert_new-Inserts elem w lawful room v absent)
        | inr (entry, found) ↦
            rw (entry_find-entry_in bytes s elem, positive, found, insert)
              (_, refl, present-Inserts bytes elem (live w) v found)
      ]
