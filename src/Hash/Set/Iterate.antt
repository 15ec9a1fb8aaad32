-- ===== src/Hash/Set/Iterate.antt =====
-- The iterator of a set visits every element once.
use k4c.Base.{ℕ, ◌+◌, ◌%◌, ◌≤◌, ◌≡◌, sym, ap, ◌∙◌, arith, List, [], length}
use mathlib.Core.List.{map}
use k4c.Iterator.{drain}
use k4c.Hash.Common.{first}
use k4c.Hash.Common.Chain.{count}
use k4c.Hash.Common.Rehash.{nodes, length-nodes, first-nodes, one-node}
use k4c.Hash.Common.Visit.{drain-unvisited}
use k4c.Hash.Set.{Entry, HashSet, elem_at, elem_of, get_iterator}
use k4c.Hash.Set.Valid.{IsValid, hash_in, matches_in, elem_at-entry_in, keyed_in}

module _ {W E : Type 0} (bytes : E → List ℕ) where
  -- On a valid set there is a list of entries, as many as the size and no two for one element, such
  -- that `elem_at` has the element of the entry that the element has, if there is one. The calls of
  -- `iterator_next` on the iterator give the elements of that list, and then NULL. The size hint at
  -- the start is its length.
  pub get_iterator-elems :
      {s : HashSet W E}
      → IsValid bytes s
      → (entries : List (Entry E)) × (drain (s.size + 1) (get_iterator s) ≡ map Entry.elem entries)
        × ((get_iterator s).size_hint ≡ length entries)
        × (length entries ≡ s.size)
        × ((k : E) → count (matches_in bytes s k) entries ≤ 1)
        × ((k : E) → elem_at bytes s k ≡ elem_of (first (matches_in bytes s k) entries))
  unfolding get_iterator
  get_iterator-elems {s} v =
      let total = length-nodes s.buckets.chains in
      (
        nodes s.buckets.chains,
        drain-unvisited Entry.elem (s.size + 1) s.size
            (record { chains = s.buckets.chains; capacity = s.capacity; bucket = 0; node = [] })
            v.order.holds.filled (omega (arith, total, v.order.counted)),
        omega (arith, total, v.order.counted),
        omega (arith, total, v.order.counted),
        λ k.
            one-node (hash_in bytes s) (matches_in bytes s) (keyed_in bytes v) v.order.holds 1
              (omega arith) k,
        λ k.
            elem_at-entry_in bytes s k
            ∙ ap elem_of (
                sym (
                  first-nodes (matches_in bytes s k) s.buckets.chains
                    (hash_in bytes s k % s.capacity) (v.order.holds.placed k))),
      )
