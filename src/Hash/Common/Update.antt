-- ===== src/Hash/Common/Update.antt =====
-- Inserting a node at the front of its chain, changing a node in place, and removing one.
use k4c.Base.{
  ℕ, ◌%◌, ◌≡◌, ◌≢◌, refl, sym, ap, ◌∙◌, inl, inr, arith, Bool, Bool-cases, if◌then◌else◌, Option,
  none, some, List, ◌∷◌, set,
}
use k4c.Hash.Common.{chain_at, bucket_pushfront, first, remove_first, change_first}
use k4c.Hash.Common.Chain.{
  count, first-none, count-zero, count-agree, count-change_first, first-change_first_apart,
  first-change_first_agree, first-remove_first_apart, count-remove_first, count-remove_first_agree,
}
use k4c.Hash.Common.Table.{Keyed, Holds, lookup, replaced-Holds, lookup-replaced}

module _ {K N : Type 0} (hash : K → ℕ) (matches : K → N → Bool) where
  -- What an operation that concerns the key `k` did to a table: `answer` is what `k` now looks up.
  pub record Updates (same : K → K → Bool) (capacity : ℕ) (chains : List (List N)) (k : K)
      (answer : Option N) (after : List (List N)) : Type 0 where
    pub holds : Holds hash matches capacity after
    pub lookups :
        (q : K)
        → lookup hash matches capacity after q
          ≡ (if same k q then answer else lookup hash matches capacity chains q)

  module _ {entry_hash : N → ℕ} {same : K → K → Bool} (keyed : Keyed hash entry_hash matches same)
      {capacity : ℕ} {chains : List (List N)} (holds : Holds hash matches capacity chains)
      (k : K) where
    -- the chain of the key
    abbrev here : List N
    here = chain_at chains (hash k % capacity)

    -- the nodes of keys like `k` in the chain of another slot, which there are none of
    elsewhere : (q : K) → hash k % capacity ≢ hash q % capacity → count (matches q) here ≡ 0
    elsewhere q ne = holds.placed q (hash k % capacity) ne

    pub pushfront-Updates :
        (node : N)
        → lookup hash matches capacity chains k ≡ none
        → ((q : K) → matches q node ≡ same k q)
        → Updates same capacity chains k
            (some node)
            (bucket_pushfront chains (hash k % capacity) node)
    unfolding first
    pushfront-Updates node absent mine = record {
      holds =
          replaced-Holds hash matches keyed holds k (node ∷ here)
            (λ q. elim (Bool-cases (same k q)) [
              | inl e ↦
                  let none_yet : count (matches q) here ≡ 0 =
                    count-agree _ _ here (λ n. sym (keyed.agree k q e n))
                    ∙ count-zero (matches k) here absent in
                  ground (arith, mine q, none_yet)
              | inr e ↦ ground (arith, mine q, holds.unique q (hash k % capacity))
            ])
            (λ q ne. elim (Bool-cases (same k q)) [
              | inl e ↦ absurd (ne (ap (λ (h : ℕ). h % capacity) (keyed.same_hash k q e)))
              | inr e ↦ ground (arith, mine q, elsewhere q ne)
            ]);
      lookups =
          lookup-replaced hash matches keyed holds k (node ∷ here) (some node)
            (λ q e. rw (mine q, e) refl) (λ q e. rw (mine q, e) refl);
    }

    pub change-Updates :
        (change : N → N) {node : N}
        → lookup hash matches capacity chains k ≡ some node
        → ((q : K) (n : N) → matches q (change n) ≡ matches q n)
        → Updates same capacity chains k
            (some (change node))
            (set chains (hash k % capacity) (change_first (matches k) change here))
    change-Updates change {node} found keeps = record {
      holds =
          replaced-Holds hash matches keyed holds k (change_first (matches k) change here)
            (λ q.
              rw (count-change_first (matches k) (matches q) change (keeps q) here)
                (holds.unique q (hash k % capacity)))
            (λ q ne.
              count-change_first (matches k) (matches q) change (keeps q) here ∙ elsewhere q ne);
      lookups =
          lookup-replaced hash matches keyed holds k (change_first (matches k) change here)
            (some (change node))
            (λ q e.
              first-change_first_agree (matches k) (matches q) change (keeps q) here
                (keyed.agree k q e) found)
            (λ q e.
              first-change_first_apart (matches k) (matches q) change (keeps q) here
                (keyed.apart k q e));
    }

    pub remove-Updates :
        Updates same capacity chains k none
          (set chains (hash k % capacity) (remove_first (matches k) here).1)
    remove-Updates = record {
      holds =
          replaced-Holds hash matches keyed holds k (remove_first (matches k) here).1
            (λ q. omega (
              arith,
              count-remove_first (matches k) (matches q) here,
              holds.unique q (hash k % capacity),
            ))
            (λ q ne.
              omega (arith, count-remove_first (matches k) (matches q) here, elsewhere q ne));
      lookups =
          lookup-replaced hash matches keyed holds k (remove_first (matches k) here).1 none
            (λ q e. first-none (matches q) (remove_first (matches k) here).1 (
              omega (
                arith,
                count-remove_first_agree (matches k) (matches q) here (keyed.agree k q e),
                holds.unique q (hash k % capacity),
              )))
            (λ q e. first-remove_first_apart (matches k) (matches q) here (keyed.apart k q e));
    }
