-- ===== src/Hash/Common/Entries.antt =====
-- A table in order stays so when an entry is put in, written to or taken out.
use k4c.Base.{
  ℕ, ◌+◌, ◌-◌, ◌*◌, ◌%◌, ◌≤◌, ◌<◌, ◌≡◌, arith, Bool, Option, none, some, List, ◌∷◌, length, set,
  if◌then◌else◌,
}
use k4c.Size.{add_size, sub_size}
use k4c.Hash.Common.{Buckets, chain_at, remove_first, change_first}
use k4c.Hash.Common.Chain.{length-change_first, length-remove_first}
use k4c.Hash.Common.Table.{Keyed, lookup, slot_in, total-set}
use k4c.Hash.Common.Update.{Updates, pushfront-Updates, change-Updates, remove-Updates}
use k4c.Hash.Common.Order.{InOrder}

module _ {K N : Type 0} (hash : K → ℕ) (matches : K → N → Bool) where
  -- the buckets with one chain replaced
  abbrev pub replaced : Buckets N → ℕ → List N → Buckets N
  replaced buckets i chain = record buckets { chains = set buckets.chains i chain }

  -- What an operation that concerns the key `k` did: `answer` is what `k` now looks up.
  pub record Edits (same : K → K → Bool) (capacity : ℕ) (buckets : Buckets N) (k : K)
      (answer : Option N) (size : ℕ) (after : Buckets N) : Type 0 where
    pub order : InOrder hash matches size capacity after
    pub lookups :
        (q : K)
        → lookup hash matches capacity after.chains q
          ≡ (if same k q then answer else lookup hash matches capacity buckets.chains q)

  module _ {entry_hash : N → ℕ} {same : K → K → Bool} (keyed : Keyed hash entry_hash matches same)
      {size capacity : ℕ} {buckets : Buckets N} (order : InOrder hash matches size capacity buckets)
      (k : K) where
    abbrev here : List N
    here = chain_at buckets.chains (hash k % capacity)

    edited :
        (answer : Option N) (chain : List N) {size' : ℕ}
        → Updates hash matches same capacity buckets.chains k answer
            (set buckets.chains (hash k % capacity) chain)
        → size' + length here ≡ size + length chain
        → size' * 4 ≤ capacity * 3
        → Edits same capacity buckets k answer size' (replaced buckets (hash k % capacity) chain)
    edited answer chain u sizes load = record {
      order = record {
        holds = u.holds;
        counted = omega (
          arith,
          order.counted,
          total-set buckets.chains (hash k % capacity) chain
              (slot_in hash matches keyed order.holds k),
        );
        load = load;
        small = order.small;
        address = order.address;
      };
      lookups = u.lookups;
    }

    pub pushfront-Edits :
        (node : N)
        → lookup hash matches capacity buckets.chains k ≡ none
        → ((q : K) → matches q node ≡ same k q)
        → (size + 1) * 4 ≤ capacity * 3
        → Edits same capacity buckets k
            (some node)
            (add_size size 1)
            (replaced buckets (hash k % capacity) (node ∷ here))
    pushfront-Edits node absent mine enough =
        let plain : add_size size 1 ≡ size + 1 = omega (arith, order.small) in
        edited _ _ (pushfront-Updates hash matches keyed order.holds k node absent mine)
          (omega arith) (rw plain enough)

    pub change-Edits :
        (change : N → N) {node : N}
        → lookup hash matches capacity buckets.chains k ≡ some node
        → ((q : K) (n : N) → matches q (change n) ≡ matches q n)
        → Edits same capacity buckets k
            (some (change node))
            size
            (replaced buckets (hash k % capacity) (change_first (matches k) change here))
    change-Edits change found keeps =
        edited _ _ (change-Updates hash matches keyed order.holds k change found keeps)
          (omega (arith, length-change_first (matches k) (matches k) change (keeps k) here))
          order.load

    pub remove-Edits :
        {node : N}
        → lookup hash matches capacity buckets.chains k ≡ some node
        → (0 < size)
          × Edits same capacity buckets k none
              (sub_size size 1)
              (replaced buckets (hash k % capacity) (remove_first (matches k) here).1)
    remove-Edits {node} found =
        let shorter = length-remove_first (matches k) here {node = node} found in
        let counted =
          total-set buckets.chains (hash k % capacity) (remove_first (matches k) here).1
            (slot_in hash matches keyed order.holds k) in
        let positive : 0 < size = omega (arith, order.counted) in
        let plain : sub_size size 1 ≡ size - 1 = omega (arith, order.small, order.load) in
        (
          positive,
          edited _ _ (remove-Updates hash matches keyed order.holds k) (omega arith)
              (omega (arith, order.load)),
        )
