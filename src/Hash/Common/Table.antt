-- ===== src/Hash/Common/Table.antt =====
-- The table of chains as a finite map: what one operation on a chain does to every lookup.
use k4c.Base.{
  ℕ, zero, suc, ◌+◌, ◌%◌, ◌≤◌, ◌<◌, ◌≡◌, ◌≢◌, refl, sym, ap, ◌∙◌, inl, inr, arith, Bool, true,
  false, Bool-cases, ◌==◌, if◌then◌else◌, Option, List, [], ◌∷◌, length, length-set, set,
  get_or-set_self, get_or-set_ne,
}
use native.Mathlib.Nat.{mod-lt}
use k4c.Hash.Common.{chain_at, first}
use k4c.Hash.Common.Chain.{count, first-agree}

-- How keys, nodes and hashes go together. `same` is the equality of keys.
pub record Keyed {K N : Type 0} (hash : K → ℕ) (entry_hash : N → ℕ) (matches : K → N → Bool)
    (same : K → K → Bool) : Type 0 where
  pub match_hash : (k : K) (e : N) → matches k e ≡ true → entry_hash e ≡ hash k
  pub agree : (k q : K) → same k q ≡ true → (e : N) → matches k e ≡ matches q e
  pub apart : (k q : K) → same k q ≡ false → (e : N) → matches k e ≡ true → matches q e ≡ false
  pub same_hash : (k q : K) → same k q ≡ true → hash k ≡ hash q

-- the number of nodes in all chains
abbrev pub total : {N : Type 0} → List (List N) → ℕ
total [] = 0
total (chain ∷ rest) = length chain + total rest

pub total-set :
    {N : Type 0} (chains : List (List N)) (i : ℕ) (chain : List N)
    → i < length chains
    → total (set chains i chain) + length (chain_at chains i) ≡ total chains + length chain
total-set [] i chain h = absurd (omega arith)
total-set (c ∷ chains) zero chain h = omega arith
total-set (c ∷ chains) (suc i) chain h = omega (arith, total-set chains i chain (omega arith))

pub chain_at-set :
    {N : Type 0} (chains : List (List N)) (i j : ℕ) (chain : List N)
    → i < length chains
    → chain_at (set chains i chain) j ≡ (if i == j then chain else chain_at chains j)
chain_at-set chains i j chain h = elim (Bool-cases (i == j)) [
  | inl e ↦ let here : i ≡ j = ground arith in rw (e, ← here) (get_or-set_self chains i chain [] h)
  | inr e ↦ let there : i ≢ j = ground arith in rw e (get_or-set_ne chains i j chain [] there)
]

module _ {K N : Type 0} (hash : K → ℕ) (matches : K → N → Bool) where
  -- Every chain is there, no key has two nodes, and a node stands in the chain of its hash only.
  pub record Holds (capacity : ℕ) (chains : List (List N)) : Type 0 where
    pub filled : length chains ≡ capacity
    pub room : 0 < capacity
    pub unique : (k : K) (i : ℕ) → count (matches k) (chain_at chains i) ≤ 1
    pub placed : (k : K) (i : ℕ) → i ≢ hash k % capacity → count (matches k) (chain_at chains i) ≡ 0

  -- the node of a key
  abbrev pub lookup : ℕ → List (List N) → K → Option N
  lookup capacity chains k = first (matches k) (chain_at chains (hash k % capacity))

  -- equal keys look up the same
  pub lookup-same :
      {entry_hash : N → ℕ} {same : K → K → Bool}
      → Keyed hash entry_hash matches same
      → (capacity : ℕ) (chains : List (List N)) (k q : K) → same k q ≡ true
      → lookup capacity chains q ≡ lookup capacity chains k
  lookup-same keyed capacity chains k q e = sym (
      first-agree (matches k) (matches q) (chain_at chains (hash k % capacity)) (keyed.agree k q e)
      ∙ ap (λ (h : ℕ). first (matches q) (chain_at chains (h % capacity))) (keyed.same_hash k q e))

  module _ {entry_hash : N → ℕ} {same : K → K → Bool} (keyed : Keyed hash entry_hash matches same)
      {capacity : ℕ} {chains : List (List N)} (holds : Holds capacity chains) (k : K) where
    abbrev pub slot : ℕ
    slot = hash k % capacity

    pub slot_in : slot < length chains
    slot_in = omega (arith, holds.filled, mod-lt (hash k) holds.room)

    -- a new chain for the key, in which counts and lookups are as described
    pub replaced-Holds :
        (chain : List N)
        → ((q : K) → count (matches q) chain ≤ 1)
        → ((q : K) → slot ≢ hash q % capacity → count (matches q) chain ≡ 0)
        → Holds capacity (set chains slot chain)
    replaced-Holds chain one zero_there = record {
      filled = length-set chains slot chain ∙ holds.filled;
      room = holds.room;
      unique = λ q i. elim (Bool-cases (slot == i)) [
        | inl e ↦ rw (chain_at-set chains slot i chain slot_in, e) (one q)
        | inr e ↦ rw (chain_at-set chains slot i chain slot_in, e) (holds.unique q i)
      ];
      placed = λ q i ne. elim (Bool-cases (slot == i)) [
        | inl e ↦
            let here : slot ≡ i = ground arith in
            rw (chain_at-set chains slot i chain slot_in, e) (zero_there q (λ f. ne (sym here ∙ f)))
        | inr e ↦ rw (chain_at-set chains slot i chain slot_in, e) (holds.placed q i ne)
      ];
    }

    -- lookups of the new chain: by the case of the same key, and of another
    pub lookup-replaced :
        (chain : List N) (answer : Option N)
        → ((q : K) → same k q ≡ true → first (matches q) chain ≡ answer)
        → ((q : K)
            → same k q ≡ false
            → first (matches q) chain ≡ first (matches q) (chain_at chains slot))
        → (q : K)
        → lookup capacity (set chains slot chain) q
          ≡ (if same k q then answer else lookup capacity chains q)
    lookup-replaced chain answer same_case other_case q = elim (Bool-cases (same k q)) [
      | inl e ↦
          let here : (slot == hash q % capacity) ≡ true =
            let f : slot ≡ hash q % capacity =
              ap (λ (h : ℕ). h % capacity) (keyed.same_hash k q e) in
            ground arith in
          rw (chain_at-set chains slot (hash q % capacity) chain slot_in, here, e) (same_case q e)
      | inr e ↦ elim (Bool-cases (slot == hash q % capacity)) [
        | inl f ↦
            let here : slot ≡ hash q % capacity = ground arith in
            rw (chain_at-set chains slot (hash q % capacity) chain slot_in, f, e)
              (other_case q e ∙ ap (λ (i : ℕ). first (matches q) (chain_at chains i)) here)
        | inr f ↦ rw (chain_at-set chains slot (hash q % capacity) chain slot_in, f, e) refl
      ]
    ]
