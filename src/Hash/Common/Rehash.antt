-- ===== src/Hash/Common/Rehash.antt =====
-- Moving every node into a new array of buckets changes no lookup.
use k4c.Base.{
  ℕ, zero, suc, ◌+◌, ◌%◌, ◌≤◌, ◌<◌, ◌≡◌, ◌≢◌, refl, sym, ap, ◌∙◌, inl, inr, arith, Bool, true,
  Bool-cases, ◌==◌, if◌then◌else◌, Option, none, some, List, [], ◌∷◌, ◌++◌, length, length-append,
  length-set, replicate, length-replicate, set, get_or-set_self, get_or-set_ne, take, take-length,
}
use native.Mathlib.Nat.{mod-lt}
use k4c.Hash.Common.{chain_at, bucket_pushfront, first, move_chain, move_chains}
use k4c.Hash.Common.Chain.{count, or_first, first-append, count-append, first-none}
use k4c.Hash.Common.Table.{Keyed, Holds, lookup, total, total-set}

-- all nodes, chain by chain
abbrev pub nodes : {N : Type 0} → List (List N) → List N
nodes [] = []
nodes (chain ∷ rest) = chain ++ nodes rest

pub total-empty : (N : Type 0) (n : ℕ) → total (replicate {A = List N} n []) ≡ 0
total-empty N zero = refl
total-empty N (suc n) = omega (arith, total-empty N n)

pub chain_at-empty : (N : Type 0) (n i : ℕ) → chain_at (replicate {A = List N} n []) i ≡ []
chain_at-empty N zero i = refl
chain_at-empty N (suc n) zero = refl
chain_at-empty N (suc n) (suc i) = chain_at-empty N n i

module _ {N : Type 0} where
  pub length-nodes : (chains : List (List N)) → length (nodes chains) ≡ total chains
  length-nodes [] = refl
  length-nodes (c ∷ chains) = omega (arith, length-append c (nodes chains), length-nodes chains)

  -- where a property holds in one chain only, that chain answers for all
  module _ (p : N → Bool) where
    count-nodes_zero :
        (chains : List (List N))
        → ((j : ℕ) → count p (chain_at chains j) ≡ 0)
        → count p (nodes chains) ≡ 0
    count-nodes_zero [] h = refl
    count-nodes_zero (c ∷ chains) h =
        omega
          (arith, count-append p c (nodes chains), h zero, count-nodes_zero chains (λ j. h (suc j)))

    pub count-nodes :
        (chains : List (List N)) (i : ℕ)
        → ((j : ℕ) → j ≢ i → count p (chain_at chains j) ≡ 0)
        → count p (nodes chains) ≡ count p (chain_at chains i)
    count-nodes [] i h = refl
    count-nodes (c ∷ chains) zero h = omega (
      arith,
      count-append p c (nodes chains),
      count-nodes_zero chains (λ j. h (suc j) (omega arith)),
    )
    count-nodes (c ∷ chains) (suc i) h = omega (
      arith,
      count-append p c (nodes chains),
      h zero (omega arith),
      count-nodes chains i (λ j ne. h (suc j) (omega arith)),
    )

    or_first-none : (o : Option N) → or_first o none ≡ o
    or_first-none none = refl
    or_first-none (some n) = refl

    pub first-nodes :
        (chains : List (List N)) (i : ℕ)
        → ((j : ℕ) → j ≢ i → count p (chain_at chains j) ≡ 0)
        → first p (nodes chains) ≡ first p (chain_at chains i)
    unfolding first
    first-nodes [] i h = refl
    first-nodes (c ∷ chains) zero h =
        let rest =
          first-none p (nodes chains) (count-nodes_zero chains (λ j. h (suc j) (omega arith))) in
        first-append p c (nodes chains) ∙ ap (or_first (first p c)) rest ∙ or_first-none (first p c)
    first-nodes (c ∷ chains) (suc i) h =
        let head = first-none p c (h zero (omega arith)) in
        first-append p c (nodes chains)
        ∙ ap (λ o. or_first o (first p (nodes chains))) head
        ∙ first-nodes chains i (λ j ne. h (suc j) (omega arith))

  module _ (entry_hash : N → ℕ) (n : ℕ) (room : 0 < n) where
    move_chain-append :
        (xs ys : List N) (bs : List (List N))
        → move_chain entry_hash n (xs ++ ys) bs
          ≡ move_chain entry_hash n ys (move_chain entry_hash n xs bs)
    move_chain-append [] ys bs = refl
    move_chain-append (x ∷ xs) ys bs =
        move_chain-append xs ys (bucket_pushfront bs (entry_hash x % n) x)

    pub move_chains-nodes :
        (chains bs : List (List N))
        → move_chains entry_hash n chains bs ≡ move_chain entry_hash n (nodes chains) bs
    move_chains-nodes [] bs = refl
    move_chains-nodes (c ∷ chains) bs =
        move_chains-nodes chains (move_chain entry_hash n c bs)
        ∙ sym (move_chain-append c (nodes chains) bs)

    pub length-move_chain :
        (xs : List N) (bs : List (List N)) → length (move_chain entry_hash n xs bs) ≡ length bs
    length-move_chain [] bs = refl
    length-move_chain (x ∷ xs) bs =
        length-move_chain xs (bucket_pushfront bs (entry_hash x % n) x)
        ∙ length-set bs (entry_hash x % n) (x ∷ chain_at bs (entry_hash x % n))

    pub total-move_chain :
        (xs : List N) (bs : List (List N))
        → length bs ≡ n
        → total (move_chain entry_hash n xs bs) ≡ length xs + total bs
    total-move_chain [] bs h = omega arith
    total-move_chain (x ∷ xs) bs h =
        let i = entry_hash x % n in
        let chain = x ∷ chain_at bs i in
        let in_range : i < length bs = omega (arith, h, mod-lt (entry_hash x) room) in
        omega (
          arith,
          total-set bs i chain in_range,
          total-move_chain xs (set bs i chain) (length-set bs i chain ∙ h),
        )

    -- a node placed in its chain: what a property finds and counts there
    module _ (p : N → Bool) (x : N) (bs : List (List N)) (i : ℕ) where
      abbrev placed : List (List N)
      placed = bucket_pushfront bs (entry_hash x % n) x

      placed-here :
          entry_hash x % n < length bs
          → entry_hash x % n ≡ i
          → chain_at placed i ≡ x ∷ chain_at bs i
      placed-here lt e =
          rw (← e)
            (get_or-set_self bs (entry_hash x % n) (x ∷ chain_at bs (entry_hash x % n)) [] lt)

      count-hit :
          entry_hash x % n < length bs
          → entry_hash x % n ≡ i
          → p x ≡ true
          → count p (chain_at placed i) ≡ suc (count p (chain_at bs i))
      count-hit lt e hit = ap (count p) (placed-here lt e) ∙ rw hit refl

      first-hit :
          entry_hash x % n < length bs
          → entry_hash x % n ≡ i
          → p x ≡ true
          → first p (chain_at placed i) ≡ some x
      unfolding first
      first-hit lt e hit = ap (first p) (placed-here lt e) ∙ rw hit refl

      -- a node without the property, or of another chain
      miss :
          {A : Type 0} (f : List N → A)
          → entry_hash x % n < length bs
          → (entry_hash x % n ≡ i → f (x ∷ chain_at bs i) ≡ f (chain_at bs i))
          → f (chain_at placed i) ≡ f (chain_at bs i)
      miss f lt same = elim (Bool-cases (entry_hash x % n == i)) [
        | inl e ↦
            let here : entry_hash x % n ≡ i = ground arith in ap f (placed-here lt here) ∙ same here
        | inr e ↦ ap f (
            get_or-set_ne bs (entry_hash x % n) i (x ∷ chain_at bs (entry_hash x % n)) []
              (ground arith))
      ]

    -- one property, of nodes with one hash
    module _ (p : N → Bool) (h : ℕ) (hashed : (e : N) → p e ≡ true → entry_hash e ≡ h) where
      pub count-move_chain :
          (xs : List N) (bs : List (List N)) (i : ℕ)
          → length bs ≡ n
          → count p (chain_at (move_chain entry_hash n xs bs) i)
            ≡ (if i == h % n then count p xs else 0) + count p (chain_at bs i)
      count-move_chain [] bs i e = ground arith
      count-move_chain (x ∷ xs) bs i e =
          let j = entry_hash x % n in
          let in_range : j < length bs = omega (arith, e, mod-lt (entry_hash x) room) in
          let ih =
            count-move_chain xs (placed p x bs i) i (length-set bs j (x ∷ chain_at bs j) ∙ e) in
          elim (Bool-cases (p x)) [
            | inr g ↦ ih ∙ rw (miss p x bs i (count p) in_range (λ _. rw g refl), g) refl
            | inl g ↦
                let meet : j ≡ h % n = ap (λ (t : ℕ). t % n) (hashed x g) in
                elim (Bool-cases (i == h % n)) [
                  | inl f ↦
                      ih ∙ rw (count-hit p x bs i in_range (ground arith) g, f, g) (omega arith)
                  | inr f ↦
                      ih
                      ∙ rw (miss p x bs i (count p) in_range (λ same. absurd (ground arith)), f)
                          refl
                ]
          ]

      pub first-move_chain :
          (xs : List N) (bs : List (List N))
          → length bs ≡ n
          → count p xs ≤ 1
          → first p (chain_at (move_chain entry_hash n xs bs) (h % n))
            ≡ or_first (first p xs) (first p (chain_at bs (h % n)))
      unfolding first
      first-move_chain [] bs e one = refl
      first-move_chain (x ∷ xs) bs e one =
          let j = entry_hash x % n in
          let i = h % n in
          let in_range : j < length bs = omega (arith, e, mod-lt (entry_hash x) room) in
          let ih =
            first-move_chain xs (placed p x bs i) (length-set bs j (x ∷ chain_at bs j) ∙ e) in
          elim (Bool-cases (p x)) [
            | inr g ↦
                ih (rw g at one) ∙ rw (miss p x bs i (first p) in_range (λ _. rw g refl), g) refl
            | inl g ↦
                let rest : count p xs ≡ 0 = ground arith in
                ih (omega arith)
                ∙ rw
                    (
                      first-none p xs rest,
                      first-hit p x bs i in_range (ap (λ (t : ℕ). t % n) (hashed x g)) g,
                      g,
                    )
                    refl
          ]

-- The whole move, into an array of `n` empty buckets.
module _ {K N : Type 0} (hash : K → ℕ) (matches : K → N → Bool) {entry_hash : N → ℕ}
    {same : K → K → Bool} (keyed : Keyed hash entry_hash matches same) {capacity : ℕ}
    {chains : List (List N)} (holds : Holds hash matches capacity chains) (n : ℕ)
    (room : 0 < n) where
  abbrev pub moved : List (List N)
  moved = move_chains entry_hash n (take capacity chains) (replicate n [])

  moved-nodes : moved ≡ move_chain entry_hash n (nodes chains) (replicate n [])
  moved-nodes =
      move_chains-nodes entry_hash n room (take capacity chains) (replicate n [])
      ∙ ap (λ l. move_chain entry_hash n (nodes l) (replicate n []))
          (take-length capacity chains holds.filled)

  count-moved :
      (k : K) (i : ℕ)
      → count (matches k) (chain_at moved i)
        ≡ (if i == hash k % n then count (matches k) (nodes chains) else 0)
  count-moved k i =
      ap (λ l. count (matches k) (chain_at l i)) moved-nodes
      ∙ count-move_chain entry_hash n room (matches k) (hash k) (keyed.match_hash k) (nodes chains)
          (replicate n []) i (length-replicate n [])
      ∙ rw (chain_at-empty N n i) (omega arith)

  pub one-node : (k : K) → count (matches k) (nodes chains) ≤ 1
  one-node k =
      rw (count-nodes (matches k) chains (hash k % capacity) (holds.placed k))
        (holds.unique k (hash k % capacity))

  pub moved-Holds : Holds hash matches n moved
  moved-Holds = record {
    filled =
        ap length moved-nodes
        ∙ length-move_chain entry_hash n room (nodes chains) (replicate n [])
        ∙ length-replicate n [];
    room = room;
    unique = λ k i. ground (arith, count-moved k i, one-node k);
    placed = λ k i ne. ground (arith, count-moved k i);
  }

  pub lookup-moved : (k : K) → lookup hash matches n moved k ≡ lookup hash matches capacity chains k
  unfolding first
  lookup-moved k =
      ap (λ l. first (matches k) (chain_at l (hash k % n))) moved-nodes
      ∙ first-move_chain entry_hash n room (matches k) (hash k) (keyed.match_hash k) (nodes chains)
          (replicate n []) (length-replicate n []) (one-node k)
      ∙ rw (chain_at-empty N n (hash k % n))
          (or_first-none (matches k) (first (matches k) (nodes chains)))
      ∙ first-nodes (matches k) chains (hash k % capacity) (holds.placed k)

  pub total-moved : total moved ≡ total chains
  total-moved =
      ap total moved-nodes
      ∙ total-move_chain entry_hash n room (nodes chains) (replicate n []) (length-replicate n [])
      ∙ rw (total-empty N n) (omega (arith, length-nodes chains))
