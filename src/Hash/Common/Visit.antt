-- ===== src/Hash/Common/Visit.antt =====
-- The iterator over the chains: what it has still to visit.
use k4c.Base.{
  ℕ, zero, suc, ◌+◌, ◌-◌, ◌≤◌, ◌<◌, ◌≡◌, refl, sym, ap, ◌∙◌, inl, inr, ◌⊎◌, arith, Option, none,
  some, List, [], ◌∷◌, ◌++◌, length, drop,
}
use mathlib.Core.List.{map}
use k4c.Iterator.{Iterator, iterator_next, drain, drain-some, drain-none, after_callback}
use k4c.Hash.Common.{ChainsState, chain_at, skip_empty, step_over, next_entry, viewed}
use k4c.Hash.Common.Rehash.{nodes}

module _ {N : Type 0} where
  -- the nodes that the iterator has not given yet
  abbrev pub unvisited : ChainsState N → List N
  unvisited s = s.node ++ nodes (drop s.bucket s.chains)

  nodes-drop :
      (chains : List (List N)) (i : ℕ)
      → i < length chains
      → nodes (drop i chains) ≡ chain_at chains i ++ nodes (drop (i + 1) chains)
  nodes-drop [] i h = absurd (omega arith)
  nodes-drop (c ∷ chains) zero h = refl
  nodes-drop (c ∷ chains) (suc i) h =
      let next : suc i + 1 ≡ suc (i + 1) = omega arith in
      rw next (nodes-drop chains i (omega arith))

  nodes-drop_end : (chains : List (List N)) (i : ℕ) → length chains ≤ i → nodes (drop i chains) ≡ []
  nodes-drop_end [] zero h = refl
  nodes-drop_end [] (suc i) h = refl
  nodes-drop_end (c ∷ chains) zero h = absurd (omega arith)
  nodes-drop_end (c ∷ chains) (suc i) h = nodes-drop_end chains i (omega arith)

  -- the step that the iterator makes: to the next unvisited node, or none is left
  pub record Steps (s : ChainsState N) (r : Option N × ChainsState N) : Type 0 where
    pub filled : length r.1.chains ≡ r.1.capacity
    pub outcome :
        ((r.0 ≡ none) × (unvisited s ≡ []))
        ⊎ ((e : N) × (r.0 ≡ some e) × (unvisited s ≡ e ∷ unvisited r.1))

  abbrev at : List (List N) → ℕ → ℕ → List N → ChainsState N
  at chains capacity bucket node = record {
    chains = chains;
    capacity = capacity;
    bucket = bucket;
    node = node;
  }

  step_over-Steps :
      (left : ℕ) (chains : List (List N)) (capacity bucket : ℕ) (node : List N)
      → length chains ≡ capacity
      → left ≡ capacity - bucket
      → Steps
          (at chains capacity bucket node)
          (let s' = skip_empty left (at chains capacity bucket node) in step_over s' s'.node)
  unfolding skip_empty
  step_over-Steps zero chains n b [] f g = record {
    filled = f;
    outcome = inl (refl, nodes-drop_end chains b (omega arith));
  }
  step_over-Steps zero chains n b (x ∷ xs) f g = record {
    filled = f;
    outcome = inr (x, refl, refl);
  }
  step_over-Steps (suc left) chains n b (x ∷ xs) f g = record {
    filled = f;
    outcome = inr (x, refl, refl);
  }
  step_over-Steps (suc left) chains n b [] f g =
      let further = step_over-Steps left chains n (b + 1) (chain_at chains b) f (omega arith) in
      record {
        filled = further.filled;
        outcome = rw (nodes-drop chains b (omega arith)) (further.outcome);
      }

  pub next_entry-Steps : (s : ChainsState N) → length s.chains ≡ s.capacity → Steps s (next_entry s)
  unfolding next_entry
  next_entry-Steps s f =
      step_over-Steps (s.capacity - s.bucket) s.chains s.capacity s.bucket s.node f refl

  -- the state of an iterator, before and after one call, in the iterator of the library
  abbrev pub running :
      {E : Type 0}
      → (ChainsState N → Option E × ChainsState N)
      → ℕ
      → ChainsState N
      → Iterator (ChainsState N) E
  running next hint s = record { next = next; size_hint = hint; state = s }

  drain-Steps :
      {E : Type 0} (view : N → E) (n hint : ℕ) (s : ChainsState N) (r : Option N × ChainsState N)
      → next_entry s ≡ r
      → Steps s r
      → length (unvisited s) ≤ n
      → ((hint' : ℕ) (s' : ChainsState N)
          → length s'.chains ≡ s'.capacity
          → suc (length (unvisited s')) ≤ n
          → drain n (running (λ t. viewed view (next_entry t)) hint' s') ≡ map view (unvisited s'))
      → drain (suc n) (running (λ t. viewed view (next_entry t)) hint s) ≡ map view (unvisited s)
  unfolding iterator_next
  drain-Steps view n hint s (none, s') run steps enough rest =
      let iter = running (λ t. viewed view (next_entry t)) hint s in
      drain-none n iter (ap (λ r. after_callback iter (viewed view r)) run)
      ∙ elim (steps.outcome) [ inl (e, f) ↦ rw f refl | inr (x, e, f) ↦ cc ]
  drain-Steps view n hint s (some e, s') run steps enough rest =
      let iter = running (λ t. viewed view (next_entry t)) hint s in
      elim (steps.outcome) [
        | inl (f, g) ↦ cc
        | inr (x, f, g) ↦
            let same : e ≡ x = cc in
            let shorter : suc (length (unvisited s')) ≡ length (unvisited s) = sym (ap length g) in
            drain-some n iter (ap (λ r. after_callback iter (viewed view r)) run)
            ∙ ap (◌∷◌ (view e)) (rest _ s' steps.filled (omega arith))
            ∙ rw (g, same) refl
      ]

  pub drain-unvisited :
      {E : Type 0} (view : N → E) (n hint : ℕ) (s : ChainsState N)
      → length s.chains ≡ s.capacity
      → length (unvisited s) < n
      → drain n (running (λ t. viewed view (next_entry t)) hint s) ≡ map view (unvisited s)
  drain-unvisited view zero hint s f enough = absurd (omega arith)
  drain-unvisited view (suc n) hint s f enough =
      drain-Steps view n hint s (next_entry s) refl (next_entry-Steps s f) (omega arith)
        (λ hint' s' f' enough'. drain-unvisited view n hint' s' f' (omega arith))
