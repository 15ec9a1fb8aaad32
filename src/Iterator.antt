-- ===== src/Iterator.antt =====
-- include/k4c/datastruct/iterator.h and lib/datastruct/iterator.c: the generic iterator.
-- `S` is what its context or its state storage holds; `none` is the NULL of an exhausted iterator.
use k4c.Base.{◌≡◌, ap, zero, suc, List, [], ◌∷◌, ℕ, ◌-◌, Option, none, some, ltb, if◌then◌else◌}

pub record Iterator (S E : Type 0) : Type 0 where
  pub next : S → Option E × S
  pub size_hint : ℕ
  pub state : S

module _ {S E : Type 0} where
  -- `k4c_iterator_from_state` and `k4c_iterator_from_callback`, with the state filled in
  abbrev pub iterator_from_state : (S → Option E × S) → S → Iterator S E
  iterator_from_state next state = record { next = next; size_hint = 0; state = state }

  -- `k4c_iterator_set_size_hint`
  abbrev pub iterator_set_size_hint : Iterator S E → ℕ → Iterator S E
  iterator_set_size_hint iter size_hint = record iter { size_hint = size_hint }

  -- `k4c_iterator_next`, with the answer of the callback
  abbrev pub after_callback : Iterator S E → Option E × S → Option E × Iterator S E
  after_callback iter (none, state) = (none, record iter { state = state })
  after_callback iter (some item, state) = (
    some item,
    record iter {
      state = state;
      size_hint = if ltb 0 iter.size_hint then iter.size_hint - 1 else iter.size_hint;
    },
  )

  -- `k4c_iterator_next`
  unfoldable pub iterator_next : Iterator S E → Option E × Iterator S E
  iterator_next iter = after_callback iter (iter.next iter.state)

  -- one item before those of `further`, or none
  abbrev item_before : (Iterator S E → List E) → Option E × Iterator S E → List E
  item_before further (none, iter) = []
  item_before further (some item, iter) = item ∷ further iter

  -- The items that the next `fuel` calls of `iterator_next` give, up to the first NULL.
  abbrev pub drain : ℕ → Iterator S E → List E
  drain zero iter = []
  drain (suc fuel) iter = item_before (λ rest. drain fuel rest) (iterator_next iter)

  pub drain-some :
      (fuel : ℕ) (iter : Iterator S E) {rest : Iterator S E} {x : E}
      → iterator_next iter ≡ (some x, rest)
      → drain (suc fuel) iter ≡ x ∷ drain fuel rest
  drain-some fuel iter e = ap (item_before (λ rest. drain fuel rest)) e

  pub drain-none :
      (fuel : ℕ) (iter : Iterator S E) {rest : Iterator S E}
      → iterator_next iter ≡ (none, rest)
      → drain (suc fuel) iter ≡ []
  drain-none fuel iter e = ap (item_before (λ rest. drain fuel rest)) e
