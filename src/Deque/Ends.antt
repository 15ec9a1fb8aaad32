-- ===== src/Deque/Ends.antt =====
-- The stores at both ends of a deque, on the list that it stands for.
use k4c.Base.{
  ℕ, suc, ◌+◌, ◌-◌, ◌%◌, ◌<◌, ◌≡◌, ◌≢◌, refl, sym, ◌⊎◌, inl, inr, arith, ◌==◌, Bool-cases, Option,
  none, some, [], ◌∷◌, ◌++◌, length, get_or, get_elem?, set, ap, ap₂, ◌∙◌, get_or-set_self,
  get_or-set_ne, get_elem?-get_or, length-set, Returns, false,
}
use k4c.Size.{add_size}
use k4c.Deque.{Deque, before, after, store_back, store_front, popleft, popback}
use k4c.Deque.Valid.{
  IsValid, tabulate, tabulate_congr, tabulate-suc, ring_index, item, contents, before_index,
  after_index,
}

module _ {W E : Type 0} (junk : E) where
  -- different elements stand in different cells
  item_apart :
      {d : Deque W E} (i j : ℕ)
      → IsValid d
      → i < j
      → j < d.capacity
      → (d.head + i) % d.capacity ≢ (d.head + j) % d.capacity
  item_apart {d} i j v h hj = ground (
    arith,
    ring_index d.head i d.capacity v.head_in (omega arith),
    ring_index d.head j d.capacity v.head_in (omega arith),
  )

  pub store_back-IsValid :
      {d : Deque W E} (x : E) → IsValid d → d.size < d.capacity → IsValid (store_back d x)
  unfolding store_back
  store_back-IsValid {d} x v h = ground (
    arith,
    length-set d.cells d.tail x,
    after_index d.tail v (omega (arith, v.tail_at)),
    ring_index d.head d.size d.capacity v.head_in v.within,
    ring_index d.head (d.size + 1) d.capacity v.head_in (omega arith),
  )

  pub contents-store_back :
      {d : Deque W E} (x : E)
      → IsValid d
      → d.size < d.capacity
      → contents junk (store_back d x) ≡ contents junk d ++ x ∷ []
  unfolding store_back
  contents-store_back {d} x v h =
      let next : add_size d.size 1 ≡ suc d.size = omega (arith, v.small) in
      let at_tail : d.tail < length d.cells = omega (arith, v.tail_at, v.stored) in
      let written : get_or (set d.cells d.tail x) ((d.head + d.size) % d.capacity) junk ≡ x =
        rw (← v.tail_at) (get_or-set_self d.cells d.tail x junk at_tail) in
      ap (tabulate (item junk (store_back d x))) next
      ∙ ap₂ (λ l y. l ++ y ∷ [])
          (tabulate_congr _ _ d.size λ i p.
            get_or-set_ne d.cells d.tail ((d.head + i) % d.capacity) x junk
              (λ e. item_apart i d.size v p h (sym e ∙ v.tail_at)))
          written

  pub store_front-IsValid :
      {d : Deque W E} (x : E) → IsValid d → d.size < d.capacity → IsValid (store_front d x)
  unfolding store_front
  store_front-IsValid {d} x v h = ground (
    arith,
    length-set d.cells (before d d.head) x,
    before_index d.head v v.head_in,
    ring_index d.head d.size d.capacity v.head_in v.within,
    ring_index (before d d.head) (d.size + 1) d.capacity,
  )

  pub contents-store_front :
      {d : Deque W E} (x : E)
      → IsValid d
      → d.size < d.capacity
      → contents junk (store_front d x) ≡ x ∷ contents junk d
  unfolding store_front
  contents-store_front {d} x v h =
      let next : add_size d.size 1 ≡ suc d.size = omega (arith, v.small) in
      let b = before d d.head in
      let c = d.capacity in
      let at = before_index d.head v v.head_in in
      let inside : b < c = ground (arith, at) in
      let start : (b + 0) % c ≡ b = ground (arith, ring_index b 0 c) in
      let stored : b < length d.cells = omega (arith, v.stored) in
      ap (tabulate (item junk (store_front d x))) next
      ∙ tabulate-suc (item junk (store_front d x)) d.size
      ∙ ap₂ ◌∷◌
          (ap (λ k. get_or (set d.cells b x) k junk) start
            ∙ get_or-set_self d.cells b x junk stored)
          (tabulate_congr _ _ d.size λ i p. shifted i p)
    where
      shifted : (i : ℕ) → i < d.size → item junk (store_front d x) (suc i) ≡ item junk d i
      shifted i p =
          let b = before d d.head in
          let c = d.capacity in
          let at = before_index d.head v v.head_in in
          let old = ring_index d.head i c v.head_in (omega arith) in
          let same : (b + suc i) % c ≡ (d.head + i) % c =
            ground (arith, at, old, ring_index b (suc i) c) in
          let apart : b ≢ (d.head + i) % c = ground (arith, at, old) in
          ap (λ k. get_or (set d.cells b x) k junk) same
          ∙ get_or-set_ne d.cells b ((d.head + i) % c) x junk apart

  -- What `popleft` does: nothing on an empty deque, and else the leftmost element goes.
  abbrev pub PopsLeft : Deque W E → Option E × Deque W E → Type 0
  PopsLeft d r =
      ((contents junk d ≡ []) × (r.0 ≡ none) × (r.1 ≡ d))
      ⊎ ((x : E) × (r.0 ≡ some x) × (contents junk d ≡ x ∷ contents junk r.1) × IsValid r.1)

  -- What `popback` does: nothing on an empty deque, and else the rightmost element goes.
  abbrev pub PopsBack : Deque W E → Option E × Deque W E → Type 0
  PopsBack d r =
      ((contents junk d ≡ []) × (r.0 ≡ none) × (r.1 ≡ d))
      ⊎ ((x : E) × (r.0 ≡ some x) × (contents junk d ≡ contents junk r.1 ++ x ∷ []) × IsValid r.1)

  -- On a valid deque `popleft` returns. It gives NULL and changes nothing if there is no element;
  -- otherwise it gives the leftmost element, and what remains is valid and holds the others.
  pub popleft-PopsLeft : {d : Deque W E} → IsValid d → Returns (popleft d) (PopsLeft d)
  unfolding popleft
  popleft-PopsLeft {d} v =
      let positive : (d.capacity == 0) ≡ false = ground (arith, v.room) in
      elim (Bool-cases (d.size == 0)) [
        | inl e ↦
            let empty : d.size ≡ 0 = ground arith in
            rw (positive, e) (_, refl, inl (ap (tabulate (item junk d)) empty, refl, refl))
        | inr e ↦
            let n = d.size - 1 in
            let more : d.size ≡ suc n = ground arith in
            let at = after_index d.head v v.head_in in
            let last = ring_index d.head d.size d.capacity v.head_in v.within in
            let stored : d.head < length d.cells = omega (arith, v.stored, v.head_in) in
            let start : (d.head + 0) % d.capacity ≡ d.head =
              ground (arith, ring_index d.head 0 d.capacity v.head_in) in
            rw (positive, e)
              (
                _,
                refl,
                inr (
                  get_or d.cells d.head junk,
                  get_elem?-get_or d.cells d.head junk stored,
                  ap (tabulate (item junk d)) more
                      ∙ tabulate-suc (item junk d) n
                      ∙ ap₂ ◌∷◌ (ap (λ k. get_or d.cells k junk) start) (
                          tabulate_congr _ _ n λ i p.
                            ap (λ k. get_or d.cells k junk)
                              (ground (
                                arith,
                                at,
                                ring_index d.head (suc i) d.capacity v.head_in
                                    (omega (arith, v.within)),
                                ring_index (after d d.head) i d.capacity,
                              ))),
                  ground (arith, at, last, ring_index (after d d.head) n d.capacity),
                ),
              )
      ]

  -- On a valid deque `popback` returns. It gives NULL and changes nothing if there is no element;
  -- otherwise it gives the rightmost element, and what remains is valid and holds the others.
  pub popback-PopsBack : {d : Deque W E} → IsValid d → Returns (popback d) (PopsBack d)
  unfolding popback
  popback-PopsBack {d} v =
      let positive : (d.capacity == 0) ≡ false = ground (arith, v.room) in
      elim (Bool-cases (d.size == 0)) [
        | inl e ↦
            let empty : d.size ≡ 0 = ground arith in
            rw (positive, e) (_, refl, inl (ap (tabulate (item junk d)) empty, refl, refl))
        | inr e ↦
            let n = d.size - 1 in
            let more : d.size ≡ suc n = ground arith in
            let full = ring_index d.head d.size d.capacity v.head_in v.within in
            let last = ring_index d.head n d.capacity v.head_in (omega (arith, v.within)) in
            let tail_in : d.tail < d.capacity = ground (arith, full, v.tail_at) in
            let at : before d d.tail ≡ (d.head + n) % d.capacity =
              ground (arith, full, last, v.tail_at, before_index d.tail v tail_in) in
            let stored : (d.head + n) % d.capacity < length d.cells =
              ground (arith, v.stored, last) in
            rw (positive, e)
              (
                _,
                refl,
                inr (
                  item junk d n,
                  ap (get_elem? d.cells) at ∙ get_elem?-get_or d.cells _ junk stored,
                  ap (tabulate (item junk d)) more,
                  ground (arith, at),
                ),
              )
      ]
