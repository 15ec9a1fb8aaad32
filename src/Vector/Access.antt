-- ===== src/Vector/Access.antt =====
-- `get`, `pop` and `swap_remove` on the list that a vector stands for.
use k4c.Base.{
  ℕ, suc, ◌+◌, ◌-◌, ◌<◌, ◌≡◌, refl, ◌⊎◌, inl, inr, arith, Option, none, some, List, [], ◌∷◌, ◌++◌,
  take, get_elem?, set, leb, ◌==◌, if◌then◌else◌, Bool-cases, false, get_elem?-take, get_elem?-none,
  get_elem?-some, take-suc, get_elem?-set, ◌∙◌, ap,
}
use k4c.Vector.{Vector, get, pop, swap_remove}
use k4c.Vector.Valid.{IsValid, contents, length-contents}

module _ {W E : Type 0} where
  -- On a valid vector `get` at any index reads the list of the elements, and gives NULL past its end.
  pub get-contents :
      {v : Vector W E} (index : ℕ) → IsValid v → get v index ≡ get_elem? (contents v) index
  unfolding get
  get-contents {v} i valid = elim (Bool-cases (leb v.size i)) [
    | inl e ↦ rw (e, get_elem?-none (contents v) i (ground (arith, length-contents valid)))
    | inr e ↦ rw (e, get_elem?-take v.size v.cells i (ground arith))
  ]

  -- What `pop` does: nothing on an empty vector, and else the last element goes.
  abbrev pub Pops : Vector W E → Option E × Vector W E → Type 0
  Pops v r =
      ((contents v ≡ []) × (r.0 ≡ none) × (r.1 ≡ v))
      ⊎ ((x : E) × (r.0 ≡ some x) × (contents v ≡ contents r.1 ++ x ∷ []) × IsValid r.1)

  -- On a valid vector `pop` gives NULL and changes nothing if there is no element; otherwise it gives
  -- the last element, and what remains is valid and holds the others in order.
  pub pop-Pops : {v : Vector W E} → IsValid v → Pops v (pop v)
  unfolding pop
  pop-Pops {v} valid = elim (Bool-cases (v.size == 0)) [
    | inl e ↦
        let empty : v.size ≡ 0 = ground arith in
        rw e (inl (ap (λ n. take n v.cells) empty, refl, refl))
    | inr e ↦
        let n = v.size - 1 in
        let more : v.size ≡ suc n = ground arith in
        let (x, item) = get_elem?-some v.cells n (omega arith) in
        rw e (inr (x, item, ap (λ k. take k v.cells) more ∙ take-suc n v.cells item, ground arith))
  ]

  -- On a valid vector and an index in range, `swap_remove` gives the old last element, which is what
  -- the slot holds afterwards; the vector stays valid with one element less, and the others stay
  -- in place except that the last one stands at the index.
  pub swap_remove-contents :
      {v : Vector W E} (index j : ℕ)
      → IsValid v
      → index < v.size
      → j + 1 < v.size
      → let (item, v') = swap_remove v index in
        let last = get_elem? (contents v) (v.size - 1) in
        (item ≡ last)
        × (v'.size + 1 ≡ v.size)
        × (get_elem? (contents v') j ≡ (if index == j then last else get_elem? (contents v) j))
  unfolding swap_remove
  swap_remove-contents {v} i j valid h hj =
      let n = v.size - 1 in
      let (x, item) = get_elem?-some v.cells n (omega arith) in
      let inside : leb v.size i ≡ false = ground arith in
      let last : get_elem? (contents v) n ≡ some x =
        get_elem?-take v.size v.cells n (omega arith) ∙ item in
      let same : get_elem? (contents v) j ≡ get_elem? v.cells j =
        get_elem?-take v.size v.cells j (omega arith) in
      let kept = λ (cells : List E). get_elem?-take n cells j (omega arith) in
      rw (inside, last, same)
        (elim (Bool-cases (i == n)) [
          | inl e ↦ rw e (
            let at : i ≡ n = ground arith in ap (get_elem? v.cells) at ∙ item,
            omega arith,
            ground (arith, kept v.cells),
          )
          | inr e ↦
              rw (e, item)
                (
                  ground (arith, get_elem?-set v.cells i i x),
                  omega arith,
                  ground (arith, kept (set v.cells i x), get_elem?-set v.cells i j x),
                )
        ])
