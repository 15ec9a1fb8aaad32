-- ===== src/Deque/Peek.antt =====
-- Looking at the ends of a deque gives what taking from them gives.
use k4c.Base.{◌≡◌, refl, inl, inr, ◌==◌, false, arith, Returns, Bool-cases}
use k4c.Deque.{Deque, peekleft, peekback, popleft, popback}
use k4c.Deque.Valid.{IsValid}

module _ {W E : Type 0} where
  -- On a valid deque `peekleft` gives what `popleft` would return, and `peekback` what `popback`
  -- would.
  pub peek-pop :
      {d : Deque W E}
      → IsValid d
      → Returns (popleft d) (λ r. peekleft d ≡ r.0) × Returns (popback d) (λ r. peekback d ≡ r.0)
  unfolding popleft popback peekleft peekback
  peek-pop {d} v =
      let positive : (d.capacity == 0) ≡ false = ground (arith, v.room) in
      elim (Bool-cases (d.size == 0)) [
        | inl e ↦ rw (positive, e) ((_, refl, refl), (_, refl, refl))
        | inr e ↦ rw (positive, e) ((_, refl, refl), (_, refl, refl))
      ]
