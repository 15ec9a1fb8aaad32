-- ===== src/Vector/Iterate.antt =====
-- The iterator of a vector visits its elements in order.
use k4c.Base.{
  ℕ, zero, suc, ◌+◌, ◌-◌, ◌≤◌, ◌≡◌, refl, arith, ◌==◌, if◌then◌else◌, false, none, some, List, ◌∷◌,
  ap, ◌∙◌, ltb, length, get_elem?, get_elem?-some, take, drop, drop-cons,
}
use k4c.Iterator.{Iterator, after_callback, iterator_next, drain, drain-some, drain-none}
use k4c.Vector.{Vector, VectorIteratorState, vector_iterator_next, get_iterator}
use k4c.Vector.Valid.{IsValid, contents, length-contents}

module _ {E : Type 0} (storage : List E) where
  abbrev running : ℕ → ℕ → ℕ → Iterator (VectorIteratorState E) E
  running hint cursor remaining = record {
    next = vector_iterator_next;
    size_hint = hint;
    state = record { storage = storage; cursor = cursor; remaining = remaining };
  }

  -- the size hint after another item
  abbrev lowered : ℕ → ℕ
  lowered hint = if ltb 0 hint then hint - 1 else hint

  item_at :
      (cursor n : ℕ) {x : E}
      → get_elem? storage cursor ≡ some x
      → vector_iterator_next (record { storage = storage; cursor = cursor; remaining = suc n })
        ≡ (some x, record { storage = storage; cursor = cursor + 1; remaining = suc n - 1 })
  unfolding vector_iterator_next
  item_at cursor n e = let more : (suc n == 0) ≡ false = ground arith in rw (more, e) refl

  iterator_next-some :
      (hint cursor n : ℕ) {x : E}
      → get_elem? storage cursor ≡ some x
      → iterator_next (running hint cursor (suc n))
        ≡ (some x, running (lowered hint) (cursor + 1) (suc n - 1))
  unfolding iterator_next
  iterator_next-some hint cursor n {x} e =
      ap (after_callback (running hint cursor (suc n))) (item_at cursor n e)

  iterator_next-none :
      (hint cursor : ℕ) → iterator_next (running hint cursor 0) ≡ (none, running hint cursor 0)
  unfolding iterator_next vector_iterator_next
  iterator_next-none hint cursor = refl

  drain-running :
      (n hint cursor : ℕ)
      → cursor + n ≤ length storage
      → drain (suc n) (running hint cursor n) ≡ take n (drop cursor storage)
  drain-running zero hint cursor h =
      drain-none 0 (running hint cursor 0) (iterator_next-none hint cursor)
  drain-running (suc n) hint cursor h =
      let (x, e) = get_elem?-some storage cursor (omega arith) in
      let one : suc n - 1 ≡ n = omega arith in
      let next : cursor + 1 ≡ suc cursor = omega arith in
      drain-some (suc n) (running hint cursor (suc n)) (iterator_next-some hint cursor n e)
      ∙ rw (drop-cons storage cursor e, one, next)
          (ap (◌∷◌ x) (drain-running n (lowered hint) (suc cursor) (omega arith)))

-- On a valid vector, the calls of `iterator_next` on its iterator give its elements in order and
-- then NULL, and the size hint at the start is their number.
pub get_iterator-contents :
    {W E : Type 0} {v : Vector W E}
    → IsValid v
    → (drain (v.size + 1) (get_iterator v) ≡ contents v)
      × ((get_iterator v).size_hint ≡ length (contents v))
unfolding get_iterator
get_iterator-contents {v} valid =
    let calls : v.size + 1 ≡ suc v.size = omega arith in
    (
      rw calls (drain-running v.cells v.size v.size 0 (omega (arith, valid.stored, valid.within))),
      omega (arith, length-contents valid),
    )
