-- ===== src/Deque/Iterate.antt =====
-- The iterator of a deque visits the elements from the left end to the right end.
use k4c.Base.{
  ℕ, zero, suc, ◌+◌, ◌-◌, ◌%◌, ◌^◌, ◌≤◌, ◌<◌, ◌≡◌, refl, sym, arith, ◌==◌, ltb, bit_and,
  if◌then◌else◌, true, false, none, some, ◌∷◌, get_elem?-get_or, length, ap, ap₂, ◌∙◌, Returns,
}
use k4c.Base.Bits.{bit_and-low_mask}
use native.Mathlib.Nat.{mod_self, mod-lt}
use k4c.Size.{sub_size, add_size}
use k4c.Iterator.{Iterator, after_callback, iterator_next, drain, drain-some, drain-none}
use k4c.Deque.{Deque, DequeIteratorState, deque_iterator_next, get_iterator}
use k4c.Deque.Valid.{
  IsValid, tabulate, tabulate-suc, tabulate_congr, length-tabulate, item, contents,
}

-- the mask of a capacity that is a power of two takes an index round the ring
mask-mod :
    {W E : Type 0} {d : Deque W E}
    → IsValid d
    → (i : ℕ) → bit_and i (sub_size d.capacity 1) ≡ i % d.capacity
mask-mod {d} v i =
    let (k, small, e) = v.power in
    let less : sub_size d.capacity 1 ≡ 2 ^ k - 1 = omega (arith, v.room, v.small, e) in
    rw (less, bit_and-low_mask k i, e) refl

module _ {W E : Type 0} (junk : E) {d : Deque W E} (v : IsValid d) where
  abbrev state : ℕ → ℕ → DequeIteratorState E
  state index remaining = record {
    storage = d.cells;
    index = index;
    mask = sub_size d.capacity 1;
    remaining = remaining;
  }

  abbrev running : ℕ → ℕ → ℕ → Iterator (DequeIteratorState E) E
  running hint index remaining = record {
    next = deque_iterator_next;
    size_hint = hint;
    state = state index remaining;
  }

  -- the size hint after another item
  abbrev lowered : ℕ → ℕ
  lowered hint = if ltb 0 hint then hint - 1 else hint

  item_at :
      (i n : ℕ)
      → i < d.size
      → deque_iterator_next (state (d.head + i) (suc n))
        ≡ (some (item junk d i), state (d.head + suc i) n)
  unfolding deque_iterator_next
  item_at i n h =
      let more : (suc n == 0) ≡ false = ground arith in
      let one : suc n - 1 ≡ n = omega arith in
      let next : add_size (d.head + i) 1 ≡ d.head + suc i =
        omega (arith, v.small, v.head_in, v.within) in
      let stored =
        get_elem?-get_or d.cells ((d.head + i) % d.capacity) junk
          (omega (arith, v.stored, mod-lt (d.head + i) (v.room))) in
      rw (more, one, next, mask-mod v (d.head + i), stored) refl

  iterator_next-some :
      (hint i n : ℕ)
      → i < d.size
      → iterator_next (running hint (d.head + i) (suc n))
        ≡ (some (item junk d i), running (lowered hint) (d.head + suc i) n)
  unfolding iterator_next
  iterator_next-some hint i n h =
      ap (after_callback (running hint (d.head + i) (suc n))) (item_at i n h)

  iterator_next-none :
      (hint index : ℕ) → iterator_next (running hint index 0) ≡ (none, running hint index 0)
  unfolding iterator_next deque_iterator_next
  iterator_next-none hint index = refl

  drain-running :
      (n hint i : ℕ)
      → i + n ≤ d.size
      → drain (suc n) (running hint (d.head + i) n) ≡ tabulate (λ j. item junk d (i + j)) n
  drain-running zero hint i h =
      drain-none 0 (running hint (d.head + i) 0) (iterator_next-none hint (d.head + i))
  drain-running (suc n) hint i h =
      let start : i + 0 ≡ i = omega arith in
      drain-some (suc n) (running hint (d.head + i) (suc n))
        (iterator_next-some hint i n (omega arith))
      ∙ ap₂ ◌∷◌ (ap (item junk d) (sym start)) (
          drain-running n (lowered hint) (suc i) (omega arith)
          ∙ tabulate_congr _ _ n (λ j p. ap (item junk d) (omega arith)))
      ∙ sym (tabulate-suc (λ j. item junk d (i + j)) n)

  -- On a valid deque the assertion on the capacity holds; the calls of `iterator_next` on the
  -- iterator give the elements from the left end to the right end and then NULL, and the size hint
  -- at the start is their number.
  pub drain-get_iterator : Returns (get_iterator d) λ iter.
      (drain (d.size + 1) iter ≡ contents junk d) × (iter.size_hint ≡ length (contents junk d))
  unfolding get_iterator
  drain-get_iterator =
      let power : (bit_and d.capacity (sub_size d.capacity 1) == 0) ≡ true =
        rw (mask-mod v d.capacity, mod_self d.capacity) refl in
      let calls : d.size + 1 ≡ suc d.size = omega arith in
      let start : d.head + 0 ≡ d.head = omega arith in
      let visits : drain (suc d.size) (running d.size d.head d.size) ≡ contents junk d =
        ap (λ h. drain (suc d.size) (running d.size h d.size)) (sym start)
        ∙ drain-running d.size d.size 0 (omega arith)
        ∙ tabulate_congr _ _ d.size (λ j p. ap (item junk d) (omega arith)) in
      rw power (_, refl, (rw calls visits, sym (length-tabulate (item junk d) d.size)))
