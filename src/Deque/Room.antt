-- ===== src/Deque/Room.antt =====
-- Growth of a deque, and what `push` and `pushfront` do to its list.
use k4c.Base.{
  ℕ, zero, suc, ◌+◌, ◌-◌, ◌*◌, ◌/◌, ◌^◌, ◌≤◌, ◌<◌, ◌≡◌, refl, ◌⊎◌, inl, inr, arith, ltb, leb, ◌==◌,
  bit_and, Bool-cases, true, false, some, List, [], ◌∷◌, ◌++◌, ap, ◌∙◌, done, Returns,
  and_then-Returns,
}
use k4c.Base.Bits.{bit_and-low_mask, power_bound, power_small}
use native.Mathlib.Nat.{pow-suc, mod_self, mul-pos, one-le-pow}
use k4c.Size.{size_max, sub_size}
use k4c.Size.Checked.{size_add_overflow_lem, size_mul_overflow_lem}
use k4c.Status.{Status, ok, overflow, is_ok}
use k4c.Allocator.{Libc}
use k4c.Allocator.Lawful.{Lawful, Obtains-cases}
use k4c.Deque.{
  Deque, grow_loop, capacity_grow, grow_to, grow, make_room, push, pushfront, store_back,
  store_front, when_ok,
}
use k4c.Deque.Valid.{IsPower, IsValid, contents}
use k4c.Deque.Ends.{
  store_back-IsValid, contents-store_back, store_front-IsValid, contents-store_front,
}
use k4c.Deque.Unroll.{enlarged-IsValid, contents-enlarged}

-- how the growth may end: a larger power of two, or a requirement above the largest one
abbrev pub Grows : ℕ → ℕ → Status × ℕ → Type 0
Grows capacity min_capacity r =
    ((r.0 ≡ ok) × IsPower r.1 × (min_capacity ≤ r.1) × (capacity ≤ r.1) × (r.1 ≤ 2 ^ 63))
    ⊎ ((r.0 ≡ overflow) × (2 ^ 63 < min_capacity))

grow_loop-Grows :
    (fuel k c min_capacity : ℕ)
    → k < 64
    → c ≡ 2 ^ k
    → 64 - k < fuel
    → Returns (grow_loop fuel c min_capacity) (Grows c min_capacity)
unfolding grow_loop
grow_loop-Grows zero k c m hk e f = absurd (omega arith)
grow_loop-Grows (suc fuel) k c m hk e f =
    let bound = power_bound k hk in
    elim (Bool-cases (ltb c m)) [
      | inr p ↦ rw p (_, refl, inl (refl, (k, hk, e), ground arith, omega arith, omega arith))
      | inl p ↦ elim (Bool-cases (ltb (size_max / 2) c)) [
        | inl q ↦ rw (p, q) (_, refl, inr (refl, ground arith))
        | inr q ↦
            let double : c * 2 ≡ 2 ^ suc k = omega (arith, pow-suc 2 k) in
            let next = power_small k hk (ground arith) in
            let (r, run, g) = grow_loop-Grows fuel (suc k) (c * 2) m next double (omega arith) in
            rw (p, q) (r, run, ground arith)
      ]
    ]

-- From a capacity that is a power of two the growth returns. It gives a power of two that is at least
-- the requirement and the old capacity, or reports an overflow, and that only for a requirement
-- above 2^63.
pub capacity_grow-Grows :
    (capacity min_capacity : ℕ)
    → IsPower capacity
    → Returns (capacity_grow capacity min_capacity) (Grows capacity min_capacity)
unfolding capacity_grow
capacity_grow-Grows c m (k, hk, e) =
    let bound = power_bound k hk in
    let positive : 1 ≤ 2 ^ k = one-le-pow k 2 (omega arith) in
    let mask : sub_size c 1 ≡ 2 ^ k - 1 = omega arith in
    let power_bit : (bit_and c (sub_size c 1) == 0) ≡ true =
      rw (mask, e, bit_and-low_mask, mod_self) refl in
    let (r, run, g) = grow_loop-Grows 65 k c m hk e (omega arith) in
    elim (Bool-cases (leb m c)) [
      | inl p ↦
          rw (power_bit, p)
            (_, refl, inl (refl, (k, hk, e), ground arith, omega arith, omega arith))
      | inr p ↦ rw (power_bit, p) (r, run, g)
    ]

-- a call that keeps the elements: it succeeds with room for one more, or fails and changes nothing
pub record Keeps {W E : Type 0} (junk : E) (d : Deque W E) (r : Status × Deque W E) : Type 0 where
  pub valid : IsValid r.1
  pub same : contents junk r.1 ≡ contents junk d
  pub outcome : ((r.0 ≡ ok) × (r.1.size < r.1.capacity)) ⊎ ((is_ok r.0 ≡ false) × (r.1 ≡ d))

module _ {W E : Type 0} (libc : Libc W) (junk : E) (count : W → ℕ) (limit : ℕ) where
  unchanged : {d : Deque W E} (st : Status) → IsValid d → is_ok st ≡ false → Keeps junk d (st, d)
  unchanged st v e = record { valid = v; same = refl; outcome = inr (e, refl) }

  grow_to-Keeps :
      {d : Deque W E} (n : ℕ) (w : W)
      → Lawful libc (some d.allocator) count limit
      → count w < limit
      → IsValid d
      → IsPower n
      → d.size < n
      → d.capacity ≤ n
      → n ≤ 2 ^ 63
      → Returns (grow_to libc junk d n w) (λ r. Keeps junk d r.0 × (count r.1 ≡ count w))
  unfolding grow_to
  grow_to-Keeps {d} n w lawful room v power free larger small =
      rw (size_mul_overflow_lem n d.elem_size (omega arith), grow_to)
        (elim (Bool-cases (leb (n * d.elem_size) size_max)) [
          | inr over ↦ rw over (_, refl, (unchanged overflow v refl, refl))
          | inl fits ↦ rw fits (
              and_then-Returns
                (lawful.alloc_law (n * d.elem_size) w (mul-pos (omega arith) v.sized) room)
                λ r o. elim (Obtains-cases (count w) (count r.1) r.0 o) [
                  | inr (st, c) ↦ rw st (_, refl, (unchanged r.0.0 v (rw st refl), c))
                  | inl (st, (p, ptr), c) ↦ rw st (
                      and_then-Returns (lawful.dealloc_law d.buffer r.1 v.buffer) λ s f. (
                        _,
                        refl,
                        (
                          record {
                            valid =
                                enlarged-IsValid libc junk r.0.1 n v power free small (ground arith)
                                  (λ e. cc);
                            same = contents-enlarged libc junk r.0.1 n v larger;
                            outcome = inl (refl, free);
                          },
                          omega arith,
                        ),
                      ))
                ])
        ])

  -- growth from a full deque, given what `capacity_grow` returns
  grow_grown :
      {d : Deque W E} (w : W) (r : Status × ℕ)
      → Lawful libc (some d.allocator) count limit
      → count w < limit
      → IsValid d
      → capacity_grow d.capacity (d.size + 1) ≡ done r
      → Grows d.capacity (d.size + 1) r
      → Returns (grow libc junk d w) (λ s. Keeps junk d s.0 × (count s.1 ≡ count w))
  unfolding grow
  grow_grown {d} w r lawful room v run g =
      let sum = size_add_overflow_lem d.size 1 (omega (arith, v.within, v.small)) (omega arith) in
      let fits : leb (d.size + 1) size_max ≡ true = ground (arith, v.within, v.small) in
      elim g [
        | inl (st, power, enough, larger, small) ↦
            rw (sum, fits, run, st, grow)
              (grow_to-Keeps r.1 w lawful room v power (omega arith) larger small)
        | inr (st, over) ↦
            rw (sum, fits, run, st, grow) (_, refl, (unchanged overflow v refl, refl))
      ]

  make_room-Keeps :
      {d : Deque W E} (w : W)
      → Lawful libc (some d.allocator) count limit
      → count w < limit
      → IsValid d
      → Returns (make_room libc junk d w) (λ r. Keeps junk d r.0 × (count r.1 ≡ count w))
  unfolding make_room
  make_room-Keeps {d} w lawful room v =
      let positive : (d.capacity == 0) ≡ false = ground (arith, v.room) in
      let (r, run, g) = capacity_grow-Grows d.capacity (d.size + 1) v.power in
      elim (Bool-cases (d.size == d.capacity)) [
        | inl e ↦ rw (positive, e) (grow_grown w r lawful room v run g)
        | inr e ↦
            rw (positive, e)
              (
                _,
                refl,
                (
                  record { valid = v; same = refl; outcome = inl (refl, ground (arith, v.within)) },
                  refl,
                ),
              )
      ]

  -- A push leaves a valid deque that holds `grown`, or fails and changes nothing.
  abbrev pub Pushes : Deque W E → List E → Status × Deque W E → Type 0
  Pushes d grown r =
      IsValid r.1 × (((r.0 ≡ ok) × (contents junk r.1 ≡ grown)) ⊎ ((is_ok r.0 ≡ false) × (r.1 ≡ d)))

  store_back-Pushes :
      {d : Deque W E} (x : E) (r : Status × Deque W E)
      → Keeps junk d r
      → Pushes d (contents junk d ++ x ∷ []) (when_ok (λ roomy. store_back roomy x) r)
  store_back-Pushes x (st, d') k = elim (k.outcome) [
    | inl (e, free) ↦ rw e (
      store_back-IsValid junk x k.valid free,
      inl (refl, contents-store_back junk x k.valid free ∙ ap (λ l. l ++ x ∷ []) k.same),
    )
    | inr (e, f) ↦ rw e (k.valid, inr (e, f))
  ]

  store_front-Pushes :
      {d : Deque W E} (x : E) (r : Status × Deque W E)
      → Keeps junk d r
      → Pushes d (x ∷ contents junk d) (when_ok (λ roomy. store_front roomy x) r)
  store_front-Pushes x (st, d') k = elim (k.outcome) [
    | inl (e, free) ↦ rw e (
      store_front-IsValid junk x k.valid free,
      inl (refl, contents-store_front junk x k.valid free ∙ ap (◌∷◌ x) k.same),
    )
    | inr (e, f) ↦ rw e (k.valid, inr (e, f))
  ]

  -- On a valid deque whose allocator keeps its contract, `push` returns: it appends the element at
  -- the right end, or reports an error and changes nothing. The deque stays valid, and no block leaks.
  pub push-Appends :
      {d : Deque W E} (x : E) (w : W)
      → Lawful libc (some d.allocator) count limit
      → count w < limit
      → IsValid d
      → Returns
          (push libc junk d x w)
          (λ r. Pushes d (contents junk d ++ x ∷ []) r.0 × (count r.1 ≡ count w))
  unfolding push
  push-Appends x w lawful room v =
      and_then-Returns (make_room-Keeps w lawful room v)
        λ r k. (_, refl, (store_back-Pushes x r.0 k.0, k.1))

  -- On a valid deque whose allocator keeps its contract, `pushfront` returns: it puts the element at
  -- the left end, or reports an error and changes nothing. The deque stays valid, and no block leaks.
  pub pushfront-Prepends :
      {d : Deque W E} (x : E) (w : W)
      → Lawful libc (some d.allocator) count limit
      → count w < limit
      → IsValid d
      → Returns
          (pushfront libc junk d x w)
          (λ r. Pushes d (x ∷ contents junk d) r.0 × (count r.1 ≡ count w))
  unfolding pushfront
  pushfront-Prepends x w lawful room v =
      and_then-Returns (make_room-Keeps w lawful room v)
        λ r k. (_, refl, (store_front-Pushes x r.0 k.0, k.1))
