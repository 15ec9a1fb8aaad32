-- ===== src/Vector/Room.antt =====
-- `reserve` and `push`, under an allocator that keeps its contract.
use k4c.Base.{
  ap, ◌∙◌, ℕ, ◌+◌, ◌-◌, ◌*◌, ◌≤◌, ◌<◌, ◌≡◌, refl, ◌⊎◌, inl, inr, arith, true, false, some, ◌++◌, [],
  ◌∷◌, leb, ◌==◌, done, Returns, and_then-Returns, Bool-cases, take-append, replicate,
}
use native.Mathlib.Nat.{mul-pos}
use k4c.Size.{size_max}
use k4c.Size.Checked.{size_mul_overflow_lem, size_add_overflow_lem}
use k4c.Status.{Status, ok, overflow, is_ok}
use k4c.Allocator.{Libc}
use k4c.Allocator.Lawful.{Lawful, Moves-cases}
use k4c.Vector.{Vector, capacity_grow, enlarged, reserve, make_room, push, store_element}
use k4c.Vector.Grow.{capacity_grow-Returns}
use k4c.Vector.Valid.{IsValid, contents, length-resized, append_cell-IsValid, contents-append_cell}

-- a call that keeps the elements: it succeeds with room for `capacity`, or fails and changes nothing
pub record Keeps {W E : Type 0} (v : Vector W E) (capacity : ℕ) (r : Status × Vector W E)
    : Type 0 where
  pub valid : IsValid r.1
  pub same : contents r.1 ≡ contents v
  pub size : r.1.size ≡ v.size
  pub owner : r.1.allocator ≡ v.allocator
  pub elem_size : r.1.elem_size ≡ v.elem_size
  pub outcome : ((r.0 ≡ ok) × (capacity ≤ r.1.capacity)) ⊎ ((is_ok r.0 ≡ false) × (r.1 ≡ v))

module _ {W E : Type 0} (libc : Libc W) (junk : E) (count : W → ℕ) (limit : ℕ) where
  enlarged-Keeps :
      {v : Vector W E} (p capacity : ℕ)
      → IsValid v
      → v.capacity ≤ capacity
      → capacity ≤ size_max
      → capacity * v.elem_size ≤ size_max
      → Keeps v capacity (ok, enlarged libc junk v (some p) capacity)
  enlarged-Keeps {v} p capacity valid h small bytes = record {
    valid = ground (arith, length-resized junk v.cells v.capacity capacity);
    same = take-append v.size v.cells (replicate (capacity - v.capacity) junk) (omega arith);
    size = refl;
    owner = refl;
    elem_size = refl;
    outcome = inl (refl, omega arith);
  }

  unchanged-Keeps :
      {v : Vector W E} (st : Status) (capacity : ℕ)
      → IsValid v
      → is_ok st ≡ false
      → Keeps v capacity (st, v)
  unchanged-Keeps st capacity valid e = record {
    valid = valid;
    same = refl;
    size = refl;
    owner = refl;
    elem_size = refl;
    outcome = inr (e, refl);
  }

  pub reserve-Keeps :
      {v : Vector W E} (capacity : ℕ) (w : W)
      → Lawful libc (some v.allocator) count limit
      → IsValid v
      → capacity ≤ size_max
      → Returns (reserve libc junk v capacity w) (λ r. Keeps v capacity r.0 × (count r.1 ≡ count w))
  unfolding reserve
  reserve-Keeps {v} capacity w lawful valid small = elim (Bool-cases (leb capacity v.capacity)) [
    | inl e ↦ rw e (
      _,
      refl,
      (
        record {
          valid = valid;
          same = refl;
          size = refl;
          owner = refl;
          elem_size = refl;
          outcome = inl (refl, ground arith);
        },
        refl,
      ),
    )
    | inr e ↦
        rw (e, size_mul_overflow_lem capacity v.elem_size small)
          (elim (Bool-cases (leb (capacity * v.elem_size) size_max)) [
            | inr over ↦ rw over (_, refl, (unchanged-Keeps overflow capacity valid refl, refl))
            | inl fits ↦ rw fits (
                and_then-Returns
                  (lawful.resize_law v.buffer (capacity * v.elem_size) w
                    (mul-pos (ground arith) valid.sized) valid.buffer)
                  λ a m. elim (Moves-cases a.0 m.0) [
                    | inl (st, (p, ptr)) ↦
                        rw (st, ptr)
                          (
                            _,
                            refl,
                            (
                              enlarged-Keeps p capacity valid (ground arith) small (ground arith),
                              m.1,
                            ),
                          )
                    | inr st ↦
                        rw st (_, refl, (unchanged-Keeps a.0.0 capacity valid (rw st refl), m.1))
                  ])
          ])
  ]

  pub Keeps-le :
      {v : Vector W E} {a b : ℕ} (r : Status × Vector W E) → a ≤ b → Keeps v b r → Keeps v a r
  Keeps-le r h k = record {
    valid = k.valid;
    same = k.same;
    size = k.size;
    owner = k.owner;
    elem_size = k.elem_size;
    outcome = elim (k.outcome) [ inl (st, m) ↦ inl (st, omega arith) | inr f ↦ inr f ];
  }

  -- the growth itself, from what `capacity_grow` returns
  make_room_grown :
      {v : Vector W E} (w : W) (r : Status × ℕ)
      → Lawful libc (some v.allocator) count limit
      → IsValid v
      → v.size ≡ v.capacity
      → v.size + 1 ≤ size_max
      → capacity_grow v.capacity (v.size + 1) ≡ done r
      → r.0 ≡ ok
      → v.size + 1 ≤ r.1
      → r.1 ≤ size_max
      → Returns (make_room libc junk v w) (λ s. Keeps v (v.size + 1) s.0 × (count s.1 ≡ count w))
  unfolding make_room
  make_room_grown {v} w r lawful valid full fits run st enough top =
      let is_full : (v.size == v.capacity) ≡ true = ground arith in
      let in_range : leb (v.size + 1) size_max ≡ true = ground arith in
      let sum = size_add_overflow_lem v.size 1 (omega arith) (omega arith) in
      rw (is_full, sum, in_range, run, st)
        (let (s, reserved, (k, c)) = reserve-Keeps r.1 w lawful valid top in
          (s, reserved, (Keeps-le s.0 enough k, c)))

  -- after the growth of `push` there is room for one more
  make_room-Keeps :
      {v : Vector W E} (w : W)
      → Lawful libc (some v.allocator) count limit
      → IsValid v
      → Returns (make_room libc junk v w) (λ r. Keeps v (v.size + 1) r.0 × (count r.1 ≡ count w))
  unfolding make_room
  make_room-Keeps {v} w lawful valid = elim (Bool-cases (v.size == v.capacity)) [
    | inr e ↦ rw e (
      _,
      refl,
      (
        record {
          valid = valid;
          same = refl;
          size = refl;
          owner = refl;
          elem_size = refl;
          outcome = inl (refl, ground arith);
        },
        refl,
      ),
    )
    | inl e ↦ elim (Bool-cases (leb (v.size + 1) size_max)) [
      | inr over ↦
          rw (e, size_add_overflow_lem v.size 1 (omega arith) (omega arith), over)
            (_, refl, (unchanged-Keeps overflow (v.size + 1) valid refl, refl))
      | inl fits ↦
          let (r, run, (st, enough, larger, top)) =
            capacity_grow-Returns v.capacity (v.size + 1) valid.small (ground arith) in
          make_room_grown w r lawful valid (ground arith) (ground arith) run st enough top
    ]
  ]

  -- a push either appends the element, or fails and changes nothing
  abbrev pub Pushes : Vector W E → E → Status × Vector W E → Type 0
  Pushes v x r =
      IsValid r.1
      × (((r.0 ≡ ok) × (contents r.1 ≡ contents v ++ x ∷ [])) ⊎ ((is_ok r.0 ≡ false) × (r.1 ≡ v)))

  store_element-Pushes :
      {v : Vector W E} (x : E) (r : Status × Vector W E)
      → Keeps v (v.size + 1) r
      → Pushes v x (store_element x r)
  store_element-Pushes x (st, v') k = elim (k.outcome) [
    | inl (e, enough) ↦
        let free : v'.size < v'.capacity = omega (arith, k.size) in
        rw e (
          append_cell-IsValid x k.valid free,
          inl (refl, contents-append_cell x k.valid free ∙ ap (λ l. l ++ x ∷ []) k.same),
        )
    | inr (e, f) ↦ rw e (k.valid, inr (e, f))
  ]

  -- On a valid vector whose allocator keeps its contract, `push` returns. It either reports success
  -- and appends the element at the end, or reports an error and leaves the vector as it was. The
  -- vector stays valid, and the number of live blocks is unchanged.
  pub push-Pushes :
      {v : Vector W E} (x : E) (w : W)
      → Lawful libc (some v.allocator) count limit
      → IsValid v
      → Returns (push libc junk v x w) (λ r. Pushes v x r.0 × (count r.1 ≡ count w))
  unfolding push
  push-Pushes {v} x w lawful valid =
      and_then-Returns (make_room-Keeps w lawful valid)
        λ r m. (_, refl, (store_element-Pushes x r.0 m.0, m.1))

  store_element-same :
      {v : Vector W E} (x : E) (capacity : ℕ) (r : Status × Vector W E)
      → Keeps v capacity r
      → ((store_element x r).1.elem_size ≡ v.elem_size)
        × ((store_element x r).1.allocator ≡ v.allocator)
  store_element-same x capacity (st, v') k = elim (Bool-cases (is_ok st)) [
    | inl e ↦ rw e (k.elem_size, k.owner)
    | inr e ↦ rw e (k.elem_size, k.owner)
  ]

  -- a push leaves the element size and the allocator alone
  pub push-same :
      {v : Vector W E} (x : E) (w : W)
      → Lawful libc (some v.allocator) count limit
      → IsValid v
      → Returns (push libc junk v x w) λ r.
        Pushes v x r.0
        × (r.0.1.elem_size ≡ v.elem_size)
        × (r.0.1.allocator ≡ v.allocator)
        × (count r.1 ≡ count w)
  unfolding push
  push-same {v} x w lawful valid = and_then-Returns (make_room-Keeps w lawful valid) λ r m.
      let same = store_element-same x (v.size + 1) r.0 m.0 in
      (_, refl, (store_element-Pushes x r.0 m.0, same.0, same.1, m.1))
