-- ===== src/Vector/Lifecycle.antt =====
-- `create` and `destroy`: what a new vector is, and that no block leaks.
use k4c.Base.{
  ℕ, ◌+◌, ◌-◌, ◌*◌, ◌≤◌, ◌<◌, ◌≡◌, ◌≢◌, refl, inl, inr, arith, false, Option, none, some, [],
  length-replicate, leb, ◌==◌, Returns, and_then-Returns, Bool-cases,
}
use native.Mathlib.Nat.{mul-pos, mul_comm, le-mul_of_pos_right}
use k4c.Platform.{sizeof_vector}
use k4c.Size.{size_max}
use k4c.Size.Checked.{size_mul_overflow_lem}
use k4c.Status.{Status, ok, is_ok}
use k4c.Allocator.{Ptr, Libc, Allocator, allocator_copy}
use k4c.Allocator.Lawful.{Lawful, Obtains-cases, copy_Lawful}
use k4c.Vector.{Vector, fresh, create_buffer, create_with_capacity, destroy}
use k4c.Vector.Valid.{IsValid, contents}

module _ {W E : Type 0} (libc : Libc W) (junk : E) (count : W → ℕ) (limit : ℕ) where
  fresh-IsValid :
      (elem_size capacity : ℕ) (p q : Ptr) (owner : Allocator W)
      → p ≢ none
      → q ≢ none
      → 0 < elem_size
      → 0 < capacity
      → elem_size * capacity ≤ size_max
      → IsValid (fresh libc junk elem_size capacity owner p q)
  fresh-IsValid elem_size capacity p q owner hp hq he hc bytes =
      let product = mul_comm elem_size capacity in
      let small = le-mul_of_pos_right {m = elem_size} capacity he in
      ground (arith, length-replicate capacity junk, product, small)

  -- A creation yields an empty valid vector in two new blocks, or an error and no new block.
  abbrev pub Creates : ℕ → ℕ → Option (Allocator W) → ℕ → ℕ → Status × Option (Vector W E) → Type 0
  Creates elem_size capacity a before after (st, some v) =
      (st ≡ ok)
      × IsValid v
      × (contents v ≡ [])
      × (v.elem_size ≡ elem_size)
      × (v.capacity ≡ capacity)
      × (v.allocator ≡ allocator_copy a)
      × (after ≡ before + 2)
  Creates elem_size capacity a before after (st, none) = (is_ok st ≡ false) × (after ≡ before)

  create_buffer-Creates :
      (elem_size capacity : ℕ) (p : Ptr) (a : Option (Allocator W)) (before : ℕ) (w : W)
      → Lawful libc a count limit
      → p ≢ none
      → 0 < elem_size
      → 0 < capacity
      → elem_size * capacity ≤ size_max
      → count w ≡ before + 1
      → count w < limit
      → Returns
          (create_buffer libc junk elem_size capacity (allocator_copy a) p (elem_size * capacity) w)
          (λ r. Creates elem_size capacity a before (count r.1) r.0)
  unfolding create_buffer
  create_buffer-Creates es n p a before w lawful hp he hn bytes one room =
      let owner = copy_Lawful libc lawful in
      and_then-Returns (owner.alloc_law (es * n) w (mul-pos he hn) room) λ r o.
        elim (Obtains-cases (count w) (count r.1) r.0 o) [
          | inl (st, (q, ptr), c) ↦ rw st (
            _,
            refl,
            (
              refl,
              fresh-IsValid es n p r.0.1 (allocator_copy a) hp (λ e. cc) he hn bytes,
              refl,
              refl,
              refl,
              refl,
              omega arith,
            ),
          )
          | inr (st, c) ↦ rw st (
              and_then-Returns (owner.dealloc_law p r.1 hp)
                λ d f. (_, refl, (rw st refl, omega arith)))
        ]

  -- With a positive element size and capacity and an allocator that keeps its contract, creation
  -- returns: either an empty valid vector of that element size and capacity, in two new blocks, or
  -- an error with every block given back.
  pub create_with_capacity-Creates :
      (elem_size capacity : ℕ) (a : Option (Allocator W)) (w : W)
      → Lawful libc a count limit
      → 0 < elem_size
      → 0 < capacity
      → elem_size ≤ size_max
      → count w + 1 < limit
      → Returns
          (create_with_capacity libc junk elem_size capacity a w)
          (λ r. Creates elem_size capacity a (count w) (count r.1) r.0)
  unfolding create_with_capacity
  create_with_capacity-Creates es n a w lawful he hn small room =
      let e1 : (es == 0) ≡ false = ground arith in
      let e2 : (n == 0) ≡ false = ground arith in
      rw (e1, e2, size_mul_overflow_lem es n small)
        (elim (Bool-cases (leb (es * n) size_max)) [
          | inr over ↦ rw over (_, refl, (refl, refl))
          | inl fits ↦ rw fits (
              and_then-Returns (lawful.alloc_law sizeof_vector w (omega arith) (omega arith)) λ r o.
                elim (Obtains-cases (count w) (count r.1) r.0 o) [
                  | inr (st, c) ↦ rw st (_, refl, (rw st refl, c))
                  | inl (st, (p, ptr), c) ↦ rw st (
                      create_buffer-Creates es n r.0.1 a (count w) r.1 lawful (λ e. cc) he hn
                        (ground arith) c (omega arith))
                ])
        ])

  -- On a valid vector whose allocator keeps its contract, `destroy` returns and gives back both of
  -- the vector's blocks.
  pub destroy_releases :
      (v : Vector W E) (w : W)
      → Lawful libc (some v.allocator) count limit
      → IsValid v
      → Returns (destroy libc junk v w) (λ r. count r.1 ≡ count w - 2)
  unfolding destroy
  destroy_releases v w lawful valid =
      and_then-Returns (lawful.dealloc_law v.buffer w valid.buffer) λ r c.
        let (s, run, d) = lawful.dealloc_law v.address r.1 valid.address in (s, run, omega arith)
