-- ===== src/Deque/Lifecycle.antt =====
-- `create` and `destroy` of a deque, and that no block leaks.
use k4c.Base.{
  ℕ, ◌+◌, ◌-◌, ◌*◌, ◌≤◌, ◌<◌, ◌≡◌, ◌≢◌, refl, inl, inr, arith, false, Option, none, some, [],
  length-replicate, leb, ◌==◌, Returns, and_then-Returns, Bool-cases,
}
use k4c.Platform.{sizeof_deque}
use k4c.Size.{size_max}
use k4c.Size.Checked.{size_mul_overflow_lem}
use k4c.Status.{Status, ok, is_ok}
use k4c.Allocator.{Ptr, Libc, Allocator, allocator_copy}
use k4c.Allocator.Lawful.{Lawful, Obtains-cases, copy_Lawful}
use k4c.Deque.{Deque, fresh, create_buffer, create, destroy, default_capacity}
use k4c.Deque.Valid.{IsValid, contents}

module _ {W E : Type 0} (libc : Libc W) (junk : E) (count : W → ℕ) (limit : ℕ) where
  fresh-IsValid :
      (elem_size : ℕ) (p q : Ptr) (owner : Allocator W)
      → p ≢ none
      → q ≢ none
      → 0 < elem_size
      → elem_size * 16 ≤ size_max
      → IsValid (fresh libc junk elem_size owner p q)
  fresh-IsValid elem_size p q owner hp hq he bytes = record {
    power = (4, omega arith, refl);
    room = omega arith;
    small = omega arith;
    stored = length-replicate default_capacity junk;
    within = omega arith;
    head_in = omega arith;
    tail_at = refl;
    sized = he;
    bytes = omega arith;
    buffer = hq;
    address = hp;
  }

  -- A creation yields an empty valid deque in two new blocks, or an error and no new block.
  abbrev pub Creates : ℕ → Option (Allocator W) → ℕ → ℕ → Status × Option (Deque W E) → Type 0
  Creates elem_size a before after (st, some d) =
      (st ≡ ok)
      × IsValid d
      × (contents junk d ≡ [])
      × (d.elem_size ≡ elem_size)
      × (d.allocator ≡ allocator_copy a)
      × (after ≡ before + 2)
  Creates elem_size a before after (st, none) = (is_ok st ≡ false) × (after ≡ before)

  create_buffer-Creates :
      (elem_size : ℕ) (p : Ptr) (a : Option (Allocator W)) (before : ℕ) (w : W)
      → Lawful libc a count limit
      → p ≢ none
      → 0 < elem_size
      → elem_size * 16 ≤ size_max
      → count w ≡ before + 1
      → count w < limit
      → Returns
          (create_buffer libc junk elem_size (allocator_copy a) p (elem_size * 16) w)
          (λ r. Creates elem_size a before (count r.1) r.0)
  unfolding create_buffer
  create_buffer-Creates es p a before w lawful hp he bytes one room =
      let owner = copy_Lawful libc lawful in
      and_then-Returns (owner.alloc_law (es * 16) w (omega arith) room) λ r o.
        elim (Obtains-cases (count w) (count r.1) r.0 o) [
          | inl (st, (q, ptr), c) ↦
              let buffer : r.0.1 ≢ none = λ e. cc in
              let valid = fresh-IsValid es p r.0.1 (allocator_copy a) hp buffer he bytes in
              rw st (_, refl, (refl, valid, refl, refl, refl, omega arith))
          | inr (st, c) ↦ rw st (
              and_then-Returns (owner.dealloc_law p r.1 hp)
                λ d f. (_, refl, (rw st refl, omega arith)))
        ]

  -- With a positive element size and an allocator that keeps its contract, creation returns: either
  -- an empty valid deque of that element size, in two new blocks, or an error with every block
  -- given back.
  pub create-Creates :
      (elem_size : ℕ) (a : Option (Allocator W)) (w : W)
      → Lawful libc a count limit
      → 0 < elem_size
      → elem_size ≤ size_max
      → count w + 1 < limit
      → Returns
          (create libc junk elem_size a w)
          (λ r. Creates elem_size a (count w) (count r.1) r.0)
  unfolding create
  create-Creates es a w lawful he small room =
      let positive : (es == 0) ≡ false = ground arith in
      rw (positive, size_mul_overflow_lem es 16 small)
        (elim (Bool-cases (leb (es * 16) size_max)) [
          | inr over ↦ rw over (_, refl, (refl, refl))
          | inl fits ↦ rw fits (
              and_then-Returns (lawful.alloc_law sizeof_deque w (omega arith) (omega arith)) λ r o.
                elim (Obtains-cases (count w) (count r.1) r.0 o) [
                  | inr (st, c) ↦ rw st (_, refl, (rw st refl, c))
                  | inl (st, (p, ptr), c) ↦ rw st (
                      create_buffer-Creates es r.0.1 a (count w) r.1 lawful (λ e. cc) he
                        (ground arith) c (omega arith))
                ])
        ])

  -- On a valid deque whose allocator keeps its contract, `destroy` returns and gives back both of
  -- the deque's blocks.
  pub destroy-dealloc :
      (d : Deque W E) (w : W)
      → Lawful libc (some d.allocator) count limit
      → IsValid d
      → Returns (destroy libc junk d w) (λ r. count r.1 ≡ count w - 2)
  unfolding destroy
  destroy-dealloc d w lawful valid =
      and_then-Returns (lawful.dealloc_law d.buffer w valid.buffer) λ r c.
        let (s, run, e) = lawful.dealloc_law d.address r.1 valid.address in (s, run, omega arith)
