-- ===== src/Vector/Collect.antt =====
-- `k4c_vector_collect` and `k4c_vector_collect_map` of lib/datastruct/vector.c. The callback of the
-- second is a function `convert` from an item to an element; the first takes the item itself.
pub mod Gather
use k4c.Base.{
  ℕ, zero, suc, ltb, ◌==◌, if◌then◌else◌, Bool, true, false, Option, none, some, Run, out_of_fuel,
  Prog, pure, abort, ◌>>=◌, ◌>>◌,
}
use k4c.Status.{Status, ok, is_ok}
use k4c.Allocator.{Ptr, Libc, Allocator, alloc, dealloc}
use k4c.Iterator.{Iterator, iterator_next}
use k4c.Vector.{Vector, create, reserve, push, destroy}

module _ {W S I E : Type 0} (libc : Libc W) (junk : E) (convert : I → E)
    (abandon : Prog W (Unit {0})) where
  -- the body of the loop of both functions: `further` goes on, and `abandon` is what an error gives
  -- back besides the vector
  abbrev pub collect_item :
      (Iterator S I → Vector W E → Prog W (Status × Option (Vector W E)))
      → Vector W E
      → Option I × Iterator S I
      → Prog W (Status × Option (Vector W E))
  collect_item further v (none, source) = pure (ok, some v)
  collect_item further v (some item, source) = do
    (st, v') ← push libc junk v (convert item)
    elim (is_ok st) [
      | false ↦ do abandon; destroy libc junk v'; pure (st, none)
      | true ↦ further source v'
    ]

  -- the loop of both functions
  unfoldable pub collect_loop :
      ℕ → Iterator S I → Vector W E → Prog W (Status × Option (Vector W E))
  collect_loop zero source v w = out_of_fuel
  collect_loop (suc fuel) source v w =
      collect_item (λ rest v'. collect_loop fuel rest v') v (iterator_next source) w

module _ {W E : Type 0} (libc : Libc W) (junk : E) where
  -- the reservation at the start of both functions
  unfoldable pub reserve_hint : Vector W E → ℕ → Prog W (Status × Vector W E)
  reserve_hint v hint = if ltb 0 hint then reserve libc junk v hint else pure (ok, v)

  -- `k4c_vector_collect_map` behind its loop: the buffer `dst` is given back
  abbrev pub release_dst :
      Option (Allocator W)
      → Ptr
      → Status × Option (Vector W E)
      → Prog W (Status × Option (Vector W E))
  release_dst allocator dst (st, none) = pure (st, none)
  release_dst allocator dst (st, some v) = do dealloc libc allocator dst; pure (st, some v)

module _ {W S E : Type 0} (libc : Libc W) (junk : E) where
  -- `k4c_vector_collect` once the vector is there
  unfoldable pub collect_into :
      ℕ → Iterator S E → Vector W E → Prog W (Status × Option (Vector W E))
  unfolding reserve_hint collect_loop
  collect_into fuel source v = do
    (st, v') ← reserve_hint libc junk v source.size_hint
    elim (is_ok st) [
      | false ↦ do destroy libc junk v'; pure (st, none)
      | true ↦ collect_loop libc junk (λ (item : E). item) (pure tt) fuel source v'
    ]

  -- `k4c_vector_collect`: no vector stands beside an error
  unfoldable pub collect :
      ℕ → Iterator S E → ℕ → Option (Allocator W) → Prog W (Status × Option (Vector W E))
  unfolding collect_into
  collect fuel source elem_size allocator = do
    (st, made) ← create libc junk elem_size allocator
    elim made [ none ↦ pure (st, none) | some v ↦ collect_into fuel source v ]

module _ {W S I E : Type 0} (libc : Libc W) (junk : E) (convert : I → E) where
  -- `k4c_vector_collect_map` once the vector has its capacity
  unfoldable pub collect_map_into :
      ℕ
      → Iterator S I
      → ℕ
      → Option (Allocator W)
      → Vector W E
      → Prog W (Status × Option (Vector W E))
  unfolding collect_loop
  collect_map_into fuel source dst_elem_size allocator v = do
    (st, dst) ← alloc libc allocator dst_elem_size
    elim (is_ok st) [
      | false ↦ do destroy libc junk v; pure (st, none)
      | true ↦ do
        r ← collect_loop libc junk convert (dealloc libc allocator dst) fuel source v
        release_dst libc junk allocator dst r
    ]

  -- `k4c_vector_collect_map`
  unfoldable pub collect_map :
      ℕ → Iterator S I → ℕ → Option (Allocator W) → Prog W (Status × Option (Vector W E))
  unfolding reserve_hint collect_map_into
  collect_map fuel source dst_elem_size allocator = do
    (st, made) ← create libc junk dst_elem_size allocator
    elim made [
      | none ↦ pure (st, none)
      | some v ↦ do
        (st', v') ← reserve_hint libc junk v source.size_hint
        elim (is_ok st') [
          | false ↦ do destroy libc junk v'; pure (st', none)
          | true ↦ collect_map_into fuel source dst_elem_size allocator v'
        ]
    ]
