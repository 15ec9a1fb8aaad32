-- ===== src/Allocator.antt =====
-- lib/mem/allocator.c: the generic allocation helpers over an operation table.
-- `W` is the state of the machine: libc's heap, and whatever an operation table keeps.
pub mod Lawful
use k4c.Base.{ℕ, ◌==◌, bit_and, Option, none, some, if◌then◌else◌, Prog, pure, abort, ◌>>=◌, ◌>>◌}
use k4c.Status.{Status, ok, no_memory}

-- A pointer: an address, or `none` for NULL.
abbrev pub Ptr : Type 0
Ptr = Option ℕ

-- What the code takes from libc.
pub record Libc (W : Type 0) : Type 0 where
  pub malloc : ℕ → Prog W Ptr
  pub realloc : Ptr → ℕ → Prog W Ptr
  pub free : Ptr → Prog W (Unit {0})

-- `struct k4c_allocator_vtable`; the first argument of an operation is the allocator's `ctx`.
pub record Vtable (W : Type 0) : Type 0 where
  pub alloc : Option (Ptr → ℕ → Prog W Ptr)
  pub resize : Option (Ptr → Ptr → ℕ → Prog W Ptr)
  pub dealloc : Option (Ptr → Ptr → Prog W (Unit {0}))

pub record Allocator (W : Type 0) : Type 0 where
  pub ctx : Ptr
  pub features : ℕ
  pub vtable : Option (Vtable W)

-- K4C_ALLOCATOR_FEATURE_*
abbrev pub feature_dealloc : ℕ
feature_dealloc = 1

abbrev pub feature_realloc : ℕ
feature_realloc = 2

abbrev pub feature_reset : ℕ
feature_reset = 4

-- `k4c_allocator_copy`: NULL gives the zeroed struct.
unfoldable pub allocator_copy : {W : Type 0} → Option (Allocator W) → Allocator W
allocator_copy none = record { ctx = none; features = 0; vtable = none }
allocator_copy (some a) = a

-- the status and the out parameter, from the pointer obtained
abbrev pub answer : Ptr → Status × Ptr
answer none = (no_memory, none)
answer (some p) = (ok, some p)

module _ {W : Type 0} (libc : Libc W) where
  alloc_ptr : Option (Allocator W) → ℕ → Prog W Ptr
  alloc_ptr none size = libc.malloc size
  alloc_ptr (some a) size = elim a.vtable [
    | none ↦ libc.malloc size
    | some v ↦ elim (v.alloc) [ none ↦ libc.malloc size | some f ↦ f a.ctx size ]
  ]

  -- `k4c_alloc`
  unfoldable pub alloc : Option (Allocator W) → ℕ → Prog W (Status × Ptr)
  unfolding alloc_ptr
  alloc a size = do ptr ← alloc_ptr a size; pure (answer ptr)

  -- `k4c_dealloc`
  unfoldable pub dealloc : Option (Allocator W) → Ptr → Prog W (Unit {0})
  dealloc none ptr = libc.free ptr
  dealloc (some a) ptr = elim a.vtable [
    | none ↦ libc.free ptr
    | some v ↦
        if bit_and a.features feature_dealloc == 0
        then pure tt
        else (elim (v.dealloc) [ none ↦ abort | some f ↦ f a.ctx ptr ])
  ]

  resize_ptr : Option (Allocator W) → Ptr → ℕ → Prog W Ptr
  resize_ptr none ptr size = libc.realloc ptr size
  resize_ptr (some a) ptr size = elim a.vtable [
    | none ↦ libc.realloc ptr size
    | some v ↦ elim (v.resize) [ none ↦ libc.realloc ptr size | some f ↦ f a.ctx ptr size ]
  ]

  -- `k4c_resize`
  unfoldable pub resize : Option (Allocator W) → Ptr → ℕ → Prog W (Status × Ptr)
  unfolding resize_ptr dealloc
  resize a ptr size =
      if size == 0
      then (do dealloc a ptr; pure (ok, none))
      else (do new_ptr ← resize_ptr a ptr size; pure (answer new_ptr))
