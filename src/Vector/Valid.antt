-- ===== src/Vector/Valid.antt =====
-- The invariant of a vector, and the list that a vector stands for.
use k4c.Base.{
  ℕ, suc, ap, ◌-◌, ◌*◌, ◌≤◌, ◌<◌, ◌≡◌, ◌≢◌, arith, none, List, ◌++◌, length, take, replicate,
  length-append, length-replicate, length-take, length-set, take-set, [], ◌∷◌, set, ◌∙◌,
}
use k4c.Size.{size_max, add_size}
use k4c.Vector.{Vector, append_cell, resized}

pub record IsValid {W E : Type 0} (v : Vector W E) : Type 0 where
  pub stored : length v.cells ≡ v.capacity
  pub within : v.size ≤ v.capacity
  pub sized : 0 < v.elem_size
  pub room : 0 < v.capacity
  pub small : v.capacity ≤ size_max
  pub bytes : v.capacity * v.elem_size ≤ size_max
  pub buffer : v.buffer ≢ none
  pub address : v.address ≢ none

module _ {W E : Type 0} where
  -- the elements, from the first to the last
  abbrev pub contents : Vector W E → List E
  contents v = take v.size v.cells

  pub length-contents : {v : Vector W E} → IsValid v → length (contents v) ≡ v.size
  length-contents {v} valid = omega (arith, length-take v.size v.cells, valid.stored, valid.within)

  -- storing past the last element appends it
  pub append_cell-IsValid :
      {v : Vector W E} (x : E) → IsValid v → v.size < v.capacity → IsValid (append_cell v x)
  append_cell-IsValid {v} x valid h = ground (arith, length-set v.cells v.size x)

  pub contents-append_cell :
      {v : Vector W E} (x : E)
      → IsValid v
      → v.size < v.capacity
      → contents (append_cell v x) ≡ contents v ++ x ∷ []
  contents-append_cell {v} x valid h =
      let next : add_size v.size 1 ≡ suc v.size = omega (arith, valid.small) in
      ap (λ n. take n (set v.cells v.size x)) next ∙ take-set v.size v.cells x (omega arith)

pub length-resized :
    {E : Type 0} (junk : E) (cells : List E) (old capacity : ℕ)
    → length cells ≡ old
    → old ≤ capacity
    → length (resized junk cells old capacity) ≡ capacity
length-resized junk cells old capacity e h = omega (
  arith,
  length-append cells (replicate (capacity - old) junk),
  length-replicate (capacity - old) junk,
)
