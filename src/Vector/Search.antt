-- ===== src/Vector/Search.antt =====
-- The binary searches of lib/datastruct/vector.c. `cmp` is the caller's comparison function. At
-- NULL it would fault, which is modelled as `panic`; that this does not happen is proved.
use k4c.Base.{
  ℕ, zero, suc, ◌+◌, ◌-◌, ◌/◌, ltb, ◌==◌, ◌&&◌, not, if◌then◌else◌, Bool, true, false, Option, none,
  some, Run, done, panic, out_of_fuel, and_then,
}
use k4c.Base.Int.{ℤ, is_negative, is_zero}
use k4c.Vector.{Vector, get}
pub mod Split

module _ {W E : Type 0} (v : Vector W E) where
  -- the loop that both searches share, with the test that sends them to the right as `before`
  search_loop : (E → Bool) → ℕ → ℕ → ℕ → Run ℕ
  search_loop before zero first count = out_of_fuel
  search_loop before (suc fuel) first count =
      let step = count / 2 in
      let mid = first + step in
      let right = search_loop before fuel (mid + 1) (count - (step + 1)) in
      let left = search_loop before fuel first step in
      let round : Run ℕ = elim (get v mid) [
        | none ↦ panic
        | some item ↦ if before item then right else left
      ] in
      if ltb 0 count then round else done first

  module _ (key : E) (cmp : E → E → ℤ) where
    -- `k4c_vector_lower_bound`; every round makes `count` smaller
    unfoldable pub lower_bound : Run ℕ
    unfolding search_loop
    lower_bound = search_loop (λ item. is_negative (cmp item key)) (v.size + 1) 0 v.size

    -- `k4c_vector_upper_bound`
    unfoldable pub upper_bound : Run ℕ
    unfolding search_loop
    upper_bound = search_loop (λ item. not (is_negative (cmp key item))) (v.size + 1) 0 v.size

    -- `cmp(item, key) == 0`
    unfoldable pub matches : Option E → Bool
    matches none = false
    matches (some item) = is_zero (cmp item key)

    -- `k4c_vector_binary_search`
    unfoldable pub binary_search : Run ℕ
    unfolding lower_bound matches
    binary_search =
        and_then lower_bound
          λ index. done (if ltb index v.size && matches (get v index) then index else v.size)
