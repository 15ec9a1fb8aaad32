-- ===== src/Vector/Grow.antt =====
-- `capacity_grow`: it returns, with at least what was asked, and geometrically.
use k4c.Base.{
  ℕ, zero, suc, ◌+◌, ◌-◌, ◌/◌, ◌≤◌, ◌<◌, ◌≡◌, refl, arith, max, done, Returns, ltb, leb, Bool-cases,
  inl, inr, ◌==◌, if◌then◌else◌,
}
use k4c.Size.{size_max}
use k4c.Size.Checked.{size_add_overflow_lem}
use k4c.Status.{ok}
use k4c.Vector.{grow_loop, capacity_grow}

grow_loop-Returns :
    (fuel capacity min_capacity : ℕ)
    → capacity ≤ size_max
    → min_capacity ≤ size_max
    → min_capacity - capacity < fuel
    → Returns
        (grow_loop fuel capacity min_capacity)
        (λ r. (min_capacity ≤ r) × (capacity ≤ r) × (r ≤ size_max))
unfolding grow_loop
grow_loop-Returns zero c m hc hm f = absurd (omega arith)
grow_loop-Returns (suc fuel) c m hc hm f =
    let half = c / 2 in
    let step = if half == 0 then 1 else half in
    let small : (1 ≤ step) × (step ≤ size_max) = ground arith in
    elim (Bool-cases (ltb c m)) [
      | inr e ↦ rw e (c, refl, ground arith)
      | inl e ↦
          rw (e, size_add_overflow_lem c step hc small.1)
            (elim (Bool-cases (leb (c + step) size_max)) [
              | inr over ↦ rw over (m, refl, ground arith)
              | inl fits ↦ rw fits (
                  let (r, run, p) =
                    grow_loop-Returns fuel (c + step) m (ground arith) hm (ground arith) in
                  (r, run, omega arith))
            ])
    ]

-- For a capacity and a requirement that are both `size_t` values, the growth returns; the new
-- capacity is a `size_t`, at least the requirement and at least the old capacity.
pub capacity_grow-Returns :
    (capacity min_capacity : ℕ)
    → capacity ≤ size_max
    → min_capacity ≤ size_max
    → Returns
        (capacity_grow capacity min_capacity)
        (λ r. (r.0 ≡ ok) × (min_capacity ≤ r.1) × (capacity ≤ r.1) × (r.1 ≤ size_max))
unfolding capacity_grow
capacity_grow-Returns c m hc hm = elim (Bool-cases (leb m c)) [
  | inl e ↦ rw e (_, refl, ground arith)
  | inr e ↦
      let (r, run, p) = grow_loop-Returns (m + 1) c m hc hm (omega arith) in
      rw (e, run) (_, refl, (refl, p.0, p.1, p.2))
]

-- A full vector of fewer than SIZE_MAX elements grows by half its capacity, or by one where half is
-- zero; where that sum passes SIZE_MAX it grows by one.
pub capacity_grow_full :
    (capacity : ℕ)
    → capacity < size_max
    → capacity_grow capacity (capacity + 1)
      ≡ done (
        ok,
        if leb (capacity + max 1 (capacity / 2)) size_max
            then capacity + max 1 (capacity / 2)
            else capacity + 1,
      )
unfolding capacity_grow grow_loop
capacity_grow_full c h =
    let step = if c / 2 == 0 then 1 else c / 2 in
    let step_max : step ≡ max 1 (c / 2) = ground arith in
    let fuel : c + 1 + 1 ≡ suc (suc c) = omega arith in
    rw (fuel, ← step_max)
      (ground (arith, size_add_overflow_lem c step (omega arith) (ground arith)))
