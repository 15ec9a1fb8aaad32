-- ===== src/Vector/Collect/Gather.antt =====
-- What `collect` makes of an iterator: a vector of its items, or an error and no new block.
use k4c.Base.{
  ℕ, zero, suc, ◌+◌, ◌-◌, ◌≤◌, ◌<◌, ◌≡◌, refl, sym, ap, ◌∙◌, inl, inr, arith, ltb, Bool-cases,
  false, Option, none, some, List, [], ◌∷◌, ◌++◌, length, append-nil, append_assoc, Prog, pure,
  Returns, and_then-Returns,
}
use mathlib.Core.List.{map}
use k4c.Size.{size_max}
use k4c.Status.{Status, ok, is_ok}
use k4c.Allocator.{Libc, Allocator}
use k4c.Allocator.Lawful.{Lawful, copy_Lawful}
use k4c.Iterator.{Iterator, iterator_next, drain, drain-some, drain-none}
use k4c.Vector.{Vector, create}
use k4c.Vector.Valid.{IsValid, contents}
use k4c.Vector.Room.{Keeps, Keeps-le, push-same, reserve-Keeps}
use k4c.Vector.Lifecycle.{Creates, create_with_capacity-Creates, destroy_releases}
use k4c.Vector.Collect.{collect_item, collect_loop, reserve_hint, collect_into, collect}

-- A vector that holds the items, in two new blocks and `extra` more; or an error and no new block.
abbrev pub Collects : {W E : Type 0} → List E → ℕ → ℕ → ℕ → Status × Option (Vector W E) → Type 0
Collects items before extra after (st, some v) =
    (st ≡ ok) × IsValid v × (contents v ≡ items) × (after ≡ before + 2 + extra)
Collects items before extra after (st, none) = (is_ok st ≡ false) × (after ≡ before)

-- what the iterator gives after a call
abbrev visited : {S I : Type 0} → ℕ → Option I × Iterator S I → List I
visited fuel (none, rest) = []
visited fuel (some item, rest) = item ∷ drain fuel rest

drain-visited :
    {S I : Type 0} (fuel : ℕ) (source : Iterator S I) (r : Option I × Iterator S I)
    → iterator_next source ≡ r
    → drain (suc fuel) source ≡ visited fuel r
drain-visited fuel source (none, rest) e = drain-none fuel source e
drain-visited fuel source (some item, rest) e = drain-some fuel source e

map-same : {E : Type 0} (xs : List E) → map (λ (x : E). x) xs ≡ xs
map-same [] = refl
map-same (x ∷ xs) = ap (◌∷◌ x) (map-same xs)

module _ {W S I E : Type 0} (libc : Libc W) (junk : E) (live : W → ℕ) (limit : ℕ) (convert : I → E)
    (abandon : Prog W (Unit {0})) (extra before : ℕ)
    (gives_back : (w : W) → Returns (abandon w) (λ r. live r.1 ≡ live w - extra)) where
  -- what the loop does from here on
  abbrev Goes : ℕ → Iterator S I → Vector W E → Type 0
  Goes fuel source v =
      (w : W)
      → Lawful libc (some v.allocator) live limit
      → IsValid v
      → live w ≡ before + 2 + extra
      → length (drain fuel source) < fuel
      → Returns (collect_loop libc junk convert abandon fuel source v w) (λ r.
        Collects (contents v ++ map convert (drain fuel source)) before extra (live r.1) r.0)

  collect_item-Collects :
      (fuel : ℕ) (v : Vector W E) (r : Option I × Iterator S I) (w : W)
      → ((rest : Iterator S I) (v' : Vector W E) → Goes fuel rest v')
      → Lawful libc (some v.allocator) live limit
      → IsValid v
      → live w ≡ before + 2 + extra
      → length (visited fuel r) < suc fuel
      → Returns
          (collect_item libc junk convert abandon
            (λ rest v'. collect_loop libc junk convert abandon fuel rest v')
            v
            r
            w)
          (λ s. Collects (contents v ++ map convert (visited fuel r)) before extra (live s.1) s.0)
  collect_item-Collects fuel v (none, rest) w further lawful valid blocks fit =
      (_, refl, (refl, valid, sym (append-nil (contents v)), blocks))
  collect_item-Collects fuel v (some item, rest) w further lawful valid blocks fit =
      and_then-Returns (push-same libc junk live limit (convert item) w lawful valid) λ r p.
        elim (p.0.1) [
          | inl (e, grown) ↦
              let owner : Lawful libc (some r.0.1.allocator) live limit = rw (p.2) lawful in
              let (a, run, c) =
                further rest r.0.1 r.1 owner p.0.0 (omega (arith, p.3, blocks))
                  (omega (arith, fit)) in
              let same : contents r.0.1 ++ map convert (drain fuel rest)
                  ≡ contents v ++ (convert item ∷ map convert (drain fuel rest)) =
                ap (λ l. l ++ map convert (drain fuel rest)) grown
                ∙ append_assoc (contents v) (convert item ∷ []) (map convert (drain fuel rest)) in
              rw e (a, run, rw same at c)
          | inr (e, same) ↦
              rw (e, same)
                (and_then-Returns (gives_back r.1) λ s f.
                  and_then-Returns (destroy_releases libc junk live limit v s.1 lawful valid)
                    λ t g. (_, refl, (e, omega (arith, p.3, blocks, f, g))))
        ]

  -- with one round more than the items, the loop returns
  pub collect_loop-Collects :
      (fuel : ℕ) (source : Iterator S I) (v : Vector W E) → Goes fuel source v
  unfolding collect_loop
  collect_loop-Collects zero source v w lawful valid blocks fit = absurd (omega arith)
  collect_loop-Collects (suc fuel) source v w lawful valid blocks fit =
      let e = drain-visited fuel source (iterator_next source) refl in
      rw e (
        collect_item-Collects fuel v (iterator_next source) w
          (λ rest v'. collect_loop-Collects fuel rest v') lawful valid blocks (rw e at fit))

module _ {W E : Type 0} (libc : Libc W) (junk : E) (live : W → ℕ) (limit : ℕ) where
  reserve_hint-Keeps :
      {v : Vector W E} (hint : ℕ) (w : W)
      → Lawful libc (some v.allocator) live limit
      → IsValid v
      → hint ≤ size_max
      → Returns (reserve_hint libc junk v hint w) (λ r. Keeps v 0 r.0 × (live r.1 ≡ live w))
  unfolding reserve_hint
  reserve_hint-Keeps {v} hint w lawful valid small = elim (Bool-cases (ltb 0 hint)) [
    | inl e ↦
        let (r, run, k) = reserve-Keeps libc junk live limit hint w lawful valid small in
        rw e (r, run, (Keeps-le libc junk live limit r.0 (omega arith) k.0, k.1))
    | inr e ↦ rw e (
      _,
      refl,
      (
        record {
          valid = valid;
          same = refl;
          size = refl;
          owner = refl;
          elem_size = refl;
          outcome = inl (refl, omega arith);
        },
        refl,
      ),
    )
  ]

module _ {W S E : Type 0} (libc : Libc W) (junk : E) (live : W → ℕ) (limit : ℕ) where
  collect_into-Collects :
      (fuel : ℕ) (source : Iterator S E) (v : Vector W E) (w : W) (before : ℕ)
      → Lawful libc (some v.allocator) live limit
      → IsValid v
      → contents v ≡ []
      → live w ≡ before + 2
      → length (drain fuel source) < fuel
      → source.size_hint ≤ size_max
      → Returns
          (collect_into libc junk fuel source v w)
          (λ r. Collects (drain fuel source) before 0 (live r.1) r.0)
  unfolding collect_into
  collect_into-Collects fuel source v w before lawful valid empty blocks fit small =
      and_then-Returns
        (reserve_hint-Keeps libc junk live limit source.size_hint w lawful valid small)
        λ r k. elim (k.0.outcome) [
          | inl (e, enough) ↦
              let owner : Lawful libc (some r.0.1.allocator) live limit = rw (k.0.owner) lawful in
              let (a, run, c) =
                collect_loop-Collects libc junk live limit (λ (item : E). item) (pure tt) 0 before
                  (λ u. (_, refl, omega arith)) fuel source r.0.1 r.1 owner k.0.valid
                  (omega (arith, k.1, blocks)) fit in
              let items : contents r.0.1 ++ map (λ (item : E). item) (drain fuel source)
                  ≡ drain fuel source =
                rw (k.0.same, empty) (map-same (drain fuel source)) in
              rw e (a, run, rw items at c)
          | inr (e, same) ↦
              rw (e, same)
                (and_then-Returns (destroy_releases libc junk live limit v r.1 lawful valid)
                  λ t g. (_, refl, (e, omega (arith, k.1, blocks, g))))
        ]

  created-Collects :
      (fuel : ℕ) (source : Iterator S E) (elem_size : ℕ) (a : Option (Allocator W)) (before : ℕ)
      (w : W) (made : Status × Option (Vector W E))
      → Lawful libc a live limit
      → Creates libc junk live limit elem_size 16 a before (live w) made
      → length (drain fuel source) < fuel
      → source.size_hint ≤ size_max
      → Returns
          (elim made.1 as (λ _. Prog W (Status × Option (Vector W E))) [
            | none ↦ pure (made.0, none)
            | some v ↦ collect_into libc junk fuel source v
          ]
            w)
          (λ r. Collects (drain fuel source) before 0 (live r.1) r.0)
  created-Collects fuel source es a before w (st, none) lawful (e, c) fit small = (_, refl, (e, c))
  created-Collects fuel source es a before w (st, some v) lawful
        (e, valid, empty, size, cap, owner, c) fit small =
      let owned : Lawful libc (some v.allocator) live limit = rw owner (copy_Lawful libc lawful) in
      collect_into-Collects fuel source v w before owned valid empty c fit small

  -- With a positive element size, an allocator that keeps its contract and an iterator that gives
  -- less than `fuel` items before NULL, `collect` returns: either a valid vector of these items in
  -- order, in two new blocks, or an error with every block given back.
  pub collect-Collects :
      (fuel : ℕ) (source : Iterator S E) (elem_size : ℕ) (a : Option (Allocator W)) (w : W)
      → Lawful libc a live limit
      → 0 < elem_size
      → elem_size ≤ size_max
      → live w + 1 < limit
      → length (drain fuel source) < fuel
      → source.size_hint ≤ size_max
      → Returns
          (collect libc junk fuel source elem_size a w)
          (λ r. Collects (drain fuel source) (live w) 0 (live r.1) r.0)
  unfolding collect create
  collect-Collects fuel source es a w lawful positive fits room fit small =
      and_then-Returns
        (create_with_capacity-Creates libc junk live limit es 16 a w lawful positive (omega arith)
          fits room)
        λ r made. created-Collects fuel source es a (live w) r.1 r.0 lawful made fit small
