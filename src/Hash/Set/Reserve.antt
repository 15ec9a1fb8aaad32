-- ===== src/Hash/Set/Reserve.antt =====
-- `reserve`: a set keeps its entries, and gets room for those asked for.
use k4c.Base.{
  ℕ, ◌+◌, ◌*◌, ◌≤◌, ◌<◌, ◌≡◌, refl, sym, ap, ◌∙◌, ◌⊎◌, inl, inr, arith, leb, ltb, Bool-cases, true,
  false, Option, none, some, List, done, Returns, and_then-Returns,
}
use k4c.Size.{size_max}
use k4c.Size.Checked.{size_add_overflow_lem}
use k4c.Status.{Status, ok, overflow, is_ok}
use k4c.Allocator.{Libc}
use k4c.Allocator.Lawful.{Lawful}
use k4c.Hash.Capacity.{Suits, capacity_for_size-Suits, should_grow-eq}
use k4c.Hash.Common.{Buckets, should_grow, capacity_for_size}
use k4c.Hash.Common.Table.{lookup}
use k4c.Hash.Common.Order.{InOrder, Rehashes, buckets_rehash-Rehashes}
use k4c.Hash.Set.{Entry, HashSet, elem_at, elem_of, rehashed, reserve, make_room}
use k4c.Hash.Set.Valid.{IsValid, same, hash_in, matches_in, entry_in, elem_at-entry_in, keyed_in}

module _ {W E : Type 0} where
  -- the set with other buckets
  abbrev pub rebuilt : HashSet W E → ℕ → Buckets (Entry E) → HashSet W E
  rebuilt hs n b = record hs { buckets = b; capacity = n }

module _ {W E : Type 0} (bytes : E → List ℕ) where
  -- The same entries in other buckets, with the load that was asked for; or an error and no change.
  pub record Rebuilds (hs : HashSet W E) (wanted : ℕ) (r : Status × HashSet W E) : Type 0 where
    pub n : ℕ
    pub b : Buckets (Entry E)
    pub eq : r.1 ≡ rebuilt hs n b
    pub order : InOrder (hash_in bytes hs) (matches_in bytes hs) hs.size n b
    pub lookups :
        (k : E) → lookup (hash_in bytes hs) (matches_in bytes hs) n b.chains k ≡ entry_in bytes hs k
    pub larger : hs.capacity ≤ n
    pub outcome : ((r.0 ≡ ok) × (wanted * 4 ≤ n * 3)) ⊎ ((is_ok r.0 ≡ false) × (r.1 ≡ hs))

module _ {W E : Type 0} (libc : Libc W) (bytes : E → List ℕ) (live : W → ℕ) (limit : ℕ)
    {hs : HashSet W E} (lawful : Lawful libc (some hs.allocator) live limit)
    (valid : IsValid bytes hs) where
  stays :
      (wanted : ℕ) (st : Status)
      → ((st ≡ ok) × (wanted * 4 ≤ hs.capacity * 3)) ⊎ ((is_ok st ≡ false) × (hs ≡ hs))
      → Rebuilds bytes hs wanted (st, hs)
  stays wanted st o = record {
    n = hs.capacity;
    b = hs.buckets;
    eq = refl;
    order = valid.order;
    lookups = λ k. refl;
    larger = omega arith;
    outcome = o;
  }

  rehashed-Rebuilds :
      (wanted n : ℕ) (r : Status × Option (Buckets (Entry E)))
      → hs.capacity ≤ n
      → wanted * 4 ≤ n * 3
      → Rehashes
          (hash_in bytes hs)
          (matches_in bytes hs)
          libc
          live
          limit
          (keyed_in bytes valid)
          valid.order
          n
          r
      → Rebuilds bytes hs wanted (rehashed hs n r)
  rehashed-Rebuilds wanted n (st, none) larger enough e = stays wanted st (inr (e, refl))
  rehashed-Rebuilds wanted n (st, some b) larger enough (e, order, same) = record {
    n = n;
    b = b;
    eq = refl;
    order = order;
    lookups = same;
    larger = larger;
    outcome = inl (refl, enough);
  }

  -- given the capacity that was computed
  reserve_found :
      (wanted : ℕ) (w : W) (found : Status × ℕ)
      → capacity_for_size wanted ≡ done found
      → Suits (wanted * 4) found
      → live w < limit
      → Returns
          (reserve libc bytes hs wanted w)
          (λ r. Rebuilds bytes hs wanted r.0 × (live r.1 ≡ live w))
  unfolding reserve
  reserve_found wanted w (st, n) run suits room = elim suits [
    | inr (e, over) ↦ rw (run, e) (_, refl, (stays wanted overflow (inr (refl, refl)), refl))
    | inl (e, power, low, small, enough, least) ↦ elim (Bool-cases (leb n hs.capacity)) [
      | inl p ↦
          let kept : wanted * 4 ≤ hs.capacity * 3 = ground arith in
          rw (run, e, p) (_, refl, (stays wanted ok (inl (refl, kept)), refl))
      | inr p ↦
          let larger : hs.capacity ≤ n = ground arith in
          rw (run, e, p)
            (and_then-Returns
              (buckets_rehash-Rehashes (hash_in bytes hs) (matches_in bytes hs) libc live limit
                (keyed_in bytes valid) valid.order n (some hs.allocator) w lawful room (omega arith)
                (omega (arith, valid.order.load)) small)
              λ s f. (_, refl, (rehashed-Rebuilds wanted n s.0 larger enough f.0, f.1)))
    ]
  ]

  pub reserve-Rebuilds :
      (wanted : ℕ) (w : W)
      → wanted ≤ size_max
      → live w < limit
      → Returns
          (reserve libc bytes hs wanted w)
          (λ r. Rebuilds bytes hs wanted r.0 × (live r.1 ≡ live w))
  reserve-Rebuilds wanted w h room =
      let (found, run, suits) = capacity_for_size-Suits wanted h in
      reserve_found wanted w found run suits room

  -- room for one more entry
  pub make_room-Rebuilds :
      (w : W)
      → live w < limit
      → Returns
          (make_room libc bytes hs w)
          (λ r. Rebuilds bytes hs (hs.size + 1) r.0 × (live r.1 ≡ live w))
  unfolding make_room
  make_room-Rebuilds w room =
      let grows = should_grow-eq hs.size hs.capacity valid.order.load valid.order.small in
      let sum =
        size_add_overflow_lem hs.size 1 (omega (arith, valid.order.load, valid.order.small))
          (omega arith) in
      let fits : leb (hs.size + 1) size_max ≡ true =
        ground (arith, valid.order.load, valid.order.small) in
      elim (Bool-cases (ltb (hs.capacity * 3) ((hs.size + 1) * 4))) [
        | inl p ↦
            rw (grows, p, sum, fits, make_room)
              (reserve-Rebuilds (hs.size + 1) w (omega (arith, valid.order.load, valid.order.small))
                room)
        | inr p ↦
            let enough : (hs.size + 1) * 4 ≤ hs.capacity * 3 = ground arith in
            rw (grows, p) (_, refl, (stays (hs.size + 1) ok (inl (refl, enough)), refl))
      ]

  pub rebuilt-IsValid :
      {wanted : ℕ} {r : Status × HashSet W E} → Rebuilds bytes hs wanted r → IsValid bytes r.1
  rebuilt-IsValid k =
      rw (k.eq) (record {
        laws = valid.laws;
        sized = valid.sized;
        order = k.order;
        address = valid.address;
      })

  pub elem_at-rebuilt :
      {wanted : ℕ} {r : Status × HashSet W E}
      → Rebuilds bytes hs wanted r
      → (q : E) → elem_at bytes r.1 q ≡ elem_at bytes hs q
  elem_at-rebuilt {wanted} {r} k q =
      elem_at-entry_in bytes r.1 q
      ∙ rw (k.eq) (ap elem_of (k.lookups q))
      ∙ sym (elem_at-entry_in bytes hs q)

  -- On a valid set whose allocator keeps its contract and for every `size_t`, `reserve` returns. The
  -- set stays valid and maps every elem as before, its size and the number of live blocks are
  -- unchanged, and its capacity does not fall. Either success is reported, and then no growth is
  -- asked for while the set holds less than `wanted` entries, or an error, and the set is unchanged.
  pub reserve-rebuilt :
      (wanted : ℕ) (w : W)
      → wanted ≤ size_max
      → live w < limit
      → Returns (reserve libc bytes hs wanted w) λ r.
        IsValid bytes r.0.1
        × ((q : E) → elem_at bytes r.0.1 q ≡ elem_at bytes hs q)
        × (r.0.1.size ≡ hs.size)
        × (live r.1 ≡ live w)
        × (hs.capacity ≤ r.0.1.capacity)
        × (((r.0.0 ≡ ok) × ((s : ℕ) → s < wanted → should_grow s r.0.1.capacity ≡ false))
            ⊎ ((is_ok r.0.0 ≡ false) × (r.0.1 ≡ hs)))
  reserve-rebuilt wanted w h room =
      let (r, run, k) = reserve-Rebuilds wanted w h room in
      (
        r,
        run,
        (
          rebuilt-IsValid k.0,
          elem_at-rebuilt k.0,
          ap HashSet.size k.0.eq,
          k.1,
          rw (ap HashSet.capacity k.0.eq) k.0.larger,
          elim (k.0.outcome) [
            | inl (e, enough) ↦ inl (
              e,
              λ s less.
                  rw (ap HashSet.capacity k.0.eq)
                    (should_grow-eq s k.0.n (omega arith) k.0.order.small ∙ ground arith),
            )
            | inr (e, f) ↦ inr (e, f)
          ],
        ),
      )
