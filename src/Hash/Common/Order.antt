-- ===== src/Hash/Common/Order.antt =====
-- A table in order, its creation and its move to more buckets.
use k4c.Base.{
  ℕ, ◌+◌, ◌*◌, ◌%◌, ◌≤◌, ◌<◌, ◌≡◌, ◌≢◌, refl, inl, inr, arith, Bool, false, Bool-cases, ◌==◌, leb,
  Option, none, some, [], replicate, length-replicate, Returns, and_then-Returns,
}
use k4c.Platform.{sizeof_bucket}
use k4c.Size.{size_max}
use k4c.Size.Checked.{size_mul_overflow_lem}
use k4c.Status.{Status, ok, is_ok}
use k4c.Allocator.{Libc, Allocator}
use k4c.Allocator.Lawful.{Lawful, Obtains-cases}
use k4c.Hash.Common.{Buckets, first, move_into, buckets_create, buckets_rehash}
use k4c.Hash.Common.Table.{Keyed, Holds, lookup, total}
use k4c.Hash.Common.Rehash.{chain_at-empty, moved-Holds, lookup-moved, total-moved}

module _ {K N : Type 0} (hash : K → ℕ) (matches : K → N → Bool) where
  -- The chains hold the nodes as `Holds` says, `size` of them, at three quarters of the capacity at
  -- most.
  pub record InOrder (size capacity : ℕ) (buckets : Buckets N) : Type 0 where
    pub holds : Holds hash matches capacity buckets.chains
    pub counted : size ≡ total buckets.chains
    pub load : size * 4 ≤ capacity * 3
    pub small : capacity * 3 ≤ size_max
    pub address : buckets.address ≢ none

  pub empty-Holds : (n : ℕ) → 0 < n → Holds hash matches n (replicate n [])
  empty-Holds n room = record {
    filled = length-replicate n [];
    room = room;
    unique = λ k i. rw (chain_at-empty N n i) (omega arith);
    placed = λ k i ne. rw (chain_at-empty N n i) refl;
  }

  pub lookup-empty : (n : ℕ) (k : K) → lookup hash matches n (replicate n []) k ≡ none
  unfolding first
  lookup-empty n k = rw (chain_at-empty N n (hash k % n)) refl

  module _ {W : Type 0} (libc : Libc W) (live : W → ℕ) (limit : ℕ) where
    -- new buckets, or an error
    abbrev pub Fresh : ℕ → ℕ → ℕ → Status × Option (Buckets N) → Type 0
    Fresh n before after (st, some buckets) =
        (st ≡ ok)
        × (buckets.chains ≡ replicate n [])
        × (buckets.address ≢ none)
        × (after ≡ before + 1)
    Fresh n before after (st, none) = (is_ok st ≡ false) × (after ≡ before)

    pub buckets_create-Fresh :
        (n : ℕ) (a : Option (Allocator W)) (w : W)
        → Lawful libc a live limit
        → 0 < n
        → live w < limit
        → Returns (buckets_create libc n a w) (λ r. Fresh n (live w) (live r.1) r.0)
    unfolding buckets_create
    buckets_create-Fresh n a w lawful positive room =
        let nonzero : (n == 0) ≡ false = ground arith in
        rw (nonzero, size_mul_overflow_lem sizeof_bucket n (omega arith), buckets_create)
          (elim (Bool-cases (leb (sizeof_bucket * n) size_max)) [
            | inr over ↦ rw over (_, refl, (refl, refl))
            | inl fits ↦ rw fits (
                and_then-Returns (lawful.alloc_law (sizeof_bucket * n) w (omega arith) room) λ r o.
                  elim (Obtains-cases (live w) (live r.1) r.0 o) [
                    | inl (st, (p, ptr), c) ↦ rw st (_, refl, (refl, refl, (λ e. cc), c))
                    | inr (st, c) ↦ rw st (_, refl, (rw st refl, c))
                  ])
          ])

    module _ {entry_hash : N → ℕ} {same : K → K → Bool} (keyed : Keyed hash entry_hash matches same)
        {size capacity : ℕ} {buckets : Buckets N} (order : InOrder size capacity buckets) where
      -- buckets in order with the same entries, or an error
      abbrev pub Rehashes : ℕ → Status × Option (Buckets N) → Type 0
      Rehashes n (st, some b) =
          (st ≡ ok)
          × InOrder size n b
          × ((k : K)
              → lookup hash matches n b.chains k ≡ lookup hash matches capacity buckets.chains k)
      Rehashes n (st, none) = is_ok st ≡ false

      move_into-Rehashes :
          (n : ℕ) (a : Option (Allocator W)) (w : W) (before : ℕ)
          (created : Status × Option (Buckets N))
          → Lawful libc a live limit
          → 0 < n
          → size * 4 ≤ n * 3
          → n * 3 ≤ size_max
          → Fresh n before (live w) created
          → Returns
              (move_into libc buckets capacity n a entry_hash created w)
              (λ r. Rehashes n r.0 × (live r.1 ≡ before))
      move_into-Rehashes n a w before (st, none) lawful positive enough small (e, f) =
          (_, refl, (e, f))
      move_into-Rehashes n a w before (st, some b) lawful positive enough small (e, empty, p, f) =
          and_then-Returns (lawful.dealloc_law buckets.address w order.address) λ r c. (
            _,
            refl,
            (
              (
                refl,
                record {
                  holds = rw empty (moved-Holds hash matches keyed order.holds n positive);
                  counted = rw empty (
                      omega (
                        arith,
                        order.counted,
                        total-moved hash matches keyed order.holds n positive,
                      ));
                  load = enough;
                  small = small;
                  address = p;
                },
                λ k. rw empty (lookup-moved hash matches keyed order.holds n positive k),
              ),
              omega arith,
            ),
          )

      pub buckets_rehash-Rehashes :
          (n : ℕ) (a : Option (Allocator W)) (w : W)
          → Lawful libc a live limit
          → live w < limit
          → 0 < n
          → size * 4 ≤ n * 3
          → n * 3 ≤ size_max
          → Returns
              (buckets_rehash libc buckets capacity n a entry_hash w)
              (λ r. Rehashes n r.0 × (live r.1 ≡ live w))
      unfolding buckets_rehash
      buckets_rehash-Rehashes n a w lawful room positive enough small =
          let nonzero : (capacity == 0) ≡ false = ground (arith, order.holds.room) in
          rw nonzero (
            and_then-Returns (buckets_create-Fresh n a w lawful positive room)
              λ r f. move_into-Rehashes n a r.1 (live w) r.0 lawful positive enough small f)
