-- ===== src/Hash/Map/Put.antt =====
-- `put`: the key is mapped to the value, and nothing else changes; or an error, and no key changes.
use k4c.Base.{
  done, ◌==◌, Prog, pure, ℕ, ◌+◌, ◌<◌, ◌≡◌, refl, sym, ap, ◌∙◌, ◌⊎◌, inl, inr, arith, true, false,
  none, some, List, Returns, and_then-Returns, if◌then◌else◌, Bool-cases, Option-cases,
}
use k4c.Status.{Status, ok, is_ok}
use k4c.Allocator.{Libc}
use k4c.Allocator.Lawful.{Lawful}
use k4c.Hash.Map.{HashMap, get, insert, put_new, put}
use k4c.Hash.Map.Valid.{IsValid, get-value_at, same, entry_in, entry_find-entry_in}
use k4c.Hash.Map.Reserve.{Rebuilds, rebuilt, make_room-Rebuilds, rebuilt-IsValid, value_at-rebuilt}
use k4c.Hash.Map.Insert.{Puts, rebuilt-Puts, overwrite-Puts, insert-Puts}

module _ {W K V : Type 0} (libc : Libc W) (bytes : K → List ℕ) (live : W → ℕ) (limit : ℕ) where
  -- after the growth
  put_roomy :
      {map : HashMap W K V} (key : K) (value : V) (w : W) (before : ℕ) (st : Status)
      (roomy : HashMap W K V)
      → Lawful libc (some map.allocator) live limit
      → live w < limit
      → live w ≡ before
      → IsValid bytes map
      → entry_in bytes map key ≡ none
      → Rebuilds bytes map (map.size + 1) (st, roomy)
      → Returns
          ((elim (is_ok st) as (λ _. Prog W (Status × HashMap W K V)) [
            | false ↦ pure (st, roomy)
            | true ↦ insert libc bytes roomy key value
          ])
            w)
          (λ r. Puts bytes map key value before (live r.1) r.0)
  put_roomy {map} key value w before st roomy lawful room same_live v absent k =
      let ready = rebuilt-IsValid libc bytes live limit lawful v k in
      let gets = value_at-rebuilt libc bytes live limit lawful v k in
      elim (k.outcome) [
        | inr (e, f) ↦ rw e (
          _,
          refl,
          record { valid = ready; outcome = inr (e, gets, ap HashMap.size k.eq, same_live) },
        )
        | inl (e, enough) ↦
            rw (e, k.eq, ← same_live)
              (let (r, run, p) =
                  insert-Puts libc bytes live limit {map = rebuilt map k.n k.b} key value w lawful
                    room (rw k.eq at ready) (k.lookups key ∙ absent) enough in
                (r, run, rebuilt-Puts bytes k.n k.b key value (rw k.eq at gets) p))
      ]

  put_new-Puts :
      {map : HashMap W K V} (key : K) (value : V) (w : W)
      → Lawful libc (some map.allocator) live limit
      → live w < limit
      → IsValid bytes map
      → entry_in bytes map key ≡ none
      → Returns
          (put_new libc bytes map key value w)
          (λ r. Puts bytes map key value (live w) (live r.1) r.0)
  unfolding put_new
  put_new-Puts key value w lawful room v absent =
      and_then-Returns (make_room-Rebuilds libc bytes live limit lawful v w room) λ r k.
        put_roomy key value r.1 (live w) r.0.0 r.0.1 lawful (omega (arith, k.1)) k.1 v absent k.0

  -- On a valid map whose allocator keeps its contract, `put` returns, and the map stays valid.
  -- Either it reports success: then every key that equals `key` has the value, every other key has
  -- what it had, and the size and the number of live blocks rise by one exactly if `key` had no
  -- value. Or it reports an error: then every key has what it had, and the size and the number of
  -- live blocks are unchanged.
  pub put-Puts :
      {map : HashMap W K V} (key : K) (value : V) (w : W)
      → Lawful libc (some map.allocator) live limit
      → live w < limit
      → IsValid bytes map
      → Returns
          (put libc bytes map key value w)
          (λ r. Puts bytes map key value (live w) (live r.1) r.0)
  unfolding put
  put-Puts {map} key value w lawful room v =
      let positive : (map.key_size == 0) ≡ false = ground (arith, v.sized) in
      elim (Option-cases (entry_in bytes map key)) [
        | inl absent ↦
            rw (entry_find-entry_in bytes map key, positive, absent, put)
              (put_new-Puts key value w lawful room v absent)
        | inr (entry, found) ↦
            rw (entry_find-entry_in bytes map key, positive, found, put)
              (_, refl, overwrite-Puts bytes key value (live w) v found)
      ]

  get_after :
      {map : HashMap W K V} (key : K) (value : V) (before after : ℕ) (r : Status × HashMap W K V)
      → IsValid bytes map
      → Puts bytes map key value before after r
      → ((r.0 ≡ ok)
          × ((q : K)
              → get bytes r.1 q
                ≡ (if same bytes map key q then done (some value) else get bytes map q)))
        ⊎ ((is_ok r.0 ≡ false) × ((q : K) → get bytes r.1 q ≡ get bytes map q))
  get_after {map} key value before after r v p = elim (p.outcome) [
    | inl (e, gets, size, rest) ↦ inl (
      e,
      λ q. elim (Bool-cases (same bytes map key q)) [
        | inl h ↦ rw (get-value_at bytes q p.valid, gets q, h) refl
        | inr h ↦ rw (get-value_at bytes q p.valid, gets q, h) (sym (get-value_at bytes q v))
      ],
    )
    | inr (e, gets, size, rest) ↦
        inr (e, λ q. rw (get-value_at bytes q p.valid, gets q) (sym (get-value_at bytes q v)))
  ]

  -- On a valid map whose allocator keeps its contract, a `get` after a `put` that succeeds returns the
  -- value for every key that equals the key put, and for any other what `get` returned before; after
  -- a `put` that fails every `get` returns what it returned before. The `put` itself returns.
  pub get-put :
      {map : HashMap W K V} (key : K) (value : V) (w : W)
      → Lawful libc (some map.allocator) live limit
      → live w < limit
      → IsValid bytes map
      → Returns (put libc bytes map key value w) λ r.
        ((r.0.0 ≡ ok)
          × ((q : K)
              → get bytes r.0.1 q
                ≡ (if same bytes map key q then done (some value) else get bytes map q)))
        ⊎ ((is_ok r.0.0 ≡ false) × ((q : K) → get bytes r.0.1 q ≡ get bytes map q))
  get-put key value w lawful room v =
      let (r, run, p) = put-Puts key value w lawful room v in
      (r, run, get_after key value (live w) (live r.1) r.0 v p)
