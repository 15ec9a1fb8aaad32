-- ===== src/Hash/Common/Destroy.antt =====
-- Destroying the buckets gives back every entry and the array: counted, and block by block.
use k4c.Base.{
  ℕ, ◌+◌, ◌-◌, ◌≡◌, ◌≢◌, refl, sym, ap, ◌∙◌, arith, ◌++◌, append-nil, append_assoc, Option, none,
  List, [], ◌∷◌, length, take-length, Prog, Returns, and_then-Returns,
}
use mathlib.Core.List.{map, map-append}
use k4c.Allocator.{Ptr, Libc, Allocator, dealloc}
use k4c.Allocator.Lawful.{Lawful}
use k4c.Hash.Common.{Buckets, destroy_chain, destroy_chains, buckets_destroy}
use k4c.Hash.Common.Table.{total}
use k4c.Hash.Common.Rehash.{nodes}

module _ {W N : Type 0} (libc : Libc W) (live : W → ℕ) (entry_destroy : N → Prog W (Unit {0}))
    (releases : (e : N) (w : W) → Returns (entry_destroy e w) (λ r. live r.1 ≡ live w - 1)) where
  destroy_chain-releases :
      (chain : List N) (w : W)
      → Returns (destroy_chain libc entry_destroy chain w) (λ r. live r.1 ≡ live w - length chain)
  unfolding destroy_chain
  destroy_chain-releases [] w = (_, refl, omega arith)
  destroy_chain-releases (e ∷ chain) w =
      and_then-Returns (releases e w)
        λ r c. let (s, run, d) = destroy_chain-releases chain r.1 in (s, run, omega arith)

  destroy_chains-releases :
      (chains : List (List N)) (w : W)
      → Returns (destroy_chains libc entry_destroy chains w) (λ r. live r.1 ≡ live w - total chains)
  unfolding destroy_chains
  destroy_chains-releases [] w = (_, refl, omega arith)
  destroy_chains-releases (c ∷ chains) w =
      and_then-Returns (destroy_chain-releases c w)
        λ r d. let (s, run, e) = destroy_chains-releases chains r.1 in (s, run, omega arith)

  pub buckets_destroy-releases :
      {limit : ℕ} (buckets : Buckets N) (capacity : ℕ) (a : Option (Allocator W)) (w : W)
      → Lawful libc a live limit
      → length buckets.chains ≡ capacity
      → buckets.address ≢ none
      → Returns
          (buckets_destroy libc buckets capacity a entry_destroy w)
          (λ r. live r.1 ≡ live w - (total buckets.chains + 1))
  unfolding buckets_destroy
  buckets_destroy-releases buckets capacity a w lawful filled p =
      rw (take-length capacity buckets.chains filled) (
        and_then-Returns (destroy_chains-releases buckets.chains w) λ r c.
          let (s, run, d) = lawful.dealloc_law buckets.address r.1 p in (s, run, omega arith))

-- two parts of a run, each of which adds to what was freed
pub frees_next :
    {W : Type 0} (freed : W → List Ptr) (w v u : W) (xs ys : List Ptr)
    → freed v ≡ freed w ++ xs
    → freed u ≡ freed v ++ ys
    → freed u ≡ freed w ++ (xs ++ ys)
frees_next freed w v u xs ys e f = f ∙ ap (λ t. t ++ ys) e ∙ append_assoc (freed w) xs ys

-- `freed` lists the blocks given back so far, the last one at the end; `address` is the block of a
-- node.
module _ {W N : Type 0} (libc : Libc W) (freed : W → List Ptr) (address : N → Ptr)
    (entry_destroy : N → Prog W (Unit {0}))
    (frees : (e : N) (w : W)
      → Returns (entry_destroy e w) (λ r. freed r.1 ≡ freed w ++ address e ∷ [])) where
  -- `r` is the machine after these blocks were given back
  abbrev pub Frees : W → List Ptr → Unit {0} × W → Type 0
  Frees w blocks r = freed r.1 ≡ freed w ++ blocks

  destroy_chain-Frees :
      (chain : List N) (w : W)
      → Returns (destroy_chain libc entry_destroy chain w) (Frees w (map address chain))
  unfolding destroy_chain
  destroy_chain-Frees [] w = (_, refl, sym (append-nil (freed w)))
  destroy_chain-Frees (e ∷ chain) w = and_then-Returns (frees e w) λ r c.
      let (s, run, d) = destroy_chain-Frees chain r.1 in
      (s, run, frees_next freed w r.1 s.1 (address e ∷ []) (map address chain) c d)

  destroy_chains-Frees :
      (chains : List (List N)) (w : W)
      → Returns (destroy_chains libc entry_destroy chains w) (Frees w (map address (nodes chains)))
  unfolding destroy_chains
  destroy_chains-Frees [] w = (_, refl, sym (append-nil (freed w)))
  destroy_chains-Frees (chain ∷ chains) w = and_then-Returns (destroy_chain-Frees chain w) λ r c.
      let (s, run, d) = destroy_chains-Frees chains r.1 in
      let e = frees_next freed w r.1 s.1 (map address chain) (map address (nodes chains)) c d in
      (s, run, rw (map-append address chain (nodes chains)) e)

  pub buckets_destroy-Frees :
      (buckets : Buckets N) (capacity : ℕ) (a : Option (Allocator W)) (w : W)
      → ((block : Ptr) (v : W)
          → block ≢ none
          → Returns (dealloc libc a block v) (Frees v (block ∷ [])))
      → length buckets.chains ≡ capacity
      → buckets.address ≢ none
      → Returns
          (buckets_destroy libc buckets capacity a entry_destroy w)
          (Frees w (map address (nodes buckets.chains) ++ buckets.address ∷ []))
  unfolding buckets_destroy
  buckets_destroy-Frees buckets capacity a w frees_block filled p =
      rw (take-length capacity buckets.chains filled) (
        and_then-Returns (destroy_chains-Frees buckets.chains w) λ r c.
          let (s, run, d) = frees_block buckets.address r.1 p in
          (
            s,
            run,
            frees_next freed w r.1 s.1 (map address (nodes buckets.chains)) (buckets.address ∷ []) c
                d,
          ))
