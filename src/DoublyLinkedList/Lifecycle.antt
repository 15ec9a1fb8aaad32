-- ===== src/DoublyLinkedList/Lifecycle.antt =====
-- Creating and destroying a list, over an allocator that keeps its contract.
use k4c.Base.{
  ℕ, ◌+◌, ◌-◌, ◌<◌, ◌≡◌, ◌≢◌, refl, inl, inr, arith, false, Option, none, some, [], Returns,
  and_then-Returns,
}
use k4c.Platform.{sizeof_linked_list}
use k4c.Status.{Status, ok, is_ok}
use k4c.Allocator.{Libc, Allocator}
use k4c.Allocator.Lawful.{Lawful, Obtains-cases, copy_Lawful}
use k4c.DoublyLinkedList.{DoublyLinkedList, Nodes, create, destroy}
use k4c.DoublyLinkedList.Segment.{Holds}

module _ {W : Type 0} (libc : Libc W) (count : W → ℕ) (limit : ℕ) where
  -- an empty list in one new block, or an error and no block
  abbrev pub Creates : ℕ → ℕ → Status × Option (DoublyLinkedList W) → Type 0
  Creates before after (st, none) = (is_ok st ≡ false) × (after ≡ before)
  Creates before after (st, some list) =
      (st ≡ ok)
      × ((nodes : Nodes) → Holds list nodes [])
      × (list.address ≢ none)
      × Lawful libc (some list.allocator) count limit
      × (after ≡ before + 1)

  -- With an allocator that keeps its contract, `create` returns: an empty list in one new block,
  -- which keeps a copy of the allocator, or an error and no block.
  pub create-Creates :
      (a : Option (Allocator W)) (w : W)
      → Lawful libc a count limit
      → count w < limit
      → Returns (create libc a w) (λ r. Creates (count w) (count r.1) r.0)
  unfolding create
  create-Creates a w lawful room =
      and_then-Returns (lawful.alloc_law sizeof_linked_list w (omega arith) room) λ r o.
        elim (Obtains-cases (count w) (count r.1) r.0 o) [
          | inl (st, (p, ptr), c) ↦ rw st (
            _,
            refl,
            (
              refl,
              λ nodes. record {
                segment = (refl, refl);
                count = refl;
                distinct = tt;
                small = omega arith;
              },
              (λ e. cc),
              copy_Lawful libc lawful,
              c,
            ),
          )
          | inr (st, c) ↦ rw st (_, refl, (rw st refl, c))
        ]

  -- `destroy` returns and gives the block of the list back
  pub destroy-dealloc :
      (list : DoublyLinkedList W) (w : W)
      → Lawful libc (some list.allocator) count limit
      → list.address ≢ none
      → Returns (destroy libc list w) (λ r. count r.1 ≡ count w - 1)
  unfolding destroy
  destroy-dealloc list w lawful h = lawful.dealloc_law list.address w h
