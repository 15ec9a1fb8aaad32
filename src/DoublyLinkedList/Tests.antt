-- ===== src/DoublyLinkedList/Tests.antt =====
-- The list 10, 20, 30 through the nodes at these addresses.
use k4c.Base.{ℕ, ◌≡◌, ◌==◌, refl, arith, if◌then◌else◌, none, some, [], ◌∷◌}
use k4c.TestAllocator.{Machine}
use k4c.TestAllocator.Fixture.{owner}
use k4c.Iterator.{drain, iterator_next}
use k4c.Links.{write}
use k4c.DoublyLinkedList.{DoublyLinkedList, Nodes, push, insert_after, remove, get_iterator}
use k4c.DoublyLinkedList.Segment.{Holds}
use k4c.DoublyLinkedList.Insert.{Inserts, insert_after-Inserts}
use k4c.DoublyLinkedList.Remove.{Unlinks, remove-Unlinks}

abbrev three : DoublyLinkedList (Machine ℕ)
three = record { address = some 96; size = 3; head = some 10; tail = some 30; allocator = owner }

abbrev nodes : Nodes
nodes = record {
  prev = λ a. if a == 30 then some 20 else (if a == 20 then some 10 else none);
  next = λ a. if a == 10 then some 20 else (if a == 20 then some 30 else none);
}

three-Holds : Holds three nodes (10 ∷ 20 ∷ 30 ∷ [])
three-Holds = record {
  segment = (refl, refl, (refl, refl, (refl, refl, (refl, refl))));
  count = refl;
  distinct = omega arith;
  small = omega arith;
}

-- the node in the middle is removed, and put back at the end
abbrev without : DoublyLinkedList (Machine ℕ) × Nodes
without = remove three 20 nodes

abbrev moved : DoublyLinkedList (Machine ℕ) × Nodes
moved = push without.0 20 without.1

moved_items : drain 4 (get_iterator moved.0 moved.1) ≡ 10 ∷ 30 ∷ 20 ∷ []
unfolding remove push get_iterator write iterator_next
moved_items = refl

insert_after-Inserts_example :
    Inserts (10 ∷ []) 15 (20 ∷ 30 ∷ []) nodes (insert_after three (some 10) 15 nodes)
insert_after-Inserts_example =
    insert_after-Inserts three nodes [] 10 (20 ∷ 30 ∷ []) 15 three-Holds (omega arith) (omega arith)

remove-Unlinks_example : Unlinks (10 ∷ []) 20 (30 ∷ []) nodes (remove three 20 nodes)
remove-Unlinks_example = remove-Unlinks three nodes (10 ∷ []) 20 (30 ∷ []) three-Holds
