-- ===== src/Heap/Dealloc.antt =====
-- Giving a block back: it is found by its payload, and joined with its free neighbours.
use k4c.Base.{
  ℕ, ◌+◌, ◌≤◌, ◌<◌, ◌≡◌, refl, sym, arith, leb, ◌==◌, ◌||◌, if◌then◌else◌, Bool, true, false, some,
  List, [], ◌∷◌, ◌++◌, ◌∙◌, Returns,
}
use k4c.Size.{size_max, add_size}
use k4c.Heap.{
  Block, Heap, Place, payload, relink, find_place, join_next, join_prev, coalesce, dealloc,
}
use k4c.Heap.Tiling.{
  Tiles, IsValid, live, live-append, Tiles-bounds, Serves, relink-Serves, joined-Serves,
}

-- the list of a place
abbrev all_of : Place → List Block
all_of p = relink p.before (p.block ∷ p.behind)

relink-relink :
    (bs before rest : List Block) → relink (relink bs before) rest ≡ relink before (bs ++ rest)
relink-relink [] before rest = refl
relink-relink (b ∷ bs) before rest = relink-relink bs (b ∷ before) rest

-- the parts of a tiling around one of its blocks
Tiles-split :
    (bs : List Block) (start end : ℕ) (b : Block) (cs : List Block)
    → Tiles start end (bs ++ b ∷ cs)
    → (start ≤ b.address) × (b.address + (32 + b.size) ≤ end) × (0 < b.size)
Tiles-split [] start end b cs (at, multiple, some_bytes, t) =
    let bound = Tiles-bounds (start + (32 + b.size)) end cs t in
    (omega (arith, at), omega (arith, at), some_bytes)
Tiles-split (x ∷ bs) start end b cs (at, multiple, some_bytes, t) =
    let (after, inside, b_bytes) = Tiles-split bs (start + (32 + x.size)) end b cs t in
    (omega arith, inside, b_bytes)

find_place-relink :
    (bs before : List Block) (start end : ℕ) (b : Block) (cs : List Block)
    → end ≤ size_max
    → Tiles start end (bs ++ b ∷ cs)
    → find_place (payload b) before (bs ++ b ∷ cs)
      ≡ some (record { before = relink bs before; block = b; behind = cs })
unfolding find_place
find_place-relink [] before start end b cs small t =
    let (after, inside, b_bytes) = Tiles-split [] start end b cs t in
    let here : (payload b == payload b) ≡ true = ground arith in rw here refl
find_place-relink (x ∷ bs) before start end b cs small (at, multiple, some_bytes, t) =
    let (after, inside, b_bytes) = Tiles-split bs (start + (32 + x.size)) end b cs t in
    let elsewhere : (payload x == payload b) ≡ false = ground (arith, at) in
    rw elsewhere (find_place-relink bs (x ∷ before) (start + (32 + x.size)) end b cs small t)

-- joining changes neither what is live nor that the heap is cut without gaps
abbrev Joins : ℕ → Place → Place → Type 0
Joins end p q = Serves end (all_of p) (all_of q) × (q.block.is_free ≡ true)

unjoined : {end : ℕ} (p : Place) → p.block.is_free ≡ true → Joins end p p
unjoined p free = (record { tiles = λ start t. t; same = refl }, free)

if-Joins :
    {end : ℕ} (test : Bool) (p q : Place)
    → p.block.is_free ≡ true
    → (test ≡ true → Joins end p q)
    → Joins end p (if test then q else p)
if-Joins true p q free joins = joins refl
if-Joins false p q free joins = unjoined p free

module _ {end : ℕ} (small : end ≤ size_max) where
  join_next-Joins :
      (before : List Block) (b : Block) (behind : List Block)
      → b.is_free ≡ true
      → let p : Place = record { before = before; block = b; behind = behind } in
        Joins end p (join_next p)
  unfolding join_next
  join_next-Joins before b [] free =
      unjoined (record { before = before; block = b; behind = [] }) free
  join_next-Joins before b (next ∷ rest) free =
      if-Joins (next.is_free) _ _ free
        λ e. (relink-Serves before _ _ (joined-Serves b next rest small free e), free)

  join_prev-Joins :
      (before : List Block) (b : Block) (behind : List Block)
      → b.is_free ≡ true
      → let p : Place = record { before = before; block = b; behind = behind } in
        Joins end p (join_prev p)
  unfolding join_prev
  join_prev-Joins [] b behind free =
      unjoined (record { before = []; block = b; behind = behind }) free
  join_prev-Joins (prev ∷ rest) b behind free =
      if-Joins (prev.is_free) _ _ free
        λ e. (relink-Serves rest _ _ (joined-Serves prev b behind small e free), e)

  coalesce-Serves :
      (p : Place) → p.block.is_free ≡ true → Serves end (all_of p) (all_of (coalesce p))
  unfolding coalesce
  coalesce-Serves p free =
      let (next, next_free) = join_next-Joins p.before p.block p.behind free in
      let q = join_next p in
      let (prev, _) = join_prev-Joins q.before q.block q.behind next_free in
      record {
        tiles = λ start t. prev.tiles start (next.tiles start t);
        same = next.same ∙ prev.same;
      }

-- a tiling does not read the free flags
Tiles-freed :
    (bs : List Block) (start end : ℕ) (b : Block) (cs : List Block)
    → Tiles start end (bs ++ b ∷ cs)
    → Tiles start end (bs ++ record b { is_free = true } ∷ cs)
Tiles-freed [] start end b cs t = t
Tiles-freed (x ∷ bs) start end b cs (at, multiple, some_bytes, t) =
    (at, multiple, some_bytes, Tiles-freed bs (start + (32 + x.size)) end b cs t)

-- On a valid heap with a block in use, giving back that block's payload returns. The heap stays
-- cut without gaps, and exactly this block is no longer in use.
pub dealloc-Releases :
    {h : Heap}
    → IsValid h
    → (bs : List Block) (b : Block) (cs : List Block) → h.blocks ≡ bs ++ b ∷ cs
    → b.is_free ≡ false
    → Returns
        (dealloc h (some (payload b)))
        (λ h'. IsValid h' × (live h'.blocks ≡ live bs ++ live cs))
unfolding dealloc
dealloc-Releases {h} v bs b cs e used =
    let end = h.buffer + h.capacity in
    let t : Tiles h.buffer end (bs ++ b ∷ cs) = rw (← e) v.tiles in
    let (after, inside, some_bytes) = Tiles-split bs h.buffer end b cs t in
    let small = v.small in
    let pay : payload b ≡ b.address + 32 = omega arith in
    let in_range : (leb (payload b) h.buffer || leb (add_size h.buffer h.capacity) (payload b))
        ≡ false =
      ground arith in
    let found = find_place-relink bs [] h.buffer end b cs small t in
    let p : Place = record {
      before = relink bs [];
      block = record b { is_free = true };
      behind = cs;
    } in
    let whole : all_of p ≡ bs ++ record b { is_free = true } ∷ cs =
      relink-relink bs [] (p.block ∷ cs) in
    let s = coalesce-Serves small p refl in
    let tiles : Tiles h.buffer end (all_of p) = rw whole (Tiles-freed bs h.buffer end b cs t) in
    let left : live (all_of p) ≡ live bs ++ live cs = rw whole (live-append bs (p.block ∷ cs)) in
    rw (in_range, e, found)
      (
        _,
        refl,
        (
          record { aligned = v.aligned; small = small; tiles = s.tiles h.buffer tiles },
          sym s.same ∙ left,
        ),
      )
