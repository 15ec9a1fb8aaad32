-- ===== src/BinaryHeap/Push.antt =====
-- `push`: one element more, in heap order; or an error and no change.
use k4c.Base.{
  ℕ, suc, ◌+◌, ◌-◌, ◌<◌, ◌≡◌, refl, inl, inr, ◌⊎◌, ap, ◌∙◌, sym, arith, Bool, false, some, List, [],
  ◌∷◌, ◌++◌, length, take, length-append, get_or-take, get_or-append, pure, lift, ◌>>=◌, Returns,
  and_then-Returns,
}
use k4c.Status.{Status, ok, is_ok}
use k4c.Allocator.{Libc}
use k4c.Allocator.Lawful.{Lawful}
use k4c.Vector.{Vector}
use k4c.Vector.Valid as ValidVector
use k4c.Vector.Room as RoomVector
use k4c.BinaryHeap.{BinaryHeap, item, sift_up, precedes_in, with_cells, push}
use k4c.BinaryHeap.Order.{count, one_if}
use k4c.BinaryHeap.SiftUp.{parent, Ordered, Rising, sift_up-Sifted}
use k4c.BinaryHeap.Valid.{IsValid, contents, count-append, restored-IsValid}

module _ {E : Type 0} (junk : E) (precedes : E → E → Bool) where
  -- a new element behind those in heap order
  appended-Rising :
      (n m idx : ℕ) (old cells : List E) (x : E)
      → m ≡ suc n
      → idx ≡ n
      → take m cells ≡ take n old ++ x ∷ []
      → length (take n old) ≡ n
      → Ordered junk precedes n old
      → Rising junk precedes m cells idx
  appended-Rising n m idx old cells x size at e long order =
      let same = λ (i : ℕ) (h : i < n).
        sym (get_or-take m cells i junk (omega arith))
        ∙ ap (λ c. item junk c i) e
        ∙ get_or-append (take n old) (x ∷ []) i junk (omega arith)
        ∙ get_or-take n old i junk h in
      record {
        others = λ i pos h ne.
            rw (same i (omega arith), same (parent i) (omega arith)) (order i pos (omega arith));
        over = λ c pos h above up. absurd (omega arith);
      }

module _ {W E : Type 0} (bytes : E → List ℕ) (junk : E) where
  -- The heap holds the element as well, or it is unchanged.
  abbrev pub Pushes : BinaryHeap W E → E → Status × BinaryHeap W E → Type 0
  Pushes heap x r =
      IsValid bytes junk r.1
      × (((r.0 ≡ ok)
            × ((q : E → Bool)
                → count q (contents bytes junk r.1)
                  ≡ count q (contents bytes junk heap) + one_if (q x)))
          ⊎ ((is_ok r.0 ≡ false) × (r.1 ≡ heap)))

module _ {W E : Type 0} (libc : Libc W) (bytes : E → List ℕ) (junk : E) (live : W → ℕ)
    (limit : ℕ) where
  -- after a push to the vector that succeeded
  sifted-Pushes :
      {heap : BinaryHeap W E} (x : E) (root : Vector W E) (w : W)
      → IsValid bytes junk heap
      → ValidVector.IsValid root
      → ValidVector.contents root ≡ contents bytes junk heap ++ x ∷ []
      → root.elem_size ≡ heap.root.elem_size
      → Returns
          ((do
            cells ←
                lift (sift_up junk (precedes_in bytes heap) root.size root.cells (root.size - 1))
            pure (ok, with_cells bytes heap root cells))
            w)
          (λ r. Pushes bytes junk heap x r.0 × (live r.1 ≡ live w))
  sifted-Pushes {heap} x root w v rv grown es =
      let n = heap.root.size in
      let long = ValidVector.length-contents v.root in
      let size : root.size ≡ suc n = omega (
        arith,
        ValidVector.length-contents rv,
        ap length grown,
        length-append (contents bytes junk heap) (x ∷ []),
        long,
      ) in
      let rising : Rising junk (precedes_in bytes heap) root.size root.cells (root.size - 1) =
        appended-Rising junk (precedes_in bytes heap) n root.size (root.size - 1) heap.root.cells
          root.cells x size (omega arith) grown long v.ordered in
      let (r, run, s) =
        sift_up-Sifted junk (precedes_in bytes heap) v.laws root.size root.size root.cells
          (root.size - 1) (omega (arith, rv.stored, rv.within)) (omega arith) (omega arith)
          rising in
      rw run (
        _,
        refl,
        (
          (
            restored-IsValid bytes junk root r v rv es s.1 s.0,
            inl (
              refl,
              λ q.
                  s.2 q
                  ∙ ap (count q) grown
                  ∙ count-append q (contents bytes junk heap) (x ∷ [])
                  ∙ omega arith,
            ),
          ),
          refl,
        ),
      )

  -- On a valid heap whose allocator keeps its contract, `push` returns, and no block leaks. Either it
  -- reports success: then the heap is valid, no element precedes its parent, and it holds the
  -- elements that it held and the new one; or it reports an error, and the heap is unchanged.
  pub push-sift_up :
      {heap : BinaryHeap W E} (x : E) (w : W)
      → Lawful libc (some heap.root.allocator) live limit
      → IsValid bytes junk heap
      → Returns
          (push libc bytes junk heap x w)
          (λ r. Pushes bytes junk heap x r.0 × (live r.1 ≡ live w))
  unfolding push
  push-sift_up {heap} x w lawful v =
      and_then-Returns (RoomVector.push-same libc junk live limit x w lawful v.root) λ r m.
        elim (m.0.1) [
          | inl (e, grown) ↦
              let (a, run, f) = sifted-Pushes x r.0.1 r.1 v m.0.0 grown m.1 in
              rw e (a, run, (f.0, f.1 ∙ m.3))
          | inr (e, same) ↦ rw (e, same) (_, refl, ((v, inr (e, refl)), m.3))
        ]
