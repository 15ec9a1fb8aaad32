-- ===== src/Reader/Rebase.antt =====
-- `k4c_reader_rebase`: making room in the buffer.
use k4c.Base.{
  ℕ, ◌+◌, ◌-◌, ◌≤◌, ◌≡◌, refl, sym, ap, ◌∙◌, inl, inr, arith, ltb, leb, ◌==◌, false, Bool-cases,
}
use k4c.Size.{sub_size}
use k4c.Status.{Status, ok}
use k4c.Reader.{Reader, patch, compacted, rebase}
use k4c.Reader.Buffer.{
  IsValid, unread, segment, length-unread, segment-front, length-patch, sub_size-le,
}

-- the invariant holds, the unread bytes are the same, and so are the source and the capacity
pub record Keeps {W : Type 0} (r r' : Reader W) : Type 0 where
  pub valid : IsValid r'
  pub same_source : r'.read ≡ r.read
  pub same_capacity : r'.capacity ≡ r.capacity

pub Keeps-refl : {W : Type 0} {r : Reader W} → IsValid r → Keeps r r
Keeps-refl v = record { valid = v; same_source = refl; same_capacity = refl }

pub Keeps-trans : {W : Type 0} {r s t : Reader W} → Keeps r s → Keeps s t → Keeps r t
Keeps-trans a b = record {
  valid = b.valid;
  same_source = b.same_source ∙ a.same_source;
  same_capacity = b.same_capacity ∙ a.same_capacity;
}

pub record Rebased {W : Type 0} (r : Reader W) (required : ℕ) (o : Status × Reader W) : Type 0 where
  pub success : o.0 ≡ ok
  pub keeps : Keeps r o.1
  pub same_unread : unread o.1 ≡ unread r
  pub fits : o.1.pos + required ≤ r.capacity

module _ {W : Type 0} where
  compacted-Rebased :
      {r : Reader W} {required : ℕ}
      → IsValid r
      → required ≤ r.capacity
      → Rebased r required (ok, compacted r (r.len - r.pos))
  compacted-Rebased {r} v fits = record {
    success = refl;
    keeps = record {
      valid = record {
        stored = length-patch r.cells 0 (unread r) (omega (arith, length-unread v)) ∙ v.stored;
        read_in = omega arith;
        within = omega (arith, v.within);
        room = v.room;
        small = v.small;
      };
      same_source = refl;
      same_capacity = refl;
    };
    same_unread =
        ap (segment (patch r.cells 0 (unread r)) 0) (sym (length-unread v))
        ∙ segment-front r.cells (unread r);
    fits = omega arith;
  }

  emptied :
      {r : Reader W} {required : ℕ}
      → IsValid r
      → required ≤ r.capacity
      → r.len - r.pos ≡ 0
      → Rebased r required (ok, record r { pos = 0; len = 0 })
  emptied {r} v fits e = record {
    success = refl;
    keeps = record {
      valid = record {
        stored = v.stored;
        read_in = omega arith;
        within = omega arith;
        room = v.room;
        small = v.small;
      };
      same_source = refl;
      same_capacity = refl;
    };
    same_unread = rw e refl;
    fits = omega arith;
  }

  -- For a valid reader and a window that its buffer can hold, `rebase` succeeds, keeps the unread
  -- bytes, and leaves the window within the buffer.
  pub rebase-Rebased :
      {r : Reader W}
      → IsValid r
      → (required : ℕ) → required ≤ r.capacity
      → Rebased r required (rebase r required)
  unfolding rebase
  rebase-Rebased {r} v required h =
      let tail : sub_size r.capacity r.pos ≡ r.capacity - r.pos =
        sub_size-le r.capacity r.pos (omega (arith, v.read_in, v.within)) v.small in
      let available : sub_size r.len r.pos ≡ r.len - r.pos =
        sub_size-le r.len r.pos v.read_in (omega (arith, v.within, v.small)) in
      let holds : ltb r.capacity required ≡ false = ground arith in
      rw (available, tail, holds)
        (elim (Bool-cases (leb required (r.capacity - r.pos))) [
          | inl e ↦ rw e (record {
            success = refl;
            keeps = Keeps-refl v;
            same_unread = refl;
            fits = ground arith;
          })
          | inr e ↦
              let less : ltb required (r.len - r.pos) ≡ false = ground (arith, v.within) in
              rw (e, less)
                (elim (Bool-cases (r.len - r.pos == 0)) [
                  | inl none_left ↦ rw none_left (emptied v h (ground arith))
                  | inr some_left ↦ rw some_left (compacted-Rebased v h)
                ])
        ])
