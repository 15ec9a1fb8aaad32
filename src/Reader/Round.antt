-- ===== src/Reader/Round.antt =====
-- A round of the loop that looks for a delimiter.
use mathlib.Core.Path.{subst}
use k4c.Base.{
  Avoids, ℕ, suc, ◌+◌, ◌-◌, ◌<◌, ◌≡◌, ◌≢◌, refl, sym, ap, ◌∙◌, inl, inr, arith, ◌==◌, false,
  Bool-cases, Option, none, Option-cases, List, [], ◌++◌, length, length-append, take, append-nil,
  done, Prog, Returns, and_then-Returns,
}
use k4c.Base.Bytes.{find_byte}
use k4c.Size.{sub_size, add_size}
use k4c.Status.{
  Status, ok, invalid_argument, no_memory, overflow, out_of_range, not_found, eof, io, invalid_data,
  unsupported,
}
use k4c.Cursor.{Cursor}
use k4c.Reader.{Reader, after_missing, after_empty, seek_round}
use k4c.Reader.Buffer.{IsValid, unread, length-unread, take_front, sub_size-le, add_size-le}
use k4c.Reader.Rebase.{Keeps-refl}
use k4c.Reader.Fill.{
  Stops, Delivers, Filled, fill_more-Filled, stream, Stops-ne_ok, Filled-stream, source_Delivers,
}
use k4c.Reader.FindByte.{find_byte-none}
use k4c.Reader.Segment.{Reasons, TakesDelimiter, TakesDelimiter-step, found_lem, last_lem}

module _ {W : Type 0} where
  -- a status other than OK and EOF is passed on
  after_missing-fault :
      (next_round : Reader W → Prog W ((Status × Option Cursor) × Reader W)) (st : Status)
      (r : Reader W) (w : W)
      → st ≢ ok
      → st ≢ eof
      → after_missing next_round (st, r) w ≡ done (((st, none), r), w)
  after_missing-fault next_round ok r w h k = absurd (h refl)
  after_missing-fault next_round eof r w h k = absurd (k refl)
  after_missing-fault next_round invalid_argument r w h k = refl
  after_missing-fault next_round no_memory r w h k = refl
  after_missing-fault next_round overflow r w h k = refl
  after_missing-fault next_round out_of_range r w h k = refl
  after_missing-fault next_round not_found r w h k = refl
  after_missing-fault next_round io r w h k = refl
  after_missing-fault next_round invalid_data r w h k = refl
  after_missing-fault next_round unsupported r w h k = refl

module _ {W : Type 0} (content : W → List ℕ) (Fault : Status → Type 0) (delimiter : ℕ) where
  -- The loop by its rounds: what the next round does is taken as a hypothesis.
  module _ {fuel : ℕ} {r : Reader W} (w : W) (v : IsValid r)
      (source : Delivers content Fault r.read)
      (next_round : Reader W → Prog W ((Status × Option Cursor) × Reader W))
      (again : (s : Reader W) (w' : W)
        → IsValid s
        → Delivers content Fault s.read
        → s.capacity - length (unread s) < fuel
        → Returns (next_round s w') (TakesDelimiter content Fault delimiter s w'))
      (enough : r.capacity - length (unread r) < suc fuel) where
    next_lem :
        (o : (Status × Reader W) × W) (f : Filled content Fault r r.capacity w o)
        → 0 < length (f.arrived)
        → Returns (next_round o.0.1 o.1) (TakesDelimiter content Fault delimiter r w)
    next_lem ((st, s), w') f got =
        let grown = ap length f.extended ∙ length-append (unread r) f.arrived in
        let same = Filled-stream content Fault ((st, s), w') f in
        let less : s.capacity - length (unread s) < fuel = omega (
          arith,
          grown,
          f.keeps.same_capacity,
          length-unread f.keeps.valid,
          f.keeps.valid.within,
        ) in
        let (o, run, t) =
          again s w' f.keeps.valid (source_Delivers content Fault f.keeps.same_source source)
            less in
        (o, run, TakesDelimiter-step content Fault delimiter w w' o f.keeps same t)

    after_empty_lem :
        r.len - r.pos ≡ 0
        → (o : (Status × Reader W) × W) → Filled content Fault r r.capacity w o
        → Returns (after_empty next_round o.0 o.1) (TakesDelimiter content Fault delimiter r w)
    after_empty_lem none_left ((st, s), w') f = elim (f.outcome) [
      | inl (e, got, few) ↦ rw e (next_lem ((st, s), w') f got)
      | inr (e, stop) ↦ rw (Stops-ne_ok source.fault_law stop) (
        _,
        refl,
        (
          f.keeps,
          inr (refl, Filled-stream content Fault ((st, s), w') f, rw none_left (at_end stop)),
        ),
      )
    ]
      where
        at_end :
            Stops Fault (content w) st → Reasons content Fault delimiter r.capacity (content w) st
        at_end (inl x) = inl x
        at_end (inr x) = inr (inr x)

    after_missing_lem :
        Avoids delimiter (unread r)
        → 0 < r.len - r.pos
        → (o : (Status × Reader W) × W) → Filled content Fault r r.capacity w o
        → Returns (after_missing next_round o.0 o.1) (TakesDelimiter content Fault delimiter r w)
    after_missing_lem avoids some_left ((st, s), w') f =
        let same = Filled-stream content Fault ((st, s), w') f in
        elim (f.outcome) [
          | inl (e, got, few) ↦ rw e (next_lem ((st, s), w') f got)
          | inr (e, inl (end, over)) ↦
              let kept : unread s ≡ unread r =
                f.extended ∙ ap (λ u. unread r ++ u) e ∙ append-nil (unread r) in
              let available : sub_size s.len s.pos ≡ s.len - s.pos =
                sub_size-le s.len s.pos f.keeps.valid.read_in
                  (omega (arith, f.keeps.valid.within, f.keeps.valid.small)) in
              let held : s.len - s.pos ≡ r.len - r.pos =
                sym (length-unread f.keeps.valid) ∙ ap length kept ∙ length-unread v in
              let nonzero : (s.len - s.pos == 0) ≡ false = ground (arith, held) in
              let left : content w' ≡ [] = sym (f.taken ∙ ap (λ u. u ++ content w') e) ∙ over in
              let (o, run, t) =
                last_lem content Fault delimiter f.keeps.valid
                  (subst (Avoids delimiter) (sym kept) avoids) left (omega (arith, held)) in
              rw (end, available, nonzero)
                (o, run, TakesDelimiter-step content Fault delimiter w w' o f.keeps same t)
          | inr (e, inr fault) ↦
              let (not_ok, not_eof) = source.fault_law st fault in
              (
                _,
                after_missing-fault next_round st s w' not_ok not_eof,
                (f.keeps, inr (refl, same, inr (inr fault))),
              )
        ]

    -- a full buffer without a delimiter
    full_lem :
        Avoids delimiter (unread r)
        → r.len - r.pos ≡ r.capacity
        → TakesDelimiter content Fault delimiter r w (((overflow, none), r), w)
    full_lem avoids full =
        let all : take r.capacity (stream content r w) ≡ unread r =
          ap (λ n. take n (stream content r w)) (sym full ∙ sym (length-unread v))
          ∙ take_front (unread r) (content w) in
        (
          Keeps-refl v,
          inr (
            refl,
            refl,
            inr (
                inl (
                  refl,
                  omega (arith, full, length-append (unread r) (content w), length-unread v),
                  subst (Avoids delimiter) (sym all) avoids,
                )),
          ),
        )

    pub seek_round_lem :
        Returns (seek_round next_round delimiter r w) (TakesDelimiter content Fault delimiter r w)
    unfolding seek_round
    seek_round_lem =
        let available : sub_size r.len r.pos ≡ r.len - r.pos =
          sub_size-le r.len r.pos v.read_in (omega (arith, v.within, v.small)) in
        rw available (elim (Bool-cases (r.len - r.pos == 0)) [
          | inl e ↦
              let none_left : r.len - r.pos ≡ 0 = ground arith in
              rw e (
                and_then-Returns
                  (fill_more-Filled content Fault v source 1 v.room (omega arith) r.capacity v.room
                    w)
                  λ o f. after_empty_lem none_left o f)
          | inr e ↦ elim (Option-cases (find_byte delimiter (unread r))) [
            | inl missing ↦ elim (Bool-cases (r.len - r.pos == r.capacity)) [
              | inl full ↦
                  rw (e, missing, available, full, seek_round)
                    (_, refl, full_lem (find_byte-none delimiter (unread r) missing) (ground arith))
              | inr less ↦
                  let one_more : add_size (r.len - r.pos) 1 ≡ r.len - r.pos + 1 =
                    add_size-le (r.len - r.pos) 1 (ground (arith, v.within, v.small)) in
                  rw (e, missing, available, less, one_more, seek_round)
                    (and_then-Returns
                      (fill_more-Filled content Fault v source (r.len - r.pos + 1)
                        (ground (arith, v.within)) (omega arith) r.capacity v.room w)
                      λ o f.
                        after_missing_lem (find_byte-none delimiter (unread r) missing)
                          (ground arith) o f)
            ]
            | inr (i, found) ↦
                rw (e, found, seek_round) (found_lem content Fault delimiter v i found w)
          ]
        ])
