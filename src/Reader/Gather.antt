-- ===== src/Reader/Gather.antt =====
-- The loop that gathers bytes until enough of them are unread.
use mathlib.Core.Path.{subst}
use k4c.Base.{
  ℕ, zero, suc, ◌-◌, ◌≤◌, ◌<◌, ◌≡◌, refl, ap, ◌∙◌, ◌⊎◌, inl, inr, arith, ltb, Bool-cases, List,
  ◌++◌, length, length-append, Prog, Returns, and_then-Returns,
}
use k4c.Size.{sub_size}
use k4c.Status.{Status, ok}
use k4c.Reader.{Reader, go_on, gather}
use k4c.Reader.Buffer.{IsValid, unread, length-unread, sub_size-le}
use k4c.Reader.Rebase.{Keeps, Keeps-refl, Keeps-trans}
use k4c.Reader.Fill.{
  Stops, Delivers, Filled, fill_more-Filled, stream, Stops-ne_ok, Filled-stream, source_Delivers,
}

module _ {W : Type 0} (content : W → List ℕ) (Fault : Status → Type 0) where
  -- how the loop that gathers `count` bytes may end
  abbrev pub Gathers : ℕ → Reader W → W → (Status × Reader W) × W → Type 0
  Gathers count r w o =
      Keeps r o.0.1
      × (stream content o.0.1 o.1 ≡ stream content r w)
      × (((o.0.0 ≡ ok) × (count ≤ length (unread o.0.1)))
          ⊎ ((length (unread o.0.1) < count) × Stops Fault (content o.1) o.0.0))

  Gathers-step :
      {count : ℕ} {r s : Reader W} (w w' : W)
      → Keeps r s
      → stream content s w' ≡ stream content r w
      → (o : (Status × Reader W) × W) → Gathers count s w' o
      → Gathers count r w o
  Gathers-step w w' keeps same o (k, e, outcome) = (Keeps-trans keeps k, e ∙ same, outcome)

  after_fill :
      {fuel count : ℕ} {r : Reader W} {w : W}
      → IsValid r
      → Delivers content Fault r.read
      → count ≤ r.capacity
      → (next_round : Reader W → Prog W (Status × Reader W))
      → ((s : Reader W) (w' : W)
          → IsValid s
          → Delivers content Fault s.read
          → count ≤ s.capacity
          → count - length (unread s) < fuel
          → Returns (next_round s w') (Gathers count s w'))
      → count - length (unread r) < suc fuel
      → r.len - r.pos < count
      → (o : (Status × Reader W) × W) → Filled content Fault r (count - (r.len - r.pos)) w o
      → Returns (go_on next_round o.0 o.1) (Gathers count r w)
  after_fill {fuel} {count} {r} {w} v source fits next_round again h less ((st, s), w') f =
      let same = Filled-stream content Fault ((st, s), w') f in
      let grown = ap length f.extended ∙ length-append (unread r) f.arrived in
      elim (f.outcome) [
        | inl (e, got, few) ↦
            let (o, run, g) =
              again s w' f.keeps.valid (source_Delivers content Fault f.keeps.same_source source)
                (omega (arith, f.keeps.same_capacity)) (omega (arith, grown, length-unread v)) in
            rw (e, run) (o, refl, Gathers-step w w' f.keeps same o g)
        | inr (e, stop) ↦
            let left : content w ≡ content w' = f.taken ∙ ap (λ u. u ++ content w') e in
            rw (Stops-ne_ok source.fault_law stop) (
              _,
              refl,
              (
                f.keeps,
                same,
                inr (
                  omega (arith, grown, length-unread v, ap length e),
                  subst (λ u. Stops Fault u st) left stop,
                ),
              ),
            )
      ]

  pub gather-Gathers :
      (fuel : ℕ) {r : Reader W} (count : ℕ)
      → IsValid r
      → Delivers content Fault r.read
      → count ≤ r.capacity
      → (w : W) → count - length (unread r) < fuel
      → Returns (gather fuel count r w) (Gathers count r w)
  unfolding gather
  gather-Gathers zero count v source fits w h = absurd (omega arith)
  gather-Gathers (suc fuel) {r} count v source fits w h =
      let available : sub_size r.len r.pos ≡ r.len - r.pos =
        sub_size-le r.len r.pos v.read_in (omega (arith, v.within, v.small)) in
      rw available (elim (Bool-cases (ltb (r.len - r.pos) count)) [
        | inl less ↦
            let missing : sub_size count (r.len - r.pos) ≡ count - (r.len - r.pos) =
              sub_size-le count (r.len - r.pos) (ground arith) (omega (arith, v.small)) in
            rw (less, missing)
              (and_then-Returns
                (fill_more-Filled content Fault v source count fits (ground arith)
                  (count - (r.len - r.pos)) (ground arith) w)
                λ o f.
                  after_fill v source fits (gather fuel count)
                    (λ s w' v' source' fits' h'.
                      gather-Gathers fuel {r = s} count v' source' fits' w' h')
                    h (ground arith) o f)
        | inr enough ↦
            rw enough (_, refl, (Keeps-refl v, refl, inl (refl, ground (arith, length-unread v))))
      ])
