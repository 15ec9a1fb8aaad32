-- ===== src/Reader/Delimiter.antt =====
-- Taking the bytes through a delimiter from the stream.
use k4c.Base.{ℕ, zero, suc, ◌+◌, ◌-◌, ◌<◌, ◌≡◌, arith, ◌==◌, false, List, length, Returns}
use k4c.Status.{Status}
use k4c.Reader.{Reader, seek, take_delimiter}
use k4c.Reader.Buffer.{IsValid, unread}
use k4c.Reader.Fill.{Delivers}
use k4c.Reader.Segment.{TakesDelimiter}
use k4c.Reader.Round.{seek_round_lem}

module _ {W : Type 0} (content : W → List ℕ) (Fault : Status → Type 0) (delimiter : ℕ) where
  seek-TakesDelimiter :
      (fuel : ℕ) (r : Reader W) (w : W)
      → IsValid r
      → Delivers content Fault r.read
      → r.capacity - length (unread r) < fuel
      → Returns (seek fuel delimiter r w) (TakesDelimiter content Fault delimiter r w)
  unfolding seek
  seek-TakesDelimiter zero r w v source h = absurd (omega arith)
  seek-TakesDelimiter (suc fuel) r w v source h =
      seek_round_lem content Fault delimiter w v source (seek fuel delimiter)
        (λ s w' v' source' h'. seek-TakesDelimiter fuel s w' v' source' h') h

  -- On a valid reader over a source that delivers a stream, `take_delimiter` returns and keeps the
  -- invariant. It gives a valid cursor over the first bytes of the stream and leaves the others: up
  -- to and with the first delimiter, or all that is left when that holds no delimiter and is not
  -- empty. Or it gives none and leaves the stream: with EOF when it is at its end, with OVERFLOW
  -- when as many bytes as the capacity come without a delimiter, or with a fault of the source.
  pub take_delimiter-TakesDelimiter :
      {r : Reader W}
      → IsValid r
      → Delivers content Fault r.read
      → (w : W)
      → Returns (take_delimiter r delimiter w) (TakesDelimiter content Fault delimiter r w)
  unfolding take_delimiter
  take_delimiter-TakesDelimiter {r} v source w =
      let room : (r.capacity == 0) ≡ false = ground (arith, v.room) in
      rw room (seek-TakesDelimiter (r.capacity + 1) r w v source (omega arith))
