-- ===== src/Size/Tests.antt =====
-- Runs of the size arithmetic, and its theorems at concrete inputs.
use k4c.Base.{◌≡◌, refl, none}
use k4c.Base.{◌^◌, arith}
use k4c.Size.Align.{Rounds, align_up_overflow-Rounds}
use k4c.Size.{size_max, align_up, align_up_overflow}

align_up_runs : align_up 17 16 ≡ 32
unfolding align_up
align_up_runs = refl

align_up_wraps : align_up size_max 16 ≡ 0
unfolding align_up
align_up_wraps = refl

align_up_overflow_runs : align_up_overflow size_max 16 ≡ none
unfolding align_up_overflow
align_up_overflow_runs = refl

align_up_overflow-Rounds_example : Rounds 4 (omega arith) 17 (align_up_overflow 17 (2 ^ 4))
align_up_overflow-Rounds_example = align_up_overflow-Rounds 4 (omega arith) 17 (omega arith)
