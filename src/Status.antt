-- ===== src/Status.antt =====
-- include/k4c/error.h and lib/error.c: the status that fallible functions return.
use k4c.Base.{Bool, true, false}

pub data Status : Type 0 where
  ok invalid_argument no_memory overflow out_of_range not_found eof io invalid_data unsupported :
      Status

-- the test `st == K4C_STATUS_OK`
abbrev pub is_ok : Status → Bool
is_ok ok = true
is_ok _ = false
