-- ===== src/Reader/Tests.antt =====
-- The reader on small inputs: a source that gives at most two bytes at a time.
use k4c.Base.{
  ℕ, zero, suc, ◌≤◌, ◌<◌, ◌≡◌, refl, inl, arith, some, List, [], ◌∷◌, ◌++◌, length, take, drop,
  done, Prog, Returns,
}
use k4c.Base.Bytes.{find_byte}
use k4c.Status.{Status, ok}
use k4c.Reader.{Reader, fill_more, take_array, take_delimiter}
use k4c.Reader.Buffer.{IsValid}
use k4c.Reader.Fill.{Explains, Delivers, Filled, fill_more-Filled}
use k4c.Reader.Array.{TakesArray, take_array-TakesArray}
use k4c.Reader.Delimiter.{take_delimiter-TakesDelimiter}
use k4c.Reader.Segment.{TakesDelimiter}

abbrev trickle : ℕ → Prog (List ℕ) (Status × List ℕ)
trickle zero left = done ((ok, []), left)
trickle (suc zero) left = done ((ok, take 1 left), drop 1 left)
trickle (suc (suc n)) left = done ((ok, take 2 left), drop 2 left)

abbrev NoFault : Status → Type 0
NoFault st = ⊥

trickle_law :
    (n : ℕ) (left : List ℕ)
    → 0 < n
    → Returns
        (trickle n left)
        λ a. (length a.0.1 ≤ n) × (left ≡ a.0.1 ++ a.1) × Explains NoFault left a.0.0 a.0.1
trickle_law zero left h = absurd (omega arith)
trickle_law (suc zero) [] h = (_, refl, (omega arith, refl, inl (refl, refl)))
trickle_law (suc zero) (x ∷ left) h = (_, refl, (omega arith, refl, tt))
trickle_law (suc (suc n)) [] h = (_, refl, (omega arith, refl, inl (refl, refl)))
trickle_law (suc (suc n)) (x ∷ []) h = (_, refl, (omega arith, refl, tt))
trickle_law (suc (suc n)) (x ∷ y ∷ left) h = (_, refl, (omega arith, refl, tt))

trickle-Delivers : Delivers (λ left. left) NoFault trickle
trickle-Delivers = record { read_law = trickle_law; fault_law = λ st f. absurd f }

-- four cells, of which the second holds a byte that is still unread
abbrev half_read : Reader (List ℕ)
half_read = record { read = trickle; cells = 7 ∷ 8 ∷ 0 ∷ 0 ∷ []; pos = 1; len = 2; capacity = 4 }

half_read-IsValid : IsValid half_read
half_read-IsValid = record {
  stored = refl;
  read_in = omega arith;
  within = omega arith;
  room = omega arith;
  small = omega arith;
}

-- rebasing moves the unread byte to the front, and the third byte of the stream comes after it
take_four :
    take_array half_read 4 (1 ∷ 2 ∷ 3 ∷ 4 ∷ [])
    ≡ done (
      (
        (ok, some (record { bytes = 8 ∷ 1 ∷ 2 ∷ 3 ∷ []; len = 4; pos = 0 })),
        record half_read { cells = 8 ∷ 1 ∷ 2 ∷ 3 ∷ []; pos = 4; len = 4 },
      ),
      4 ∷ [],
    )
unfolding take_array fill_more
take_four = refl

take_unterminated :
    take_delimiter half_read 5 (1 ∷ [])
    ≡ done (
      (
        (ok, some (record { bytes = 8 ∷ 1 ∷ 0 ∷ []; len = 2; pos = 0 })),
        record half_read { cells = 7 ∷ 8 ∷ 1 ∷ 0 ∷ []; pos = 3; len = 3 },
      ),
      [],
    )
unfolding take_delimiter fill_more find_byte
take_unterminated = refl

fill_more-Filled_example :
    Returns
      (fill_more half_read 4 3 (1 ∷ 2 ∷ 3 ∷ []))
      (Filled (λ left. left) NoFault half_read 3 (1 ∷ 2 ∷ 3 ∷ []))
fill_more-Filled_example =
    fill_more-Filled (λ left. left) NoFault half_read-IsValid trickle-Delivers 4 (omega arith)
      (omega arith) 3 (omega arith) (1 ∷ 2 ∷ 3 ∷ [])

take_array-TakesArray_example :
    Returns
      (take_array half_read 3 (1 ∷ 2 ∷ 3 ∷ []))
      (TakesArray (λ left. left) NoFault 3 half_read (1 ∷ 2 ∷ 3 ∷ []))
take_array-TakesArray_example =
    take_array-TakesArray (λ left. left) NoFault half_read-IsValid trickle-Delivers 3 (omega arith)
      (1 ∷ 2 ∷ 3 ∷ [])

take_delimiter-TakesDelimiter_example :
    Returns
      (take_delimiter half_read 2 (1 ∷ 2 ∷ 3 ∷ []))
      (TakesDelimiter (λ left. left) NoFault 2 half_read (1 ∷ 2 ∷ 3 ∷ []))
take_delimiter-TakesDelimiter_example =
    take_delimiter-TakesDelimiter (λ left. left) NoFault 2 half_read-IsValid trickle-Delivers
      (1 ∷ 2 ∷ 3 ∷ [])
