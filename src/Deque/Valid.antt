-- ===== src/Deque/Valid.antt =====
-- The invariant of a deque, the list that it stands for, and indices in the ring.
use k4c.Base.{
  ℕ, zero, suc, ◌+◌, ◌-◌, ◌*◌, ◌%◌, ◌^◌, ◌≤◌, ◌<◌, ◌≡◌, ◌≢◌, refl, arith, ltb, if◌then◌else◌, none,
  List, [], ◌∷◌, ◌++◌, length, length-append, Bool-cases, inl, inr, get_or, ap, ap₂, ◌∙◌,
}
use native.Mathlib.Nat.{mod-eq_of_lt, mod-eq-sub-mod}
use k4c.Size.{size_max, add_size, sub_size}
use k4c.Deque.{Deque, before, after}

-- a power of two that is a `size_t`
abbrev pub IsPower : ℕ → Type 0
IsPower c = (k : ℕ) × (k < 64) × (c ≡ 2 ^ k)

pub record IsValid {W E : Type 0} (d : Deque W E) : Type 0 where
  pub power : IsPower d.capacity
  pub room : 0 < d.capacity
  pub small : d.capacity ≤ 2 ^ 63
  pub stored : length d.cells ≡ d.capacity
  pub within : d.size ≤ d.capacity
  pub head_in : d.head < d.capacity
  pub tail_at : d.tail ≡ (d.head + d.size) % d.capacity
  pub sized : 0 < d.elem_size
  pub bytes : d.capacity * d.elem_size ≤ size_max
  pub buffer : d.buffer ≢ none
  pub address : d.address ≢ none

-- the values of `f` at 0, 1, up to below `n`
abbrev pub tabulate : {E : Type 0} → (ℕ → E) → ℕ → List E
tabulate f zero = []
tabulate f (suc n) = tabulate f n ++ f n ∷ []

pub tabulate_congr :
    {E : Type 0} (f g : ℕ → E) (n : ℕ) → ((i : ℕ) → i < n → f i ≡ g i) → tabulate f n ≡ tabulate g n
tabulate_congr f g zero h = refl
tabulate_congr f g (suc n) h =
    ap₂ (λ l x. l ++ x ∷ []) (tabulate_congr f g n (λ i p. h i (omega arith))) (h n (omega arith))

pub tabulate-suc :
    {E : Type 0} (f : ℕ → E) (n : ℕ) → tabulate f (suc n) ≡ f 0 ∷ tabulate (λ i. f (suc i)) n
tabulate-suc f zero = refl
tabulate-suc f (suc n) = ap (λ l. l ++ f (suc n) ∷ []) (tabulate-suc f n)

pub length-tabulate : {E : Type 0} (f : ℕ → E) (n : ℕ) → length (tabulate f n) ≡ n
length-tabulate f zero = refl
length-tabulate f (suc n) =
    omega (arith, length-append (tabulate f n) (f n ∷ []), length-tabulate f n)

-- an index in the ring is written with one subtraction at most
pub ring_index :
    (h i c : ℕ) → h < c → i ≤ c → (h + i) % c ≡ (if ltb (h + i) c then h + i else h + i - c)
ring_index h i c hh hi = elim (Bool-cases (ltb (h + i) c)) [
  | inl e ↦ rw e (mod-eq_of_lt (ground arith))
  | inr e ↦ rw e (
      mod-eq-sub-mod {n = h + i} {m = c} (ground arith)
      ∙ mod-eq_of_lt {n = h + i - c} {m = c} (omega arith))
]

module _ {W E : Type 0} where
  -- the index before another one
  pub before_index :
      {d : Deque W E} (i : ℕ)
      → IsValid d
      → i < d.capacity
      → before d i ≡ (if ltb 0 i then i - 1 else d.capacity - 1)
  before_index {d} i v h =
      let c = d.capacity in
      let sum : sub_size (add_size i c) 1 ≡ (if ltb 0 i then c + (i - 1) else c - 1) =
        ground arith in
      rw sum (elim (Bool-cases (ltb 0 i)) [
        | inl e ↦ rw e (
            mod-eq-sub-mod {n = c + (i - 1)} {m = c} (omega arith)
            ∙ (let kept : c + (i - 1) - c ≡ i - 1 = omega arith in
                rw kept (mod-eq_of_lt {n = i - 1} {m = c} (omega arith))))
        | inr e ↦ rw e (mod-eq_of_lt {n = c - 1} {m = c} (omega (arith, v.room)))
      ])

  -- the index after another one
  pub after_index :
      {d : Deque W E} (i : ℕ)
      → IsValid d
      → i < d.capacity
      → after d i ≡ (if ltb (i + 1) d.capacity then i + 1 else 0)
  after_index {d} i v h =
      let sum : add_size i 1 ≡ i + 1 = omega (arith, v.small) in
      rw sum (ground (arith, ring_index i 1 d.capacity h v.room))

module _ {W E : Type 0} (junk : E) where
  -- the cell of the `i`th element
  abbrev pub item : Deque W E → ℕ → E
  item d i = get_or d.cells ((d.head + i) % d.capacity) junk

  -- the elements, from the left end to the right end
  abbrev pub contents : Deque W E → List E
  contents d = tabulate (item d) d.size
