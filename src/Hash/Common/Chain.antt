-- ===== src/Hash/Common/Chain.antt =====
-- One chain: the first node with a property, removing it, changing it, and how many there are.
use k4c.Base.{
  ℕ, suc, ◌+◌, ◌-◌, ◌≤◌, ◌≡◌, refl, arith, Bool, true, false, if◌then◌else◌, Option, none, some,
  List, [], ◌∷◌, ◌++◌, length,
}
use k4c.Hash.Common.{first, remove_first, change_first}

-- the number of nodes with the property
abbrev pub count : {N : Type 0} → (N → Bool) → List N → ℕ
count test [] = 0
count test (node ∷ rest) = if test node then suc (count test rest) else count test rest

abbrev pub or_first : {N : Type 0} → Option N → Option N → Option N
or_first none other = other
or_first (some node) other = some node

module _ {N : Type 0} where
  pub first-append :
      (test : N → Bool) (xs ys : List N)
      → first test (xs ++ ys) ≡ or_first (first test xs) (first test ys)
  unfolding first
  first-append test [] ys = refl
  first-append test (x ∷ xs) ys = ground (arith, first-append test xs ys)

  pub count-append :
      (test : N → Bool) (xs ys : List N) → count test (xs ++ ys) ≡ count test xs + count test ys
  count-append test [] ys = omega arith
  count-append test (x ∷ xs) ys = ground (arith, count-append test xs ys)

  pub first-none : (test : N → Bool) (xs : List N) → count test xs ≡ 0 → first test xs ≡ none
  unfolding first
  first-none test [] h = refl
  first-none test (x ∷ xs) h = ground (arith, first-none test xs)

  pub count-zero : (test : N → Bool) (xs : List N) → first test xs ≡ none → count test xs ≡ 0
  unfolding first
  count-zero test [] h = refl
  count-zero test (x ∷ xs) h = ground (arith, count-zero test xs)

  -- the node found has the property
  pub first-some :
      (test : N → Bool) (xs : List N) {node : N} → first test xs ≡ some node → test node ≡ true
  unfolding first
  first-some test [] h = cc
  first-some test (x ∷ xs) {node} h = ground (arith, first-some test xs {node = node})

  pub first-agree : (p q : N → Bool) (xs : List N) → ((n : N) → p n ≡ q n) → first p xs ≡ first q xs
  unfolding first
  first-agree p q [] h = refl
  first-agree p q (x ∷ xs) h = ground (arith, first-agree p q xs h, h x)

  pub count-agree : (p q : N → Bool) (xs : List N) → ((n : N) → p n ≡ q n) → count p xs ≡ count q xs
  count-agree p q [] h = refl
  count-agree p q (x ∷ xs) h = ground (arith, count-agree p q xs h, h x)

  module _ (p q : N → Bool) (change : N → N) (keeps : (n : N) → q (change n) ≡ q n) where
    pub count-change_first : (xs : List N) → count q (change_first p change xs) ≡ count q xs
    count-change_first [] = refl
    count-change_first (x ∷ xs) = ground (arith, count-change_first xs, keeps x)

    pub length-change_first : (xs : List N) → length (change_first p change xs) ≡ length xs
    length-change_first [] = refl
    length-change_first (x ∷ xs) = ground (arith, length-change_first xs)

    pub first-change_first_apart :
        (xs : List N)
        → ((n : N) → p n ≡ true → q n ≡ false)
        → first q (change_first p change xs) ≡ first q xs
    unfolding first
    first-change_first_apart [] h = refl
    first-change_first_apart (x ∷ xs) h =
        ground (arith, first-change_first_apart xs h, keeps x, h x)

    pub first-change_first_agree :
        (xs : List N) {node : N}
        → ((n : N) → p n ≡ q n)
        → first p xs ≡ some node
        → first q (change_first p change xs) ≡ some (change node)
    unfolding first
    first-change_first_agree [] h e = cc
    first-change_first_agree (x ∷ xs) {node} h e =
        ground (arith, first-change_first_agree xs {node = node} h, keeps x, h x)

  pub remove_first-first : (p : N → Bool) (xs : List N) → (remove_first p xs).0 ≡ first p xs
  unfolding remove_first first
  remove_first-first p [] = refl
  remove_first-first p (x ∷ xs) = ground (arith, remove_first-first p xs)

  module _ (p q : N → Bool) where
    pub first-remove_first_apart :
        (xs : List N)
        → ((n : N) → p n ≡ true → q n ≡ false)
        → first q (remove_first p xs).1 ≡ first q xs
    unfolding remove_first first
    first-remove_first_apart [] h = refl
    first-remove_first_apart (x ∷ xs) h = ground (arith, first-remove_first_apart xs h, h x)

    pub count-remove_first : (xs : List N) → count q (remove_first p xs).1 ≤ count q xs
    unfolding remove_first
    count-remove_first [] = omega arith
    count-remove_first (x ∷ xs) = ground (arith, count-remove_first xs)

    pub count-remove_first_agree :
        (xs : List N) → ((n : N) → p n ≡ q n) → count q (remove_first p xs).1 ≡ count q xs - 1
    unfolding remove_first
    count-remove_first_agree [] h = refl
    count-remove_first_agree (x ∷ xs) h =
        ground (arith, count-remove_first_agree xs h, h x, count-zero p xs)

  pub length-remove_first :
      (p : N → Bool) (xs : List N) {node : N}
      → first p xs ≡ some node
      → suc (length (remove_first p xs).1) ≡ length xs
  unfolding remove_first first
  length-remove_first p [] e = cc
  length-remove_first p (x ∷ xs) {node} e = ground (arith, length-remove_first p xs {node = node})

  pub remove_first-none :
      (p : N → Bool) (xs : List N) → first p xs ≡ none → (remove_first p xs).1 ≡ xs
  unfolding remove_first first
  remove_first-none p [] e = refl
  remove_first-none p (x ∷ xs) e = ground (arith, remove_first-none p xs)
