-- ===== src/Hash/Keys.antt =====
-- Keys: when an equality of keys goes together with the hash of their bytes.
use k4c.Base.{
  ℕ, zero, suc, ◌≤◌, ◌≡◌, refl, sym, ◌∙◌, inl, inr, arith, Bool, true, Bool-cases, ◌==◌, Option,
  none, List, [], ◌∷◌, length,
}
use k4c.Base.Bytes.{same_bytes}
use k4c.Hash.{fnv_loop, fnv1a_hash}
use k4c.Hash.Common.{value_eq, matches}
use k4c.Hash.Common.Table.{Keyed}

module _ {K : Type 0} (bytes : K → List ℕ) (size : ℕ) (eq : Option (K → K → Bool)) where
  -- the hash of a key, and the equality of keys
  abbrev pub hash_of : K → ℕ
  hash_of k = fnv1a_hash (bytes k) size

  abbrev pub same_key : K → K → Bool
  same_key k q = value_eq bytes k q size eq

  -- an equivalence of keys, and equal keys have the same hash
  pub record KeyLaws : Type 0 where
    pub same_refl : (k : K) → same_key k k ≡ true
    pub same_sym : (k q : K) → same_key k q ≡ true → same_key q k ≡ true
    pub same_trans : (k q r : K) → same_key k q ≡ true → same_key q r ≡ true → same_key k r ≡ true
    pub same_hash : (k q : K) → same_key k q ≡ true → hash_of k ≡ hash_of q

  module _ {N : Type 0} (entry_value : N → K) (entry_hash : N → ℕ) where
    -- whether a node is that of the key
    abbrev pub matches_key : K → N → Bool
    matches_key k e = matches bytes entry_value entry_hash size eq k (hash_of k) e

    agree_one :
        (laws : KeyLaws) (k q : K) (e : N)
        → same_key k q ≡ true
        → same_key (entry_value e) k ≡ same_key (entry_value e) q
    agree_one laws k q e h = elim (Bool-cases (same_key (entry_value e) k)) [
      | inl f ↦ f ∙ sym (laws.same_trans (entry_value e) k q f h)
      | inr f ↦ elim (Bool-cases (same_key (entry_value e) q)) [
        | inr g ↦ f ∙ sym g
        | inl g ↦ let back = laws.same_trans (entry_value e) q k g (laws.same_sym k q h) in cc
      ]
    ]

    pub keyed : KeyLaws → Keyed hash_of entry_hash matches_key same_key
    keyed laws = record {
      match_hash = λ k e h. ground arith;
      agree = λ k q h e. rw (agree_one laws k q e h, laws.same_hash k q h) refl;
      apart = λ k q h e f. elim (Bool-cases (same_key (entry_value e) q)) [
        | inr g ↦ ground arith
        | inl g ↦
            let there : same_key (entry_value e) k ≡ true = ground arith in
            let both =
              laws.same_trans k (entry_value e) q (laws.same_sym (entry_value e) k there) g in
            cc
      ];
      same_hash = laws.same_hash;
    }

    -- a node with the key and its hash is that of every equal key, and of no other
    pub matches_own :
        (laws : KeyLaws) (k q : K) (e : N)
        → entry_value e ≡ k
        → entry_hash e ≡ hash_of k
        → matches_key q e ≡ same_key k q
    matches_own laws k q e f g = elim (Bool-cases (same_key k q)) [
      | inl h ↦
          let here : (hash_of k == hash_of q) ≡ true = rw (laws.same_hash k q h) (ground arith) in
          rw (f, g, here, h) refl
      | inr h ↦ rw (f, g, h) (ground arith)
    ]

-- With no callback keys are compared by `memcmp`; keys of the right length then keep the laws.
same_bytes_refl : (n : ℕ) (xs : List ℕ) → n ≤ length xs → same_bytes n xs xs ≡ true
unfolding same_bytes
same_bytes_refl zero xs h = refl
same_bytes_refl (suc n) [] h = absurd (omega arith)
same_bytes_refl (suc n) (x ∷ xs) h = ground (arith, same_bytes_refl n xs)

same_bytes_sym : (n : ℕ) (xs ys : List ℕ) → same_bytes n xs ys ≡ same_bytes n ys xs
unfolding same_bytes
same_bytes_sym zero xs ys = refl
same_bytes_sym (suc n) [] [] = refl
same_bytes_sym (suc n) [] (y ∷ ys) = refl
same_bytes_sym (suc n) (x ∷ xs) [] = refl
same_bytes_sym (suc n) (x ∷ xs) (y ∷ ys) = ground (arith, same_bytes_sym n xs ys)

same_bytes_trans :
    (n : ℕ) (xs ys zs : List ℕ)
    → same_bytes n xs ys ≡ true
    → same_bytes n ys zs ≡ true
    → same_bytes n xs zs ≡ true
unfolding same_bytes
same_bytes_trans zero xs ys zs e f = refl
same_bytes_trans (suc n) [] ys zs e f = cc
same_bytes_trans (suc n) (x ∷ xs) [] zs e f = cc
same_bytes_trans (suc n) (x ∷ xs) (y ∷ ys) [] e f = cc
same_bytes_trans (suc n) (x ∷ xs) (y ∷ ys) (z ∷ zs) e f =
    ground (arith, same_bytes_trans n xs ys zs)

fnv_loop_congr :
    (n : ℕ) (xs ys : List ℕ) (h : ℕ) → same_bytes n xs ys ≡ true → fnv_loop n xs h ≡ fnv_loop n ys h
unfolding same_bytes fnv_loop
fnv_loop_congr zero xs ys h e = refl
fnv_loop_congr (suc n) [] ys h e = cc
fnv_loop_congr (suc n) (x ∷ xs) [] h e = cc
fnv_loop_congr (suc n) (x ∷ xs) (y ∷ ys) h e =
    let head : x ≡ y = ground arith in rw head (fnv_loop_congr n xs ys _ (ground arith))

pub memcmp-KeyLaws :
    {K : Type 0} (bytes : K → List ℕ) (size : ℕ)
    → ((k : K) → length (bytes k) ≡ size)
    → KeyLaws bytes size none
unfolding value_eq fnv1a_hash
memcmp-KeyLaws bytes size all = record {
  same_refl = λ k. same_bytes_refl size (bytes k) (omega (arith, all k));
  same_sym = λ k q e. same_bytes_sym size (bytes q) (bytes k) ∙ e;
  same_trans = λ k q r. same_bytes_trans size (bytes k) (bytes q) (bytes r);
  same_hash = λ k q e. fnv_loop_congr size (bytes k) (bytes q) _ e;
}
