-- ===== src/Base/Effects.antt =====
-- What a call of the library comes to, and code that also changes the state of the machine.
use mathlib.Core.Path.{◌≡◌}

-- `panic` is k4c_panic, which aborts; `out_of_fuel` says that the bound on a loop was too low.
pub data Run {ℓ} (A : Type ℓ) : Type ℓ where
  done : A → Run A
  panic : Run A
  out_of_fuel : Run A

-- The run ends normally, with a result that satisfies `P`.
abbrev pub Returns {ℓ κ} : {A : Type ℓ} → Run A → (A → Type κ) → Type (ℓ ⊔ κ)
Returns {A} r P = (a : A) × (r ≡ done a) × P a

abbrev pub Prog {ℓ κ} : Type ℓ → Type κ → Type (ℓ ⊔ κ)
Prog W A = W → Run (A × W)

abbrev pub pure {ℓ κ} : {W : Type ℓ} {A : Type κ} → A → Prog W A
pure a w = done (a, w)

abbrev pub abort {ℓ κ} : {W : Type ℓ} {A : Type κ} → Prog W A
abort w = panic

abbrev pub and_then {ℓ κ} : {A : Type ℓ} {B : Type κ} → Run A → (A → Run B) → Run B
and_then (done a) f = f a
and_then panic f = panic
and_then out_of_fuel f = out_of_fuel

-- A step that neither reads nor writes the state of the machine.
abbrev pub lift {ℓ κ} : {W : Type ℓ} {A : Type κ} → Run A → Prog W A
lift r w = and_then r (λ a. done (a, w))

infixl 5 ◌>>=◌ ◌>>◌
abbrev pub ◌>>=◌ {ℓ κ μ} :
    {W : Type ℓ} {A : Type κ} {B : Type μ} → Prog W A → (A → Prog W B) → Prog W B
◌>>=◌ m f w = and_then (m w) (λ r. f r.0 r.1)

abbrev pub ◌>>◌ {ℓ κ} : {W : Type ℓ} {B : Type κ} → Prog W (Unit {0}) → Prog W B → Prog W B
m >> k = m >>= λ _. k

-- A program that is certain to return goes on with what it returned.
pub and_then-Returns {ℓ κ μ ν} :
    {A : Type ℓ} {B : Type κ} {r : Run A} {f : A → Run B} {P : A → Type μ} {Q : B → Type ν}
    → Returns r P
    → ((a : A) → P a → Returns (f a) Q)
    → Returns (and_then r f) Q
and_then-Returns {f} (a, e, p) k = let (b, run, q) = k a p in (b, rw e run, q)
