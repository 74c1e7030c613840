-- ===== src/Shared/Result.antt =====
-- Rust's `Result`, and actions: state passing with a result, where `?` is bind and `map_err` is a
-- map on the error.
use mathlib.Core.Path.{◌≡◌, refl, ap}
use mathlib.Core.Option.{Option, none, some}

pub data Result {ℓ κ} (E : Type ℓ) (A : Type κ) : Type (ℓ ⊔ κ) where
  ok : A → Result E A
  err : E → Result E A

-- `Option` read as the error of a call that returns nothing.
abbrev pub failing {ℓ} : {E : Type ℓ} → Option E → Result E (Unit {0})
failing none = ok tt
failing (some e) = err e

module _ {ℓ κ} {E : Type ℓ} where
  abbrev pub map_err {μ} : {F : Type μ} {A : Type κ} → (E → F) → Result E A → Result F A
  map_err f (ok a) = ok a
  map_err f (err e) = err (f e)

  abbrev pub and_then {μ} : {A : Type κ} {B : Type μ} → Result E A → (A → Result E B) → Result E B
  and_then (ok a) f = f a
  and_then (err e) f = err e

-- A computation over the state `S` that may fail with an `E`.
abbrev pub Action : Type 0 → Type 0 → Type 0 → Type 0
Action S E A = S → Result E A × S

abbrev pub then_with : {S E A B : Type 0} → (A → Action S E B) → Result E A × S → Result E B × S
then_with f (ok a, s) = f a s
then_with f (err e, s) = (err e, s)

infixl 5 ◌>>=◌ ◌>>◌
abbrev pub ◌>>=◌ : {S E A B : Type 0} → Action S E A → (A → Action S E B) → Action S E B
◌>>=◌ m f s = then_with f (m s)

abbrev pub ◌>>◌ : {S E B : Type 0} → Action S E (Unit {0}) → Action S E B → Action S E B
m >> k = m >>= λ _. k

abbrev pub pure : {S E A : Type 0} → A → Action S E A
pure a s = (ok a, s)

abbrev pub throw : {S E A : Type 0} → E → Action S E A
throw e s = (err e, s)

-- A pure result, lifted.
abbrev pub lift : {S E A : Type 0} → Result E A → Action S E A
lift r s = (r, s)

-- Inversion of a successful bind.
pub then_with-eq-ok :
    {S E A B : Type 0} (r : Result E A × S) (f : A → Action S E B) {b : B} {s : S}
    → then_with f r ≡ (ok b, s)
    → (a : A) × (u : S) × (r ≡ (ok a, u)) × (f a u ≡ (ok b, s))
then_with-eq-ok (ok a, u) f h = (a, u, refl, h)
then_with-eq-ok (err x, u) f h = absurd (cc (ap (λ p. p.0) h))

pub ok-injective {ℓ κ} :
    {E : Type ℓ} {A : Type κ} {a b : A} → ◌≡◌ {A = Result E A} (ok a) (ok b) → a ≡ b
ok-injective h = cc

pub some-injective {ℓ} : {A : Type ℓ} {a b : A} → some a ≡ some b → a ≡ b
some-injective h = cc
