-- ===== src/Service.antt =====
-- The error values that the packages registry, gameworker and templatecatalog share in shape:
-- `ServiceError`, its codes, and a Go pair `(T, error)` as a sum.
use bananagine.Prelude.{String, Bool, true, false, ◌≡◌, refl, ◌⊎◌, inl, inr}

-- `(value, nil)` or `(zero, err)`.
pub data Result {ℓ κ} (E : Type ℓ) (A : Type κ) : Type (ℓ ⊔ κ) where
  ok : A → Result E A
  err : E → Result E A

infixl 5 ◌>>=◌ ◌>>◌
abbrev pub ◌>>=◌ {ℓ κ μ} :
    {E : Type ℓ} {A : Type κ} {B : Type μ} → Result E A → (A → Result E B) → Result E B
ok a >>= f = f a
err e >>= f = err e

abbrev pub ◌>>◌ {ℓ κ} : {E : Type ℓ} {B : Type κ} → Result E (Unit {0}) → Result E B → Result E B
m >> k = m >>= λ _. k

pub Result-cases {ℓ κ} :
    {E : Type ℓ} {A : Type κ} (r : Result E A) → ((a : A) × (r ≡ ok a)) ⊎ ((e : E) × (r ≡ err e))
Result-cases (ok a) = inl (a, refl)
Result-cases (err e) = inr (e, refl)

-- if !cond { return err }
abbrev pub require {ℓ} : {E : Type ℓ} → Bool → E → Result E (Unit {0})
require true e = ok tt
require false e = err e

pub record ServiceError : Type 0 where
  pub code : String
  pub message : String
  pub retryable : Bool

abbrev pub code_invalid_argument : String
code_invalid_argument = "invalid_argument"

abbrev pub code_conflict : String
code_conflict = "conflict"

abbrev pub code_not_found : String
code_not_found = "not_found"

abbrev pub code_internal : String
code_internal = "internal"

abbrev pub invalid : String → ServiceError
invalid message = record { code = code_invalid_argument; message = message; retryable = false }

abbrev pub conflict : String → ServiceError
conflict message = record { code = code_conflict; message = message; retryable = false }

abbrev pub not_found : String → ServiceError
not_found message = record { code = code_not_found; message = message; retryable = false }

abbrev pub internal : String → ServiceError
internal message = record { code = code_internal; message = message; retryable = true }

pub ok_injective {ℓ κ} :
    {E : Type ℓ} → {A : Type κ} → {x y : A} → ◌≡◌ {A = Result E A} (ok x) (ok y) → x ≡ y
ok_injective q = cc
