-- ===== src/Errors.antt =====
-- backend/app/errors.py: the application's error, and the response that each kind of exception is
-- turned into. Messages and log lines are not modelled.
use eval_ledger.Base.{
  ◌⊎◌, inl, inr, refl, ℕ, ◌≡◌, Bool, true, false, Option, none, String, ◌==◌, if◌then◌else◌,
}

-- `details` is kept as far as a handler reads it: the field `retry_after`.
pub record AppError : Type 0 where
  pub code : String
  pub status_code : ℕ
  pub retry_after : Option ℕ

abbrev pub app_error : String → ℕ → AppError
app_error code status = record { code = code; status_code = status; retry_after = none }

-- A function that returns or raises an `AppError`.
pub data Result {ℓ} (A : Type ℓ) : Type ℓ where
  ok : A → Result A
  err : AppError → Result A

module _ {ℓ κ} {A : Type ℓ} {B : Type κ} where
  infixl 5 ◌>>=◌
  -- An error skips what follows.
  abbrev pub ◌>>=◌ : Result A → (A → Result B) → Result B
  err raised >>= next = err raised
  ok value >>= next = next value

module _ {κ} {B : Type κ} where
  infixl 5 ◌>>◌
  abbrev pub ◌>>◌ : Result (Unit {0}) → Result B → Result B
  err raised >> next = err raised
  ok done >> next = next

-- `if not b: raise e`
abbrev pub guard : Bool → AppError → Result (Unit {0})
guard false e = err e
guard true e = ok tt

-- The exceptions that have a handler of their own.
pub data Raised : Type 0 where
  app : AppError → Raised
  http : ℕ → Raised
  request_validation : Raised
  integrity : Raised
  unexpected : Raised

pub record ErrorResponse : Type 0 where
  pub status : ℕ
  pub error_code : String
  pub retry_after_header : Option ℕ

-- The five handlers of `register_exception_handlers`.
unfoldable pub handle : Raised → ErrorResponse
handle (app e) = record {
  status = e.status_code;
  error_code = e.code;
  retry_after_header = if e.status_code == 429 then e.retry_after else none;
}
handle (http status_code) = record {
  status = status_code;
  error_code = "http_error";
  retry_after_header = none;
}
handle request_validation = record {
  status = 422;
  error_code = "validation_error";
  retry_after_header = none;
}
handle integrity = record {
  status = 409;
  error_code = "integrity_error";
  retry_after_header = none;
}
handle unexpected = record {
  status = 500;
  error_code = "internal_error";
  retry_after_header = none;
}

pub Result-cases {ℓ} :
    {A : Type ℓ} (r : Result A) → ((a : A) × (r ≡ ok a)) ⊎ ((e : AppError) × (r ≡ err e))
Result-cases (ok a) = inl (a, refl)
Result-cases (err e) = inr (e, refl)
