-- ===== src/Errors.antt =====
-- What the services throw: HttpExceptions of Nest with their status codes, and other errors.
use pr_sentinel_backend.Base.{ℕ, String, ◌≡◌, refl, ◌⊎◌, inl, inr}

pub data Exception : Type 0 where
  http_exception : (status : ℕ) (message : String) → Exception
  js_error : (message : String) → Exception
  thrown_value : (text : String) → Exception

abbrev pub bad_request : String → Exception
bad_request = http_exception 400

abbrev pub unauthorized : String → Exception
unauthorized = http_exception 401

abbrev pub forbidden : String → Exception
forbidden = http_exception 403

abbrev pub not_found : String → Exception
not_found = http_exception 404

abbrev pub conflict : String → Exception
conflict = http_exception 409

abbrev pub too_many_requests : String → Exception
too_many_requests = http_exception 429

abbrev pub internal_server_error : String → Exception
internal_server_error = http_exception 500

-- `error instanceof Error ? error.message : String(error)`
unfoldable pub message_of : Exception → String
message_of (http_exception status message) = message
message_of (js_error message) = message
message_of (thrown_value text) = text

-- What a call that may throw returns.
pub data Result {ℓ} (A : Type ℓ) : Type ℓ where
  err : Exception → Result A
  ok : A → Result A

infixl 5 ◌>>=◌
-- The rest of a function after a call: an exception ends it.
abbrev pub ◌>>=◌ : {A B : Type 0} → Result A → (A → Result B) → Result B
call >>= rest = elim call [ err e ↦ err e | ok value ↦ rest value ]

pub Result-cases {ℓ} :
    {A : Type ℓ} (r : Result A) → ((e : Exception) × (r ≡ err e)) ⊎ ((a : A) × (r ≡ ok a))
Result-cases (ok a) = inr (a, refl)
Result-cases (err e) = inl (e, refl)
