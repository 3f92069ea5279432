-- ===== src/Http.antt =====
-- What every route passes through: src/shared/filters/all-exceptions.filter.ts for what a handler
-- throws, and src/shared/interceptor/response-format.interceptor.ts for what it returns. Log lines
-- are left out; a timestamp is a number of milliseconds.
pub mod Disclosure
use pr_sentinel_backend.Base.{
  ℕ, String, Bool, true, false, List, Option, none, some, if◌then◌else◌, str_eq, or_else,
}

-- The `message` of the object that an HttpException answers with.
pub data MessageField : Type 0 where
  absent : MessageField
  one : String → MessageField
  many : List String → MessageField

-- `exception.getResponse()`
pub data ExceptionResponse : Type 0 where
  text : String → ExceptionResponse
  object : (message : MessageField) → (error : Option String) → ExceptionResponse
  other_response : ExceptionResponse

-- What may be thrown: an HttpException, another Error, or any other value.
pub data Thrown : Type 0 where
  http : (status : ℕ) → (message : String) → ExceptionResponse → Thrown
  error : (message : String) → Thrown
  value : String → Thrown

-- The additional columns of the error.
pub data Extra : Type 0 where
  nothing : Extra
  errors : List String → Extra
  error_name : String → Extra

-- `ApiErrorResponse`
pub record ApiErrorResponse : Type 0 where
  pub message : String
  pub status_code : ℕ
  pub extra : Extra
  pub timestamp : ℕ
  pub path : String

-- `getStatus`
unfoldable pub get_status : Thrown → ℕ
get_status (http status message response) = status
get_status _ = 500

-- `parseException`; `production` is the test of NODE_ENV.
abbrev pub extra_of : Option String → Extra
extra_of none = nothing
extra_of (some name) = if str_eq name "" then nothing else error_name name

unfoldable pub parse_exception : (production : Bool) → Thrown → String × Extra
parse_exception production (http status message (text s)) = (s, nothing)
parse_exception production (http status message (object (many lines) name)) =
    ("Validation failed", errors lines)
parse_exception production (http status message (object (one s) name)) = (s, extra_of name)
parse_exception production (http status message (object absent name)) = (message, extra_of name)
parse_exception production (http status message other_response) = (message, nothing)
parse_exception production (error message) =
    (if production then "Internal server error" else message, nothing)
parse_exception production (value s) = ("Internal server error", nothing)

-- `catch`: the status and the body, unless the headers are sent already.
unfoldable pub catch_exception :
    (production headers_sent : Bool)
    → (now : ℕ) → (path : String) → Thrown
    → Option (ℕ × ApiErrorResponse)
unfolding get_status parse_exception
catch_exception production headers_sent now path thrown =
    if headers_sent
    then none
    else let status = get_status thrown in
      let (message, extra) = parse_exception production thrown in
      some (
        status,
        record {
          message = message;
          status_code = status;
          extra = extra;
          timestamp = now;
          path = path;
        },
      )

-- `ApiSuccessResponse`
pub record ApiSuccessResponse (A : Type 0) : Type 0 where
  pub message : String
  pub data_of : Option A
  pub timestamp : ℕ
  pub path : Option String

pub data Formatted (A : Type 0) : Type 0 where
  as_is : Option A → Formatted A
  wrapped : ApiSuccessResponse A → Formatted A

-- `intercept`: `is_redirect` is the test of the data for a URL and a status code; data that is
-- undefined is `none`, and null in the answer.
unfoldable pub intercept :
    {A : Type 0}
    → (is_redirect : A → Bool) → (headers_sent : Bool) → (now : ℕ) → (url : Option String)
    → Option A
    → Formatted A
intercept is_redirect headers_sent now url given =
    let redirects : Bool = elim given [ none ↦ false | some a ↦ is_redirect a ] in
    if headers_sent
    then as_is given
    else if redirects
    then as_is given
    else if str_eq (or_else url "") "/health"
    then as_is given
    else wrapped
        (record { message = "Request successful"; data_of = given; timestamp = now; path = url })
