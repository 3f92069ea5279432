-- ===== src/Auth/Api.antt =====
-- What src/auth/auth.service.ts calls, and the types of src/auth/auth.types.ts. The settings, bcrypt,
-- the signing of tokens, `toLowerCase`, URLSearchParams and the requests to GitHub are parameters; of
-- bcrypt is assumed that a password matches its own hash, which is not empty.
use pr_sentinel_backend.Base.{ℕ, String, ◌≡◌, Bool, true, false, List, Option, none, some, str_eq}
use pr_sentinel_backend.Base.Text.{truthy}
use pr_sentinel_backend.Errors.{Exception, js_error, Result}
use pr_sentinel_backend.Prisma.{Prisma}
use pr_sentinel_backend.Schema.{User}
use pr_sentinel_backend.Github.Service.{Fetched}

pub record GithubUserProfile : Type 0 where
  pub id : ℕ
  pub login : String
  pub email : Option String
  pub avatar_url : String
  pub name : Option String

pub record JwtPayload : Type 0 where
  pub sub : ℕ
  pub github_id : Option String
  pub github_login : Option String

pub record AuthenticatedUser : Type 0 where
  pub id : ℕ
  pub github_id : Option String
  pub github_login : Option String
  pub email : Option String
  pub avatar_url : Option String
  pub created_at : ℕ
  pub updated_at : ℕ

pub record Session : Type 0 where
  pub access_token : String
  pub user : AuthenticatedUser

-- What the service calls.
pub record AuthApi : Type 0 where
  pub config : String → Option String
  pub to_lower_case : String → String
  pub hash : (salt password : String) → (rounds : ℕ) → String
  pub compare : (password hashed : String) → Bool
  pub sign : (now : ℕ) → JwtPayload → String
  pub query_string : List (String × String) → String
  -- The token in the answer to the request; `err` is what is thrown without being an AxiosError.
  pub exchange_code :
      (client_id client_secret code redirect_uri : String) → Result (Fetched (Option String))
  pub fetch_user : (token : String) → Fetched GithubUserProfile
  pub compare-hash :
      (salt password : String) (rounds : ℕ) → compare password (hash salt password rounds) ≡ true
  pub truthy-hash :
      (salt password : String) (rounds : ℕ) → truthy (hash salt password rounds) ≡ true

-- `toAuthenticatedUser`
unfoldable pub to_authenticated_user : User → AuthenticatedUser
to_authenticated_user u = record {
  id = u.id;
  github_id = u.github_id;
  github_login = u.github_login;
  email = u.email;
  avatar_url = u.avatar_url;
  created_at = u.created_at;
  updated_at = u.updated_at;
}

abbrev is_text : String → Option String → Bool
is_text s none = false
is_text s (some t) = str_eq t s

-- A user with this e-mail address, or with this id at GitHub.
abbrev pub has_email : String → User → Bool
has_email email u = is_text email u.email

abbrev pub has_github : String → User → Bool
has_github github_id u = is_text github_id u.github_id

-- The error of a write that the unique column `email` refuses.
abbrev pub email_not_unique : ⦃p : Prisma⦄ → Exception
email_not_unique ⦃p⦄ = js_error (p.not_unique_message "email")
