-- ===== src/Auth/Controller.antt =====
-- src/auth/auth.controller.ts: the routes of sign-in, with the cookies that they set. The URL class
-- is a parameter: what it reads of a URL, and the URL of a path and a query over a base, where it
-- throws on what is no URL.
use text.Mathlib.Text.{find?}
use pr_sentinel_backend.Base.{
  ℕ, ◌*◌, String, Bool, true, false, not, ◌&&◌, List, [], ◌∷◌, Option, none, some, if◌then◌else◌,
  str_eq, is_some, or_else,
}
use pr_sentinel_backend.Base.Text.{configured, truthy, without_suffix}
use pr_sentinel_backend.Errors.{Result, ok, err}
use pr_sentinel_backend.Prisma.{Prisma}
use pr_sentinel_backend.Database.{Db}
use pr_sentinel_backend.Redis.{RedisClient, Json}
use pr_sentinel_backend.Redis.States.{OAuthStatePayload, create_oauth_state}
use pr_sentinel_backend.Auth.Api.{AuthApi, AuthenticatedUser, Session}
use pr_sentinel_backend.Auth.Accounts.{
  get_github_authorize_url, register_local_user, login_local_user, handle_github_callback,
}

pub record Urls : Type 0 where
  -- `url.protocol` and `url.hostname`
  pub parse : String → Option (String × String)
  pub with_query : (path base : String) → List (String × String) → Result String

pub data SameSite : Type 0 where
  lax cross_site : SameSite

pub record CookieOptions : Type 0 where
  pub http_only : Bool
  pub secure : Bool
  pub same_site : SameSite
  pub path : String
  pub max_age : Option ℕ

-- What an answer does to the cookie `accessToken`.
pub data Cookie : Type 0 where
  set_token : (token : String) → CookieOptions → Cookie
  clear_token : CookieOptions → Cookie

-- An answer by `res.redirect`, with the cookies set before.
pub record Redirect : Type 0 where
  pub location : Result String
  pub cookies : List Cookie

-- An answer in the body, with its cookies.
pub record Answer (A : Type 0) : Type 0 where
  pub body : Result A
  pub cookies : List Cookie

module _ (urls : Urls) (frontend_url : Option String) where
  -- `usesCrossSiteCookies`
  unfoldable pub uses_cross_site_cookies : Bool
  uses_cross_site_cookies =
      let frontend = without_suffix "/" (or_else frontend_url "") in
      if truthy frontend
      then elim (urls.parse frontend) [
        | none ↦ false
        | some (protocol, hostname) ↦
            str_eq protocol "https:" && not (is_some (find? hostname "localhost"))
      ]
      else false

  -- `getCookieOptions`
  unfoldable pub get_cookie_options : CookieOptions
  unfolding uses_cross_site_cookies
  get_cookie_options = record {
    http_only = true;
    secure = uses_cross_site_cookies;
    same_site = if uses_cross_site_cookies then cross_site else lax;
    path = "/";
    max_age = some (1000 * 60 * 60 * 24 * 7);
  }

  -- `getClearCookieOptions`
  unfoldable pub get_clear_cookie_options : CookieOptions
  unfolding get_cookie_options
  get_clear_cookie_options = record get_cookie_options { max_age = none }

  -- `setAccessTokenCookie`
  unfoldable pub access_token_cookie : (access_token : String) → Cookie
  unfolding get_cookie_options
  access_token_cookie access_token = set_token access_token get_cookie_options

  -- `getFrontendUrl`
  abbrev pub get_frontend_url : String
  get_frontend_url = or_else frontend_url "http://localhost:3001"

  -- `buildFrontendErrorUrl`
  unfoldable pub build_frontend_error_url : (message : String) → Result String
  build_frontend_error_url message =
      urls.with_query "/auth/callback" get_frontend_url (("error", message) ∷ [])

  -- The URL of the frontend after a callback.
  unfoldable pub callback_url : Option String → Result String
  callback_url redirect = elim (configured redirect) [
    | none ↦ urls.with_query "/auth/callback" get_frontend_url []
    | some target ↦ urls.with_query "/auth/callback" get_frontend_url (("redirect", target) ∷ [])
  ]

  -- The end of `githubCallback`: whatever fails leads to the error page, and the cookie that is set
  -- by then stays.
  unfoldable pub callback_answer : Result (Session × Option String) → Redirect
  unfolding build_frontend_error_url access_token_cookie callback_url
  callback_answer (err e) = record {
    location = build_frontend_error_url "GitHub authentication failed";
    cookies = [];
  }
  callback_answer (ok (session, redirect)) = record {
    location = elim (callback_url redirect) [
      | err e ↦ build_frontend_error_url "GitHub authentication failed"
      | ok url ↦ ok url
    ];
    cookies = access_token_cookie session.access_token ∷ [];
  }

  -- The answer of `register` and `login` for a session.
  unfoldable pub session_answer : Result Session → Answer AuthenticatedUser
  unfolding access_token_cookie
  session_answer (err e) = record { body = err e; cookies = [] }
  session_answer (ok session) = record {
    body = ok session.user;
    cookies = access_token_cookie session.access_token ∷ [];
  }

  -- `logout`
  unfoldable pub logout : Answer String
  unfolding get_clear_cookie_options
  logout = record {
    body = ok "Logged out successfully";
    cookies = clear_token get_clear_cookie_options ∷ [];
  }

-- `githubLogin`: the URL at GitHub, for a state that is stored before the settings are read.
unfoldable pub github_login :
    ⦃r : RedisClient⦄
    → Json OAuthStatePayload
    → AuthApi
    → (seconds : ℕ) → (state created_at : String) → Option String
    → r.Store
    → Result String × r.Store
unfolding get_github_authorize_url
github_login json api seconds state created_at redirect store =
    let (token, store') = create_oauth_state json seconds state created_at redirect store in
    (get_github_authorize_url api token, store')

module _ ⦃p : Prisma⦄ (urls : Urls) (frontend_url : Option String) (api : AuthApi) (now : ℕ) where
  -- `register`
  unfoldable pub register : (salt email password : String) → Db → Answer AuthenticatedUser × Db
  unfolding session_answer
  register salt email password db =
      let (result, db') = register_local_user api now salt email password db in
      (session_answer urls frontend_url result, db')

  -- `login`
  unfoldable pub login : (email password : String) → Db → Answer AuthenticatedUser
  unfolding session_answer
  login email password db =
      session_answer urls frontend_url (login_local_user api now email password db)

  -- `githubCallback`: the answer, the database and the store.
  unfoldable pub github_callback :
      ⦃r : RedisClient⦄
      → Json OAuthStatePayload
      → (code state : Option String) → (seconds : ℕ) → Db
      → r.Store
      → (Redirect × Db) × r.Store
  unfolding callback_answer build_frontend_error_url
  github_callback json code state seconds db store =
      let missing : Redirect = record {
        location = build_frontend_error_url urls frontend_url "Missing OAuth parameters";
        cookies = [];
      } in
      elim (configured code) [
        | none ↦ ((missing, db), store)
        | some given ↦ elim (configured state) [
          | none ↦ ((missing, db), store)
          | some token ↦
              let ((result, db'), store') =
                handle_github_callback api now json given token seconds db store in
              ((callback_answer urls frontend_url result, db'), store')
        ]
      ]
