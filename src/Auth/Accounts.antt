-- ===== src/Auth/Accounts.antt =====
-- src/auth/auth.service.ts and the strategy of src/auth/jwt.strategy.ts. A write that would give two
-- users one e-mail address throws, as the unique columns of the schema make it.
use Prim.Native.String.{◌++◌ as append}
use pr_sentinel_backend.Base.{
  ℕ, String, Bool, false, not, ◌&&◌, [], ◌∷◌, Option, none, some, any, if◌then◌else◌,
}
use pr_sentinel_backend.Base.Text.{trim, configured, decimal}
use pr_sentinel_backend.Errors.{
  conflict, internal_server_error, unauthorized, Result, ok, err, ◌>>=◌,
}
use pr_sentinel_backend.Auth.Api.{
  GithubUserProfile, JwtPayload, AuthenticatedUser, Session, AuthApi, to_authenticated_user,
  has_email, has_github, email_not_unique,
}
use pr_sentinel_backend.Prisma.{Prisma, find_first, new_id}
use pr_sentinel_backend.Prisma.Keyed.{find_unique}
use pr_sentinel_backend.Schema.{User, free}
use pr_sentinel_backend.Database.{Db}
use pr_sentinel_backend.Github.Service.{data_of, failed}
use pr_sentinel_backend.Redis.{RedisClient, Json}
use pr_sentinel_backend.Redis.States.{OAuthStatePayload, consume_oauth_state}

module _ (api : AuthApi) where
  -- `getRequiredConfig`
  unfoldable pub get_required_config : String → Result String
  get_required_config key = elim (configured (api.config key)) [
    | none ↦ err (internal_server_error (append key " is not configured"))
    | some value ↦ ok value
  ]

  -- `getGithubAuthorizeUrl`
  unfoldable pub get_github_authorize_url : String → Result String
  unfolding get_required_config
  get_github_authorize_url state = do
    client_id ← get_required_config "GITHUB_OAUTH_CLIENT_ID"
    callback_url ← get_required_config "GITHUB_OAUTH_CALLBACK_URL"
    ok (
        append "https://github.com/login/oauth/authorize?" (
          api.query_string (
            ("client_id", client_id)
            ∷ ("redirect_uri", callback_url)
            ∷ ("scope", "read:user user:email")
            ∷ ("state", state)
            ∷ [])))

  -- `createAccessToken`
  unfoldable pub create_access_token : (now : ℕ) → AuthenticatedUser → String
  create_access_token now user =
      api.sign now
        (record { sub = user.id; github_id = user.github_id; github_login = user.github_login })

  -- The answer for a user, with a token.
  unfoldable pub session : (now : ℕ) → User → Session
  unfolding create_access_token to_authenticated_user
  session now u =
      let user = to_authenticated_user u in
      record { access_token = create_access_token now user; user = user }

  -- `email.trim().toLowerCase()`
  abbrev pub normalized : String → String
  normalized email = api.to_lower_case (trim email)

  -- `exchangeCodeForToken`
  unfoldable pub exchange_code_for_token : String → Result String
  unfolding get_required_config
  exchange_code_for_token code = do
    client_id ← get_required_config "GITHUB_OAUTH_CLIENT_ID"
    client_secret ← get_required_config "GITHUB_OAUTH_CLIENT_SECRET"
    redirect_uri ← get_required_config "GITHUB_OAUTH_CALLBACK_URL"
    answer ← api.exchange_code client_id client_secret code redirect_uri
    elim answer [
      | failed e ↦ err (unauthorized "Failed to exchange GitHub OAuth code")
      | data_of given ↦ elim (configured given) [
        | none ↦ err (unauthorized "GitHub did not return an access token")
        | some token ↦ ok token
      ]
    ]

  -- `fetchGithubProfile`
  unfoldable pub fetch_github_profile : String → Result GithubUserProfile
  fetch_github_profile token = elim (api.fetch_user token) [
    | failed e ↦ err (unauthorized "Failed to fetch GitHub user profile")
    | data_of profile ↦ ok profile
  ]

  -- The steps of `handleGithubCallback` after the state: the profile at GitHub.
  unfoldable pub github_profile_of : String → Result GithubUserProfile
  unfolding exchange_code_for_token fetch_github_profile
  github_profile_of code = do token ← exchange_code_for_token code; fetch_github_profile token

  -- The session of the user that is stored, if it is.
  unfoldable pub signed_in : (now : ℕ) → Result User → Result Session
  unfolding session
  signed_in now stored = stored >>= λ u. ok (session now u)

module _ (now : ℕ) where
  -- The update data of `upsertGithubUser`.
  abbrev pub refresh_user : GithubUserProfile → User → User
  refresh_user profile u = record u {
    github_login = some profile.login;
    email = profile.email;
    avatar_url = some profile.avatar_url;
    updated_at = now;
  }

module _ ⦃p : Prisma⦄ where
  abbrev pub find_by_email : String → Db → Option User
  find_by_email email db = find_first (has_email email) db.users

  abbrev pub find_by_github_id : String → Db → Option User
  find_by_github_id github_id db = find_first (has_github github_id) db.users

  -- What the unique index of the schema on `email` refuses: a user with another id at GitHub has
  -- the address.
  abbrev pub email_taken : (github_id : String) → Option String → Db → Bool
  email_taken github_id none db = false
  email_taken github_id (some email) db =
      any (λ u. has_email email u && not (has_github github_id u)) (p.rows db.users)

  -- `validateUser`, and with it `validate` of the strategy.
  unfoldable pub validate_user : ℕ → Db → Option AuthenticatedUser
  unfolding to_authenticated_user
  validate_user id db = elim (find_unique (λ u. u.id) id db.users) [
    | none ↦ none
    | some u ↦ some (to_authenticated_user u)
  ]

  unfoldable pub validate : JwtPayload → Db → Result AuthenticatedUser
  unfolding validate_user
  validate payload db = elim (validate_user payload.sub db) [
    | none ↦ err (unauthorized "User not found")
    | some user ↦ ok user
  ]

module _ ⦃p : Prisma⦄ (now : ℕ) where
  abbrev pub new_user :
      (github_id github_login email password avatar_url : Option String) → Db → User
  new_user github_id github_login email password avatar_url db = record {
    id = new_id (λ u. u.id) db.users;
    github_id = github_id;
    github_login = github_login;
    email = email;
    password = password;
    avatar_url = avatar_url;
    created_at = now;
    updated_at = now;
    llm_mode = free;
  }

  -- `upsertGithubUser`
  unfoldable pub upsert_github_user : GithubUserProfile → Db → Result User × Db
  upsert_github_user profile db =
      let github_id = decimal profile.id in
      if email_taken github_id profile.email db
      then (err email_not_unique, db)
      else elim (find_by_github_id github_id db) [
        | none ↦
            let row =
              new_user (some github_id) (some profile.login) profile.email none
                (some profile.avatar_url) db in
            (ok row, record db { users = p.create row db.users })
        | some old ↦ (
          ok (refresh_user now profile old),
          record db {
            users = p.update_many (has_github github_id) (refresh_user now profile) db.users;
          },
        )
      ]

module _ ⦃p : Prisma⦄ (api : AuthApi) (now : ℕ) where
  -- `registerLocalUser`; the salt is the one that bcrypt draws.
  unfoldable pub register_local_user : (salt email password : String) → Db → Result Session × Db
  unfolding session
  register_local_user salt email password db = elim (find_by_email (normalized api email) db) [
    | some existing ↦ (err (conflict "Email already registered"), db)
    | none ↦
        let row =
          new_user now none none (some (normalized api email)) (some (api.hash salt password 12))
            none db in
        (ok (session api now row), record db { users = p.create row db.users })
  ]

  -- `loginLocalUser`
  unfoldable pub login_local_user : (email password : String) → Db → Result Session
  unfolding session
  login_local_user email password db = elim (find_by_email (normalized api email) db) [
    | none ↦ err (unauthorized "Invalid credentials")
    | some u ↦ elim (configured u.password) [
      | none ↦ err (unauthorized "Invalid credentials")
      | some hashed ↦
          if api.compare password hashed
          then ok (session api now u)
          else err (unauthorized "Invalid credentials")
    ]
  ]

  module _ ⦃r : RedisClient⦄ (json : Json OAuthStatePayload) where
    -- `handleGithubCallback`: the session with the redirect, the database, and the store.
    unfoldable pub handle_github_callback :
        (code state : String)
        → (seconds : ℕ) → Db
        → r.Store
        → (Result (Session × Option String) × Db) × r.Store
    unfolding github_profile_of signed_in
    handle_github_callback code state seconds db store =
        let (payload, store') = consume_oauth_state json seconds state store in
        elim payload [
          | none ↦ ((err (unauthorized "Invalid or expired OAuth state"), db), store')
          | some given ↦ elim (github_profile_of api code) [
            | err e ↦ ((err e, db), store')
            | ok profile ↦
                let (stored, db') = upsert_github_user now profile db in
                ((signed_in api now stored >>= λ s. ok (s, given.redirect), db'), store')
          ]
        ]
