-- ===== src/Auth/Login.antt =====
-- Logins after registrations, and OAuth callbacks at src/auth/auth.service.ts.
use Prim.Native.String.{◌++◌ as append}
use pr_sentinel_backend.Base.{
  ℕ, String, ◌≡◌, refl, ap, ◌∙◌, inl, inr, true, not, ◌&&◌, none, some, any-last, str_eq_refl,
  Option-cases,
}
use pr_sentinel_backend.Base.Text.{decimal}
use pr_sentinel_backend.Errors.{js_error, ok, err, conflict, unauthorized, Result-cases}
use pr_sentinel_backend.Prisma.{Prisma}
use pr_sentinel_backend.Prisma.Keyed.{find-create}
use pr_sentinel_backend.Schema.{User}
use pr_sentinel_backend.Database.{Db}
use pr_sentinel_backend.Redis.{RedisClient, Json, get_json, get_json-del}
use pr_sentinel_backend.Redis.States.{
  OAuthStatePayload, consume_oauth_state, consume_key-live, consume_key-dead,
}
use pr_sentinel_backend.Auth.Api.{AuthApi, GithubUserProfile, Session, has_email, has_github}
use pr_sentinel_backend.Auth.Accounts.{
  create_access_token, session, normalized, find_by_email, email_taken, new_user,
  register_local_user, login_local_user, upsert_github_user, github_profile_of, signed_in,
  handle_github_callback,
}

module _ ⦃p : Prisma⦄ (api : AuthApi) where
  abbrev registered_row : (now : ℕ) → (salt email password : String) → Db → User
  registered_row now salt email password db =
      new_user now none none (some (normalized api email)) (some (api.hash salt password 12)) none
        db

  register-free :
      (now : ℕ) (salt email password : String) (db : Db)
      → find_by_email (normalized api email) db ≡ none
      → let row = registered_row now salt email password db in
        register_local_user api now salt email password db
        ≡ (ok (session api now row), record db { users = p.create row db.users })
  unfolding register_local_user
  register-free now salt email password db free = rw (free, register_local_user) refl

  register-taken :
      (now : ℕ) (salt email password : String) (db : Db) {u : User}
      → find_by_email (normalized api email) db ≡ some u
      → register_local_user api now salt email password db
        ≡ (err (conflict "Email already registered"), db)
  unfolding register_local_user
  register-taken now salt email password db taken = rw (taken, register_local_user) refl

  login-found :
      (now : ℕ) (salt email password : String) (db : Db) {u : User}
      → find_by_email (normalized api email) db ≡ some u
      → u.password ≡ some (api.hash salt password 12)
      → login_local_user api now email password db ≡ ok (session api now u)
  unfolding login_local_user
  login-found now salt email password db found hashed =
      rw (found, login_local_user)
        (rw hashed
          (rw (api.truthy-hash salt password 12) (rw (api.compare-hash salt password 12) refl)))

  find-registered :
      (now : ℕ) (salt email password : String) (db : Db)
      → find_by_email (normalized api email) db ≡ none
      → find_by_email
          (normalized api email)
          (record db { users = p.create (registered_row now salt email password db) db.users })
        ≡ some (registered_row now salt email password db)
  find-registered now salt email password db free =
      find-create (has_email (normalized api email)) (registered_row now salt email password db)
        db.users
      ∙ rw (free, str_eq_refl (normalized api email)) refl

  -- The address of a local user is taken for everyone at GitHub.
  email_taken-registered :
      (now : ℕ) (salt email password github_id : String) (db : Db) {s : Session}
      → (register_local_user api now salt email password db).0 ≡ ok s
      → email_taken github_id
          (some (normalized api email))
          (register_local_user api now salt email password db).1
        ≡ true
  email_taken-registered now salt email password github_id db e =
      let row = registered_row now salt email password db in
      let address = normalized api email in
      elim (Option-cases (find_by_email address db)) [
        | inl free ↦
            rw (register-free now salt email password db free, p.rows-create row db.users)
              (any-last (λ u. has_email address u && not (has_github github_id u)) (p.rows db.users)
                row (rw (str_eq_refl address)))
        | inr (old, taken) ↦ cc (rw (register-taken now salt email password db taken) at e)
      ]

  -- Who has registered can sign in: after a registration that is answered, a login at any time with
  -- the same password and any spelling of the address that trims and lowers to the same, signs in
  -- as the user that the registration answered with.
  pub login_local_user-register_local_user :
      (now later : ℕ) (salt email email' password : String) (db : Db) {s : Session}
      → (register_local_user api now salt email password db).0 ≡ ok s
      → normalized api email' ≡ normalized api email
      → login_local_user api later email' password
          (register_local_user api now salt email password db).1
        ≡ ok (record { access_token = create_access_token api later s.user; user = s.user })
  unfolding session
  login_local_user-register_local_user now later salt email email' password db {s} e same =
      elim (Option-cases (find_by_email (normalized api email) db)) [
        | inl free ↦
            let row = registered_row now salt email password db in
            let answered : session api now row ≡ s =
              cc (rw (register-free now salt email password db free) at e) in
            rw (register-free now salt email password db free) (
              login-found later salt email' password (record db { users = p.create row db.users })
                {u = row} (rw same (find-registered now salt email password db free)) refl
              ∙ ap
                  (λ x.
                    ok (record {
                      access_token = create_access_token api later x.user;
                      user = x.user;
                    }))
                  answered)
        | inr (old, taken) ↦ cc (rw (register-taken now salt email password db taken) at e)
      ]

module _ ⦃p : Prisma⦄ (api : AuthApi) (now : ℕ) ⦃r : RedisClient⦄
    (json : Json OAuthStatePayload) where
  abbrev state_key : String → String
  state_key state = append "oauth-state:" state

  consume_oauth_state-dead :
      (seconds : ℕ) (state : String) (store : r.Store)
      → get_json json seconds (state_key state) store ≡ none
      → consume_oauth_state json seconds state store ≡ (none, store)
  unfolding consume_oauth_state
  consume_oauth_state-dead seconds state store =
      consume_key-dead json seconds (state_key state) store

  consume_oauth_state-live :
      (seconds : ℕ) (state : String) (store : r.Store) {a : OAuthStatePayload}
      → get_json json seconds (state_key state) store ≡ some a
      → consume_oauth_state json seconds state store ≡ (some a, r.del (state_key state) store)
  unfolding consume_oauth_state
  consume_oauth_state-live seconds state store =
      consume_key-live json seconds (state_key state) store

  callback-dead :
      (code state : String) (seconds : ℕ) (db : Db) (store : r.Store)
      → get_json json seconds (state_key state) store ≡ none
      → handle_github_callback api now json code state seconds db store
        ≡ ((err (unauthorized "Invalid or expired OAuth state"), db), store)
  unfolding handle_github_callback
  callback-dead code state seconds db store dead =
      let consumed = consume_oauth_state-dead seconds state store dead in
      rw (consumed, handle_github_callback) (rw consumed refl)

  callback-store :
      (code state : String) (seconds : ℕ) (db : Db) (store : r.Store) {a : OAuthStatePayload}
      → get_json json seconds (state_key state) store ≡ some a
      → (handle_github_callback api now json code state seconds db store).1
        ≡ r.del (state_key state) store
  unfolding handle_github_callback
  callback-store code state seconds db store {a} live =
      let consumed = consume_oauth_state-live seconds state store live in
      rw (consumed, handle_github_callback)
        (elim (Result-cases (github_profile_of api code)) [
          | inl (e, failed) ↦ rw (failed, consumed) refl
          | inr (profile, done) ↦ rw (done, consumed) refl
        ])

  -- A state signs in at most once: after a callback, whatever came of it, at which the state was
  -- live, every callback with the same state is refused, at any time and with any code, and leaves
  -- the database and the store.
  pub handle_github_callback-again :
      (code code' state : String) (seconds seconds' : ℕ) (db db' : Db) (store : r.Store)
      {a : OAuthStatePayload}
      → get_json json seconds (state_key state) store ≡ some a
      → let store' = (handle_github_callback api now json code state seconds db store).1 in
        handle_github_callback api now json code' state seconds' db' store'
        ≡ ((err (unauthorized "Invalid or expired OAuth state"), db'), store')
  handle_github_callback-again code code' state seconds seconds' db db' store live =
      rw (callback-store code state seconds db store live) (
        callback-dead code' state seconds' db' (r.del (state_key state) store)
          (get_json-del json seconds' (state_key state) store))

  -- Who registered with a password cannot come in through GitHub: after a registration that is
  -- answered, every callback with a live state for a profile with the address of the registration fails on the unique
  -- address, and leaves the database as the registration left it.
  pub handle_github_callback-register_local_user :
      (earlier : ℕ) (salt email password code state : String) (seconds : ℕ) (db : Db)
      (store : r.Store) {s : Session} {a : OAuthStatePayload} {profile : GithubUserProfile}
      → (register_local_user api earlier salt email password db).0 ≡ ok s
      → get_json json seconds (state_key state) store ≡ some a
      → github_profile_of api code ≡ ok profile
      → profile.email ≡ some (normalized api email)
      → let db' = (register_local_user api earlier salt email password db).1 in
        (handle_github_callback api now json code state seconds db' store).0
        ≡ (err (js_error (p.not_unique_message "email")), db')
  unfolding handle_github_callback upsert_github_user signed_in
  handle_github_callback-register_local_user earlier salt email password code state seconds db store
        {profile = profile} e live got same =
      let consumed = consume_oauth_state-live seconds state store live in
      let taken =
        email_taken-registered api earlier salt email password (decimal profile.id) db e in
      rw (consumed, handle_github_callback) (rw got (rw same (rw taken refl)))
