-- ===== src/Tests/Accounts.antt =====
-- The theorems on accounts, where a hash is the password behind a letter and GitHub signs in one
-- user.
use pr_sentinel_backend.Base.{
  String, ◌≡◌, refl, ap, inl, inr, arith, Bool, true, false, eq_iff, Bool-cases, str_eq,
  str_eq_refl, count, List, [], ◌∷◌, none, some,
}
use pr_sentinel_backend.Base.Text.{truthy, trim, decimal}
use pr_sentinel_backend.Redis.{get_json, get_json-set_json}
use pr_sentinel_backend.Errors.{js_error, unauthorized, ok, err}
use pr_sentinel_backend.Prisma.InMemory.{in_memory}
use pr_sentinel_backend.Redis.InMemory.{in_memory as redis, Entry}
use pr_sentinel_backend.Redis.States.{OAuthStatePayload, create_oauth_state}
use pr_sentinel_backend.Schema.{free, byok}
use pr_sentinel_backend.Github.Service.{data_of}
use pr_sentinel_backend.Tests.Data.{empty_db}
use pr_sentinel_backend.Tests.States.{oauth_json}
use pr_sentinel_backend.Auth.Api.{AuthApi, GithubUserProfile, AuthenticatedUser}
use pr_sentinel_backend.Auth.Accounts.{
  create_access_token, register_local_user, login_local_user, github_profile_of, upsert_github_user,
  handle_github_callback,
}
use pr_sentinel_backend.Auth.Again.{upsert_github_user-again}
use pr_sentinel_backend.Auth.Login.{
  login_local_user-register_local_user, handle_github_callback-again,
  handle_github_callback-register_local_user,
}
use pr_sentinel_backend.Auth.Columns.{AreUnique}
use pr_sentinel_backend.Auth.Unique.{UserChange, registers, signs_in, switches, run, run-AreUnique}

abbrev profile : GithubUserProfile
profile = record { id = 11; login = "octo"; email = some "a"; avatar_url = "v"; name = none }

is_empty : String → Bool
is_empty String.[] = true
is_empty (String.◌∷◌ c s) = false

truthy-letter : (s : String) → truthy (String.◌∷◌ "h" s) ≡ true
unfolding is_empty
truthy-letter s = elim (Bool-cases (str_eq (String.◌∷◌ "h" s) "")) [
  | inl same ↦ cc (ap is_empty ((eq_iff (String.◌∷◌ "h" s) "").0 same))
  | inr other ↦ rw other refl
]

abbrev auth_api : AuthApi
auth_api = record {
  config = λ key. some key;
  to_lower_case = λ s. s;
  hash = λ salt password rounds. String.◌∷◌ "h" password;
  compare = λ password hashed. str_eq (String.◌∷◌ "h" password) hashed;
  sign = λ now payload. "token";
  query_string = λ pairs. "";
  exchange_code = λ client_id client_secret code redirect_uri. ok (data_of (some "t"));
  fetch_user = λ token. data_of profile;
  compare-hash = λ salt password rounds. str_eq_refl (String.◌∷◌ "h" password);
  truthy-hash = λ salt password rounds. truthy-letter password;
}

-- What the registration of the first user answers.
abbrev registered_user : AuthenticatedUser
registered_user = record {
  id = 1;
  github_id = none;
  github_login = none;
  email = some "a";
  avatar_url = none;
  created_at = 5;
  updated_at = 5;
}

-- A state that is created at the second 5.
abbrev live_store : List Entry
live_store = (create_oauth_state oauth_json 5 "state" "t" (some "/app") []).1

abbrev live_payload : OAuthStatePayload
live_payload = record { redirect = some "/app"; created_at = "t" }

is_live : get_json oauth_json 6 "oauth-state:state" live_store ≡ some live_payload
unfolding create_oauth_state
is_live =
    get_json-set_json oauth_json 5 6 900 "oauth-state:state" live_payload [] (omega arith)
      (omega arith)

login_local_user-register_local_user_example :
    login_local_user auth_api 9 "a " "secret"
      (register_local_user auth_api 5 "s" "a" "secret" empty_db).1
    ≡ ok (record {
      access_token = create_access_token auth_api 9 registered_user;
      user = registered_user;
    })
unfolding register_local_user trim
login_local_user-register_local_user_example =
    login_local_user-register_local_user auth_api 5 9 "s" "a" "a " "secret" empty_db refl refl

handle_github_callback-again_example :
    let store' =
      (handle_github_callback auth_api 6 oauth_json "code" "state" 6 empty_db live_store).1 in
    handle_github_callback auth_api 6 oauth_json "other" "state" 7 empty_db store'
    ≡ ((err (unauthorized "Invalid or expired OAuth state"), empty_db), store')
handle_github_callback-again_example =
    handle_github_callback-again auth_api 6 oauth_json "code" "other" "state" 6 7 empty_db empty_db
      live_store is_live

handle_github_callback-register_local_user_example :
    let db' = (register_local_user auth_api 5 "s" "a" "secret" empty_db).1 in
    (handle_github_callback auth_api 6 oauth_json "code" "state" 6 db' live_store).0
    ≡ (err (js_error "Unique constraint failed on email"), db')
unfolding register_local_user github_profile_of trim
handle_github_callback-register_local_user_example =
    handle_github_callback-register_local_user auth_api 6 oauth_json 5 "s" "a" "secret" "code"
      "state" 6 empty_db live_store refl is_live refl refl

-- A registration, a sign-in with the same address, and another one.
abbrev changes : List UserChange
changes =
    registers 5 auth_api "s" "a" "secret"
    ∷ signs_in 6 profile
    ∷ signs_in 7 (record profile { id = 12; email = some "b" })
    ∷ switches 8 0 byok
    ∷ []

run-AreUnique_example : AreUnique (run changes empty_db)
unfolding count
run-AreUnique_example =
    run-AreUnique changes empty_db (λ email. omega arith, λ github_id. omega arith)

upsert_github_user-again_example :
    (upsert_github_user 9 profile (upsert_github_user 5 profile empty_db).1).0
    ≡ ok (record {
      id = 1;
      github_id = some "11";
      github_login = some "octo";
      email = some "a";
      password = none;
      avatar_url = some "v";
      created_at = 5;
      updated_at = 9;
      llm_mode = free;
    })
unfolding upsert_github_user decimal
upsert_github_user-again_example = upsert_github_user-again 5 9 profile empty_db refl
