-- ===== src/Github/Install.antt =====
-- The install flow of src/github/github.controller.ts: `verifyAndSync` and the routes
-- install/start, install/complete and install/claim. The user of a request is the one that the JWT
-- names. `Number` on the installation id, where it gives a positive integer, is a parameter.
-- `none` for an answer means that the pagination of GithubService has used up its fuel.
pub mod Links
pub mod Ownership
use Prim.Native.String.{◌++◌ as append}
use text.Mathlib.Text.{find?}
use pr_sentinel_backend.Base.{
  ℕ, String, Bool, true, false, not, ◌||◌, Option, none, some, if◌then◌else◌, ◌==◌, is_some, length,
}
use pr_sentinel_backend.Base.Text.{configured}
use pr_sentinel_backend.Errors.{
  Exception, Result, ok, err, bad_request, unauthorized, forbidden, internal_server_error,
  message_of,
}
use pr_sentinel_backend.Prisma.{Prisma}
use pr_sentinel_backend.Schema.{Installation}
use pr_sentinel_backend.Database.{Db}
use pr_sentinel_backend.Redis.{RedisClient, Json}
use pr_sentinel_backend.Redis.States.{
  InstallStatePayload, create_install_state, consume_install_state,
}
use pr_sentinel_backend.Repository.Installations.{
  find_installation_by_github_id, upsert_installation_with_user,
}
use pr_sentinel_backend.Repository.Repositories.{SyncResult, sync_installation_repositories}
use pr_sentinel_backend.Github.Service.{
  GithubApi, GithubInstallationInfo, verify_installation_with_github,
  list_installation_repositories,
}

pub record InstallationView : Type 0 where
  pub id : ℕ
  pub github_installation_id : ℕ
  pub user_id : Option ℕ
  pub account_login : Option String
  pub account_avatar_url : Option String
  pub suspended : Bool
  pub created_at : ℕ
  pub updated_at : ℕ

-- `GitHubInstallationStatus`
pub record InstallationStatus : Type 0 where
  pub connected : Bool
  pub installation : Option InstallationView
  pub repository_count : ℕ

unfoldable pub installation_view : Installation → InstallationView
installation_view i = record {
  id = i.id;
  github_installation_id = i.github_installation_id;
  user_id = i.user_id;
  account_login = i.account_login;
  account_avatar_url = i.account_avatar_url;
  suspended = i.suspended;
  created_at = i.created_at;
  updated_at = i.updated_at;
}

-- `existing?.userId != null && existing.userId !== userId`
abbrev pub owned_by_other : ℕ → Option Installation → Bool
owned_by_other user_id none = false
owned_by_other user_id (some i) = elim i.user_id [ none ↦ false | some u ↦ not (u == user_id) ]

-- `msg.includes(part)`
abbrev includes : String → String → Bool
includes msg part = is_some (find? msg part)

-- The exception for an installation that GitHub does not confirm.
unfoldable pub verification_error : Exception → Exception
verification_error e =
    let msg = message_of e in
    if includes msg "GITHUB_APP"
      || (includes msg "private key" || includes msg "authentication failed")
    then internal_server_error msg
    else bad_request
        "We couldn't verify your GitHub installation. Please check that the PR Sentinel GitHub App is still installed and try again."

abbrev pub already_connected : String
already_connected = "This GitHub installation is already connected to another PR Sentinel account."

abbrev pub already_connected_reinstall : String
already_connected_reinstall =
    "This GitHub installation is already connected to another PR Sentinel account. Please uninstall the PR Sentinel GitHub App from GitHub and reinstall it."

module _ ⦃p : Prisma⦄ (api : GithubApi) (fuel now : ℕ) where
  -- The synchronisation of `verifyAndSync`, whose failure is not fatal.
  unfoldable pub try_sync : (installation_id github_id : ℕ) → Db → Option (SyncResult × Db)
  try_sync installation_id github_id db = elim (list_installation_repositories api fuel github_id) [
    | none ↦ none
    | some (err e) ↦ some (record { synced = 0; deactivated = 0 }, db)
    | some (ok repos) ↦ some (sync_installation_repositories now installation_id (some repos) db)
  ]

  -- `verifyAndSync` after GitHub has confirmed the installation and the owner is not another.
  unfoldable pub link_and_sync :
      (github_id user_id : ℕ)
      → GithubInstallationInfo
      → Db
      → Option (Result InstallationStatus × Db)
  unfolding try_sync installation_view
  link_and_sync github_id user_id info db =
      let (row, db') =
        upsert_installation_with_user now github_id user_id info.account_login
          info.account_avatar_url db in
      elim (try_sync row.id github_id db') [
        | none ↦ none
        | some r ↦ some (
          ok (record {
            connected = true;
            installation = some (installation_view row);
            repository_count = r.0.synced;
          }),
          r.1,
        )
      ]

  -- `verifyAndSync`
  unfoldable pub verify_and_sync :
      (github_id user_id : ℕ) → Db → Option (Result InstallationStatus × Db)
  unfolding link_and_sync verification_error
  verify_and_sync github_id user_id db = elim (verify_installation_with_github api github_id) [
    | err e ↦ some (err (verification_error e), db)
    | ok info ↦
        if owned_by_other user_id (find_installation_by_github_id github_id db)
        then some (err (forbidden already_connected_reinstall), db)
        else link_and_sync github_id user_id info db
  ]

  -- The check before `verifyAndSync` in the claim and in a completion without a live state.
  unfoldable pub claim_checked :
      (github_id user_id : ℕ) → Db → Option (Result InstallationStatus × Db)
  unfolding verify_and_sync
  claim_checked github_id user_id db =
      if owned_by_other user_id (find_installation_by_github_id github_id db)
      then some (err (forbidden already_connected), db)
      else verify_and_sync github_id user_id db

  module _ (parse_id : String → Option ℕ) where
    -- `claimInstall`
    unfoldable pub claim_install :
        (user_id : ℕ) → Option String → Db → Option (Result InstallationStatus × Db)
    unfolding claim_checked
    claim_install user_id raw_installation_id db = elim (configured raw_installation_id) [
      | none ↦ some (err (bad_request "installationId is required."), db)
      | some raw ↦ elim (parse_id raw) [
        | none ↦ some (err (bad_request "installationId must be a positive integer."), db)
        | some github_id ↦ claim_checked github_id user_id db
      ]
    ]

    -- `completeInstall` once the state is consumed.
    unfoldable pub complete_with :
        Option ℕ → (github_id user_id : ℕ) → Db → Option (Result InstallationStatus × Db)
    unfolding claim_checked
    complete_with none github_id user_id db = claim_checked github_id user_id db
    complete_with (some state_user_id) github_id user_id db =
        if user_id == state_user_id
        then verify_and_sync github_id state_user_id db
        else some (err (unauthorized "Session mismatch. Please log in again and retry."), db)

    module _ ⦃r : RedisClient⦄ (json : Json InstallStatePayload) where
      -- The consumption of the state, if there is one.
      unfoldable pub state_user : Option String → r.Store → Option ℕ × r.Store
      state_user state store = elim (configured state) [
        | none ↦ (none, store)
        | some token ↦ consume_install_state json now token store
      ]

      -- `completeInstall`: the answer with the database, and the Redis store.
      unfoldable pub complete_install :
          (user_id : ℕ)
          → (raw_installation_id state : Option String) → Db
          → r.Store
          → Option (Result InstallationStatus × Db) × r.Store
      unfolding complete_with state_user
      complete_install user_id raw_installation_id state db store =
          elim (configured raw_installation_id) [
            | none ↦ (
              some (
                err (
                    bad_request
                      "Missing installation_id. GitHub did not supply a valid installation."),
                db,
              ),
              store,
            )
            | some raw ↦ elim (parse_id raw) [
              | none ↦ (
                some (err (bad_request "installation_id must be a positive integer."), db),
                store,
              )
              | some github_id ↦
                  let (owner, store') = state_user state store in
                  (complete_with owner github_id user_id db, store')
            ]
          ]

module _ ⦃r : RedisClient⦄ (json : Json InstallStatePayload) where
  -- `startInstall`: a state for the user, and the URL with it. The state is stored before the
  -- setting is read.
  unfoldable pub start_install :
      (now : ℕ)
      → (state created_at : String) → Option String
      → ℕ
      → r.Store
      → Result String × r.Store
  start_install now state created_at install_url user_id store =
      let (token, store') = create_install_state json now state created_at user_id store in
      elim (configured install_url) [
        | none ↦ (err (internal_server_error "GITHUB_APP_INSTALL_URL is not configured"), store')
        | some base ↦ (ok (append base (append "?state=" token)), store')
      ]
