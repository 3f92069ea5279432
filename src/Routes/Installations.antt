-- ===== src/Routes/Installations.antt =====
-- The routes of src/github/github.controller.ts about the installation of the user and its
-- repositories. `none` for an answer means that the pagination of GithubService has used up its
-- fuel.
use pr_sentinel_backend.Base.{
  ℕ, String, Bool, false, not, List, [], map, Option, none, some, if◌then◌else◌,
}
use pr_sentinel_backend.Errors.{Result, ok, err, not_found}
use pr_sentinel_backend.Prisma.{Prisma}
use pr_sentinel_backend.Prisma.Orders.{Orders, by_text}
use pr_sentinel_backend.Schema.{Installation, Repository}
use pr_sentinel_backend.Database.{Db}
use pr_sentinel_backend.Repository.Installations.{find_installation_by_user_id}
use pr_sentinel_backend.Repository.Repositories.{
  find_active_repos_by_user_id, sync_installation_repositories,
}
use pr_sentinel_backend.Github.Service.{GithubApi, list_installation_repositories}
use pr_sentinel_backend.Github.Install.{InstallationStatus, installation_view}

pub record ConnectedRepository : Type 0 where
  pub id : ℕ
  pub github_repo_id : ℕ
  pub owner : String
  pub name : String
  pub full_name : String
  pub is_active : Bool
  pub html_url : Option String

unfoldable pub connected_repository : Repository → ConnectedRepository
connected_repository r = record {
  id = r.id;
  github_repo_id = r.github_repo_id;
  owner = r.owner;
  name = r.name;
  full_name = r.full_name;
  is_active = r.is_active;
  html_url = r.html_url;
}

-- A repository as `getRepositories` shows it.
pub record ListedRepository : Type 0 where
  pub repository : ConnectedRepository
  pub installation_id : ℕ
  pub created_at : ℕ
  pub updated_at : ℕ

unfoldable pub listed_repository : Repository → ListedRepository
unfolding connected_repository
listed_repository r = record {
  repository = connected_repository r;
  installation_id = r.installation_id;
  created_at = r.created_at;
  updated_at = r.updated_at;
}

pub record SyncAnswer : Type 0 where
  pub synced : ℕ
  pub deactivated : ℕ
  pub repositories : List ConnectedRepository

-- The answer about an installation that is there, or not.
unfoldable pub status_of_installation : Option (Installation × ℕ) → InstallationStatus
unfolding installation_view
status_of_installation none = record {
  connected = false;
  installation = none;
  repository_count = 0;
}
status_of_installation (some (i, count)) = record {
  connected = not i.suspended;
  installation = some (installation_view i);
  repository_count = count;
}

module _ ⦃p : Prisma⦄ where
  -- `getInstallation`
  unfoldable pub get_installation : (user_id : ℕ) → Db → InstallationStatus
  unfolding status_of_installation
  get_installation user_id db = status_of_installation (find_installation_by_user_id user_id db)

module _ ⦃p : Prisma⦄ ⦃o : Orders⦄ where
  -- The active repositories of the user, by their full name.
  abbrev pub active_repositories : (user_id : ℕ) → Db → List Repository
  active_repositories user_id db =
      by_text (λ r. r.full_name) (find_active_repos_by_user_id user_id db)

  -- `getInstallationStatus`
  unfoldable pub get_installation_status :
      (user_id : ℕ) → Db → InstallationStatus × List ConnectedRepository
  unfolding status_of_installation connected_repository
  get_installation_status user_id db = elim (find_installation_by_user_id user_id db) [
    | none ↦ (status_of_installation none, [])
    | some found ↦ (
      status_of_installation (some found),
      map connected_repository (active_repositories user_id db),
    )
  ]

  -- `getRepositories`
  unfoldable pub get_repositories : (user_id : ℕ) → Db → Result (List ListedRepository)
  unfolding listed_repository
  get_repositories user_id db = elim (find_installation_by_user_id user_id db) [
    | none ↦ err (not_found "No GitHub installation found for this account.")
    | some found ↦ ok (map listed_repository (active_repositories user_id db))
  ]

  module _ (api : GithubApi) (fuel now : ℕ) where
    -- `syncInstallation` of an installation that is there and not suspended.
    unfoldable pub sync_connected :
        Installation → (user_id : ℕ) → Db → Option (Result SyncAnswer × Db)
    unfolding connected_repository
    sync_connected i user_id db =
        elim (list_installation_repositories api fuel i.github_installation_id) [
          | none ↦ none
          | some (err e) ↦ some (
            err (
                not_found
                  "Could not retrieve repositories from GitHub. Please verify the GitHub App is still installed and try again."),
            db,
          )
          | some (ok repos) ↦
              let (counts, db') = sync_installation_repositories now i.id (some repos) db in
              some (
                ok (record {
                  synced = counts.synced;
                  deactivated = counts.deactivated;
                  repositories = map connected_repository (active_repositories user_id db');
                }),
                db',
              )
        ]

    -- `syncInstallation`
    unfoldable pub sync_installation : (user_id : ℕ) → Db → Option (Result SyncAnswer × Db)
    unfolding sync_connected
    sync_installation user_id db = elim (find_installation_by_user_id user_id db) [
      | none ↦ some (
        err (
            not_found
              "GitHub App is not connected to this account. Please install the GitHub App first."),
        db,
      )
      | some (i, count) ↦
          if i.suspended
          then some (
            err (
                not_found
                  "GitHub App installation is suspended. Please resolve the issue in GitHub and reconnect."),
            db,
          )
          else sync_connected i user_id db
    ]
