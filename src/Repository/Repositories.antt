-- ===== src/Repository/Repositories.antt =====
-- Repositories of src/repository/repository.service.ts: lookups, upserts, soft deactivation and the
-- synchronisation of one installation. `now` is the time that `new Date()` reads.
use pr_sentinel_backend.Base.{
  ℕ, String, Bool, true, false, not, ◌&&◌, List, [], ◌∷◌, map, Option, none, some, any, length,
  or_option, ◌==◌, keep,
}
use pr_sentinel_backend.Base.Text.{split_head}
use pr_sentinel_backend.Prisma.{Prisma, find_first, find_many, new_id}
use pr_sentinel_backend.Prisma.Keyed.{find_unique, update, upsert}
use pr_sentinel_backend.Schema.{Repository}
use pr_sentinel_backend.Database.{Db, repository_of_user}
use pr_sentinel_backend.Payloads.{RepoSummary}

-- The repository argument of `upsertRepository`.
pub record RepoInfo : Type 0 where
  pub id : ℕ
  pub name : String
  pub full_name : String
  pub is_private : Bool
  pub html_url : Option String

pub record SyncResult : Type 0 where
  pub synced : ℕ
  pub deactivated : ℕ

-- A listed repository, which has no `html_url`, as that argument.
unfoldable pub of_summary : RepoSummary → RepoInfo
of_summary r = record {
  id = r.id;
  name = r.name;
  full_name = r.full_name;
  is_private = r.is_private;
  html_url = none;
}

-- `returnedGithubIds.has(id)`
abbrev pub is_returned : List RepoInfo → ℕ → Bool
is_returned repos github_id = any (λ repo. repo.id == github_id) repos

-- `githubRepos ?? []`
unfoldable pub fetched : Option (List RepoInfo) → List RepoInfo
fetched none = []
fetched (some repos) = repos

module _ (now : ℕ) where
  -- The `update` data of `upsertRepository`.
  unfoldable pub refresh_repository : ℕ → RepoInfo → Repository → Repository
  refresh_repository installation_id repo r = record r {
    owner = split_head repo.full_name;
    name = repo.name;
    full_name = repo.full_name;
    html_url = or_option repo.html_url r.html_url;
    is_active = true;
    installation_id = installation_id;
    updated_at = now;
  }

  -- `data: { isActive: false, updatedAt }`
  abbrev pub set_inactive : Repository → Repository
  set_inactive r = record r { is_active = false; updated_at = now }

module _ ⦃p : Prisma⦄ where
  -- `findByGithubRepoId`
  abbrev pub find_by_github_repo_id : ℕ → Db → Option Repository
  find_by_github_repo_id github_id db =
      find_unique (λ r. r.github_repo_id) github_id db.repositories

  -- `findActiveReposByUserId`; the order by full name is the database's.
  unfoldable pub find_active_repos_by_user_id : ℕ → Db → List Repository
  find_active_repos_by_user_id user_id db =
      find_many (λ r. r.is_active && repository_of_user db user_id r) db.repositories

  -- `findByIdForUser`
  unfoldable pub find_by_id_for_user : ℕ → ℕ → Db → Option Repository
  find_by_id_for_user id user_id db =
      find_first (λ r. r.id == id && repository_of_user db user_id r) db.repositories

  -- The repositories that the second loop of the synchronisation deactivates.
  unfoldable pub stale_repositories : ℕ → List RepoInfo → Db → List ℕ
  stale_repositories installation_id repos db =
      map (λ r. r.github_repo_id)
        (keep (λ r. not (is_returned repos r.github_repo_id))
          (find_many (λ r. r.installation_id == installation_id && r.is_active) db.repositories))

module _ ⦃p : Prisma⦄ (now : ℕ) where
  -- The `create` data of `upsertRepository`.
  unfoldable pub new_repository : Db → ℕ → RepoInfo → Repository
  new_repository db installation_id repo = record {
    id = new_id (λ r. r.id) db.repositories;
    github_repo_id = repo.id;
    owner = split_head repo.full_name;
    name = repo.name;
    full_name = repo.full_name;
    html_url = repo.html_url;
    is_active = true;
    installation_id = installation_id;
    created_at = now;
    updated_at = now;
  }

  -- `upsertRepository`
  unfoldable pub upsert_repository : ℕ → RepoInfo → Db → Repository × Db
  unfolding new_repository refresh_repository
  upsert_repository installation_id repo db =
      let (row, t) =
        upsert (λ r. r.github_repo_id) repo.id (new_repository db installation_id repo)
          (refresh_repository now installation_id repo) db.repositories in
      (row, record db { repositories = t })

  -- `deactivateRepository`
  unfoldable pub deactivate_repository : ℕ → Db → Db
  deactivate_repository github_id db = elim (find_by_github_repo_id github_id db) [
    | none ↦ db
    | some existing ↦ record db {
      repositories = update (λ r. r.github_repo_id) github_id (set_inactive now) db.repositories;
    }
  ]

  -- The loops over repositories to upsert and to deactivate.
  unfoldable pub upsert_repositories : ℕ → List RepoInfo → Db → Db
  upsert_repositories installation_id [] db = db
  upsert_repositories installation_id (repo ∷ repos) db =
      upsert_repositories installation_id repos (upsert_repository installation_id repo db).1

  unfoldable pub deactivate_repositories : List ℕ → Db → Db
  deactivate_repositories [] db = db
  deactivate_repositories (github_id ∷ ids) db =
      deactivate_repositories ids (deactivate_repository github_id db)

  -- `syncInstallationRepositories`
  unfoldable pub sync_installation_repositories : ℕ → Option (List RepoInfo) → Db → SyncResult × Db
  unfolding stale_repositories fetched
  sync_installation_repositories installation_id github_repos db =
      let repos = fetched github_repos in
      let upserted = upsert_repositories installation_id repos db in
      let stale = stale_repositories installation_id repos upserted in
      (
        record { synced = length repos; deactivated = length stale },
        deactivate_repositories stale upserted,
      )
