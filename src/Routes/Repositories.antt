-- ===== src/Routes/Repositories.antt =====
-- src/repository/repository.controller.ts, with the read of src/repository/repository.service.ts that
-- only this controller uses.
use pr_sentinel_backend.Base.{ℕ, String, Bool, List, map, Option, none, some, length, ◌==◌}
use pr_sentinel_backend.Errors.{Result, ok, err, not_found}
use pr_sentinel_backend.Prisma.{Prisma, find_many}
use pr_sentinel_backend.Prisma.Orders.{Orders, newest_first, by_text}
use pr_sentinel_backend.Schema.{PullRequestStatus, Repository, PullRequest}
use pr_sentinel_backend.Database.{Db}
use pr_sentinel_backend.Repository.Repositories.{find_active_repos_by_user_id, find_by_id_for_user}
use pr_sentinel_backend.PullRequest.{find_by_repository}

pub record RepositoryView : Type 0 where
  pub id : ℕ
  pub github_repo_id : ℕ
  pub owner : String
  pub name : String
  pub full_name : String
  pub is_active : Bool
  pub installation_id : ℕ
  pub html_url : Option String
  pub pull_request_count : ℕ
  pub review_count : ℕ
  pub created_at : ℕ
  pub updated_at : ℕ

-- A repository with the count that `_count` selects.
unfoldable pub repository_view : Repository × ℕ → RepositoryView
repository_view (r, count) = record {
  id = r.id;
  github_repo_id = r.github_repo_id;
  owner = r.owner;
  name = r.name;
  full_name = r.full_name;
  is_active = r.is_active;
  installation_id = r.installation_id;
  html_url = r.html_url;
  pull_request_count = count;
  review_count = 0;
  created_at = r.created_at;
  updated_at = r.updated_at;
}

-- `select: { id, owner, name, fullName }`
pub record RepositoryRef : Type 0 where
  pub id : ℕ
  pub owner : String
  pub name : String
  pub full_name : String

abbrev pub repository_ref : Repository → RepositoryRef
repository_ref r = record { id = r.id; owner = r.owner; name = r.name; full_name = r.full_name }

pub record PullRequestView : Type 0 where
  pub id : ℕ
  pub github_pr_id : ℕ
  pub github_pr_number : ℕ
  pub title : String
  pub author : String
  pub base_branch : String
  pub head_branch : String
  pub status : PullRequestStatus
  pub error_message : Option String
  pub last_delivery_id : Option String
  pub repository_id : ℕ
  pub repository : Option RepositoryRef
  pub created_at : ℕ
  pub updated_at : ℕ

unfoldable pub pull_request_view : Option RepositoryRef → PullRequest → PullRequestView
pull_request_view ref pr = record {
  id = pr.id;
  github_pr_id = pr.github_pr_id;
  github_pr_number = pr.github_pr_number;
  title = pr.title;
  author = pr.author;
  base_branch = pr.base_branch;
  head_branch = pr.head_branch;
  status = pr.status;
  error_message = pr.error_message;
  last_delivery_id = pr.last_delivery_id;
  repository_id = pr.repository_id;
  repository = ref;
  created_at = pr.created_at;
  updated_at = pr.updated_at;
}

module _ ⦃p : Prisma⦄ where
  -- `include: { _count: { select: { pullRequests: true } } }`
  abbrev pub with_count : Db → Repository → Repository × ℕ
  with_count db r = (r, length (find_many (λ pr. pr.repository_id == r.id) db.pull_requests))

module _ ⦃p : Prisma⦄ ⦃o : Orders⦄ where
  -- `findActiveReposWithCountsByUserId`
  unfoldable pub find_active_repos_with_counts_by_user_id : ℕ → Db → List (Repository × ℕ)
  find_active_repos_with_counts_by_user_id user_id db =
      map (with_count db) (by_text (λ r. r.full_name) (find_active_repos_by_user_id user_id db))

  -- `list`
  unfoldable pub list_repositories : (user_id : ℕ) → Db → List RepositoryView
  unfolding repository_view find_active_repos_with_counts_by_user_id
  list_repositories user_id db =
      map repository_view (find_active_repos_with_counts_by_user_id user_id db)

  -- `get`
  unfoldable pub get_repository : (id user_id : ℕ) → Db → Result RepositoryView
  unfolding repository_view
  get_repository id user_id db = elim (find_by_id_for_user id user_id db) [
    | none ↦ err (not_found "Repository not found")
    | some repo ↦ ok (repository_view (with_count db repo))
  ]

  -- `pullRequests`
  unfoldable pub repository_pull_requests : (id user_id : ℕ) → Db → Result (List PullRequestView)
  unfolding pull_request_view
  repository_pull_requests id user_id db = elim (find_by_id_for_user id user_id db) [
    | none ↦ err (not_found "Repository not found")
    | some repo ↦ ok (
        map (pull_request_view (some (repository_ref repo)))
          (newest_first (λ pr. pr.created_at) (find_by_repository repo.id db)))
  ]
