-- ===== src/Database.antt =====
-- The database of the services: a table for each model of prisma/schema.prisma, the relational
-- filters by which a read is scoped to a user, and the cascade of a deleted installation.
pub mod Links
use pr_sentinel_backend.Base.{ℕ, Bool, false, ◌&&◌, List, none, some, any, ◌==◌}
use pr_sentinel_backend.Prisma.{Prisma}
use pr_sentinel_backend.Schema.{
  User, Installation, Repository, PullRequest, PrFile, Review, ReviewComment, UserLlmConfig,
}

-- A row that passes `test` has the id `k`.
abbrev pub leads_to : {Row : Type 0} → (Row → ℕ) → (Row → Bool) → List Row → ℕ → Bool
leads_to id test rows k = any (λ r. id r == k && test r) rows

module _ ⦃p : Prisma⦄ where
  pub record Db : Type 0 where
    pub users : p.Table User
    pub installations : p.Table Installation
    pub repositories : p.Table Repository
    pub pull_requests : p.Table PullRequest
    pub pr_files : p.Table PrFile
    pub reviews : p.Table Review
    pub review_comments : p.Table ReviewComment
    pub user_llm_configs : p.Table UserLlmConfig

  -- `{ userId }` on an installation.
  abbrev pub belongs_to : ℕ → Installation → Bool
  belongs_to user_id i = elim i.user_id [ none ↦ false | some u ↦ u == user_id ]

  -- `{ installation: { userId } }` on a repository.
  unfoldable pub repository_of_user : Db → ℕ → Repository → Bool
  repository_of_user db user_id r =
      any (λ i. i.id == r.installation_id && belongs_to user_id i) (p.rows db.installations)

  -- `{ repository: { installation: { userId } } }` on a pull request.
  unfoldable pub pull_request_of_user : Db → ℕ → PullRequest → Bool
  pull_request_of_user db user_id pr =
      any (λ r. r.id == pr.repository_id && repository_of_user db user_id r)
        (p.rows db.repositories)

  -- `{ pullRequest: { repository: { installation: { userId } } } }` on a review.
  unfoldable pub review_of_user : Db → ℕ → Review → Bool
  review_of_user db user_id v =
      any (λ pr. pr.id == v.pull_request_id && pull_request_of_user db user_id pr)
        (p.rows db.pull_requests)

  -- The same on a changed file.
  unfoldable pub file_of_user : Db → ℕ → PrFile → Bool
  file_of_user db user_id f =
      any (λ pr. pr.id == f.pull_request_id && pull_request_of_user db user_id pr)
        (p.rows db.pull_requests)

  -- Which rows go when the installation row with this GitHub id is deleted: those whose foreign
  -- keys lead to it (`onDelete: Cascade`).
  abbrev pub is_deleted : ℕ → Installation → Bool
  is_deleted github_id i = i.github_installation_id == github_id

  unfoldable pub repository_goes : Db → ℕ → Repository → Bool
  repository_goes db github_id r =
      leads_to (λ i. i.id) (is_deleted github_id) (p.rows db.installations) r.installation_id

  unfoldable pub pull_request_goes : Db → ℕ → PullRequest → Bool
  pull_request_goes db github_id pr =
      leads_to (λ r. r.id) (repository_goes db github_id) (p.rows db.repositories) pr.repository_id

  unfoldable pub review_goes : Db → ℕ → Review → Bool
  review_goes db github_id v =
      leads_to (λ pr. pr.id) (pull_request_goes db github_id) (p.rows db.pull_requests)
        v.pull_request_id

  unfoldable pub file_goes : Db → ℕ → PrFile → Bool
  file_goes db github_id f =
      leads_to (λ pr. pr.id) (pull_request_goes db github_id) (p.rows db.pull_requests)
        f.pull_request_id

  unfoldable pub comment_goes : Db → ℕ → ReviewComment → Bool
  comment_goes db github_id c =
      leads_to (λ v. v.id) (review_goes db github_id) (p.rows db.reviews) c.review_id

  -- `installation.delete({ where: { githubInstallationId } })` with its cascade.
  unfoldable pub delete_cascade : ℕ → Db → Db
  delete_cascade github_id db = record db {
    installations = p.delete_many (is_deleted github_id) db.installations;
    repositories = p.delete_many (repository_goes db github_id) db.repositories;
    pull_requests = p.delete_many (pull_request_goes db github_id) db.pull_requests;
    pr_files = p.delete_many (file_goes db github_id) db.pr_files;
    reviews = p.delete_many (review_goes db github_id) db.reviews;
    review_comments = p.delete_many (comment_goes db github_id) db.review_comments;
  }
