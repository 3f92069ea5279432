-- ===== src/Database/Links/Tables.antt =====
-- That all foreign keys of the database lead to rows, after a change of one table.
use pr_sentinel_backend.Base.{ℕ}
use pr_sentinel_backend.Prisma.{Prisma}
use pr_sentinel_backend.Schema.{
  Installation, Repository, PullRequest, PrFile, Review, ReviewComment,
}
use pr_sentinel_backend.Database.{
  Db, is_deleted, repository_goes, pull_request_goes, review_goes, file_goes, comment_goes,
  delete_cascade,
}
use pr_sentinel_backend.Database.Links.{Linked, Covers, Linked-Covers, Linked-cascade}

module _ ⦃p : Prisma⦄ where
  abbrev pub RepositoriesLinked : p.Table Repository → p.Table Installation → Type 0
  RepositoriesLinked rs is = Linked (λ r. r.installation_id) (λ i. i.id) rs is

  abbrev pub PullRequestsLinked : p.Table PullRequest → p.Table Repository → Type 0
  PullRequestsLinked prs rs = Linked (λ pr. pr.repository_id) (λ r. r.id) prs rs

  abbrev pub FilesLinked : p.Table PrFile → p.Table PullRequest → Type 0
  FilesLinked fs prs = Linked (λ f. f.pull_request_id) (λ pr. pr.id) fs prs

  abbrev pub ReviewsLinked : p.Table Review → p.Table PullRequest → Type 0
  ReviewsLinked vs prs = Linked (λ v. v.pull_request_id) (λ pr. pr.id) vs prs

  abbrev pub CommentsLinked : p.Table ReviewComment → p.Table Review → Type 0
  CommentsLinked cs vs = Linked (λ c. c.review_id) (λ v. v.id) cs vs

  -- Every repository has its installation, every pull request its repository, every file and every
  -- review its pull request, and every comment its review.
  abbrev pub IsLinked : Db → Type 0
  IsLinked db =
      RepositoriesLinked db.repositories db.installations
      × PullRequestsLinked db.pull_requests db.repositories
      × FilesLinked db.pr_files db.pull_requests
      × ReviewsLinked db.reviews db.pull_requests
      × CommentsLinked db.review_comments db.reviews

  pub with_installations-IsLinked :
      (db : Db) (t : p.Table Installation)
      → Covers (λ i. i.id) db.installations t
      → IsLinked db
      → IsLinked (record db { installations = t })
  with_installations-IsLinked db t covers (rs, prs, fs, vs, cs) = (
    Linked-Covers (λ r. r.installation_id) (λ i. i.id) db.repositories db.installations t covers rs,
    prs,
    fs,
    vs,
    cs,
  )

  pub with_repositories-IsLinked :
      (db : Db) (t : p.Table Repository)
      → Covers (λ r. r.id) db.repositories t
      → RepositoriesLinked t db.installations
      → IsLinked db
      → IsLinked (record db { repositories = t })
  with_repositories-IsLinked db t covers linked (rs, prs, fs, vs, cs) = (
    linked,
    Linked-Covers (λ pr. pr.repository_id) (λ r. r.id) db.pull_requests db.repositories t covers
        prs,
    fs,
    vs,
    cs,
  )

  pub with_pull_requests-IsLinked :
      (db : Db) (t : p.Table PullRequest)
      → Covers (λ pr. pr.id) db.pull_requests t
      → PullRequestsLinked t db.repositories
      → IsLinked db
      → IsLinked (record db { pull_requests = t })
  with_pull_requests-IsLinked db t covers linked (rs, prs, fs, vs, cs) = (
    rs,
    linked,
    Linked-Covers (λ f. f.pull_request_id) (λ pr. pr.id) db.pr_files db.pull_requests t covers fs,
    Linked-Covers (λ v. v.pull_request_id) (λ pr. pr.id) db.reviews db.pull_requests t covers vs,
    cs,
  )

  pub with_files-IsLinked :
      (db : Db) (t : p.Table PrFile)
      → FilesLinked t db.pull_requests
      → IsLinked db
      → IsLinked (record db { pr_files = t })
  with_files-IsLinked db t linked (rs, prs, fs, vs, cs) = (rs, prs, linked, vs, cs)

  pub with_reviews-IsLinked :
      (db : Db) (t : p.Table Review)
      → Covers (λ v. v.id) db.reviews t
      → ReviewsLinked t db.pull_requests
      → IsLinked db
      → IsLinked (record db { reviews = t })
  with_reviews-IsLinked db t covers linked (rs, prs, fs, vs, cs) = (
    rs,
    prs,
    fs,
    linked,
    Linked-Covers (λ c. c.review_id) (λ v. v.id) db.review_comments db.reviews t covers cs,
  )

  pub with_comments-IsLinked :
      (db : Db) (t : p.Table ReviewComment)
      → CommentsLinked t db.reviews
      → IsLinked db
      → IsLinked (record db { review_comments = t })
  with_comments-IsLinked db t linked (rs, prs, fs, vs, cs) = (rs, prs, fs, vs, linked)

  -- The cascade leaves no row behind that leads to a deleted one.
  pub delete_cascade-IsLinked :
      (github_id : ℕ) (db : Db) → IsLinked db → IsLinked (delete_cascade github_id db)
  unfolding delete_cascade repository_goes pull_request_goes review_goes file_goes comment_goes
  delete_cascade-IsLinked github_id db (rs, prs, fs, vs, cs) = (
    Linked-cascade (λ r. r.installation_id) (λ i. i.id) (is_deleted github_id) db.repositories
        db.installations rs,
    Linked-cascade (λ pr. pr.repository_id) (λ r. r.id) (repository_goes db github_id)
        db.pull_requests db.repositories prs,
    Linked-cascade (λ f. f.pull_request_id) (λ pr. pr.id) (pull_request_goes db github_id)
        db.pr_files db.pull_requests fs,
    Linked-cascade (λ v. v.pull_request_id) (λ pr. pr.id) (pull_request_goes db github_id)
        db.reviews db.pull_requests vs,
    Linked-cascade (λ c. c.review_id) (λ v. v.id) (review_goes db github_id) db.review_comments
        db.reviews cs,
  )
