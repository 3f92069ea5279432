-- ===== src/PullRequest/Delivery.antt =====
-- What a delivery does to the pull request that it is about, and that a repeated one does nothing.
use pr_sentinel_backend.Base.{
  ℕ, String, ◌≡◌, refl, inl, inr, true, false, Option, none, some, if◌then◌else◌, ◌==◌, ==_refl,
  str_eq_refl, Bool-cases, Option-cases,
}
use pr_sentinel_backend.Prisma.{Prisma}
use pr_sentinel_backend.Prisma.Keyed.{upsert, upserted, find-upsert}
use pr_sentinel_backend.Schema.{PullRequest}
use pr_sentinel_backend.Database.{Db}
use pr_sentinel_backend.Payloads.{GithubPullRequest, PullRequestTriggerAction}
use pr_sentinel_backend.PullRequest.{
  is_opened, was_delivered, refresh_pull_request, resynchronize, find_by_github_pr_id,
  new_pull_request, upsert_pull_request,
}

module _ ⦃p : Prisma⦄ (now : ℕ) where
  -- What a delivery writes over a known pull request.
  abbrev pub rewrite :
      ℕ → GithubPullRequest → PullRequestTriggerAction → String → PullRequest → PullRequest
  rewrite repository_id pr action delivery_id =
      if is_opened action
      then refresh_pull_request now repository_id pr delivery_id
      else resynchronize now pr delivery_id

  -- The row of the pull request after a new delivery.
  abbrev pub delivered_row :
      ℕ → GithubPullRequest → PullRequestTriggerAction → String → Db → PullRequest
  delivered_row repository_id pr action delivery_id db =
      upserted (find_by_github_pr_id pr.id db)
        (new_pull_request now db repository_id pr delivery_id)
        (rewrite repository_id pr action delivery_id)

  module _ (repository_id : ℕ) (pr : GithubPullRequest) (action : PullRequestTriggerAction)
      (delivery_id : String) (db : Db) where
    abbrev existing : Option PullRequest
    existing = find_by_github_pr_id pr.id db

    rewrite_fixed :
        (r : PullRequest)
        → (rewrite repository_id pr action delivery_id r).github_pr_id ≡ r.github_pr_id
    unfolding refresh_pull_request resynchronize
    rewrite_fixed r = elim (Bool-cases (is_opened action)) [ inl e ↦ rw e refl | inr e ↦ rw e refl ]

    abbrev upsert_all : PullRequest × p.Table PullRequest
    upsert_all =
        upsert (λ r. r.github_pr_id) pr.id (new_pull_request now db repository_id pr delivery_id)
          (rewrite repository_id pr action delivery_id) db.pull_requests

    -- A new delivery returns the written row and the database with it.
    upsert_pull_request-new :
        was_delivered delivery_id existing ≡ false
        → upsert_pull_request now repository_id pr action delivery_id db
          ≡ (some upsert_all.0, record db { pull_requests = upsert_all.1 })
    unfolding upsert_pull_request upsert
    upsert_pull_request-new fresh = elim (Bool-cases (is_opened action)) [
      | inl e ↦ rw (fresh, e) refl
      | inr e ↦ elim (Option-cases existing) [
        | inl missing ↦ rw (fresh, e, missing, upsert) refl
        | inr (r, found) ↦ rw (fresh, e, found, upsert) (rw e refl)
      ]
    ]

    new_id-key : (new_pull_request now db repository_id pr delivery_id).github_pr_id ≡ pr.id
    unfolding new_pull_request
    new_id-key = refl

    -- A delivery that the pull request of the payload has already recorded leaves every pull request
    -- as it was. Any other leaves under its GitHub id the row that the delivery writes: a created
    -- one where there was none, whatever the action is, else the old one with the new data. Every
    -- other pull request stays as it was.
    pub find-upsert_pull_request :
        (j : ℕ)
        → find_by_github_pr_id j (upsert_pull_request now repository_id pr action delivery_id db).1
          ≡ (if was_delivered delivery_id existing
              then find_by_github_pr_id j db
              else if j == pr.id
              then some (delivered_row repository_id pr action delivery_id db)
              else find_by_github_pr_id j db)
    unfolding upsert_pull_request
    find-upsert_pull_request j = elim (Bool-cases (was_delivered delivery_id existing)) [
      | inl old ↦ rw old refl
      | inr fresh ↦
          rw (upsert_pull_request-new fresh, fresh)
            (find-upsert _ pr.id _ rewrite_fixed j
              (new_pull_request now db repository_id pr delivery_id) db.pull_requests new_id-key)
    ]

    delivered_row-was_delivered :
        was_delivered delivery_id (some (delivered_row repository_id pr action delivery_id db))
        ≡ true
    unfolding new_pull_request refresh_pull_request resynchronize
    delivered_row-was_delivered = elim (Option-cases existing) [
      | inl missing ↦ rw missing (str_eq_refl delivery_id)
      | inr (r, found) ↦ elim (Bool-cases (is_opened action)) [
        | inl e ↦ rw (found, e) (str_eq_refl delivery_id)
        | inr e ↦ rw (found, e) (str_eq_refl delivery_id)
      ]
    ]

    -- After a delivery it is recorded.
    pub was_delivered-upsert_pull_request :
        was_delivered delivery_id (
          find_by_github_pr_id pr.id
            (upsert_pull_request now repository_id pr action delivery_id db).1)
        ≡ true
    was_delivered-upsert_pull_request =
        rw (find-upsert_pull_request pr.id)
          (elim (Bool-cases (was_delivered delivery_id existing)) [
            | inl old ↦ rw (old) old
            | inr fresh ↦ rw (fresh, ==_refl pr.id) delivered_row-was_delivered
          ])

  pub upsert_pull_request-old :
      (repository_id : ℕ) (pr : GithubPullRequest) (action : PullRequestTriggerAction)
      (delivery_id : String) (db : Db)
      → was_delivered delivery_id (find_by_github_pr_id pr.id db) ≡ true
      → upsert_pull_request now repository_id pr action delivery_id db ≡ (none, db)
  unfolding upsert_pull_request
  upsert_pull_request-old repository_id pr action delivery_id db old = rw old

  -- Processing is idempotent: after a delivery has been handled, handling it again, with whatever
  -- action and repository the repetition claims, returns null and leaves the database as it is.
  pub upsert_pull_request_again :
      (repository_id other_id : ℕ) (pr : GithubPullRequest)
      (action other_action : PullRequestTriggerAction) (delivery_id : String) (db : Db)
      → upsert_pull_request now other_id pr other_action delivery_id
          (upsert_pull_request now repository_id pr action delivery_id db).1
        ≡ (none, (upsert_pull_request now repository_id pr action delivery_id db).1)
  upsert_pull_request_again repository_id other_id pr action other_action delivery_id db =
      upsert_pull_request-old other_id pr other_action delivery_id
        (upsert_pull_request now repository_id pr action delivery_id db).1
        (was_delivered-upsert_pull_request repository_id pr action delivery_id db)
