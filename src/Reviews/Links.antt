-- ===== src/Reviews/Links.antt =====
-- The worker, the publication and the retry leave no foreign key that leads nowhere.
use pr_sentinel_backend.Base.{
  ℕ, String, ◌≡◌, refl, ap, ◌∙◌, subst, inl, inr, Bool, true, Option, none, some, ◌==◌,
  Option-cases, Bool-cases,
}
use pr_sentinel_backend.Errors.{Result, ok, err, Result-cases}
use pr_sentinel_backend.Prisma.{Prisma}
use pr_sentinel_backend.Prisma.Keyed.{find_unique}
use pr_sentinel_backend.Schema.{Review, PullRequest, Repository, Installation}
use pr_sentinel_backend.Database.{Db}
use pr_sentinel_backend.Database.Links.{
  has, has-create, has-found, has-update_many, Covers-create, Covers-update_many, Linked-create,
  Linked-update_many, Linked-create_many,
}
use pr_sentinel_backend.Database.Links.Tables.{
  IsLinked, with_reviews-IsLinked, with_comments-IsLinked,
}
use pr_sentinel_backend.Github.Service.{GithubApi, create_pull_request_review}
use pr_sentinel_backend.PullRequest.Links.{HasPullRequest}
use pr_sentinel_backend.Webhook.Handler.{World}
use pr_sentinel_backend.Reviews.Answer.{Value, ParsedReviewResult}
use pr_sentinel_backend.Reviews.Generation.{
  LlmService, IncludedPullRequest, find_included, ask, failure_message, completed_review,
  failed_review, new_review, new_comment, settle, run_review,
}
use pr_sentinel_backend.Reviews.Publication.{
  find_review_included, review_request, unposted, to_post, posted, publish, process_job,
}
use pr_sentinel_backend.Reviews.Retry.{find_review_for_user, is_failed, retried, retry_review}

module _ ⦃p : Prisma⦄ where
  -- A write to reviews that leaves their ids and their pull requests.
  reviewed-IsLinked :
      (test : Review → Bool) (f : Review → Review) (db : Db)
      → ((v : Review) → (f v).id ≡ v.id)
      → ((v : Review) → (f v).pull_request_id ≡ v.pull_request_id)
      → IsLinked db
      → IsLinked (record db { reviews = p.update_many test f db.reviews })
  reviewed-IsLinked test f db same_id same_parent linked =
      with_reviews-IsLinked db (p.update_many test f db.reviews)
        (Covers-update_many (λ v. v.id) test f db.reviews same_id)
        (Linked-update_many (λ v. v.pull_request_id) (λ pr. pr.id) test f db.reviews
          db.pull_requests (λ v h. rw (same_parent v) h) linked.3)
        linked

  abbrev included_id : Option IncludedPullRequest → ℕ → ℕ
  included_id none k = k
  included_id (some i) k = i.pull_request.id

  -- The pull request that a review is made for is there.
  find_included-there :
      (id : ℕ) (db : Db) {i : IncludedPullRequest}
      → find_included id db ≡ some i
      → HasPullRequest i.pull_request.id db
  unfolding find_included
  find_included-there id db {i} e =
      elim (Option-cases (find_unique (λ (pr : PullRequest). pr.id) id db.pull_requests)) [
        | inl e1 ↦ cc (rw (e1, find_included) at e)
        | inr (pr, e1) ↦
            elim (Option-cases
              (find_unique (λ (r : Repository). r.id) pr.repository_id db.repositories)) [
                | inl e2 ↦ cc (rw e2 at (rw (e1, find_included) at e))
                | inr (r, e2) ↦
                    elim (Option-cases (
                      find_unique (λ (x : Installation). x.id) r.installation_id
                        db.installations)) [
                          | inl e3 ↦ cc (rw e3 at (rw e2 at (rw (e1, find_included) at e)))
                          | inr (x, e3) ↦
                              subst (λ (k : ℕ). HasPullRequest k db)
                                (ap (λ o. included_id o 0)
                                  (rw e3 at (rw e2 at (rw (e1, find_included) at e))))
                                (has-found (λ y. y.id) (λ y. y.id == id) db.pull_requests e1)
                        ]
              ]
      ]

module _ ⦃p : Prisma⦄ (now : ℕ) where
  settle-IsLinked :
      (id : ℕ) (outcome : Result ParsedReviewResult) (db : Db)
      → has (λ v. v.id) id db.reviews ≡ true
      → IsLinked db
      → IsLinked (settle now id outcome db).1
  unfolding settle completed_review failed_review new_comment
  settle-IsLinked id (err e) db there linked =
      reviewed-IsLinked (λ v. v.id == id) (failed_review now (failure_message e)) db (λ v. refl)
        (λ v. refl) linked
  settle-IsLinked id (ok parsed) db there linked =
      let test : Review → Bool = λ v. v.id == id in
      let f = completed_review now parsed in
      let db' = record db { reviews = p.update_many test f db.reviews } in
      let linked' = reviewed-IsLinked test f db (λ v. refl) (λ v. refl) linked in
      with_comments-IsLinked db' (settle now id (ok parsed) db).1.review_comments
        (Linked-create_many (λ c. c.review_id) (λ v. v.id) (λ c. c.id) (new_comment now id)
          parsed.findings db.review_comments db'.reviews
          (λ n d. has-update_many (λ v. v.id) test f db.reviews id (λ v. refl) ∙ there) linked'.4)
        linked'

  pub retry_review-IsLinked :
      (review_id user_id : ℕ) (w : World)
      → IsLinked w.db
      → IsLinked (retry_review now review_id user_id w).1.db
  unfolding retry_review retried
  retry_review-IsLinked review_id user_id w linked =
      elim (Option-cases (find_review_for_user review_id user_id w.db)) [
        | inl e ↦ rw (e, retry_review) linked
        | inr (review, e) ↦ elim (Bool-cases (is_failed review.status)) [
          | inl fails ↦
              rw (e, retry_review)
                (rw fails (
                  reviewed-IsLinked (λ v. v.id == review_id) (retried now) w.db (λ v. refl)
                    (λ v. refl) linked))
          | inr other ↦ rw (e, retry_review) (rw other linked)
        ]
      ]

module _ ⦃p : Prisma⦄ (api : GithubApi) where
  publish-IsLinked : (review_id : ℕ) (db : Db) → IsLinked db → IsLinked (publish api review_id db).1
  unfolding publish
  publish-IsLinked review_id db linked = elim (Option-cases (find_review_included review_id db)) [
    | inl e ↦ rw (e, publish) linked
    | inr ((review, i), e) ↦
        elim (Result-cases
          (create_pull_request_review api (review_request i review (unposted review_id db)))) [
            | inl (x, fails) ↦ rw (e, publish) (rw fails linked)
            | inr (github_id, works) ↦
                rw (e, publish)
                  (rw works (
                    with_comments-IsLinked db
                      (p.update_many (to_post review_id) (posted github_id) db.review_comments)
                      (Linked-update_many (λ c. c.review_id) (λ v. v.id) (to_post review_id)
                        (posted github_id) db.review_comments db.reviews (λ c h. h) linked.4)
                      linked))
          ]
  ]

  module _ (llm : LlmService) (json_parse : String → Option Value) (now : ℕ) where
    run_review-IsLinked :
        (id user_id : ℕ) (db : Db) (s : llm.State)
        → IsLinked db
        → IsLinked (run_review api llm json_parse now id user_id db s).0.1
    unfolding run_review new_review
    run_review-IsLinked id user_id db s linked = elim (Option-cases (find_included id db)) [
      | inl e ↦ rw (e, run_review) linked
      | inr (i, e) ↦
          let review = new_review now i.pull_request.id db in
          let t = p.create review db.reviews in
          rw (e, run_review)
            (settle-IsLinked now review.id (ask api llm json_parse i user_id s).0
              (record db { reviews = t }) (has-create (λ v. v.id) review db.reviews)
              (with_reviews-IsLinked db t (Covers-create (λ v. v.id) review db.reviews)
                (Linked-create (λ v. v.pull_request_id) (λ pr. pr.id) review db.reviews
                  db.pull_requests (find_included-there id db e) linked.3)
                linked))
    ]

    pub process_job-IsLinked :
        (id user_id : ℕ) (db : Db) (s : llm.State)
        → IsLinked db
        → IsLinked (process_job api llm json_parse now id user_id db s).0.1
    unfolding process_job
    process_job-IsLinked id user_id db s linked =
        let done = run_review-IsLinked id user_id db s linked in
        let db' = (run_review api llm json_parse now id user_id db s).0.1 in
        elim (Result-cases (run_review api llm json_parse now id user_id db s).0.0) [
          | inl (x, fails) ↦ rw (fails, process_job) done
          | inr (review_id, made) ↦ rw (made, process_job) (publish-IsLinked review_id db' done)
        ]
