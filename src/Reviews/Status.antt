-- ===== src/Reviews/Status.antt =====
-- The status of a pull request after the worker: markProcessing and markReviewed of the pull request
-- service are called nowhere.
use pr_sentinel_backend.Base.{ℕ, String, ◌≡◌, refl, ◌∙◌, inl, inr, Option, Option-cases}
use pr_sentinel_backend.Errors.{Result, ok, err, Result-cases}
use pr_sentinel_backend.Prisma.{Prisma}
use pr_sentinel_backend.Database.{Db}
use pr_sentinel_backend.Github.Service.{GithubApi, create_pull_request_review}
use pr_sentinel_backend.Reviews.Answer.{Value, ParsedReviewResult}
use pr_sentinel_backend.Reviews.Generation.{
  LlmService, find_included, ask, new_review, settle, run_review,
}
use pr_sentinel_backend.Reviews.Publication.{
  find_review_included, review_request, unposted, publish, process_job,
}

module _ ⦃p : Prisma⦄ (now : ℕ) where
  pull_requests-settle :
      (id : ℕ) (outcome : Result ParsedReviewResult) (db : Db)
      → (settle now id outcome db).1.pull_requests ≡ db.pull_requests
  unfolding settle
  pull_requests-settle id (ok parsed) db = refl
  pull_requests-settle id (err e) db = refl

module _ ⦃p : Prisma⦄ (api : GithubApi) where
  pull_requests-publish :
      (review_id : ℕ) (db : Db) → (publish api review_id db).1.pull_requests ≡ db.pull_requests
  unfolding publish
  pull_requests-publish review_id db = elim (Option-cases (find_review_included review_id db)) [
    | inl e ↦ rw (e, publish) refl
    | inr ((review, i), e) ↦
        elim (Result-cases
          (create_pull_request_review api (review_request i review (unposted review_id db)))) [
            | inl (x, fails) ↦ rw (e, publish) (rw fails refl)
            | inr (github_id, works) ↦ rw (e, publish) (rw works refl)
          ]
  ]

  module _ (llm : LlmService) (json_parse : String → Option Value) (now : ℕ) where
    pull_requests-run_review :
        (id user_id : ℕ) (db : Db) (s : llm.State)
        → (run_review api llm json_parse now id user_id db s).0.1.pull_requests ≡ db.pull_requests
    unfolding run_review
    pull_requests-run_review id user_id db s = elim (Option-cases (find_included id db)) [
      | inl e ↦ rw (e, run_review) refl
      | inr (i, e) ↦
          let review = new_review now i.pull_request.id db in
          rw (e, run_review)
            (pull_requests-settle now review.id (ask api llm json_parse i user_id s).0
              (record db { reviews = p.create review db.reviews }))
    ]

    -- The worker leaves every pull request as it is, whether its review completes and is published
    -- or fails: a pull request that has been reviewed keeps the status that the webhook gave it.
    pub pull_requests-process_job :
        (id user_id : ℕ) (db : Db) (s : llm.State)
        → (process_job api llm json_parse now id user_id db s).0.1.pull_requests ≡ db.pull_requests
    unfolding process_job
    pull_requests-process_job id user_id db s =
        let db' = (run_review api llm json_parse now id user_id db s).0.1 in
        let kept = pull_requests-run_review id user_id db s in
        elim (Result-cases (run_review api llm json_parse now id user_id db s).0.0) [
          | inl (x, fails) ↦ rw (fails, process_job) kept
          | inr (review_id, made) ↦
              rw (made, process_job) (pull_requests-publish review_id db' ∙ kept)
        ]
