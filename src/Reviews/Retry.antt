-- ===== src/Reviews/Retry.antt =====
-- The reads and the retry of src/reviews/reviews.service.ts, over the database and the jobs of the
-- review queue. Reads give the rows without the included relations.
use pr_sentinel_backend.Base.{
  ℕ, String, ◌≡◌, ◌⊎◌, refl, sym, ap, ◌∙◌, inl, inr, Bool, true, false, ◌&&◌, List, [], ◌∷◌, ◌++◌,
  Option, none, some, arith, find-weaker, if◌then◌else◌, ◌==◌, ==_refl, Bool-cases, Option-cases,
}
use mathlib.Core.Option
use pr_sentinel_backend.Errors.{Exception, bad_request, not_found, Result, ok, err}
use pr_sentinel_backend.Prisma.{Prisma, find_first, find_many}
use pr_sentinel_backend.Prisma.Keyed.{update, find-update}
use pr_sentinel_backend.Schema.{ReviewStatus, Review}
use pr_sentinel_backend.Database.{Db, review_of_user}
use pr_sentinel_backend.Webhook.Handler.{World, generate_review}
use pr_sentinel_backend.Github.Service.{GithubApi}
use pr_sentinel_backend.Reviews.Answer.{Value}
use pr_sentinel_backend.Reviews.Generation.{LlmService, run_review}
use pr_sentinel_backend.Reviews.Generation.Life.{find_review, find-run_review}

abbrev pub is_failed : ReviewStatus → Bool
is_failed ReviewStatus.failed = true
is_failed _ = false

-- The data of the update.
unfoldable pub retried : ℕ → Review → Review
retried now r = record r { status = ReviewStatus.pending; error_message = none; updated_at = now }

module _ ⦃p : Prisma⦄ where
  -- `findByIdForUser`
  abbrev pub find_review_for_user : ℕ → ℕ → Db → Option Review
  find_review_for_user review_id user_id db =
      find_first (λ r. r.id == review_id && review_of_user db user_id r) db.reviews

  -- `findAllForUser`
  abbrev pub find_all_reviews_for_user : ℕ → Db → List Review
  find_all_reviews_for_user user_id db = find_many (review_of_user db user_id) db.reviews

module _ ⦃p : Prisma⦄ (now : ℕ) where
  -- `retryReview`
  unfoldable pub retry_review : (review_id user_id : ℕ) → World → Result Review × World
  retry_review review_id user_id w = elim (find_review_for_user review_id user_id w.db) [
    | none ↦ (err (not_found "Review not found"), w)
    | some review ↦
        if is_failed review.status
        then (
          ok (retried now review),
          record {
            db = record w.db { reviews = update (λ r. r.id) review_id (retried now) w.db.reviews };
            jobs = w.jobs ++ generate_review review.pull_request_id user_id ∷ [];
          },
        )
        else (err (bad_request "Only FAILED reviews can be retried"), w)
  ]

  -- A retry is refused and changes nothing, or it is of a failed review that the user sees, which
  -- is then queued once for its pull request.
  pub retry_review-cases :
      (review_id user_id : ℕ) (w : World)
      → ((e : Exception) × (retry_review review_id user_id w ≡ (err e, w)))
        ⊎ ((r : Review) × (find_review_for_user review_id user_id w.db ≡ some r)
            × (r.status ≡ ReviewStatus.failed)
            × ((retry_review review_id user_id w).1.jobs
                ≡ w.jobs ++ generate_review r.pull_request_id user_id ∷ [])
            × (find_review review_id (retry_review review_id user_id w).1.db
                ≡ Option.map (retried now) (find_review review_id w.db)))
  unfolding retry_review retried
  retry_review-cases review_id user_id w =
      elim (Option-cases (find_review_for_user review_id user_id w.db)) [
        | inl missing ↦ inl (not_found "Review not found", rw (missing, retry_review))
        | inr (r, found) ↦ elim (Bool-cases (is_failed r.status)) [
          | inr other ↦ inl (
            bad_request "Only FAILED reviews can be retried",
            rw (found, retry_review) (rw other refl),
          )
          | inl fails ↦ inr (
            r,
            found,
            is_failed-failed r.status fails,
            rw (found, retry_review) (rw fails refl),
            rw (found, retry_review)
                (rw fails (
                  find-update (λ x. x.id) review_id (retried now) (λ x. refl) review_id w.db.reviews
                  ∙ rw (==_refl review_id))),
          )
        ]
      ]
    where
      is_failed-failed : (s : ReviewStatus) → is_failed s ≡ true → s ≡ ReviewStatus.failed
      is_failed-failed ReviewStatus.failed h = refl
      is_failed-failed ReviewStatus.pending h = cc
      is_failed-failed ReviewStatus.completed h = cc

module _ ⦃p : Prisma⦄ (api : GithubApi) (llm : LlmService)
    (json_parse : String → Option Value) where
  -- The job that a retry queues makes a review of its own: the retried review is still pending
  -- after the job, whatever GitHub and the language model answer.
  pub retry_review-pending :
      (now later review_id user_id : ℕ) (w : World) (answer : Review) (s : llm.State)
      → (retry_review now review_id user_id w).0 ≡ ok answer
      → (r : Review) × (find_review review_id
            (run_review api llm json_parse later answer.pull_request_id user_id
              (retry_review now review_id user_id w).1.db
              s).0.1
          ≡ some r)
        × (r.status ≡ ReviewStatus.pending)
  unfolding retried
  retry_review-pending now later review_id user_id w answer s works =
      elim (retry_review-cases now review_id user_id w) [
        | inl (e, refused) ↦ cc (sym works ∙ ap (λ x. x.0) refused)
        | inr (r, found, failed, queued, there) ↦
            let (row, known) =
              find-weaker (λ x. x.id == review_id && review_of_user w.db user_id x)
                (λ x. x.id == review_id) (p.rows w.db.reviews) {x = r} (λ y h. ground (arith, h))
                found in
            (
              retried now row,
              find-run_review api llm json_parse later answer.pull_request_id user_id
                  (retry_review now review_id user_id w).1.db s review_id (retried now row)
                  (there ∙ rw known refl),
              refl,
            )
      ]
