-- ===== src/Reviews/Generation/Life.antt =====
-- The life of a review that a worker makes: what it is when the work is over.
use mathlib.Core.Option
use pr_sentinel_backend.Base.{
  ℕ, String, ◌≡◌, refl, subst, ◌∙◌, inl, inr, false, Option, none, some, arith, if◌then◌else◌, ◌==◌,
  ==_iff, ==_refl, Bool-cases, Option-cases,
}
use pr_sentinel_backend.Errors.{Result, ok, err}
use pr_sentinel_backend.Prisma.{Prisma, new_id}
use pr_sentinel_backend.Prisma.Keyed.{find_unique, find-update, find-create, find-new_id}
use pr_sentinel_backend.Schema.{ReviewStatus, Review}
use pr_sentinel_backend.Database.{Db}
use pr_sentinel_backend.Github.Service.{GithubApi}
use pr_sentinel_backend.Reviews.Answer.{Value, ParsedReviewResult}
use pr_sentinel_backend.Reviews.Generation.{
  LlmService, IncludedPullRequest, find_included, ask, failure_message, completed_review,
  failed_review, new_review, settle, run_review,
}

-- A review whose work has ended with this result: completed without a message under the id that is
-- returned, or failed with the message of the exception.
abbrev pub IsFinished : Result ℕ → Review → Type 0
IsFinished (ok id) r = (r.id ≡ id) × (r.status ≡ ReviewStatus.completed) × (r.error_message ≡ none)
IsFinished (err e) r =
    (r.status ≡ ReviewStatus.failed) × (r.error_message ≡ some (failure_message e))

module _ ⦃p : Prisma⦄ where
  abbrev pub find_review : ℕ → Db → Option Review
  find_review id db = find_unique (λ r. r.id) id db.reviews

module _ ⦃p : Prisma⦄ (now : ℕ) where
  -- What is written over the review.
  abbrev ended : Result ParsedReviewResult → Review → Review
  ended (ok parsed) r = completed_review now parsed r
  ended (err e) r = failed_review now (failure_message e) r

  find-settle :
      (j id : ℕ) (outcome : Result ParsedReviewResult) (db : Db)
      → find_review j (settle now id outcome db).1
        ≡ (if j == id then Option.map (ended outcome) (find_review j db) else find_review j db)
  unfolding settle completed_review failed_review
  find-settle j id (ok parsed) db =
      find-update (λ r. r.id) id (completed_review now parsed) (λ r. refl) j db.reviews
  find-settle j id (err e) db =
      find-update (λ r. r.id) id (failed_review now (failure_message e)) (λ r. refl) j db.reviews

  IsFinished-settle :
      (id : ℕ) (outcome : Result ParsedReviewResult) (r : Review) (db : Db)
      → r.id ≡ id
      → IsFinished (settle now id outcome db).0 (ended outcome r)
  unfolding settle completed_review failed_review
  IsFinished-settle id (ok parsed) r db e = (e, refl, refl)
  IsFinished-settle id (err e) r db same = (refl, refl)

  -- The review of a pull request is there after its creation, and no other has changed.
  find-created :
      (j pull_request_id : ℕ) (db : Db)
      → find_unique (λ r. r.id) j (p.create (new_review now pull_request_id db) db.reviews) ≡ (
          if j == new_id (λ r. r.id) db.reviews
          then some (new_review now pull_request_id db)
          else find_review j db)
  unfolding new_review
  find-created j pull_request_id db =
      find-create (λ r. r.id == j) (new_review now pull_request_id db) db.reviews
      ∙ elim (Bool-cases (j == new_id (λ r. r.id) db.reviews)) [
        | inl same ↦
            rw
              (
                (==_iff j _).0 same,
                find-new_id (λ (r : Review). r.id) db.reviews,
                ==_refl (new_id (λ r. r.id) db.reviews),
              )
              refl
        | inr other ↦ elim (Option-cases (find_review j db)) [
          | inl e ↦
              let flipped : (new_id (λ (r : Review). r.id) db.reviews == j) ≡ false =
                ground (arith, other) in
              rw (e, other) (rw flipped refl)
          | inr (r, e) ↦ rw (e, other) refl
        ]
      ]

module _ ⦃p : Prisma⦄ (api : GithubApi) (llm : LlmService) (json_parse : String → Option Value)
    (now k user_id : ℕ) (db : Db) (s : llm.State) where
  -- The id of the review that the work makes.
  abbrev review_id : ℕ
  review_id = new_id (λ (r : Review). r.id) db.reviews

  abbrev after : (Result ℕ × Db) × llm.State
  after = run_review api llm json_parse now k user_id db s

  module _ (i : IncludedPullRequest) where
    abbrev outcome : Result ParsedReviewResult
    outcome = (ask api llm json_parse i user_id s).0

    find-run_review_found :
        (j : ℕ)
        → find_included k db ≡ some i
        → find_review j after.0.1 ≡ (
            if j == review_id
            then some (ended now outcome (new_review now i.pull_request.id db))
            else find_review j db)
    unfolding run_review new_review
    find-run_review_found j found =
        rw (found, run_review)
          (find-settle now j review_id outcome _
            ∙ rw (find-created now j i.pull_request.id db)
                (elim (Bool-cases (j == review_id)) [ inl same ↦ rw same | inr other ↦ rw other ]))

    IsFinished-run_review_found :
        find_included k db ≡ some i
        → IsFinished after.0.0 (ended now outcome (new_review now i.pull_request.id db))
    unfolding run_review new_review
    IsFinished-run_review_found found =
        rw (found, run_review)
          (IsFinished-settle now review_id outcome (new_review now i.pull_request.id db) _ refl)

  -- No review is left pending by its worker: for a pull request that is stored with its repository
  -- and installation, whatever GitHub and the language model answer, the review that the work
  -- creates is COMPLETED without a message when its id is returned, and FAILED with the message
  -- of the exception when one is thrown.
  pub run_review-IsFinished :
      (i : IncludedPullRequest)
      → find_included k db ≡ some i
      → (r : Review) × (find_review review_id after.0.1 ≡ some r) × IsFinished after.0.0 r
  run_review-IsFinished i found = (
    ended now (outcome i) (new_review now i.pull_request.id db),
    find-run_review_found i review_id found ∙ rw (==_refl review_id),
    IsFinished-run_review_found i found,
  )

  -- The work on a pull request leaves every review that is there already as it is.
  pub find-run_review :
      (j : ℕ) (r : Review) → find_review j db ≡ some r → find_review j after.0.1 ≡ some r
  unfolding run_review
  find-run_review j r there = elim (Option-cases (find_included k db)) [
    | inl missing ↦ rw (missing, run_review) there
    | inr (i, found) ↦ elim (Bool-cases (j == review_id)) [
      | inl same ↦ cc (
        subst (λ (n : ℕ). find_review n db ≡ some r) ((==_iff j review_id).0 same) there,
        find-new_id (λ (x : Review). x.id) db.reviews,
      )
      | inr other ↦ find-run_review_found i j found ∙ rw other there
    ]
  ]
