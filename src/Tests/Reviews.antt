-- ===== src/Tests/Reviews.antt =====
-- The theorems on reviews at a stored pull request with a failed review.
use pr_sentinel_backend.Base.{
  ℕ, String, ◌≡◌, ◌⊎◌, refl, true, false, [], ◌∷◌, ◌++◌, Option, none, some,
}
use mathlib.Core.Option
use pr_sentinel_backend.Errors.{Exception, ok, err}
use pr_sentinel_backend.Prisma.InMemory.{in_memory}
use pr_sentinel_backend.Schema
use pr_sentinel_backend.Schema.{
  Repository, PullRequest, PullRequestStatus, Review, ReviewStatus, ReviewComment,
}
use pr_sentinel_backend.Database.{Db, review_of_user, pull_request_of_user, repository_of_user}
use pr_sentinel_backend.Webhook.Handler.{generate_review}
use pr_sentinel_backend.Reviews.Answer.{Value, text, array, object, item, empty, field, no_fields}
use pr_sentinel_backend.Reviews.Generation.{
  LlmService, IncludedPullRequest, find_included, run_review,
}
use pr_sentinel_backend.Reviews.Generation.Life.{
  IsFinished, find_review, run_review-IsFinished, find-run_review,
}
use pr_sentinel_backend.Reviews.Publication.{process_job}
use pr_sentinel_backend.Reviews.Publication.Posting.{Outcome, publish-Outcome}
use pr_sentinel_backend.Reviews.Status.{pull_requests-process_job}
use pr_sentinel_backend.Reviews.Retry.{
  retry_review, retried, find_review_for_user, retry_review-cases, retry_review-pending,
}
use pr_sentinel_backend.Tests.Data.{owned_row, owned_db, world, api}

abbrev stored_repository : Repository
stored_repository = record {
  id = 1;
  github_repo_id = 70;
  owner = "octo";
  name = "app";
  full_name = "octo/app";
  html_url = none;
  is_active = true;
  installation_id = 1;
  created_at = 0;
  updated_at = 0;
}

abbrev stored_pull_request : PullRequest
stored_pull_request = record {
  id = 1;
  github_pr_id = 500;
  github_pr_number = 4;
  title = "Add a test";
  author = "octo";
  base_branch = "main";
  head_branch = "topic";
  status = PullRequestStatus.received;
  error_message = none;
  last_delivery_id = some "d1";
  repository_id = 1;
  created_at = 0;
  updated_at = 0;
}

abbrev pub failed_row : Review
failed_row = record {
  id = 1;
  provider = "OPENROUTER";
  summary = none;
  status = ReviewStatus.failed;
  error_message = some "timeout";
  pull_request_id = 1;
  created_at = 0;
  updated_at = 0;
}

abbrev waiting_comment : ReviewComment
waiting_comment = record {
  id = 1;
  file_path = "a.ts";
  line_number = some 3;
  severity = some Schema.high;
  category = some "bug";
  message = "no check";
  posted_to_github = false;
  github_comment_id = none;
  review_id = 1;
  created_at = 0;
}

abbrev pub review_db : Db
review_db = record owned_db {
  repositories = stored_repository ∷ [];
  pull_requests = stored_pull_request ∷ [];
  reviews = failed_row ∷ [];
  review_comments = waiting_comment ∷ [];
}

abbrev pub included : IncludedPullRequest
included = record {
  pull_request = stored_pull_request;
  repository = stored_repository;
  installation = owned_row false;
}

abbrev pub model : LlmService
model = record {
  State = ℕ;
  generate_review = λ user_id system_prompt user_prompt calls. (ok "answer", calls);
  chat = λ user_id messages calls. (ok "reply", calls);
}

-- Every text parses to a review with one finding.
abbrev pub reads_review : String → Option Value
reads_review s = some (
    object (
      field "summary" (text "fine") (
        field "findings" (array (item (object (field "severity" (text "LOW") no_fields)) empty))
          no_fields)))

included-found : find_included 1 review_db ≡ some included
unfolding find_included
included-found = refl

run_review-IsFinished_example :
    (r : Review) × (find_review 2 (run_review api model reads_review 5 1 2 review_db 0).0.1
      ≡ some r)
    × IsFinished (run_review api model reads_review 5 1 2 review_db 0).0.0 r
run_review-IsFinished_example =
    run_review-IsFinished api model reads_review 5 1 2 review_db 0 included included-found

find-run_review_example :
    find_review 1 (run_review api model reads_review 5 1 2 review_db 0).0.1 ≡ some failed_row
find-run_review_example = find-run_review api model reads_review 5 1 2 review_db 0 1 failed_row refl

publish-Outcome_example : Outcome api 1 review_db
publish-Outcome_example = publish-Outcome api 1 review_db

retry_review-cases_example :
    ((e : Exception) × (retry_review 5 1 2 (world review_db) ≡ (err e, world review_db)))
    ⊎ ((r : Review) × (find_review_for_user 1 2 review_db ≡ some r)
        × (r.status ≡ ReviewStatus.failed)
        × ((retry_review 5 1 2 (world review_db)).1.jobs
            ≡ [] ++ generate_review r.pull_request_id 2 ∷ [])
        × (find_review 1 (retry_review 5 1 2 (world review_db)).1.db
            ≡ Option.map (retried 5) (find_review 1 review_db)))
retry_review-cases_example = retry_review-cases 5 1 2 (world review_db)

retry-works : (retry_review 5 1 2 (world review_db)).0 ≡ ok (retried 5 failed_row)
unfolding retry_review review_of_user pull_request_of_user repository_of_user
retry-works = refl

retry_review-pending_example :
    (r : Review) × (find_review 1
        (run_review api model reads_review 9 1 2 (retry_review 5 1 2 (world review_db)).1.db 0).0.1
      ≡ some r)
    × (r.status ≡ ReviewStatus.pending)
unfolding retried
retry_review-pending_example =
    retry_review-pending api model reads_review 5 9 1 2 (world review_db) (retried 5 failed_row) 0
      retry-works

pull_requests-process_job_example :
    (process_job api model reads_review 5 1 2 review_db 0).0.1.pull_requests
    ≡ review_db.pull_requests
pull_requests-process_job_example =
    pull_requests-process_job api model reads_review 5 1 2 review_db 0
