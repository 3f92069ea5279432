-- ===== src/Reviews/Generation.antt =====
-- src/reviews/services/review-generation.service.ts. The language model is an interface: what
-- LlmService.generateReview answers for a user and two prompts, with its own state. The transaction
-- of the code is one change of the database.
pub mod Life
use Prim.Native.String.{◌++◌ as append}
use pr_sentinel_backend.Base.{
  ℕ, ◌-◌, String, Bool, true, false, List, [], ◌∷◌, map, Option, none, some, leb, str_eq,
  if◌then◌else◌,
}
use pr_sentinel_backend.Base.Text.{decimal, trim, truthy, utf16_length, slice_to}
use pr_sentinel_backend.Errors.{
  Exception, http_exception, js_error, thrown_value, not_found, Result, ok, err, ◌>>=◌,
}
use pr_sentinel_backend.Prisma.{Prisma, new_id, create_many}
use pr_sentinel_backend.Prisma.Keyed.{find_unique, update}
use pr_sentinel_backend.Schema
use pr_sentinel_backend.Schema.{
  Severity, ReviewStatus, Installation, Repository, PullRequest, Review, ReviewComment,
}
use pr_sentinel_backend.Database.{Db}
use pr_sentinel_backend.Github.Service.{GithubApi, get_pull_request_diff}
use pr_sentinel_backend.Reviews.Prompts.{review_system_prompt, review_user_prompt}
use pr_sentinel_backend.Reviews.Answer.{
  Value, FindingSeverity, critical, high, medium, low, info, ParsedFinding, ParsedReviewResult,
  parse_review_response,
}

pub data Role : Type 0 where
  system user assistant : Role

pub record LlmMessage : Type 0 where
  pub role : Role
  pub content : String

-- What reviews need of the language models: LlmService.generateReview and LlmService.chat.
pub record LlmService : Type 1 where
  pub State : Type 0
  pub generate_review :
      (user_id : ℕ) → (system_prompt user_prompt : String) → State → Result String × State
  pub chat : (user_id : ℕ) → List LlmMessage → State → Result String × State

-- `toDbSeverity`
unfoldable pub to_db_severity : FindingSeverity → Option Severity
to_db_severity critical = some Severity.critical
to_db_severity high = some Severity.high
to_db_severity medium = some Severity.medium
to_db_severity low = some Severity.low
to_db_severity info = none

abbrev pub max_diff_chars : ℕ
max_diff_chars = 40000

-- `truncateDiff`
unfoldable pub truncate_diff : String → String
truncate_diff diff =
    if leb (utf16_length diff) max_diff_chars
    then diff
    else append (slice_to max_diff_chars diff) (
        append "\n\n[... diff truncated, "
          (append (decimal (utf16_length diff - max_diff_chars)) " more characters omitted ...]"))

-- `err instanceof Error ? err.message : 'Unknown error during review'`
unfoldable pub failure_message : Exception → String
failure_message (http_exception status message) = message
failure_message (js_error message) = message
failure_message (thrown_value text) = "Unknown error during review"

module _ (now : ℕ) where
  -- The data of the two updates.
  unfoldable pub completed_review : ParsedReviewResult → Review → Review
  completed_review parsed r = record r {
    status = ReviewStatus.completed;
    summary = some parsed.summary;
    error_message = none;
    updated_at = now;
  }

  unfoldable pub failed_review : String → Review → Review
  failed_review message r = record r {
    status = ReviewStatus.failed;
    error_message = some message;
    updated_at = now;
  }

-- A pull request with the repository and installation that the read includes.
pub record IncludedPullRequest : Type 0 where
  pub pull_request : PullRequest
  pub repository : Repository
  pub installation : Installation

module _ ⦃p : Prisma⦄ where
  -- The pull request with its parents; a parent is there by the foreign keys.
  unfoldable pub find_included : ℕ → Db → Option IncludedPullRequest
  find_included id db = elim (find_unique (λ r. r.id) id db.pull_requests) [
    | none ↦ none
    | some pr ↦ elim (find_unique (λ r. r.id) pr.repository_id db.repositories) [
      | none ↦ none
      | some repo ↦ elim (find_unique (λ r. r.id) repo.installation_id db.installations) [
        | none ↦ none
        | some i ↦ some (record { pull_request = pr; repository = repo; installation = i })
      ]
    ]
  ]

-- The diff that is reviewed.
unfoldable pub review_diff : GithubApi → IncludedPullRequest → Result String
review_diff api i = do
  diff ←
      get_pull_request_diff api i.repository.owner i.repository.name i.pull_request.github_pr_number
        i.installation.github_installation_id
  if truthy (trim diff)
      then ok diff
      else err (js_error "Empty diff returned from GitHub — nothing to review")

module _ (api : GithubApi) (llm : LlmService) (json_parse : String → Option Value) where
  -- The body of the `try` up to the parsed answer.
  unfoldable pub ask : IncludedPullRequest → ℕ → llm.State → Result ParsedReviewResult × llm.State
  unfolding review_diff
  ask i user_id s = elim (review_diff api i) [
    | err e ↦ (err e, s)
    | ok diff ↦
        let prompt = review_user_prompt (record {
          repo_full_name = i.repository.full_name;
          pr_number = i.pull_request.github_pr_number;
          pr_title = i.pull_request.title;
          pr_author = i.pull_request.author;
          base_branch = i.pull_request.base_branch;
          head_branch = i.pull_request.head_branch;
          diff = truncate_diff diff;
        }) in
        let (answer, s') = llm.generate_review user_id review_system_prompt prompt s in
        (answer >>= parse_review_response json_parse, s')
  ]

module _ ⦃p : Prisma⦄ (now : ℕ) where
  unfoldable pub new_review : ℕ → Db → Review
  new_review pull_request_id db = record {
    id = new_id (λ r. r.id) db.reviews;
    provider = "OPENROUTER";
    summary = none;
    status = ReviewStatus.pending;
    error_message = none;
    pull_request_id = pull_request_id;
    created_at = now;
    updated_at = now;
  }

  unfoldable pub new_comment : ℕ → ℕ → ParsedFinding → ReviewComment
  unfolding to_db_severity
  new_comment review_id id f = record {
    id = id;
    file_path = f.file_path;
    line_number = f.line_number;
    severity = to_db_severity f.severity;
    category = some f.category;
    message = f.message;
    posted_to_github = false;
    github_comment_id = none;
    review_id = review_id;
    created_at = now;
  }

  -- What is stored once the outcome is known: the transaction, or the failure.
  unfoldable pub settle : ℕ → Result ParsedReviewResult → Db → Result ℕ × Db
  unfolding new_comment failure_message
  settle review_id (ok parsed) db = (
    ok review_id,
    record db {
      reviews = update (λ r. r.id) review_id (completed_review now parsed) db.reviews;
      review_comments =
          create_many (λ c. c.id) (new_comment review_id) parsed.findings db.review_comments;
    },
  )
  settle review_id (err e) db = (
    err e,
    record db {
      reviews = update (λ r. r.id) review_id (failed_review now (failure_message e)) db.reviews;
    },
  )

module _ ⦃p : Prisma⦄ (api : GithubApi) (llm : LlmService) (json_parse : String → Option Value)
    (now : ℕ) where
  -- `runReview`
  unfoldable pub run_review :
      (pull_request_id user_id : ℕ) → Db → llm.State → (Result ℕ × Db) × llm.State
  unfolding new_review settle ask
  run_review pull_request_id user_id db s = elim (find_included pull_request_id db) [
    | none ↦ ((err (not_found "Pull request not found"), db), s)
    | some i ↦
        let review = new_review now i.pull_request.id db in
        let (outcome, s') = ask api llm json_parse i user_id s in
        (settle now review.id outcome (record db { reviews = p.create review db.reviews }), s')
  ]
