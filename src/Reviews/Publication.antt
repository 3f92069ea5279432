-- ===== src/Reviews/Publication.antt =====
-- src/reviews/services/review-publisher.service.ts and src/reviews/processors/review.processor.ts:
-- a review is posted on GitHub once it is made.
pub mod Posting
use Prim.Native.String.{◌++◌ as append}
use pr_sentinel_backend.Base.{
  ℕ, String, Bool, true, not, ◌&&◌, List, [], ◌∷◌, Option, none, some, or_else, ◌==◌,
}
use pr_sentinel_backend.Base.Text.{trim, configured}
use pr_sentinel_backend.Errors.{not_found, Result, ok, err}
use pr_sentinel_backend.Prisma.{Prisma, find_many}
use pr_sentinel_backend.Prisma.Keyed.{find_unique}
use pr_sentinel_backend.Schema.{Severity, low, medium, high, critical, Review, ReviewComment}
use pr_sentinel_backend.Database.{Db}
use pr_sentinel_backend.Github.Service.{
  GithubApi, ReviewCommentInput, ReviewRequest, create_pull_request_review,
}
use pr_sentinel_backend.Reviews.Answer.{Value}
use pr_sentinel_backend.Reviews.Generation.{
  LlmService, IncludedPullRequest, find_included, run_review,
}

abbrev pub severity_text : Severity → String
severity_text low = "LOW"
severity_text medium = "MEDIUM"
severity_text high = "HIGH"
severity_text critical = "CRITICAL"

-- `formatCommentBody`
unfoldable pub format_comment_body : Option Severity → Option String → String → String
format_comment_body severity category message =
    let tag : String = elim severity [
      | none ↦ ""
      | some s ↦ append "**[" (append (severity_text s) "]**")
    ] in
    let cat : String = elim (configured category) [
      | none ↦ ""
      | some c ↦ append " `" (append c "`")
    ] in
    trim (append tag (append cat (append " " message)))

-- The comments of a review that are on a line.
unfoldable pub line_comments : List ReviewComment → List ReviewCommentInput
unfolding format_comment_body
line_comments [] = []
line_comments (c ∷ cs) = elim c.line_number [
  | none ↦ line_comments cs
  | some line ↦
      record {
        path = c.file_path;
        line = line;
        body = format_comment_body c.severity c.category c.message;
      }
      ∷ line_comments cs
]

-- `{ reviewId, postedToGithub: false }`
abbrev pub to_post : ℕ → ReviewComment → Bool
to_post review_id c = c.review_id == review_id && not c.posted_to_github

abbrev pub posted : ℕ → ReviewComment → ReviewComment
posted github_id c = record c { posted_to_github = true; github_comment_id = some github_id }

unfoldable pub review_request : IncludedPullRequest → Review → List ReviewComment → ReviewRequest
unfolding line_comments
review_request i review comments = record {
  owner = i.repository.owner;
  repo = i.repository.name;
  pr_number = i.pull_request.github_pr_number;
  installation_id = i.installation.github_installation_id;
  body = or_else review.summary "PR Sentinel review";
  comments = line_comments comments;
}

module _ ⦃p : Prisma⦄ where
  -- The comments of a review that are not posted.
  abbrev pub unposted : ℕ → Db → List ReviewComment
  unposted review_id db = find_many (to_post review_id) db.review_comments

  -- The review with its pull request; a parent is there by the foreign keys.
  unfoldable pub find_review_included : ℕ → Db → Option (Review × IncludedPullRequest)
  find_review_included review_id db = elim (find_unique (λ r. r.id) review_id db.reviews) [
    | none ↦ none
    | some review ↦ elim (find_included review.pull_request_id db) [
      | none ↦ none
      | some i ↦ some (review, i)
    ]
  ]

module _ ⦃p : Prisma⦄ (api : GithubApi) where
  -- `publish`
  unfoldable pub publish : ℕ → Db → Result (Unit {0}) × Db
  unfolding review_request
  publish review_id db = elim (find_review_included review_id db) [
    | none ↦ (err (not_found "Review not found"), db)
    | some (review, i) ↦
        elim (create_pull_request_review api (review_request i review (unposted review_id db))) [
          | err e ↦ (err e, db)
          | ok github_id ↦ (
            ok tt,
            record db {
              review_comments =
                  p.update_many (to_post review_id) (posted github_id) db.review_comments;
            },
          )
        ]
  ]

module _ ⦃p : Prisma⦄ (api : GithubApi) (llm : LlmService) (json_parse : String → Option Value)
    (now : ℕ) where
  -- `ReviewProcessor.process`: a failed publication is logged and not thrown on.
  unfoldable pub process_job :
      (pull_request_id user_id : ℕ) → Db → llm.State → (Result (Unit {0}) × Db) × llm.State
  process_job pull_request_id user_id db s =
      let ((made, db'), s') = run_review api llm json_parse now pull_request_id user_id db s in
      elim made [
        | err e ↦ ((err e, db'), s')
        | ok review_id ↦ ((ok tt, (publish api review_id db').1), s')
      ]
