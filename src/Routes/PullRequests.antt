-- ===== src/Routes/PullRequests.antt =====
-- src/pull-request/pull-request.controller.ts, with the relations that the reads of
-- src/pull-request/pull-request.service.ts include.
use pr_sentinel_backend.Base.{
  ℕ, String, Bool, List, [], ◌∷◌, map, Option, none, some, if◌then◌else◌, ◌==◌,
}
use pr_sentinel_backend.Base.Text.{decimal}
use pr_sentinel_backend.Errors.{Result, ok, err, not_found}
use pr_sentinel_backend.Prisma.{Prisma, find_many}
use pr_sentinel_backend.Prisma.Keyed.{find_unique}
use pr_sentinel_backend.Prisma.Orders.{Orders, newest_first, oldest_first, by_text}
use pr_sentinel_backend.Schema.{ReviewStatus, Severity, PullRequest, PrFile, Review, ReviewComment}
use pr_sentinel_backend.Database.{Db}
use pr_sentinel_backend.PullRequest.{
  PullRequestFilters, find_all_for_user, find_by_id_for_user, find_file_for_user,
}
use pr_sentinel_backend.Reviews.Chat.{file_status_text}
use pr_sentinel_backend.Routes.Repositories.{
  RepositoryRef, repository_ref, PullRequestView, pull_request_view,
}

pub record FileView : Type 0 where
  pub id : ℕ
  pub filename : String
  pub status : String
  pub additions : ℕ
  pub deletions : ℕ
  pub changes : ℕ
  pub pull_request_id : ℕ
  pub created_at : ℕ

pub record CommentView : Type 0 where
  pub id : ℕ
  pub file_path : String
  pub line_number : Option ℕ
  pub severity : Option Severity
  pub category : Option String
  pub message : String
  pub posted_to_github : Bool
  pub github_comment_id : Option String
  pub review_id : ℕ
  pub created_at : ℕ

-- A review with its comments, which are shown in several ways.
pub record ReviewView (Comment : Type 0) : Type 0 where
  pub id : ℕ
  pub provider : String
  pub summary : Option String
  pub status : ReviewStatus
  pub error_message : Option String
  pub pull_request_id : ℕ
  pub comments : List Comment
  pub created_at : ℕ
  pub updated_at : ℕ

pub record PullRequestDetail : Type 0 where
  pub pull_request : PullRequestView
  pub files : List FileView
  pub review : Option (ReviewView CommentView)

unfoldable pub file_view : PrFile → FileView
file_view f = record {
  id = f.id;
  filename = f.filename;
  status = file_status_text f.status;
  additions = f.additions;
  deletions = f.deletions;
  changes = f.changes;
  pull_request_id = f.pull_request_id;
  created_at = f.created_at;
}

-- `c.githubCommentId ? String(c.githubCommentId) : null`
abbrev pub comment_id_text : Option ℕ → Option String
comment_id_text none = none
comment_id_text (some n) = if n == 0 then none else some (decimal n)

unfoldable pub comment_view : ReviewComment → CommentView
comment_view c = record {
  id = c.id;
  file_path = c.file_path;
  line_number = c.line_number;
  severity = c.severity;
  category = c.category;
  message = c.message;
  posted_to_github = c.posted_to_github;
  github_comment_id = comment_id_text c.github_comment_id;
  review_id = c.review_id;
  created_at = c.created_at;
}

unfoldable pub review_view : {Comment : Type 0} → List Comment → Review → ReviewView Comment
review_view comments r = record {
  id = r.id;
  provider = r.provider;
  summary = r.summary;
  status = r.status;
  error_message = r.error_message;
  pull_request_id = r.pull_request_id;
  comments = comments;
  created_at = r.created_at;
  updated_at = r.updated_at;
}

-- `rows[0]`
abbrev pub first : {A : Type 0} → List A → Option A
first [] = none
first (x ∷ xs) = some x

module _ ⦃p : Prisma⦄ where
  -- `include: { repository: { select } }`
  abbrev pub included_ref : Db → PullRequest → Option RepositoryRef
  included_ref db pr = elim (find_unique (λ r. r.id) pr.repository_id db.repositories) [
    | none ↦ none
    | some repo ↦ some (repository_ref repo)
  ]

  -- `getFile`: a file with its patch.
  unfoldable pub get_file : (id file_id user_id : ℕ) → Db → Result (FileView × Option String)
  unfolding file_view
  get_file id file_id user_id db = elim (find_file_for_user id file_id user_id db) [
    | none ↦ err (not_found "File not found")
    | some file ↦ ok (file_view file, file.patch)
  ]

module _ ⦃p : Prisma⦄ ⦃o : Orders⦄ where
  -- `include: { comments: { orderBy: { createdAt: 'asc' } } }`
  abbrev pub comments_of : Review → Db → List ReviewComment
  comments_of review db =
      oldest_first (λ c. c.created_at)
        (find_many (λ c. c.review_id == review.id) db.review_comments)

  -- `list`
  unfoldable pub list_pull_requests : (user_id : ℕ) → PullRequestFilters → Db → List PullRequestView
  unfolding pull_request_view
  list_pull_requests user_id filters db =
      map (λ pr. pull_request_view (included_ref db pr) pr)
        (newest_first (λ pr. pr.updated_at) (find_all_for_user user_id filters db))

  -- The latest review of a pull request, with its comments.
  unfoldable pub latest_review : PullRequest → Db → Option (ReviewView CommentView)
  unfolding review_view comment_view
  latest_review pr db =
      elim (first (
        newest_first (λ r. r.created_at)
          (find_many (λ r. r.pull_request_id == pr.id) db.reviews))) [
            | none ↦ none
            | some review ↦ some (review_view (map comment_view (comments_of review db)) review)
          ]

  -- `get`
  unfoldable pub get_pull_request : (id user_id : ℕ) → Db → Result PullRequestDetail
  unfolding pull_request_view file_view latest_review
  get_pull_request id user_id db = elim (find_by_id_for_user id user_id db) [
    | none ↦ err (not_found "Pull request not found")
    | some pr ↦ ok (record {
      pull_request = pull_request_view (included_ref db pr) pr;
      files =
          map file_view
            (by_text (λ f. f.filename) (find_many (λ f. f.pull_request_id == pr.id) db.pr_files));
      review = latest_review pr db;
    })
  ]
