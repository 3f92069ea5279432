-- ===== src/Routes/Reviews.antt =====
-- src/reviews/reviews.controller.ts, with the read of src/reviews/reviews.service.ts that only this
-- controller uses. The route of the chat passes its arguments on to the chat.
use pr_sentinel_backend.Base.{ℕ, String, ◌&&◌, List, [], map, Option, none, some, ◌==◌}
use pr_sentinel_backend.Errors.{Result, ok, err, not_found, ◌>>=◌}
use pr_sentinel_backend.Prisma.{Prisma, find_many}
use pr_sentinel_backend.Prisma.Orders.{Orders, newest_first}
use pr_sentinel_backend.Schema.{Severity, Review, ReviewComment}
use pr_sentinel_backend.Database.{Db, review_of_user}
use pr_sentinel_backend.Webhook.Handler.{World}
use pr_sentinel_backend.Reviews.Retry.{
  find_review_for_user, find_all_reviews_for_user, retry_review,
}
use pr_sentinel_backend.Routes.PullRequests.{
  CommentView, comment_view, ReviewView, review_view, comments_of, first,
}

-- A comment of the list: its id and severity.
pub record ListedComment : Type 0 where
  pub id : ℕ
  pub severity : Option Severity

abbrev pub listed_comment : ReviewComment → ListedComment
listed_comment c = record { id = c.id; severity = c.severity }

-- A comment of one review, whose suggestion is null.
pub record DetailedComment : Type 0 where
  pub comment : CommentView
  pub suggestion : Option String

unfoldable pub detailed_comment : ReviewComment → DetailedComment
unfolding comment_view
detailed_comment c = record { comment = comment_view c; suggestion = none }

module _ ⦃p : Prisma⦄ ⦃o : Orders⦄ where
  -- `findByPullRequestForUser`
  unfoldable pub find_by_pull_request_for_user : (pull_request_id user_id : ℕ) → Db → Option Review
  find_by_pull_request_for_user pull_request_id user_id db = first (
      newest_first (λ r. r.created_at)
        (find_many (λ r. r.pull_request_id == pull_request_id && review_of_user db user_id r)
          db.reviews))

  -- `list`
  unfoldable pub list_reviews : (user_id : ℕ) → Db → List (ReviewView ListedComment)
  unfolding review_view
  list_reviews user_id db =
      map
        (λ r.
          review_view (map listed_comment (find_many (λ c. c.review_id == r.id) db.review_comments))
            r)
        (newest_first (λ r. r.created_at) (find_all_reviews_for_user user_id db))

  -- A review as both reads of one show it.
  unfoldable pub detailed_review : Review → Db → ReviewView DetailedComment
  unfolding review_view detailed_comment
  detailed_review review db = review_view (map detailed_comment (comments_of review db)) review

  -- `getByPullRequest`
  unfoldable pub get_by_pull_request :
      (pull_request_id user_id : ℕ) → Db → Option (ReviewView DetailedComment)
  unfolding find_by_pull_request_for_user detailed_review
  get_by_pull_request pull_request_id user_id db =
      elim (find_by_pull_request_for_user pull_request_id user_id db) [
        | none ↦ none
        | some review ↦ some (detailed_review review db)
      ]

  -- `get`
  unfoldable pub get_review : (id user_id : ℕ) → Db → Result (ReviewView DetailedComment)
  unfolding detailed_review
  get_review id user_id db = elim (find_review_for_user id user_id db) [
    | none ↦ err (not_found "Review not found")
    | some review ↦ ok (detailed_review review db)
  ]

-- `retry`: the answer has no comments.
unfoldable pub retry :
    ⦃p : Prisma⦄
    → (now : ℕ) → (id user_id : ℕ) → World
    → Result (ReviewView DetailedComment) × World
unfolding review_view
retry now id user_id w =
    let (answer, w') = retry_review now id user_id w in
    (answer >>= λ review. ok (review_view [] review), w')
