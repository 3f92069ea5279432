-- ===== src/Reviews/Publication/Posting.antt =====
-- What is posted of a review, and what the publication leaves in the database.
use pr_sentinel_backend.Base.{
  ℕ, String, ◌≡◌, refl, inl, inr, Bool, true, false, List, [], ◌∷◌, map, none, some, arith, or_else,
  keep, map_where, Bool-cases, Option-cases,
}
use pr_sentinel_backend.Errors.{Exception, js_error, not_found, ok, err, Result-cases}
use pr_sentinel_backend.Prisma.{Prisma}
use pr_sentinel_backend.Schema.{Review, ReviewComment}
use pr_sentinel_backend.Database.{Db}
use pr_sentinel_backend.Github.Service.{
  GithubApi, AxiosError, Fetched, data_of, failed, PostedComment, posted_comment,
  get_installation_token, create_pull_request_review, or_throw,
}
use pr_sentinel_backend.Reviews.Generation.{IncludedPullRequest}
use pr_sentinel_backend.Reviews.Publication.{
  format_comment_body, line_comments, to_post, posted, review_request, unposted,
  find_review_included, publish,
}

-- A finding that is about a line of a file.
abbrev pub is_placed : ReviewComment → Bool
is_placed c = elim c.line_number [ none ↦ false | some line ↦ true ]

-- Such a finding as a comment on GitHub.
abbrev pub as_posted : ReviewComment → PostedComment
as_posted c = record {
  path = c.file_path;
  line = or_else c.line_number 0;
  body = format_comment_body c.severity c.category c.message;
  side = "RIGHT";
}

-- The answer of GitHub to the review, with the comments to post among the stored ones.
abbrev pub answer_of :
    GithubApi
    → (token : String) → (review_id : ℕ) → Review
    → IncludedPullRequest
    → List ReviewComment
    → Fetched ℕ
answer_of api token review_id review i stored =
    api.post_review token i.repository.owner i.repository.name i.pull_request.github_pr_number
      (record {
        body = or_else review.summary "PR Sentinel review";
        event = "COMMENT";
        comments = map as_posted (keep is_placed (keep (to_post review_id) stored));
      })

comments_lem :
    (api : GithubApi) (cs : List ReviewComment)
    → map (posted_comment api) (line_comments cs) ≡ map as_posted (keep is_placed cs)
unfolding line_comments posted_comment
comments_lem api [] = refl
comments_lem api (c ∷ cs) = elim (Option-cases c.line_number) [
  | inl e ↦ rw (e, line_comments) (comments_lem api cs)
  | inr (line, e) ↦ rw (e, line_comments) (ground (arith, e, comments_lem api cs))
]

keep-posted :
    (review_id github_id : ℕ) (cs : List ReviewComment)
    → keep (to_post review_id) (map_where (to_post review_id) (posted github_id) cs) ≡ []
keep-posted review_id github_id [] = refl
keep-posted review_id github_id (c ∷ cs) = elim (Bool-cases (to_post review_id c)) [
  | inl waits ↦ ground (arith, waits, keep-posted review_id github_id cs)
  | inr done ↦ ground (arith, done, keep-posted review_id github_id cs)
]

module _ ⦃p : Prisma⦄ where
  -- How a publication ends: the review is not there, there is no token, GitHub refuses the review,
  -- or it takes it under an id, and the comments that waited are marked with that id.
  pub data Outcome (api : GithubApi) (review_id : ℕ) (db : Db) : Type 0 where
    missing :
        find_review_included review_id db ≡ none
        → publish api review_id db ≡ (err (not_found "Review not found"), db)
        → Outcome api review_id db
    no_token :
        (review : Review) (i : IncludedPullRequest) (e : Exception)
        → find_review_included review_id db ≡ some (review, i)
        → get_installation_token api i.installation.github_installation_id ≡ err e
        → publish api review_id db ≡ (err e, db)
        → Outcome api review_id db
    refused :
        (review : Review) (i : IncludedPullRequest) (token : String) (e : AxiosError)
        → find_review_included review_id db ≡ some (review, i)
        → get_installation_token api i.installation.github_installation_id ≡ ok token
        → answer_of api token review_id review i (p.rows db.review_comments) ≡ failed e
        → publish api review_id db ≡ (err (js_error e.message), db)
        → Outcome api review_id db
    published :
        (review : Review) (i : IncludedPullRequest) (token : String) (github_id : ℕ)
        (after : p.Table ReviewComment)
        → find_review_included review_id db ≡ some (review, i)
        → get_installation_token api i.installation.github_installation_id ≡ ok token
        → answer_of api token review_id review i (p.rows db.review_comments) ≡ data_of github_id
        → publish api review_id db ≡ (ok tt, record db { review_comments = after })
        → p.rows after
          ≡ map_where (to_post review_id) (posted github_id) (p.rows db.review_comments)
        → keep (to_post review_id) (p.rows after) ≡ []
        → Outcome api review_id db

module _ ⦃p : Prisma⦄ (api : GithubApi) (review_id : ℕ) (db : Db) where
  -- What `create_pull_request_review` makes of the review, once there is a token.
  request_lem :
      (review : Review) (i : IncludedPullRequest) (token : String)
      → get_installation_token api i.installation.github_installation_id ≡ ok token
      → create_pull_request_review api (review_request i review (unposted review_id db))
        ≡ or_throw (answer_of api token review_id review i (p.rows db.review_comments))
  unfolding create_pull_request_review review_request
  request_lem review i token e =
      rw (e, create_pull_request_review)
        (rw (comments_lem api (keep (to_post review_id) (p.rows db.review_comments))) refl)

  request_lem_none :
      (review : Review) (i : IncludedPullRequest) (e : Exception)
      → get_installation_token api i.installation.github_installation_id ≡ err e
      → create_pull_request_review api (review_request i review (unposted review_id db)) ≡ err e
  unfolding create_pull_request_review review_request
  request_lem_none review i e none_given = rw (none_given, create_pull_request_review)

  publish-token :
      (review : Review) (i : IncludedPullRequest) (token : String)
      → find_review_included review_id db ≡ some (review, i)
      → get_installation_token api i.installation.github_installation_id ≡ ok token
      → Outcome api review_id db
  unfolding publish or_throw
  publish-token review i token found given =
      go (answer_of api token review_id review i (p.rows db.review_comments)) refl
    where
      go :
          (a : Fetched ℕ)
          → answer_of api token review_id review i (p.rows db.review_comments) ≡ a
          → Outcome api review_id db
      go (failed e) answer =
          refused review i token e found given answer
            (rw (found, publish) (rw (request_lem review i token given, answer) refl))
      go (data_of github_id) answer =
          let t = db.review_comments in
          let marked = p.rows-update_many (to_post review_id) (posted github_id) t in
          published review i token github_id
            (p.update_many (to_post review_id) (posted github_id) t) found given answer
            (rw (found, publish) (rw (request_lem review i token given, answer) refl)) marked
            (rw marked (keep-posted review_id github_id (p.rows t)))

  publish-found :
      (review : Review) (i : IncludedPullRequest)
      → find_review_included review_id db ≡ some (review, i)
      → Outcome api review_id db
  unfolding publish
  publish-found review i found =
      elim (Result-cases (get_installation_token api i.installation.github_installation_id)) [
        | inl (e, none_given) ↦
            no_token review i e found none_given
              (rw (found, publish) (rw (request_lem_none review i e none_given) refl))
        | inr (token, given) ↦ publish-token review i token found given
      ]

  -- A publication ends in one of four ways. Without the review, without a token of its
  -- installation, or when GitHub refuses the request, it throws and the database is as before.
  -- Otherwise GitHub has taken, for the pull request of the review, its summary with the waiting
  -- findings that have a line, in their order; then every waiting finding, with a line or without,
  -- is marked as posted under the id that GitHub gave, no other row is changed, and none is left.
  pub publish-Outcome : Outcome api review_id db
  unfolding publish
  publish-Outcome = elim (Option-cases (find_review_included review_id db)) [
    | inl none_there ↦ missing none_there (rw (none_there, publish))
    | inr ((review, i), found) ↦ publish-found review i found
  ]
