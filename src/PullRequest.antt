-- ===== src/PullRequest.antt =====
-- src/pull-request/pull-request.service.ts: pull requests and their changed files. `now` is the time
-- that `new Date()` and the defaults of the schema read. An update by id is used where the row
-- exists.
pub mod Links
pub mod Delivery
pub mod Files
use mathlib.Core.Option
use pr_sentinel_backend.Base.{
  ℕ, String, Bool, true, false, not, ◌&&◌, ◌||◌, List, map, Option, none, some, is_some,
  if◌then◌else◌, ◌==◌, str_eq, leb,
}
use pr_sentinel_backend.Base.Text.{truthy}
use pr_sentinel_backend.Prisma.{Prisma, find_first, find_many, new_id, create_many}
use pr_sentinel_backend.Prisma.Keyed.{find_unique, update, upsert}
use pr_sentinel_backend.Schema.{
  PullRequestStatus, received, processing, reviewed, failed, FileStatus, PullRequest, PrFile,
}
use pr_sentinel_backend.Schema
use pr_sentinel_backend.Database.{Db, pull_request_of_user, file_of_user}
use pr_sentinel_backend.Payloads.{GithubPullRequest, GithubPrFile, PullRequestTriggerAction}

-- `mapFileStatus`
unfoldable pub map_file_status : String → FileStatus
map_file_status status =
    if str_eq status "added"
    then FileStatus.added
    else if str_eq status "modified"
    then FileStatus.modified
    else if str_eq status "removed"
    then FileStatus.removed
    else if str_eq status "renamed"
    then FileStatus.renamed
    else FileStatus.modified

-- The columns that `replacePrFiles` writes for a file.
pub record PrFileData : Type 0 where
  pub filename : String
  pub status : FileStatus
  pub patch : Option String
  pub additions : ℕ
  pub deletions : ℕ
  pub changes : ℕ

unfoldable pub pr_file_data : GithubPrFile → PrFileData
unfolding map_file_status
pr_file_data f = record {
  filename = f.filename;
  status = map_file_status f.status;
  patch = f.patch;
  additions = f.additions;
  deletions = f.deletions;
  changes = f.changes;
}

-- `action === 'opened'`
abbrev pub is_opened : PullRequestTriggerAction → Bool
is_opened PullRequestTriggerAction.opened = true
is_opened _ = false

-- `existing?.lastDeliveryId === deliveryId`
abbrev pub was_delivered : String → Option PullRequest → Bool
was_delivered delivery_id none = false
was_delivered delivery_id (some pr) = elim pr.last_delivery_id [
  | none ↦ false
  | some last ↦ str_eq last delivery_id
]

-- The optional filters of `findAllForUser`; a missing or empty one is no filter.
pub record PullRequestFilters : Type 0 where
  pub repository_id : Option ℕ
  pub status : Option PullRequestStatus
  pub author : Option String
  pub since : Option ℕ

abbrev same_status : PullRequestStatus → PullRequestStatus → Bool
same_status received received = true
same_status processing processing = true
same_status reviewed reviewed = true
same_status failed failed = true
same_status _ _ = false

abbrev if_given : {A : Type 0} → Option A → (A → Bool) → Bool
if_given none test = true
if_given (some a) test = test a

unfoldable pub passes_filters : PullRequestFilters → PullRequest → Bool
passes_filters filters pr =
    if_given filters.repository_id (λ id. pr.repository_id == id)
    && if_given filters.status (λ s. same_status pr.status s)
    && if_given filters.author (λ a. if truthy a then str_eq pr.author a else true)
    && if_given filters.since (λ t. leb t pr.created_at)

module _ (now : ℕ) where
  -- The data of the upsert, written over an existing row.
  unfoldable pub refresh_pull_request : ℕ → GithubPullRequest → String → PullRequest → PullRequest
  refresh_pull_request repository_id pr delivery_id old = record old {
    github_pr_number = pr.number;
    title = pr.title;
    author = pr.user.login;
    base_branch = pr.base.ref;
    head_branch = pr.head.ref;
    status = received;
    last_delivery_id = some delivery_id;
    repository_id = repository_id;
    updated_at = now;
  }

  -- The data of the update for `synchronize` and `reopened`.
  unfoldable pub resynchronize : GithubPullRequest → String → PullRequest → PullRequest
  resynchronize pr delivery_id old = record old {
    title = pr.title;
    head_branch = pr.head.ref;
    base_branch = pr.base.ref;
    status = received;
    last_delivery_id = some delivery_id;
    updated_at = now;
  }

  unfoldable pub set_status : PullRequestStatus → PullRequest → PullRequest
  set_status status pr = record pr { status = status; updated_at = now }

  unfoldable pub set_failed : String → PullRequest → PullRequest
  set_failed message pr = record pr {
    status = failed;
    error_message = some message;
    updated_at = now;
  }

module _ ⦃p : Prisma⦄ where
  -- `findByGithubPrId`
  abbrev pub find_by_github_pr_id : ℕ → Db → Option PullRequest
  find_by_github_pr_id github_id db = find_unique (λ pr. pr.github_pr_id) github_id db.pull_requests

  -- `findByRepository`
  unfoldable pub find_by_repository : ℕ → Db → List PullRequest
  find_by_repository repository_id db =
      find_many (λ pr. pr.repository_id == repository_id) db.pull_requests

  -- `findAllForUser`; the order by update time is the database's.
  unfoldable pub find_all_for_user : ℕ → PullRequestFilters → Db → List PullRequest
  unfolding passes_filters
  find_all_for_user user_id filters db =
      find_many (λ pr. pull_request_of_user db user_id pr && passes_filters filters pr)
        db.pull_requests

  -- `findByIdForUser`
  unfoldable pub find_by_id_for_user : ℕ → ℕ → Db → Option PullRequest
  find_by_id_for_user id user_id db =
      find_first (λ pr. pr.id == id && pull_request_of_user db user_id pr) db.pull_requests

  -- `findFileForUser`
  unfoldable pub find_file_for_user : ℕ → ℕ → ℕ → Db → Option PrFile
  find_file_for_user pull_request_id file_id user_id db =
      find_first
        (λ f.
          f.id == file_id && (f.pull_request_id == pull_request_id && file_of_user db user_id f))
        db.pr_files

module _ ⦃p : Prisma⦄ (now : ℕ) where
  unfoldable pub new_pull_request : Db → ℕ → GithubPullRequest → String → PullRequest
  new_pull_request db repository_id pr delivery_id = record {
    id = new_id (λ r. r.id) db.pull_requests;
    github_pr_id = pr.id;
    github_pr_number = pr.number;
    title = pr.title;
    author = pr.user.login;
    base_branch = pr.base.ref;
    head_branch = pr.head.ref;
    status = received;
    error_message = none;
    last_delivery_id = some delivery_id;
    repository_id = repository_id;
    created_at = now;
    updated_at = now;
  }

  -- The branch for `opened` and for an unknown pull request.
  unfoldable pub create_or_update : ℕ → GithubPullRequest → String → Db → Option PullRequest × Db
  create_or_update repository_id pr delivery_id db =
      let (row, t) =
        upsert (λ r. r.github_pr_id) pr.id (new_pull_request db repository_id pr delivery_id)
          (refresh_pull_request now repository_id pr delivery_id) db.pull_requests in
      (some row, record db { pull_requests = t })

  -- The branch for `synchronize` and `reopened` of a known one.
  unfoldable pub update_existing :
      GithubPullRequest → String → Option PullRequest → Db → Option PullRequest × Db
  update_existing pr delivery_id existing db = (
    Option.map (resynchronize now pr delivery_id) existing,
    record db {
      pull_requests =
          update (λ r. r.github_pr_id) pr.id (resynchronize now pr delivery_id) db.pull_requests;
    },
  )

  -- `upsertPullRequest`; `none` is the null of a duplicate delivery.
  unfoldable pub upsert_pull_request :
      ℕ → GithubPullRequest → PullRequestTriggerAction → String → Db → Option PullRequest × Db
  unfolding create_or_update update_existing
  upsert_pull_request repository_id pr action delivery_id db =
      let existing = find_by_github_pr_id pr.id db in
      if was_delivered delivery_id existing
      then (none, db)
      else if is_opened action || not (is_some existing)
      then create_or_update repository_id pr delivery_id db
      else update_existing pr delivery_id existing db

  unfoldable pub new_pr_file : ℕ → ℕ → PrFileData → PrFile
  new_pr_file pull_request_id id f = record {
    id = id;
    filename = f.filename;
    status = f.status;
    patch = f.patch;
    additions = f.additions;
    deletions = f.deletions;
    changes = f.changes;
    pull_request_id = pull_request_id;
    created_at = now;
  }

  -- `replacePrFiles`
  unfoldable pub replace_pr_files : ℕ → List GithubPrFile → Db → Db
  unfolding new_pr_file
  replace_pr_files pull_request_id files db =
      let kept = p.delete_many (λ f. f.pull_request_id == pull_request_id) db.pr_files in
      record db {
        pr_files =
            create_many (λ f. f.id) (new_pr_file pull_request_id) (map pr_file_data files) kept;
      }

  -- `markProcessing`, `markReviewed` and `markFailed`
  unfoldable pub mark_processing : ℕ → Db → Db
  mark_processing id db = record db {
    pull_requests = update (λ r. r.id) id (set_status now processing) db.pull_requests;
  }

  unfoldable pub mark_reviewed : ℕ → Db → Db
  mark_reviewed id db = record db {
    pull_requests = update (λ r. r.id) id (set_status now reviewed) db.pull_requests;
  }

  unfoldable pub mark_failed : ℕ → String → Db → Db
  mark_failed id message db = record db {
    pull_requests = update (λ r. r.id) id (set_failed now message) db.pull_requests;
  }
