-- ===== src/Webhook/Handler.antt =====
-- src/webhook/webhook.service.ts: the dispatch of an event and its handlers, as functions on the
-- database and the jobs that were added to the review queue (`reviewQueue.add`), in their order.
-- A request runs alone; `now` is the time that it reads. Log lines are left out.
pub mod Links
pub mod Steps
pub mod PullRequests
pub mod Jobs
pub mod Suspension
use pr_sentinel_backend.Base.{
  ℕ, String, Bool, true, false, List, [], ◌∷◌, ◌++◌, map, Option, none, some, length, if◌then◌else◌,
  ◌==◌,
}
use pr_sentinel_backend.Errors.{Result, ok, err, ◌>>=◌, message_of}
use pr_sentinel_backend.Prisma.{Prisma}
use pr_sentinel_backend.Schema.{PullRequestStatus, Installation, Repository, PullRequest}
use pr_sentinel_backend.Database.{Db}
use pr_sentinel_backend.Payloads.{
  GithubRepo, GithubPullRequest, GithubPrFile, PullRequestTriggerAction, PullRequestWebhookPayload,
  InstallationAction, InstallationWebhookPayload, RepositoriesAction,
  InstallationRepositoriesWebhookPayload, trigger_action, RawWebhookHeaders, pull_request,
  installation, installation_repositories, ping, unhandled, event_of,
}
use pr_sentinel_backend.Repository.Installations.{find_installation_by_github_id}
use pr_sentinel_backend.Repository.Repositories.{
  RepoInfo, find_by_github_repo_id, upsert_repository,
}
use pr_sentinel_backend.Repository.Events.{
  handle_installation_event, handle_installation_repositories_event,
}
use pr_sentinel_backend.PullRequest.{upsert_pull_request, replace_pr_files, mark_failed}
use pr_sentinel_backend.Github.Service.{GithubApi, get_installation_token, get_pull_request_files}
use Prim.Native.String.{◌++◌ as append}

pub record JobOptions : Type 0 where
  pub attempts : ℕ
  pub backoff_type : String
  pub backoff_delay : ℕ
  pub remove_on_complete : ℕ
  pub remove_on_fail : ℕ

-- A job of the queue `review`, with its data (`GenerateReviewJobData`).
pub record ReviewJob : Type 0 where
  pub name : String
  pub pull_request_id : ℕ
  pub user_id : ℕ
  pub options : JobOptions

abbrev pub generate_review : ℕ → ℕ → ReviewJob
generate_review pull_request_id user_id = record {
  name = "generate-review";
  pull_request_id = pull_request_id;
  user_id = user_id;
  options = record {
    attempts = 3;
    backoff_type = "exponential";
    backoff_delay = 5000;
    remove_on_complete = 100;
    remove_on_fail = 200;
  };
}

-- The answer for a processed pull request.
pub record PullRequestSummary : Type 0 where
  pub action : String
  pub repository : String
  pub id : ℕ
  pub number : ℕ
  pub title : String
  pub author : String
  pub head : String
  pub base : String
  pub status : PullRequestStatus
  pub files_count : ℕ

pub data Response : Type 0 where
  ping_received : Response
  not_processed : (event : String) → Response
  action_not_processed : (action : String) → Response
  failure : (error : String) → Response
  duplicate_delivery : (action : String) → Response
  processed : PullRequestSummary → Response
  installation_handled : InstallationAction → (installation_id : ℕ) → Response
  repositories_handled : RepositoriesAction → (added removed : List String) → Response

-- `(installationRecord as any)?.suspended ?? false`
abbrev pub is_suspended : Option Installation → Bool
is_suspended none = false
is_suspended (some i) = i.suspended

-- The installation of a payload, if its id is there and not zero.
abbrev pub installation_id_of : PullRequestWebhookPayload → Option ℕ
installation_id_of payload = elim payload.installation [
  | none ↦ none
  | some i ↦ if i.id == 0 then none else some i.id
]

-- `installationRecord?.userId ?? null`
abbrev pub linked_user : Option Installation → Option ℕ
linked_user none = none
linked_user (some i) = i.user_id

abbrev pub no_repository : String
no_repository =
    "Repository not found and could not be created — installation not linked to a user yet"

abbrev pub repo_info : GithubRepo → RepoInfo
repo_info r = record {
  id = r.id;
  name = r.name;
  full_name = r.full_name;
  is_private = r.is_private;
  html_url = none;
}

module _ ⦃p : Prisma⦄ where
  pub record World : Type 0 where
    pub db : Db
    pub jobs : List ReviewJob

module _ ⦃p : Prisma⦄ (api : GithubApi) (now : ℕ) where
  -- `findOrUpsertRepository`
  unfoldable pub find_or_upsert_repository : ℕ → GithubRepo → Db → Option Repository × Db
  find_or_upsert_repository github_installation_id repository db =
      elim (find_by_github_repo_id repository.id db) [
        | some existing ↦ (some existing, db)
        | none ↦ elim (find_installation_by_github_id github_installation_id db) [
          | none ↦ (none, db)
          | some i ↦
              let (row, db') = upsert_repository now i.id (repo_info repository) db in
              (some row, db')
        ]
      ]

  -- The body of the `try` up to the files: the token, then the request.
  unfoldable pub fetch_files : ℕ → PullRequestWebhookPayload → Result (List GithubPrFile)
  fetch_files installation_id payload = do
    token ← get_installation_token api installation_id
    get_pull_request_files api payload.repository.owner.login payload.repository.name
        payload.pull_request.number token

  -- Enqueues the review job when the installation has a linked user.
  unfoldable pub enqueue_review : ℕ → ℕ → World → World
  enqueue_review installation_id pull_request_id w =
      elim (linked_user (find_installation_by_github_id installation_id w.db)) [
        | none ↦ w
        | some user_id ↦ record w { jobs = w.jobs ++ generate_review pull_request_id user_id ∷ [] }
      ]

  -- What follows the upsert of the pull request: the number of files, and the world.
  unfoldable pub save_files : ℕ → ℕ → Result (List GithubPrFile) → World → ℕ × World
  unfolding enqueue_review
  save_files installation_id pull_request_id (ok files) w = (
    length files,
    enqueue_review installation_id pull_request_id
        (record w { db = replace_pr_files now pull_request_id files w.db }),
  )
  save_files installation_id pull_request_id (err e) w = (
    0,
    record w {
      db = mark_failed now pull_request_id (append "File fetch failed: " (message_of e)) w.db;
    },
  )

  unfoldable pub summary : PullRequestWebhookPayload → PullRequest → ℕ → PullRequestSummary
  summary payload row files_count = record {
    action = payload.action;
    repository = payload.repository.full_name;
    id = row.id;
    number = payload.pull_request.number;
    title = payload.pull_request.title;
    author = payload.pull_request.user.login;
    head = payload.pull_request.head.ref;
    base = payload.pull_request.base.ref;
    status = row.status;
    files_count = files_count;
  }

  -- The handler from the upsert of the pull request on.
  unfoldable pub deliver :
      PullRequestWebhookPayload
      → String
      → PullRequestTriggerAction
      → ℕ
      → Repository
      → World
      → Response × World
  unfolding fetch_files save_files summary
  deliver payload delivery action installation_id repo w =
      let (row, db) = upsert_pull_request now repo.id payload.pull_request action delivery w.db in
      elim row [
        | none ↦ (duplicate_delivery payload.action, record w { db = db })
        | some pr ↦
            let (count, w') =
              save_files installation_id pr.id (fetch_files installation_id payload)
                (record w { db = db }) in
            (processed (summary payload pr count), w')
      ]

  -- The handler once the installation is known and not suspended.
  unfoldable pub process_pull_request :
      PullRequestWebhookPayload → String → PullRequestTriggerAction → ℕ → World → Response × World
  unfolding find_or_upsert_repository deliver
  process_pull_request payload delivery action installation_id w =
      let (found, db) = find_or_upsert_repository installation_id payload.repository w.db in
      elim found [
        | none ↦ (failure no_repository, record w { db = db })
        | some repo ↦ deliver payload delivery action installation_id repo (record w { db = db })
      ]

  -- `handlePullRequestEvent`
  unfoldable pub handle_pull_request_event :
      PullRequestWebhookPayload → String → World → Response × World
  unfolding process_pull_request
  handle_pull_request_event payload delivery w = elim (trigger_action payload.action) [
    | none ↦ (action_not_processed payload.action, w)
    | some action ↦ elim (installation_id_of payload) [
      | none ↦ (failure "Missing installation context", w)
      | some installation_id ↦
          if is_suspended (find_installation_by_github_id installation_id w.db)
          then (failure "Installation is suspended", w)
          else process_pull_request payload delivery action installation_id w
    ]
  ]

  -- `handleInstallationEvent`
  unfoldable pub handle_installation : InstallationWebhookPayload → World → Response × World
  handle_installation payload w = (
    installation_handled payload.action payload.installation.id,
    record w { db = handle_installation_event now payload none w.db },
  )

  -- `handleInstallationRepositoriesEvent`
  unfoldable pub handle_installation_repositories :
      InstallationRepositoriesWebhookPayload → World → Response × World
  handle_installation_repositories payload w = (
    repositories_handled payload.action (map (λ r. r.full_name) payload.repositories_added)
        (map (λ r. r.full_name) payload.repositories_removed),
    record w { db = handle_installation_repositories_event now payload w.db },
  )

-- The parsed body of a webhook, by the casts that the service applies to it.
pub record Body : Type 0 where
  pub as_pull_request : PullRequestWebhookPayload
  pub as_installation : InstallationWebhookPayload
  pub as_installation_repositories : InstallationRepositoriesWebhookPayload

module _ ⦃p : Prisma⦄ (api : GithubApi) (now : ℕ) where
  -- `handleGithubWebhook`
  unfoldable pub handle_github_webhook : Body → RawWebhookHeaders → World → Response × World
  unfolding handle_pull_request_event handle_installation handle_installation_repositories
  handle_github_webhook body headers w = elim (event_of headers.github_event) [
    | pull_request ↦
        handle_pull_request_event api now body.as_pull_request headers.github_delivery w
    | installation ↦ handle_installation api now body.as_installation w
    | installation_repositories ↦
        handle_installation_repositories api now body.as_installation_repositories w
    | ping ↦ (ping_received, w)
    | unhandled ↦ (not_processed headers.github_event, w)
  ]
