-- ===== src/History.antt =====
-- Any history of the service: webhooks, the routes that link and synchronise installations, retries
-- of reviews, and jobs of the worker, one after the other.
use pr_sentinel_backend.Base.{ℕ, String, List, [], ◌∷◌, Option}
use pr_sentinel_backend.Prisma.{Prisma}
use pr_sentinel_backend.Prisma.Orders.{Orders}
use pr_sentinel_backend.Database.Links.Tables.{IsLinked}
use pr_sentinel_backend.Payloads.{RawWebhookHeaders}
use pr_sentinel_backend.Repository.Installations.{upsert_installation_with_user}
use pr_sentinel_backend.Repository.Links.{upsert_installation_with_user-IsLinked}
use pr_sentinel_backend.Redis.{RedisClient, Json}
use pr_sentinel_backend.Redis.States.{InstallStatePayload}
use pr_sentinel_backend.Github.Service.{GithubApi}
use pr_sentinel_backend.Github.Install.{claim_install, complete_install}
use pr_sentinel_backend.Github.Install.Links.{
  db_after, claim_install-IsLinked, complete_install-IsLinked, sync_installation-IsLinked,
}
use pr_sentinel_backend.Routes.Installations.{sync_installation}
use pr_sentinel_backend.Webhook.Handler.{World, Body, handle_github_webhook}
use pr_sentinel_backend.Webhook.Handler.Links.{handle_github_webhook-IsLinked}
use pr_sentinel_backend.Reviews.Answer.{Value}
use pr_sentinel_backend.Reviews.Generation.{LlmService}
use pr_sentinel_backend.Reviews.Publication.{process_job}
use pr_sentinel_backend.Reviews.Retry.{retry_review}
use pr_sentinel_backend.Reviews.Links.{retry_review-IsLinked, process_job-IsLinked}

module _ ⦃p : Prisma⦄ ⦃o : Orders⦄ ⦃r : RedisClient⦄ (json : Json InstallStatePayload)
    (api : GithubApi) (fuel : ℕ) (parse_id : String → Option ℕ) (llm : LlmService)
    (json_parse : String → Option Value) where
  -- A piece of work at a time, with what the Redis store and the language models hold at it.
  pub data Work : Type 0 where
    webhook : Body → RawWebhookHeaders → Work
    completes : (user_id : ℕ) → (raw_installation_id state : Option String) → r.Store → Work
    claims : (user_id : ℕ) → Option String → Work
    -- What a completion or a claim has written when its pagination never ends.
    links : (github_id user_id : ℕ) → (login avatar : String) → Work
    syncs : (user_id : ℕ) → Work
    retries : (review_id user_id : ℕ) → Work
    reviews : (pull_request_id user_id : ℕ) → llm.State → Work

  pub apply : (now : ℕ) → Work → World → World
  apply now (webhook body headers) w = (handle_github_webhook api now body headers w).1
  apply now (completes user_id raw state store) w = record w {
    db = db_after (complete_install api fuel now parse_id json user_id raw state w.db store).0 w.db;
  }
  apply now (claims user_id raw) w = record w {
    db = db_after (claim_install api fuel now parse_id user_id raw w.db) w.db;
  }
  apply now (links github_id user_id login avatar) w = record w {
    db = (upsert_installation_with_user now github_id user_id login avatar w.db).1;
  }
  apply now (syncs user_id) w = record w {
    db = db_after (sync_installation api fuel now user_id w.db) w.db;
  }
  apply now (retries review_id user_id) w = (retry_review now review_id user_id w).1
  apply now (reviews pull_request_id user_id s) w = record w {
    db = (process_job api llm json_parse now pull_request_id user_id w.db s).0.1;
  }

  pub run : List (ℕ × Work) → World → World
  run [] w = w
  run ((now, work) ∷ rest) w = run rest (apply now work w)

  apply-IsLinked :
      (now : ℕ) (work : Work) (w : World) → IsLinked w.db → IsLinked (apply now work w).db
  unfolding apply
  apply-IsLinked now (webhook body headers) w =
      handle_github_webhook-IsLinked api now body headers w
  apply-IsLinked now (completes user_id raw state store) w =
      complete_install-IsLinked api fuel now parse_id json user_id raw state w.db store
  apply-IsLinked now (claims user_id raw) w =
      claim_install-IsLinked api fuel now parse_id user_id raw w.db
  apply-IsLinked now (links github_id user_id login avatar) w = λ linked.
      (upsert_installation_with_user-IsLinked now github_id user_id login avatar w.db linked).0
  apply-IsLinked now (syncs user_id) w = sync_installation-IsLinked api fuel now user_id w.db
  apply-IsLinked now (retries review_id user_id) w = retry_review-IsLinked now review_id user_id w
  apply-IsLinked now (reviews pull_request_id user_id s) w =
      process_job-IsLinked api llm json_parse now pull_request_id user_id w.db s

  -- In any history no foreign key comes to lead nowhere: every repository has its installation,
  -- every pull request its repository, every file and every review its pull request, and every
  -- comment its review, whatever was delivered, linked, synchronised, deleted, reviewed and retried
  -- in whatever order.
  pub run-IsLinked :
      (works : List (ℕ × Work)) (w : World) → IsLinked w.db → IsLinked (run works w).db
  unfolding run
  run-IsLinked [] w linked = linked
  run-IsLinked ((now, work) ∷ rest) w linked =
      run-IsLinked rest (apply now work w) (apply-IsLinked now work w linked)
