-- ===== src/Tests/History.antt =====
-- The theorem on histories at a stored pull request: webhooks, a synchronisation, a job, a retry and
-- an uninstall.
use pr_sentinel_backend.Base.{ℕ, String, refl, List, [], ◌∷◌, Option, none, some}
use pr_sentinel_backend.Prisma.InMemory.{in_memory}
use pr_sentinel_backend.Prisma.Insertion.{by_insertion}
use pr_sentinel_backend.Redis.InMemory.{in_memory as redis}
use pr_sentinel_backend.Payloads.{InstallationAction, RawWebhookHeaders}
use pr_sentinel_backend.Webhook.Handler.{Body}
use pr_sentinel_backend.Database.Links.Tables.{IsLinked}
use pr_sentinel_backend.History.{
  Work, webhook, completes, claims, syncs, retries, reviews, run, run-IsLinked,
}
use pr_sentinel_backend.Tests.Data.{pull_opened, installed, repositories_changed, world, api}
use pr_sentinel_backend.Tests.States.{install_json}
use pr_sentinel_backend.Tests.Reviews.{review_db, model, reads_review}

abbrev body : InstallationAction → Body
body action = record {
  as_pull_request = pull_opened;
  as_installation = installed action;
  as_installation_repositories = repositories_changed;
}

abbrev headers : String → RawWebhookHeaders
headers event = record { github_event = event; github_delivery = "d2"; hub_signature_256 = none }

abbrev number : String → Option ℕ
number s = some 3

abbrev works : List (ℕ × Work install_json api 5 number model reads_review)
works =
    (5, webhook (body InstallationAction.created) (headers "pull_request"))
    ∷ (6, syncs 2)
    ∷ (7, reviews 1 2 0)
    ∷ (8, retries 1 2)
    ∷ (9, claims 2 (some "3"))
    ∷ (10, completes 2 (some "3") none [])
    ∷ (11, webhook (body InstallationAction.deleted) (headers "installation"))
    ∷ []

run-IsLinked_example :
    IsLinked (run install_json api 5 number model reads_review works (world review_db)).db
run-IsLinked_example =
    run-IsLinked install_json api 5 number model reads_review works (world review_db)
      ((refl, tt), (refl, tt), tt, (refl, tt), (refl, tt))
