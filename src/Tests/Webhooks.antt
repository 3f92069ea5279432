-- ===== src/Tests/Webhooks.antt =====
-- The theorems on webhooks, repositories and pull requests at concrete payloads.
use pr_sentinel_backend.Base.{
  ℕ, zero, suc, ◌+◌, String, ◌≡◌, ◌↔◌, refl, arith, List, [], ◌∷◌, Option, none, some, length,
  if◌then◌else◌, ◌==◌,
}
use pr_sentinel_backend.Errors.{Exception, ok, err}
use pr_sentinel_backend.Prisma.InMemory.{in_memory}
use pr_sentinel_backend.Payloads
use pr_sentinel_backend.Payloads.{
  InstallationAction, PullRequestTriggerAction, RawWebhookHeaders, event_of, trigger_action,
}
use pr_sentinel_backend.Repository.Repositories.{
  is_returned, fetched, sync_installation_repositories,
}
use pr_sentinel_backend.Repository.Events.{
  handle_installation_event, handle_installation_repositories_event,
}
use pr_sentinel_backend.Repository.Status.{
  status, next, noticed, status-handle_installation_event,
  status-handle_installation_repositories_event,
}
use pr_sentinel_backend.Repository.Ownership.{
  owner, Change, event, repositories_event, link, sync, run, owner-run,
}
use pr_sentinel_backend.Repository.Sync.{active_in, active_in-sync_installation_repositories}
use pr_sentinel_backend.PullRequest.{
  pr_file_data, was_delivered, find_by_github_pr_id, upsert_pull_request, replace_pr_files,
}
use pr_sentinel_backend.PullRequest.Delivery.{delivered_row, find-upsert_pull_request}
use pr_sentinel_backend.PullRequest.Files.{files_of, files_of-replace_pr_files}
use pr_sentinel_backend.Github.Service.{
  get_installation_token, list_installation_repositories, list_pages,
}
use pr_sentinel_backend.Github.Service.Pages.{
  Paginates, list_installation_repositories_complete, list_pages-diverges, collected,
}
use pr_sentinel_backend.Webhook.Handler.{
  failure, handle_installation, handle_pull_request_event, Body,
}
use pr_sentinel_backend.Webhook.Handler.PullRequests.{handle_pull_request_event-again}
use pr_sentinel_backend.Webhook.Handler.Suspension.{
  Arrival, handle_all, handle_pull_request_event-after_suspend,
}
use pr_sentinel_backend.Webhook.Handler.Jobs.{AddsJob, handle_pull_request_event-AddsJob}
use pr_sentinel_backend.Webhook.Signature.{IsGenuine, verify_signature, verify_signature_iff}
use pr_sentinel_backend.Webhook.Controller.{github_webhook, github_webhook-forged}
use pr_sentinel_backend.Tests.Data.{
  pull, pull_opened, changed_file, installed, repositories_changed, empty_db, owned_db, world,
  three_repos, api, overcounting, text_crypto,
}

-- The change of a repository of the suspended installation, and the opened pull request.
abbrev arrival : String → Arrival
arrival name = record {
  api = api;
  now = 6;
  body = record {
    as_pull_request = pull_opened;
    as_installation = installed Payloads.InstallationAction.deleted;
    as_installation_repositories = repositories_changed;
  };
  headers = record { github_event = name; github_delivery = "d0"; hub_signature_256 = none };
}

abbrev meanwhile : List Arrival
meanwhile = arrival "installation_repositories" ∷ arrival "pull_request" ∷ []

handle_pull_request_event-after_suspend_example :
    handle_pull_request_event api 9 pull_opened "d1" (
      handle_all meanwhile
        (handle_installation api 5
          (installed Payloads.InstallationAction.suspend)
          (world owned_db)).1)
    ≡ (
      failure "Installation is suspended",
      handle_all meanwhile
          (handle_installation api 5
            (installed Payloads.InstallationAction.suspend)
            (world owned_db)).1,
    )
unfolding event_of trigger_action
handle_pull_request_event-after_suspend_example =
    handle_pull_request_event-after_suspend api 5 9 (installed Payloads.InstallationAction.suspend)
      meanwhile pull_opened "d1" (world owned_db) refl (tt, (tt, tt)) refl

handle_pull_request_event-again_example :
    (handle_pull_request_event overcounting 9 pull_opened "d1"
      (handle_pull_request_event api 5 pull_opened "d1" (world owned_db)).1).1
    ≡ (handle_pull_request_event api 5 pull_opened "d1" (world owned_db)).1
handle_pull_request_event-again_example =
    handle_pull_request_event-again api overcounting 5 9 pull_opened "d1" (world owned_db)

handle_pull_request_event-AddsJob_example :
    AddsJob 3 [] (handle_pull_request_event api 5 pull_opened "d1" (world owned_db)).1
handle_pull_request_event-AddsJob_example =
    handle_pull_request_event-AddsJob api 5 pull_opened "d1" 3 (world owned_db) refl

abbrev signed : Option String → RawWebhookHeaders
signed signature = record {
  github_event = "pull_request";
  github_delivery = "d1";
  hub_signature_256 = signature;
}

abbrev body : Body
body = record {
  as_pull_request = pull_opened;
  as_installation = installed Payloads.created;
  as_installation_repositories = repositories_changed;
}

unsigned-IsGenuine : ¬ IsGenuine text_crypto none (some "key") "{}"
unsigned-IsGenuine (given, key, e, e', same) = cc

github_webhook-forged_example :
    (e : Exception) × (github_webhook text_crypto api
        (some "key")
        5
        "{}"
        body
        (signed none)
        (world owned_db)
      ≡ (err e, world owned_db))
github_webhook-forged_example =
    github_webhook-forged text_crypto api (some "key") 5 "{}" body (signed none) (world owned_db)
      unsigned-IsGenuine

verify_signature_iff_example :
    (verify_signature text_crypto (some "sha256={}") (some "key") "{}" ≡ ok tt)
    ↔ IsGenuine text_crypto (some "sha256={}") (some "key") "{}"
verify_signature_iff_example = verify_signature_iff text_crypto (some "sha256={}") (some "key") "{}"

-- An uninstall of another installation, an install by the user 5 and a synchronisation.
abbrev history : List Change
history =
    event (installed Payloads.suspend)
    ∷ repositories_event repositories_changed
    ∷ link 3 5 "mallory" "a"
    ∷ sync 1 (some three_repos)
    ∷ []

owner-run_example : owner (status 3 (run 5 history owned_db)) ≡ some 2
owner-run_example = owner-run 5 3 2 history owned_db (refl, (refl, (refl, (refl, tt)))) refl

status-handle_installation_event_example :
    status 3 (handle_installation_event 5 (installed Payloads.suspend) none owned_db)
    ≡ (if 3 == 3 then next none Payloads.suspend (status 3 owned_db) else status 3 owned_db)
status-handle_installation_event_example =
    status-handle_installation_event 5 3 (installed Payloads.suspend) none owned_db

status-handle_installation_repositories_event_example :
    status 3 (handle_installation_repositories_event 5 repositories_changed empty_db)
    ≡ (if 3 == 3 then noticed (status 3 empty_db) else status 3 empty_db)
status-handle_installation_repositories_event_example =
    status-handle_installation_repositories_event 5 3 repositories_changed empty_db

active_in-sync_installation_repositories_example :
    active_in 1 71 (sync_installation_repositories 5 1 (some three_repos) owned_db).1
    ≡ is_returned (fetched (some three_repos)) 71
active_in-sync_installation_repositories_example =
    active_in-sync_installation_repositories 5 1 71 (some three_repos) owned_db

find-upsert_pull_request_example :
    find_by_github_pr_id 500
      (upsert_pull_request 5 8 pull PullRequestTriggerAction.synchronize "d1" owned_db).1
    ≡ (if was_delivered "d1" (find_by_github_pr_id 500 owned_db)
        then find_by_github_pr_id 500 owned_db
        else if 500 == 500
        then some (delivered_row 5 8 pull PullRequestTriggerAction.synchronize "d1" owned_db)
        else find_by_github_pr_id 500 owned_db)
find-upsert_pull_request_example =
    find-upsert_pull_request 5 8 pull PullRequestTriggerAction.synchronize "d1" owned_db 500

files_of-replace_pr_files_example :
    files_of 8 (replace_pr_files 5 8 (changed_file ∷ []) owned_db) ≡ pr_file_data changed_file ∷ []
files_of-replace_pr_files_example = files_of-replace_pr_files 5 8 8 (changed_file ∷ []) owned_db

api-Paginates : Paginates api "token" 2 three_repos
api-Paginates = record { some_per_page = omega arith; page_holds = λ k. rw (the_next k) refl }
  where
    the_next : (k : ℕ) → k + 1 ≡ suc k
    the_next k = omega arith

token_of_api : get_installation_token api 3 ≡ ok "token"
unfolding get_installation_token
token_of_api = refl

list_installation_repositories_complete_example :
    list_installation_repositories api (length three_repos + 1) 3 ≡ some (ok three_repos)
list_installation_repositories_complete_example =
    list_installation_repositories_complete api "token" 2 three_repos api-Paginates 3 token_of_api

collected_none : (page n : ℕ) → collected (λ k. []) page n ≡ 0
collected_none page zero = refl
collected_none page (suc n) = rw (collected_none (page + 1) n)

list_pages-diverges_example : list_pages overcounting 100 "token" 1 [] ≡ none
list_pages-diverges_example =
    list_pages-diverges overcounting "token" 5 (λ page. []) (λ page. refl) 100 1 []
      (λ n. omega (arith, collected_none 1 n))
