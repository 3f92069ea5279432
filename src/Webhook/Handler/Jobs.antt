-- ===== src/Webhook/Handler/Jobs.antt =====
-- Which review jobs a pull_request delivery adds to the queue.
use pr_sentinel_backend.Base.{
  ℕ, String, ◌≡◌, ◌⊎◌, refl, inl, inr, List, [], ◌∷◌, ◌++◌, Option, none, some, Bool-cases,
  Option-cases,
}
use pr_sentinel_backend.Errors.{Result, ok, err}
use pr_sentinel_backend.Prisma.{Prisma}
use pr_sentinel_backend.Schema.{Repository, PullRequest}
use pr_sentinel_backend.Database.{Db}
use pr_sentinel_backend.Payloads.{
  GithubPrFile, PullRequestTriggerAction, PullRequestWebhookPayload, trigger_action,
}
use pr_sentinel_backend.Repository.Installations.{find_installation_by_github_id}
use pr_sentinel_backend.PullRequest.{upsert_pull_request, replace_pr_files}
use pr_sentinel_backend.Github.Service.{GithubApi}
use pr_sentinel_backend.Webhook.Handler.{
  World, ReviewJob, generate_review, linked_user, is_suspended, installation_id_of, enqueue_review,
  save_files, fetch_files, deliver, process_pull_request, find_or_upsert_repository,
  handle_pull_request_event,
}
use pr_sentinel_backend.Webhook.Handler.Steps.{
  deliver-none, deliver-new, process_pull_request-found,
}

module _ ⦃p : Prisma⦄ where
  -- The queue is as before, or has one more job at its end: a review for the user to whom the
  -- installation is linked.
  abbrev pub AddsJob : ℕ → List ReviewJob → World → Type 0
  AddsJob k jobs after =
      (after.jobs ≡ jobs)
      ⊎ ((id user_id : ℕ) × (linked_user (find_installation_by_github_id k after.db) ≡ some user_id)
          × (after.jobs ≡ jobs ++ generate_review id user_id ∷ []))

module _ ⦃p : Prisma⦄ (api : GithubApi) (now k : ℕ) where
  enqueue_review-AddsJob : (id : ℕ) (w : World) → AddsJob k w.jobs (enqueue_review api now k id w)
  unfolding enqueue_review
  enqueue_review-AddsJob id w =
      elim (Option-cases (linked_user (find_installation_by_github_id k w.db))) [
        | inl e ↦ inl (rw (e, enqueue_review))
        | inr (u, e) ↦ inr (id, u, rw (e, enqueue_review) e, rw (e, enqueue_review))
      ]

  save_files-AddsJob :
      (id : ℕ) (files : Result (List GithubPrFile)) (w : World)
      → AddsJob k w.jobs (save_files api now k id files w).1
  unfolding save_files
  save_files-AddsJob id (ok files) w =
      enqueue_review-AddsJob id (record w { db = replace_pr_files now id files w.db })
  save_files-AddsJob id (err e) w = inl refl

  module _ (payload : PullRequestWebhookPayload) (delivery : String)
      (action : PullRequestTriggerAction) where
    deliver-AddsJob :
        (repo : Repository) (w : World)
        → AddsJob k w.jobs (deliver api now payload delivery action k repo w).1
    deliver-AddsJob repo w =
        go (upsert_pull_request now repo.id payload.pull_request action delivery w.db) refl
      where
        go :
            (r : Option PullRequest × Db)
            → upsert_pull_request now repo.id payload.pull_request action delivery w.db ≡ r
            → AddsJob k w.jobs (deliver api now payload delivery action k repo w).1
        go (none, after) e =
            rw (deliver-none api now payload delivery action k repo after w e) (inl refl)
        go (some pr, after) e =
            rw (deliver-new api now payload delivery action k repo pr after w e)
              (save_files-AddsJob pr.id (fetch_files api now k payload) (record w { db = after }))

    process_pull_request-AddsJob :
        (w : World) → AddsJob k w.jobs (process_pull_request api now payload delivery action k w).1
    unfolding process_pull_request
    process_pull_request-AddsJob w =
        go (find_or_upsert_repository api now k payload.repository w.db) refl
      where
        go :
            (r : Option Repository × Db)
            → find_or_upsert_repository api now k payload.repository w.db ≡ r
            → AddsJob k w.jobs (process_pull_request api now payload delivery action k w).1
        go (none, after) e = rw (e, process_pull_request) (rw e (inl refl))
        go (some repo, after) e =
            rw (process_pull_request-found api now payload delivery action k repo after w e)
              (deliver-AddsJob repo (record w { db = after }))

module _ ⦃p : Prisma⦄ (api : GithubApi) (now : ℕ) where
  -- A delivery adds at most one job to the queue, at its end, and only a review for the user to whom
  -- the installation of the payload is linked: without a linked user nothing is queued, whatever
  -- the payload and the answers of GitHub.
  pub handle_pull_request_event-AddsJob :
      (payload : PullRequestWebhookPayload) (delivery : String) (k : ℕ) (w : World)
      → installation_id_of payload ≡ some k
      → AddsJob k w.jobs (handle_pull_request_event api now payload delivery w).1
  unfolding handle_pull_request_event
  handle_pull_request_event-AddsJob payload delivery k w given =
      elim (Option-cases (trigger_action payload.action)) [
        | inl skipped ↦ rw (skipped, handle_pull_request_event) (inl refl)
        | inr (action, fires) ↦
            elim (Bool-cases (is_suspended (find_installation_by_github_id k w.db))) [
              | inl h ↦ rw (fires, given, h, handle_pull_request_event) (inl refl)
              | inr h ↦
                  rw (fires, given, h, handle_pull_request_event)
                    (process_pull_request-AddsJob api now k payload delivery action w)
            ]
      ]
