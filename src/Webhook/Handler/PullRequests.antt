-- ===== src/Webhook/Handler/PullRequests.antt =====
-- What a pull_request delivery does, over the whole handler.
use pr_sentinel_backend.Base.{
  ℕ, String, ◌≡◌, refl, ap, inl, inr, true, false, none, some, Bool-cases, Option-cases,
}
use pr_sentinel_backend.Prisma.{Prisma}
use pr_sentinel_backend.Payloads.{
  PullRequestTriggerAction, PullRequestWebhookPayload, trigger_action,
}
use pr_sentinel_backend.Repository.Installations.{find_installation_by_github_id}
use pr_sentinel_backend.Github.Service.{GithubApi}
use pr_sentinel_backend.Webhook.Handler.{
  World, is_suspended, installation_id_of, process_pull_request, handle_pull_request_event,
}
use pr_sentinel_backend.Webhook.Handler.Steps.{
  find_or_upsert_repository-known, process_pull_request-missing, process_pull_request-found,
  process_pull_request-settled, deliver-Settles,
}

module _ ⦃p : Prisma⦄ where
  -- The branches of the handler, each under the test that selects it.
  pub handle_pull_request_event-suspended :
      (api : GithubApi) (now : ℕ) (payload : PullRequestWebhookPayload) (delivery : String) (k : ℕ)
      (w : World)
      → installation_id_of payload ≡ some k
      → is_suspended (find_installation_by_github_id k w.db) ≡ true
      → (handle_pull_request_event api now payload delivery w).1 ≡ w
  unfolding handle_pull_request_event
  handle_pull_request_event-suspended api now payload delivery k w e h =
      elim (Option-cases (trigger_action payload.action)) [
        | inl skipped ↦ rw (skipped, handle_pull_request_event) refl
        | inr (a, fires) ↦ rw (fires, e, h, handle_pull_request_event) refl
      ]

  pub handle_pull_request_event-skipped :
      (api : GithubApi) (now : ℕ) (payload : PullRequestWebhookPayload) (delivery : String)
      (w : World)
      → trigger_action payload.action ≡ none
      → (handle_pull_request_event api now payload delivery w).1 ≡ w
  unfolding handle_pull_request_event
  handle_pull_request_event-skipped api now payload delivery w e =
      rw (e, handle_pull_request_event) refl

  pub handle_pull_request_event-missing :
      (api : GithubApi) (now : ℕ) (payload : PullRequestWebhookPayload) (delivery : String)
      (action : PullRequestTriggerAction) (w : World)
      → trigger_action payload.action ≡ some action
      → installation_id_of payload ≡ none
      → (handle_pull_request_event api now payload delivery w).1 ≡ w
  unfolding handle_pull_request_event
  handle_pull_request_event-missing api now payload delivery action w a e =
      rw (a, e, handle_pull_request_event) refl

  pub handle_pull_request_event-process :
      (api : GithubApi) (now : ℕ) (payload : PullRequestWebhookPayload) (delivery : String)
      (action : PullRequestTriggerAction) (k : ℕ) (w : World)
      → trigger_action payload.action ≡ some action
      → installation_id_of payload ≡ some k
      → is_suspended (find_installation_by_github_id k w.db) ≡ false
      → handle_pull_request_event api now payload delivery w
        ≡ process_pull_request api now payload delivery action k w
  unfolding handle_pull_request_event
  handle_pull_request_event-process api now payload delivery action k w a e h =
      rw (a, e, h, handle_pull_request_event) refl

  process_pull_request-again :
      (api later_api : GithubApi) (now later : ℕ) (payload : PullRequestWebhookPayload)
      (delivery : String) (action : PullRequestTriggerAction) (k : ℕ) (w : World)
      → is_suspended (find_installation_by_github_id k w.db) ≡ false
      → let after = (process_pull_request api now payload delivery action k w).1 in
        (is_suspended (find_installation_by_github_id k after.db) ≡ false)
        × ((process_pull_request later_api later payload delivery action k after).1 ≡ after)
  process_pull_request-again api later_api now later payload delivery action k w h =
      elim (find_or_upsert_repository-known api now k payload.repository w.db) [
        | inl (e, e') ↦ rw (process_pull_request-missing api now payload delivery action k w e e') (
          h,
          ap (λ r. r.1)
              (process_pull_request-missing later_api later payload delivery action k w e e'),
        )
        | inr (repo, found, db, e, known, same) ↦
            let (settled, kept) =
              deliver-Settles api now payload delivery action k repo found (record w { db = db })
                known in
            rw (process_pull_request-found api now payload delivery action k repo db w e) (
              rw (kept, same) h,
              ap (λ r. r.1)
                  (process_pull_request-settled later_api later payload delivery action k _
                    settled),
            )
      ]

  -- A delivery is processed once: after the handler has run, running it again on the same payload
  -- and delivery, at any later time and whatever GitHub then answers, changes neither the database
  -- nor the queue.
  pub handle_pull_request_event-again :
      (api later_api : GithubApi) (now later : ℕ) (payload : PullRequestWebhookPayload)
      (delivery : String) (w : World)
      → let after = (handle_pull_request_event api now payload delivery w).1 in
        (handle_pull_request_event later_api later payload delivery after).1 ≡ after
  handle_pull_request_event-again api later_api now later payload delivery w =
      elim (Option-cases (trigger_action payload.action)) [
        | inl skipped ↦
            rw (handle_pull_request_event-skipped api now payload delivery w skipped)
              (handle_pull_request_event-skipped later_api later payload delivery w skipped)
        | inr (action, a) ↦ elim (Option-cases (installation_id_of payload)) [
          | inl missing ↦
              rw (handle_pull_request_event-missing api now payload delivery action w a missing) (
                handle_pull_request_event-missing later_api later payload delivery action w a
                  missing)
          | inr (k, e) ↦ elim (Bool-cases (is_suspended (find_installation_by_github_id k w.db))) [
            | inl h ↦
                rw (handle_pull_request_event-suspended api now payload delivery k w e h)
                  (handle_pull_request_event-suspended later_api later payload delivery k w e h)
            | inr h ↦
                let (open_still, same) =
                  process_pull_request-again api later_api now later payload delivery action k w
                    h in
                rw (handle_pull_request_event-process api now payload delivery action k w a e h) (
                  rw
                    (handle_pull_request_event-process later_api later payload delivery action k
                      (process_pull_request api now payload delivery action k w).1 a e open_still)
                    same)
          ]
        ]
      ]
