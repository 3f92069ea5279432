-- ===== src/Webhook/Handler/Suspension.antt =====
-- How long a suspension lasts: what webhooks leave of it, and what it does to pull requests.
use pr_sentinel_backend.Base.{
  ℕ, String, ◌≡◌, refl, ap, ◌∙◌, inl, inr, true, false, List, [], ◌∷◌, All, Option, none, some,
  arith, if◌then◌else◌, ◌==◌, ==_refl, subst, Bool-cases, Option-cases,
}
use pr_sentinel_backend.Prisma.{Prisma}
use pr_sentinel_backend.Prisma.Keyed.{find_unique}
use pr_sentinel_backend.Schema.{Installation}
use pr_sentinel_backend.Payloads.{
  PullRequestTriggerAction, suspend, PullRequestWebhookPayload, InstallationWebhookPayload,
  RawWebhookHeaders, GithubEvent, pull_request, installation, installation_repositories, ping,
  unhandled, event_of, trigger_action,
}
use pr_sentinel_backend.Repository.Installations.{find_installation_by_github_id}
use pr_sentinel_backend.Repository.Status.{
  Status, absent, active, suspended, next, status, status_of, noticed,
  status-handle_installation_event, status-handle_installation_repositories_event,
}
use pr_sentinel_backend.Github.Service.{GithubApi}
use pr_sentinel_backend.Webhook.Handler.{
  World, Response, failure, action_not_processed, is_suspended, installation_id_of, Body,
  handle_pull_request_event, handle_installation, handle_installation_repositories,
  handle_github_webhook, process_pull_request,
}
use pr_sentinel_backend.Webhook.Handler.PullRequests.{
  handle_pull_request_event-skipped, handle_pull_request_event-missing,
  handle_pull_request_event-suspended, handle_pull_request_event-process,
}
use pr_sentinel_backend.Webhook.Handler.Steps.{
  find_or_upsert_repository-known, process_pull_request-missing, process_pull_request-found,
  deliver-Settles,
}

-- The answer to a pull request of a suspended installation.
abbrev pub refusal : PullRequestWebhookPayload → Response
refusal payload = elim (trigger_action payload.action) [
  | none ↦ action_not_processed payload.action
  | some action ↦ failure "Installation is suspended"
]

-- A webhook as it arrives, with the time and the answers of GitHub while it is handled.
pub record Arrival : Type 0 where
  pub api : GithubApi
  pub now : ℕ
  pub body : Body
  pub headers : RawWebhookHeaders

-- The webhook is not an event about the installation k itself.
abbrev pub IsElsewhere : ℕ → Arrival → Type 0
IsElsewhere k a = elim (event_of a.headers.github_event) [
  | installation ↦ (k == a.body.as_installation.installation.id) ≡ false
  | _ ↦ Unit
]

is_suspended-status :
    (o : Option Installation) {u : Option ℕ} → status_of o ≡ suspended u → is_suspended o ≡ true
is_suspended-status none e = cc
is_suspended-status (some i) e = ground arith

next-suspend : (s : Status) → (u : Option ℕ) × (next none suspend s ≡ suspended u)
unfolding next
next-suspend absent = (none, refl)
next-suspend (active o) = (o, refl)
next-suspend (suspended o) = (o, refl)

module _ ⦃p : Prisma⦄ where
  stays_suspended :
      (k j : ℕ) (w : World) {u : Option ℕ}
      → status k w.db ≡ suspended u
      → (if k == j then noticed (status j w.db) else status k w.db) ≡ suspended u
  stays_suspended k j w {u} h = elim (Bool-cases (k == j)) [
    | inl same ↦
        let e : k ≡ j = ground (arith, same) in
        let there : status j w.db ≡ suspended u = subst (λ n. status n w.db ≡ suspended u) e h in
        rw (same, there) refl
    | inr other ↦ rw other h
  ]

  -- Webhooks one after the other.
  pub handle_all : List Arrival → World → World
  handle_all [] w = w
  handle_all (a ∷ rest) w = handle_all rest (handle_github_webhook a.api a.now a.body a.headers w).1

  -- The deliveries of pull requests leave the installations alone.
  installations-handle_pull_request_event :
      (api : GithubApi) (now : ℕ) (payload : PullRequestWebhookPayload) (delivery : String)
      (w : World)
      → (handle_pull_request_event api now payload delivery w).1.db.installations
        ≡ w.db.installations
  installations-handle_pull_request_event api now payload delivery w =
      elim (Option-cases (trigger_action payload.action)) [
        | inl skipped ↦
            ap (λ w. w.db.installations)
              (handle_pull_request_event-skipped api now payload delivery w skipped)
        | inr (action, a) ↦ elim (Option-cases (installation_id_of payload)) [
          | inl missing ↦
              ap (λ w. w.db.installations)
                (handle_pull_request_event-missing api now payload delivery action w a missing)
          | inr (k, e) ↦ elim (Bool-cases (is_suspended (find_installation_by_github_id k w.db))) [
            | inl h ↦
                ap (λ w. w.db.installations)
                  (handle_pull_request_event-suspended api now payload delivery k w e h)
            | inr h ↦
                rw (handle_pull_request_event-process api now payload delivery action k w a e h)
                  (processed api now payload delivery action k w)
          ]
        ]
      ]
    where
      processed :
          (api : GithubApi) (now : ℕ) (payload : PullRequestWebhookPayload) (delivery : String)
          (action : PullRequestTriggerAction) (k : ℕ) (w : World)
          → (process_pull_request api now payload delivery action k w).1.db.installations
            ≡ w.db.installations
      processed api now payload delivery action k w =
          elim (find_or_upsert_repository-known api now k payload.repository w.db) [
            | inl (e, e') ↦
                ap (λ r. r.1.db.installations)
                  (process_pull_request-missing api now payload delivery action k w e e')
            | inr (repo, found, db, e, known, same) ↦
                rw (process_pull_request-found api now payload delivery action k repo db w e) (
                  (deliver-Settles api now payload delivery action k repo found
                    (record w { db = db }) known).1
                  ∙ same)
          ]

  status-webhook :
      (k : ℕ) (a : Arrival) (w : World) {u : Option ℕ}
      → IsElsewhere k a
      → status k w.db ≡ suspended u
      → status k (handle_github_webhook a.api a.now a.body a.headers w).1.db ≡ suspended u
  unfolding handle_github_webhook handle_installation handle_installation_repositories
  status-webhook k a w {u} elsewhere h = go (event_of a.headers.github_event) refl
    where
      go :
          (event : GithubEvent)
          → event_of a.headers.github_event ≡ event
          → status k (handle_github_webhook a.api a.now a.body a.headers w).1.db ≡ suspended u
      go pull_request e =
          rw (e, handle_github_webhook)
            (ap (λ t. status_of (find_unique (λ i. i.github_installation_id) k t))
                (installations-handle_pull_request_event a.api a.now a.body.as_pull_request
                  a.headers.github_delivery w)
              ∙ h)
      go installation e =
          let other : (k == a.body.as_installation.installation.id) ≡ false =
            rw (e, IsElsewhere) at elsewhere in
          rw (e, handle_github_webhook)
            (status-handle_installation_event a.now k a.body.as_installation none w.db ∙ rw other h)
      go installation_repositories e =
          rw (e, handle_github_webhook)
            (status-handle_installation_repositories_event a.now k
                a.body.as_installation_repositories w.db
              ∙ stays_suspended k a.body.as_installation_repositories.installation.id w h)
      go ping e = rw (e, handle_github_webhook) h
      go unhandled e = rw (e, handle_github_webhook) h

  status-handle_all :
      (k : ℕ) (others : List Arrival) (w : World) {u : Option ℕ}
      → All (IsElsewhere k) others
      → status k w.db ≡ suspended u
      → status k (handle_all others w).db ≡ suspended u
  unfolding handle_all
  status-handle_all k [] w all h = h
  status-handle_all k (a ∷ rest) w all h =
      status-handle_all k rest (handle_github_webhook a.api a.now a.body a.headers w).1 all.1
        (status-webhook k a w all.0 h)

  status-suspend :
      (api : GithubApi) (now : ℕ) (notice : InstallationWebhookPayload) (w : World)
      → notice.action ≡ suspend
      → (u : Option ℕ) × (status notice.installation.id (handle_installation api now notice w).1.db
          ≡ suspended u)
  unfolding handle_installation
  status-suspend api now notice w e =
      let k = notice.installation.id in
      let (u, told) = next-suspend (status k w.db) in
      (u, status-handle_installation_event now k notice none w.db ∙ rw (==_refl k) (rw e told))

  refused :
      (api : GithubApi) (now : ℕ) (payload : PullRequestWebhookPayload) (delivery : String) (k : ℕ)
      (w : World)
      → installation_id_of payload ≡ some k
      → is_suspended (find_installation_by_github_id k w.db) ≡ true
      → handle_pull_request_event api now payload delivery w ≡ (refusal payload, w)
  unfolding handle_pull_request_event
  refused api now payload delivery k w e h = elim (Option-cases (trigger_action payload.action)) [
    | inl skipped ↦ rw (skipped, handle_pull_request_event, refusal) refl
    | inr (a, fires) ↦ rw (fires, e, h, handle_pull_request_event, refusal) refl
  ]

  -- A suspension lasts: once GitHub has told that an installation is suspended, and whatever
  -- webhooks come after it that are not events about that installation itself, a pull request of it
  -- is answered with the refusal (or, for an action that starts no review, with the notice that it
  -- is not processed), and neither the database nor the queue changes.
  pub handle_pull_request_event-after_suspend :
      (api : GithubApi) (now later : ℕ) (notice : InstallationWebhookPayload)
      (others : List Arrival) (payload : PullRequestWebhookPayload) (delivery : String) (w : World)
      → notice.action ≡ suspend
      → All (IsElsewhere notice.installation.id) others
      → installation_id_of payload ≡ some notice.installation.id
      → let after = handle_all others (handle_installation api now notice w).1 in
        handle_pull_request_event api later payload delivery after ≡ (refusal payload, after)
  handle_pull_request_event-after_suspend api now later notice others payload delivery w s all e =
      let (u, told) = status-suspend api now notice w s in
      refused api later payload delivery notice.installation.id
        (handle_all others (handle_installation api now notice w).1) e
        (is_suspended-status _ (
          status-handle_all notice.installation.id others (handle_installation api now notice w).1
            all told))
