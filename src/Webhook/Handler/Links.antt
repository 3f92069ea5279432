-- ===== src/Webhook/Handler/Links.antt =====
-- A webhook leaves no foreign key that leads nowhere.
use Prim.Native.String.{◌++◌ as append}
use pr_sentinel_backend.Base.{
  ℕ, String, ◌≡◌, refl, sym, subst, inl, inr, true, List, Option, none, some, if_both, ◌==◌,
  Option-cases,
}
use pr_sentinel_backend.Errors.{Result, ok, err, message_of}
use pr_sentinel_backend.Prisma.{Prisma}
use pr_sentinel_backend.Schema.{Repository}
use pr_sentinel_backend.Database.{Db}
use pr_sentinel_backend.Database.Links.{has, has-found}
use pr_sentinel_backend.Database.Links.Tables.{IsLinked}
use pr_sentinel_backend.Payloads.{
  GithubEvent, pull_request, installation, installation_repositories, ping, unhandled, event_of,
  GithubRepo, GithubPrFile, PullRequestTriggerAction, PullRequestWebhookPayload, RawWebhookHeaders,
}
use pr_sentinel_backend.Github.Service.{GithubApi}
use pr_sentinel_backend.Repository.Installations.{find_installation_by_github_id}
use pr_sentinel_backend.Repository.Repositories.{find_by_github_repo_id}
use pr_sentinel_backend.Repository.Links.Repositories.{
  upsert_repository-IsLinked, handle_installation_event-IsLinked,
  handle_installation_repositories_event-IsLinked,
}
use pr_sentinel_backend.PullRequest.{upsert_pull_request, replace_pr_files}
use pr_sentinel_backend.PullRequest.Links.{
  HasPullRequest, RowIsThere, upsert_pull_request-IsLinked, replace_pr_files-IsLinked,
  mark_failed-IsLinked,
}
use pr_sentinel_backend.Webhook.Handler.{
  World, Response, failure, Body, trigger_action, installation_id_of, is_suspended, linked_user,
  repo_info, find_or_upsert_repository, fetch_files, enqueue_review, save_files, deliver,
  process_pull_request, handle_pull_request_event, handle_installation,
  handle_installation_repositories, handle_github_webhook,
}

module _ ⦃p : Prisma⦄ (api : GithubApi) (now : ℕ) where
  abbrev RepositoryIsThere : Option Repository → Db → Type 0
  RepositoryIsThere none db = Unit
  RepositoryIsThere (some r) db = has (λ x. x.id) r.id db.repositories ≡ true

  find_or_upsert_repository-IsLinked :
      (github_id : ℕ) (repository : GithubRepo) (db : Db)
      → IsLinked db
      → let (found, db') = find_or_upsert_repository api now github_id repository db in
        IsLinked db' × RepositoryIsThere found db'
  unfolding find_or_upsert_repository
  find_or_upsert_repository-IsLinked github_id repository db linked =
      elim (Option-cases (find_by_github_repo_id repository.id db)) [
        | inr (r, e) ↦
            rw (e, find_or_upsert_repository)
              (
                linked,
                has-found (λ x. x.id) (λ x. x.github_repo_id == repository.id) db.repositories e,
              )
        | inl e ↦ elim (Option-cases (find_installation_by_github_id github_id db)) [
          | inl e' ↦ rw (e, find_or_upsert_repository) (rw e' (linked, tt))
          | inr (i, e') ↦
              rw (e, find_or_upsert_repository)
                (rw e' (
                  upsert_repository-IsLinked now i.id (repo_info repository) db
                    (has-found (λ x. x.id) (λ x. x.github_installation_id == github_id)
                      db.installations e')
                    linked))
        ]
      ]

  db-enqueue_review :
      (installation_id id : ℕ) (w : World) → (enqueue_review api now installation_id id w).db ≡ w.db
  unfolding enqueue_review
  db-enqueue_review installation_id id w =
      elim (Option-cases (linked_user (find_installation_by_github_id installation_id w.db))) [
        | inl e ↦ rw (e, enqueue_review) refl
        | inr (user_id, e) ↦ rw (e, enqueue_review) refl
      ]

  save_files-IsLinked :
      (installation_id id : ℕ) (fetched : Result (List GithubPrFile)) (w : World)
      → HasPullRequest id w.db
      → IsLinked w.db
      → IsLinked (save_files api now installation_id id fetched w).1.db
  unfolding save_files
  save_files-IsLinked installation_id id (ok files) w there linked =
      let w' = record w { db = replace_pr_files now id files w.db } in
      subst IsLinked (sym (db-enqueue_review installation_id id w'))
        (replace_pr_files-IsLinked now id files w.db there linked)
  save_files-IsLinked installation_id id (err e) w there linked =
      mark_failed-IsLinked now id (append "File fetch failed: " (message_of e)) w.db linked

  deliver-IsLinked :
      (payload : PullRequestWebhookPayload) (delivery : String) (action : PullRequestTriggerAction)
      (installation_id : ℕ) (repo : Repository) (w : World)
      → has (λ r. r.id) repo.id w.db.repositories ≡ true
      → IsLinked w.db
      → IsLinked (deliver api now payload delivery action installation_id repo w).1.db
  unfolding deliver
  deliver-IsLinked payload delivery action installation_id repo w there linked =
      let stored =
        upsert_pull_request-IsLinked now repo.id payload.pull_request action delivery w.db there
          linked in
      elim (Option-cases
        (upsert_pull_request now repo.id payload.pull_request action delivery w.db).0) [
          | inl e ↦ rw (e, deliver) stored.0
          | inr (pr, e) ↦
              let db' =
                (upsert_pull_request now repo.id payload.pull_request action delivery w.db).1 in
              rw (e, deliver)
                (save_files-IsLinked installation_id pr.id
                  (fetch_files api now installation_id payload) (record w { db = db' })
                  (subst (λ row. RowIsThere row db') e stored.1) stored.0)
        ]

  process_pull_request-IsLinked :
      (payload : PullRequestWebhookPayload) (delivery : String) (action : PullRequestTriggerAction)
      (installation_id : ℕ) (w : World)
      → IsLinked w.db
      → IsLinked (process_pull_request api now payload delivery action installation_id w).1.db
  unfolding process_pull_request
  process_pull_request-IsLinked payload delivery action installation_id w linked =
      let known =
        find_or_upsert_repository-IsLinked installation_id payload.repository w.db linked in
      elim (Option-cases
        (find_or_upsert_repository api now installation_id payload.repository w.db).0) [
          | inl e ↦ rw (e, process_pull_request) known.0
          | inr (repo, e) ↦
              let db' =
                (find_or_upsert_repository api now installation_id payload.repository w.db).1 in
              rw (e, process_pull_request)
                (deliver-IsLinked payload delivery action installation_id repo
                  (record w { db = db' }) (subst (λ found. RepositoryIsThere found db') e known.1)
                  known.0)
        ]

  handle_pull_request_event-IsLinked :
      (payload : PullRequestWebhookPayload) (delivery : String) (w : World)
      → IsLinked w.db
      → IsLinked (handle_pull_request_event api now payload delivery w).1.db
  unfolding handle_pull_request_event
  handle_pull_request_event-IsLinked payload delivery w linked =
      elim (Option-cases (trigger_action payload.action)) [
        | inl e ↦ rw (e, handle_pull_request_event) linked
        | inr (action, e) ↦ elim (Option-cases (installation_id_of payload)) [
          | inl e' ↦ rw (e, handle_pull_request_event) (rw e' linked)
          | inr (id, e') ↦
              rw (e, handle_pull_request_event)
                (rw e' (
                  if_both (λ (r : Response × World). IsLinked r.1.db)
                    (is_suspended (find_installation_by_github_id id w.db))
                    (failure "Installation is suspended", w)
                    (process_pull_request api now payload delivery action id w) linked
                    (process_pull_request-IsLinked payload delivery action id w linked)))
        ]
      ]

  pub handle_github_webhook-IsLinked :
      (body : Body) (headers : RawWebhookHeaders) (w : World)
      → IsLinked w.db
      → IsLinked (handle_github_webhook api now body headers w).1.db
  unfolding handle_github_webhook handle_installation handle_installation_repositories
  handle_github_webhook-IsLinked body headers w linked =
      by_event (event_of headers.github_event) refl
    where
      by_event :
          (event : GithubEvent)
          → event_of headers.github_event ≡ event
          → IsLinked (handle_github_webhook api now body headers w).1.db
      by_event pull_request e =
          rw (e, handle_github_webhook)
            (handle_pull_request_event-IsLinked body.as_pull_request headers.github_delivery w
              linked)
      by_event installation e =
          rw (e, handle_github_webhook)
            (handle_installation_event-IsLinked now body.as_installation none w.db linked)
      by_event installation_repositories e =
          rw (e, handle_github_webhook)
            (handle_installation_repositories_event-IsLinked now body.as_installation_repositories
              w.db linked)
      by_event ping e = rw (e, handle_github_webhook) linked
      by_event unhandled e = rw (e, handle_github_webhook) linked
