-- ===== src/Webhook/Handler/Steps.antt =====
-- What the steps of the pull request handler leave alone, and what they settle.
use mathlib.Core.Option
use pr_sentinel_backend.Base.{
  ℕ, String, ◌≡◌, ◌⊎◌, refl, ap, ◌∙◌, inl, inr, true, List, Option, none, some, arith, ◌==◌,
  ==_refl, change, Bool-cases, Option-cases, subst,
}
use pr_sentinel_backend.Errors.{Result, ok, err}
use pr_sentinel_backend.Prisma.{Prisma}
use pr_sentinel_backend.Prisma.Keyed.{find-update_many}
use pr_sentinel_backend.Schema.{Repository, PullRequest}
use pr_sentinel_backend.Database.{Db}
use pr_sentinel_backend.Payloads.{
  GithubRepo, GithubPullRequest, GithubPrFile, PullRequestTriggerAction, PullRequestWebhookPayload,
}
use pr_sentinel_backend.Repository.Installations.{find_installation_by_github_id}
use pr_sentinel_backend.Repository.Repositories.{find_by_github_repo_id, upsert_repository}
use pr_sentinel_backend.Repository.Sync.{find-upsert_repository, upserted_repository}
use pr_sentinel_backend.PullRequest.{
  was_delivered, find_by_github_pr_id, set_failed, upsert_pull_request, replace_pr_files,
  mark_failed,
}
use pr_sentinel_backend.PullRequest.Delivery.{
  was_delivered-upsert_pull_request, upsert_pull_request-old,
}
use pr_sentinel_backend.Github.Service.{GithubApi}
use pr_sentinel_backend.Webhook.Handler.{
  World, duplicate_delivery, failure, no_repository, linked_user, repo_info,
  find_or_upsert_repository, enqueue_review, save_files, deliver, process_pull_request, fetch_files,
}

module _ ⦃p : Prisma⦄ where
  -- Two databases with the same installations and repositories.
  pub record SameRegistry (before after : Db) : Type 0 where
    pub installations : after.installations ≡ before.installations
    pub repositories : after.repositories ≡ before.repositories

  -- A world in which the delivery has been handled: the repository of the payload is known, and
  -- its pull request has recorded the delivery.
  pub record IsSettled (payload : PullRequestWebhookPayload) (delivery : String) (db : Db)
      : Type 0 where
    pub repository : Repository
    pub known : find_by_github_repo_id payload.repository.id db ≡ some repository
    pub recorded : was_delivered delivery (find_by_github_pr_id payload.pull_request.id db) ≡ true

  was_delivered-change :
      (delivery message : String) (now id : ℕ) (o : Option PullRequest)
      → was_delivered delivery (Option.map (change (λ r. r.id == id) (set_failed now message)) o)
        ≡ was_delivered delivery o
  unfolding set_failed
  was_delivered-change delivery message now id none = refl
  was_delivered-change delivery message now id (some r) = elim (Bool-cases (r.id == id)) [
    | inl e ↦ rw e refl
    | inr e ↦ rw e refl
  ]

  pub was_delivered-mark_failed :
      (delivery message : String) (now id j : ℕ) (db : Db)
      → was_delivered delivery (find_by_github_pr_id j (mark_failed now id message db))
        ≡ was_delivered delivery (find_by_github_pr_id j db)
  unfolding mark_failed
  was_delivered-mark_failed delivery message now id j db =
      rw
        (find-update_many (λ r. r.github_pr_id == j) (λ r. r.id == id) (set_failed now message)
          db.pull_requests keeps)
        (was_delivered-change delivery message now id (find_by_github_pr_id j db))
    where
      keeps :
          (r : PullRequest) → ((set_failed now message r).github_pr_id == j) ≡ (r.github_pr_id == j)
      keeps r = unfold set_failed in refl

module _ ⦃p : Prisma⦄ (api : GithubApi) (now : ℕ) where
  pub upsert_pull_request-SameRegistry :
      (repository_id : ℕ) (pr : GithubPullRequest) (action : PullRequestTriggerAction)
      (delivery : String) (db : Db)
      → SameRegistry db (upsert_pull_request now repository_id pr action delivery db).1
  unfolding upsert_pull_request
  upsert_pull_request-SameRegistry repository_id pr action delivery db = ground arith

  db-enqueue_review :
      (installation_id id : ℕ) (w : World) → (enqueue_review api now installation_id id w).db ≡ w.db
  unfolding enqueue_review
  db-enqueue_review installation_id id w =
      elim (Option-cases (linked_user (find_installation_by_github_id installation_id w.db))) [
        | inl e ↦ rw (e, enqueue_review)
        | inr (u, e) ↦ rw (e, enqueue_review)
      ]

  pub save_files-SameRegistry :
      (installation_id id : ℕ) (files : Result (List GithubPrFile)) (w : World)
      → SameRegistry w.db (save_files api now installation_id id files w).1.db
  unfolding save_files replace_pr_files mark_failed
  save_files-SameRegistry installation_id id (ok files) w =
      let same =
        db-enqueue_review installation_id id
          (record w { db = replace_pr_files now id files w.db }) in
      record {
        installations = ap (λ db. db.installations) same;
        repositories = ap (λ db. db.repositories) same;
      }
  save_files-SameRegistry installation_id id (err e) w = record {
    installations = refl;
    repositories = refl;
  }

  pub was_delivered-save_files :
      (delivery : String) (installation_id id j : ℕ) (files : Result (List GithubPrFile))
      (w : World)
      → was_delivered delivery
          (find_by_github_pr_id j (save_files api now installation_id id files w).1.db)
        ≡ was_delivered delivery (find_by_github_pr_id j w.db)
  unfolding save_files replace_pr_files
  was_delivered-save_files delivery installation_id id j (ok files) w =
      ap (λ db. was_delivered delivery (find_by_github_pr_id j db))
        (db-enqueue_review installation_id id
          (record w { db = replace_pr_files now id files w.db }))
  was_delivered-save_files delivery installation_id id j (err e) w =
      was_delivered-mark_failed delivery _ now id j w.db

  -- The first step finds the repository of the payload, or fails because the installation is not
  -- known either, and then changes nothing.
  pub find_or_upsert_repository-known :
      (k : ℕ) (r : GithubRepo) (db : Db)
      → ((find_by_github_repo_id r.id db ≡ none) × (find_installation_by_github_id k db ≡ none))
        ⊎ ((row found : Repository) × (after : Db) × (find_or_upsert_repository api now k r db
              ≡ (some row, after))
            × (find_by_github_repo_id r.id after ≡ some found)
            × (after.installations ≡ db.installations))
  unfolding find_or_upsert_repository upsert_repository
  find_or_upsert_repository-known k r db = elim (Option-cases (find_by_github_repo_id r.id db)) [
    | inr (row, e) ↦ inr (row, row, db, rw (e, find_or_upsert_repository), e, refl)
    | inl e ↦ elim (Option-cases (find_installation_by_github_id k db)) [
      | inl e' ↦ inl (e, e')
      | inr (i, e') ↦ inr (
        (upsert_repository now i.id (repo_info r) db).0,
        upserted_repository now i.id (repo_info r) db,
        (upsert_repository now i.id (repo_info r) db).1,
        rw (e, e', find_or_upsert_repository) refl,
        rw (find-upsert_repository now r.id i.id (repo_info r) db, ==_refl r.id) refl,
        refl,
      )
    ]
  ]

  module _ (payload : PullRequestWebhookPayload) (delivery : String)
      (action : PullRequestTriggerAction) (k : ℕ) where
    -- The branches of the handler, each under the result of the step that selects it.
    pub process_pull_request-missing :
        (w : World)
        → find_by_github_repo_id payload.repository.id w.db ≡ none
        → find_installation_by_github_id k w.db ≡ none
        → process_pull_request api now payload delivery action k w ≡ (failure no_repository, w)
    unfolding process_pull_request
    process_pull_request-missing w e e' =
        rw (e, e', process_pull_request, find_or_upsert_repository)
          (rw (e, e', find_or_upsert_repository) refl)

    pub process_pull_request-found :
        (repo : Repository) (after : Db) (w : World)
        → find_or_upsert_repository api now k payload.repository w.db ≡ (some repo, after)
        → process_pull_request api now payload delivery action k w
          ≡ deliver api now payload delivery action k repo (record w { db = after })
    unfolding process_pull_request
    process_pull_request-found repo after w e = rw (e, process_pull_request) (rw e refl)

    pub deliver-duplicate :
        (repo : Repository) (w : World)
        → was_delivered delivery (find_by_github_pr_id payload.pull_request.id w.db) ≡ true
        → deliver api now payload delivery action k repo w ≡ (duplicate_delivery payload.action, w)
    unfolding deliver
    deliver-duplicate repo w old =
        let e = upsert_pull_request-old now repo.id payload.pull_request action delivery w.db old in
        rw (e, deliver) (rw e refl)

    pub deliver-new :
        (repo : Repository) (pr : PullRequest) (after : Db) (w : World)
        → upsert_pull_request now repo.id payload.pull_request action delivery w.db
          ≡ (some pr, after)
        → (deliver api now payload delivery action k repo w).1
          ≡ (save_files api now k pr.id (fetch_files api now k payload) (record w { db = after })).1
    unfolding deliver
    deliver-new repo pr after w e = rw (e, deliver) (rw e refl)

    pub deliver-none :
        (repo : Repository) (after : Db) (w : World)
        → upsert_pull_request now repo.id payload.pull_request action delivery w.db ≡ (none, after)
        → (deliver api now payload delivery action k repo w).1 ≡ record w { db = after }
    unfolding deliver
    deliver-none repo after w e = rw (e, deliver) (rw e refl)

    -- In a settled world the handler answers that the delivery is a duplicate, and changes nothing.
    pub process_pull_request-settled :
        (w : World)
        → IsSettled payload delivery w.db
        → process_pull_request api now payload delivery action k w
          ≡ (duplicate_delivery payload.action, w)
    unfolding find_or_upsert_repository
    process_pull_request-settled w settled =
        process_pull_request-found settled.repository w.db w
          (rw (settled.known, find_or_upsert_repository))
        ∙ deliver-duplicate settled.repository w settled.recorded

    -- A world that is settled once the pull request is written stays so through the files.
    save_files-settles :
        (id : ℕ) (w : World)
        → IsSettled payload delivery w.db
        → IsSettled payload delivery
            (save_files api now k id (fetch_files api now k payload) w).1.db
    save_files-settles id w s = record {
      repository = s.repository;
      known =
          rw ((save_files-SameRegistry k id (fetch_files api now k payload) w).repositories)
            s.known;
      recorded =
          rw
            (was_delivered-save_files delivery k id payload.pull_request.id
              (fetch_files api now k payload) w)
            s.recorded;
    }

    -- What holds of the world after the pull request is written.
    abbrev Settles : World → Db → Type 0
    Settles w after = IsSettled payload delivery after × (after.installations ≡ w.db.installations)

    upsert-Settles :
        (repo found : Repository) (w : World)
        → find_by_github_repo_id payload.repository.id w.db ≡ some found
        → Settles w (upsert_pull_request now repo.id payload.pull_request action delivery w.db).1
    upsert-Settles repo found w known =
        let same =
          upsert_pull_request-SameRegistry repo.id payload.pull_request action delivery w.db in
        (
          record {
            repository = found;
            known = rw (same.repositories) known;
            recorded =
                was_delivered-upsert_pull_request now repo.id payload.pull_request action delivery
                  w.db;
          },
          same.installations,
        )

    pub deliver-Settles :
        (repo found : Repository) (w : World)
        → find_by_github_repo_id payload.repository.id w.db ≡ some found
        → Settles w (deliver api now payload delivery action k repo w).1.db
    deliver-Settles repo found w known =
        go (upsert_pull_request now repo.id payload.pull_request action delivery w.db) refl
      where
        go :
            (r : Option PullRequest × Db)
            → upsert_pull_request now repo.id payload.pull_request action delivery w.db ≡ r
            → Settles w (deliver api now payload delivery action k repo w).1.db
        go (none, after) e = rw (deliver-none repo after w e) (
            subst (λ (r : Option PullRequest × Db). Settles w r.1) e
              (upsert-Settles repo found w known))
        go (some pr, after) e =
            let s : Settles w after =
              subst (λ (r : Option PullRequest × Db). Settles w r.1) e
                (upsert-Settles repo found w known) in
            rw (deliver-new repo pr after w e) (
              save_files-settles pr.id (record w { db = after }) s.0,
              (save_files-SameRegistry k pr.id (fetch_files api now k payload)
                    (record w { db = after })).installations
                  ∙ s.1,
            )
