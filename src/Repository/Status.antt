-- ===== src/Repository/Status.antt =====
-- The life of an installation as a state machine, and that the event handlers of
-- src/repository/repository.service.ts implement it.
use pr_sentinel_backend.Base.{
  ℕ, ◌≡◌, refl, ap, ◌∙◌, inl, inr, List, [], ◌∷◌, map, Option, none, some, arith, if◌then◌else◌,
  ◌==◌, Option-cases, Bool-cases,
}
use pr_sentinel_backend.Prisma.{Prisma}
use pr_sentinel_backend.Prisma.Keyed.{find_unique}
use pr_sentinel_backend.Schema.{Installation}
use pr_sentinel_backend.Database.{Db}
use pr_sentinel_backend.Payloads.{
  RepoSummary, InstallationAction, created, deleted, suspend, unsuspend, new_permissions_accepted,
  InstallationWebhookPayload, InstallationRepositoriesWebhookPayload,
}
use pr_sentinel_backend.Repository.Installations.{
  find_installation_by_github_id, new_installation, upsert_installation,
  find_or_create_installation,
}
use pr_sentinel_backend.Repository.Repositories.{
  RepoInfo, of_summary, find_by_github_repo_id, upsert_repository, upsert_repositories,
  deactivate_repository, deactivate_repositories,
}
use pr_sentinel_backend.Repository.Events.{
  seed_installation, handle_action, handle_installation_event,
  handle_installation_repositories_event,
}
use pr_sentinel_backend.Repository.Lookups.{
  upserted_installation, find-delete_installation, find-suspend_installation,
  find-unsuspend_installation, find-upsert_installation, find-find_or_create_installation,
}

-- What is known of an installation: nothing, or whether GitHub has suspended it, with its owner.
pub data Status : Type 0 where
  absent : Status
  active suspended : Option ℕ → Status

-- What an event does to it; `owner` is the user that a new row gets.
unfoldable pub next : Option ℕ → InstallationAction → Status → Status
next owner deleted s = absent
next owner suspend absent = suspended none
next owner suspend (active o) = suspended o
next owner suspend (suspended o) = suspended o
next owner unsuspend absent = absent
next owner unsuspend (active o) = active o
next owner unsuspend (suspended o) = active o
next owner created absent = active owner
next owner created (active o) = active o
next owner created (suspended o) = active o
next owner new_permissions_accepted absent = active owner
next owner new_permissions_accepted (active o) = active o
next owner new_permissions_accepted (suspended o) = active o

-- What an event about its repositories does to an installation.
abbrev pub noticed : Status → Status
noticed absent = active none
noticed (active o) = active o
noticed (suspended o) = suspended o

abbrev pub status_of : Option Installation → Status
status_of none = absent
status_of (some i) = if i.suspended then suspended i.user_id else active i.user_id

-- The lookup after an event, in terms of the lookup before it, read as a status.
pub status_of_lookup :
    (j k : ℕ) (s : Status) (x y : Option Installation) {o : Option Installation}
    → o ≡ (if j == k then x else y)
    → status_of x ≡ s
    → status_of o ≡ (if j == k then s else status_of y)
status_of_lookup j k s x y {o} e h =
    rw (e, ← h) (elim (Bool-cases (j == k)) [ inl same ↦ rw same | inr other ↦ rw other ])

module _ ⦃p : Prisma⦄ where
  abbrev pub status : ℕ → Db → Status
  status k db = status_of (find_installation_by_github_id k db)

module _ ⦃p : Prisma⦄ (now : ℕ) where
  -- The operations on repositories leave the installations alone.
  pub installations-upsert_repositories :
      (id : ℕ) (repos : List RepoInfo) (db : Db)
      → (upsert_repositories now id repos db).installations ≡ db.installations
  unfolding upsert_repositories upsert_repository
  installations-upsert_repositories id [] db = refl
  installations-upsert_repositories id (repo ∷ repos) db =
      installations-upsert_repositories id repos (upsert_repository now id repo db).1

  installations-deactivate_repository :
      (k : ℕ) (db : Db) → (deactivate_repository now k db).installations ≡ db.installations
  unfolding deactivate_repository
  installations-deactivate_repository k db = elim (Option-cases (find_by_github_repo_id k db)) [
    | inl e ↦ rw (e, deactivate_repository)
    | inr (r, e) ↦ rw (e, deactivate_repository)
  ]

  pub installations-deactivate_repositories :
      (ids : List ℕ) (db : Db)
      → (deactivate_repositories now ids db).installations ≡ db.installations
  unfolding deactivate_repositories
  installations-deactivate_repositories [] db = refl
  installations-deactivate_repositories (k ∷ ids) db =
      installations-deactivate_repositories ids (deactivate_repository now k db)
      ∙ installations-deactivate_repository k db

  find-seed_installation :
      (j k : ℕ) (repos : Option (List RepoSummary)) (user_id : Option ℕ) (db : Db)
      → find_installation_by_github_id j (seed_installation now k repos user_id db) ≡ (
          if j == k
          then some (upserted_installation now k user_id db)
          else find_installation_by_github_id j db)
  unfolding seed_installation
  find-seed_installation j k none user_id db = find-upsert_installation now j k user_id db
  find-seed_installation j k (some repos) user_id db =
      rw
        (installations-upsert_repositories (upsert_installation now k user_id db).0.id
          (map of_summary repos) (upsert_installation now k user_id db).1)
        (find-upsert_installation now j k user_id db)

  status-seed_installation :
      (j k : ℕ) (repos : Option (List RepoSummary)) (user_id : Option ℕ) (db : Db)
      → status j (seed_installation now k repos user_id db)
        ≡ (if j == k then next user_id created (status k db) else status j db)
  unfolding next new_installation
  status-seed_installation j k repos user_id db =
      status_of_lookup j k _ _ _ (find-seed_installation j k repos user_id db)
        (elim (Option-cases (find_installation_by_github_id k db)) [
          | inl e ↦ rw e
          | inr (i, e) ↦ rw e (ground arith)
        ])

  next-new_permissions_accepted :
      (owner : Option ℕ) (s : Status) → next owner created s ≡ next owner new_permissions_accepted s
  unfolding next
  next-new_permissions_accepted owner absent = refl
  next-new_permissions_accepted owner (active o) = refl
  next-new_permissions_accepted owner (suspended o) = refl

  status-handle_action :
      (j k : ℕ) (action : InstallationAction) (repos : Option (List RepoSummary))
      (user_id : Option ℕ) (db : Db)
      → status j (handle_action now action k repos user_id db)
        ≡ (if j == k then next user_id action (status k db) else status j db)
  unfolding handle_action next new_installation
  status-handle_action j k deleted repos user_id db =
      status_of_lookup j k absent _ _ (find-delete_installation j k db) refl
  status-handle_action j k suspend repos user_id db =
      status_of_lookup j k _ _ _ (find-suspend_installation now j k db)
        (elim (Option-cases (find_installation_by_github_id k db)) [
          | inl e ↦ rw e
          | inr (i, e) ↦ rw e (ground arith)
        ])
  status-handle_action j k unsuspend repos user_id db =
      status_of_lookup j k _ _ _ (find-unsuspend_installation now j k db)
        (elim (Option-cases (find_installation_by_github_id k db)) [
          | inl e ↦ rw e
          | inr (i, e) ↦ rw e (ground arith)
        ])
  status-handle_action j k created repos user_id db = status-seed_installation j k repos user_id db
  status-handle_action j k new_permissions_accepted repos user_id db =
      rw (← next-new_permissions_accepted user_id (status k db))
        (status-seed_installation j k repos user_id db)

  -- An installation event moves the installation that it names along the state machine, and leaves
  -- the status of every other installation.
  pub status-handle_installation_event :
      (j : ℕ) (payload : InstallationWebhookPayload) (user_id : Option ℕ) (db : Db)
      → status j (handle_installation_event now payload user_id db) ≡ (
          if j == payload.installation.id
          then next user_id payload.action (status payload.installation.id db)
          else status j db)
  unfolding handle_installation_event
  status-handle_installation_event j payload user_id db =
      status-handle_action j payload.installation.id payload.action payload.repositories user_id db

  find-handle_installation_repositories_event :
      (j : ℕ) (payload : InstallationRepositoriesWebhookPayload) (db : Db)
      → find_installation_by_github_id j (handle_installation_repositories_event now payload db)
        ≡ find_installation_by_github_id j
            (find_or_create_installation now payload.installation.id db).1
  unfolding handle_installation_repositories_event
  find-handle_installation_repositories_event j payload db =
      ap (λ t. find_unique (λ i. i.github_installation_id) j t)
        (installations-deactivate_repositories _ _
          ∙ installations-upsert_repositories _ _
              (find_or_create_installation now payload.installation.id db).1)

  -- An event about repositories creates an active installation without owner where none is known,
  -- and otherwise leaves the status of every installation.
  pub status-handle_installation_repositories_event :
      (j : ℕ) (payload : InstallationRepositoriesWebhookPayload) (db : Db)
      → status j (handle_installation_repositories_event now payload db) ≡ (
          if j == payload.installation.id
          then noticed (status payload.installation.id db)
          else status j db)
  unfolding new_installation
  status-handle_installation_repositories_event j payload db =
      status_of_lookup j payload.installation.id _ _ _
        (find-handle_installation_repositories_event j payload db
          ∙ find-find_or_create_installation now j payload.installation.id db)
        (elim (Option-cases (find_installation_by_github_id payload.installation.id db)) [
          | inl e ↦ rw e
          | inr (i, e) ↦ rw e (ground arith)
        ])
