-- ===== src/Repository/Events.antt =====
-- The webhook event handlers of src/repository/repository.service.ts.
use pr_sentinel_backend.Base.{ℕ, List, map, Option, none, some}
use pr_sentinel_backend.Prisma.{Prisma}
use pr_sentinel_backend.Database.{Db}
use pr_sentinel_backend.Payloads.{
  InstallationAction, RepoSummary, created, deleted, suspend, unsuspend, new_permissions_accepted,
  InstallationWebhookPayload, InstallationRepositoriesWebhookPayload,
}
use pr_sentinel_backend.Repository.Installations.{
  delete_installation, suspend_installation, unsuspend_installation, upsert_installation,
  find_or_create_installation,
}
use pr_sentinel_backend.Repository.Repositories.{
  of_summary, upsert_repositories, deactivate_repositories,
}

module _ ⦃p : Prisma⦄ (now : ℕ) where
  -- The upsert and seeding branch of `handleInstallationEvent`.
  unfoldable pub seed_installation : ℕ → Option (List RepoSummary) → Option ℕ → Db → Db
  seed_installation github_id repositories user_id db =
      let (row, db') = upsert_installation now github_id user_id db in
      elim repositories [
        | none ↦ db'
        | some repos ↦ upsert_repositories now row.id (map of_summary repos) db'
      ]

  -- `handleInstallationEvent`, over the parts of its payload.
  unfoldable pub handle_action :
      InstallationAction → ℕ → Option (List RepoSummary) → Option ℕ → Db → Db
  unfolding seed_installation
  handle_action deleted github_id repositories user_id db = delete_installation github_id db
  handle_action suspend github_id repositories user_id db = suspend_installation now github_id db
  handle_action unsuspend github_id repositories user_id db =
      unsuspend_installation now github_id db
  handle_action created github_id repositories user_id db =
      seed_installation github_id repositories user_id db
  handle_action new_permissions_accepted github_id repositories user_id db =
      seed_installation github_id repositories user_id db

  unfoldable pub handle_installation_event : InstallationWebhookPayload → Option ℕ → Db → Db
  unfolding handle_action
  handle_installation_event payload user_id db =
      handle_action payload.action payload.installation.id payload.repositories user_id db

  -- `handleInstallationRepositoriesEvent`
  unfoldable pub handle_installation_repositories_event :
      InstallationRepositoriesWebhookPayload → Db → Db
  unfolding find_or_create_installation
  handle_installation_repositories_event payload db =
      let (row, db') = find_or_create_installation now payload.installation.id db in
      deactivate_repositories now (map (λ r. r.id) payload.repositories_removed)
        (upsert_repositories now row.id (map of_summary payload.repositories_added) db')
