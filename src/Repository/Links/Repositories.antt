-- ===== src/Repository/Links/Repositories.antt =====
-- The operations of src/repository/repository.service.ts on repositories, and its handlers of
-- webhook events, leave no foreign key that leads nowhere.
use pr_sentinel_backend.Base.{
  ℕ, ◌≡◌, refl, inl, inr, Bool, true, List, [], ◌∷◌, map, Option, none, some, ◌==◌, Option-cases,
}
use pr_sentinel_backend.Prisma.{Prisma}
use pr_sentinel_backend.Schema.{Repository}
use pr_sentinel_backend.Database.{Db}
use pr_sentinel_backend.Database.Links.{
  has, Covers-update_many, Covers-upsert, has-upsert, Linked-update_many, Linked-upsert,
}
use pr_sentinel_backend.Database.Links.Tables.{IsLinked, with_repositories-IsLinked}
use pr_sentinel_backend.Payloads.{
  InstallationAction, RepoSummary, created, deleted, suspend, unsuspend, new_permissions_accepted,
  InstallationWebhookPayload, InstallationRepositoriesWebhookPayload,
}
use pr_sentinel_backend.Repository.Installations.{upsert_installation, find_or_create_installation}
use pr_sentinel_backend.Repository.Repositories.{
  RepoInfo, of_summary, fetched, stale_repositories, find_by_github_repo_id, refresh_repository,
  new_repository, set_inactive, upsert_repository, upsert_repositories, deactivate_repository,
  deactivate_repositories, sync_installation_repositories,
}
use pr_sentinel_backend.Repository.Events.{
  seed_installation, handle_action, handle_installation_event,
  handle_installation_repositories_event,
}
use pr_sentinel_backend.Repository.Links.{
  HasInstallation, delete_installation-IsLinked, suspend_installation-IsLinked,
  unsuspend_installation-IsLinked, upsert_installation-IsLinked,
  find_or_create_installation-IsLinked,
}

module _ ⦃p : Prisma⦄ (now : ℕ) where
  -- The row that an upsert of a repository returns is there too.
  pub upsert_repository-IsLinked :
      (id : ℕ) (repo : RepoInfo) (db : Db)
      → HasInstallation id db
      → IsLinked db
      → let (row, db') = upsert_repository now id repo db in
        IsLinked db' × (has (λ r. r.id) row.id db'.repositories ≡ true)
  unfolding upsert_repository new_repository refresh_repository
  upsert_repository-IsLinked id repo db there linked =
      let new = new_repository now db id repo in
      let f = refresh_repository now id repo in
      (
        with_repositories-IsLinked db (upsert_repository now id repo db).1.repositories
            (Covers-upsert (λ r. r.id) (λ r. r.github_repo_id) repo.id new f (λ r. refl)
              db.repositories)
            (Linked-upsert (λ r. r.installation_id) (λ i. i.id) (λ r. r.github_repo_id) repo.id new
              f db.repositories db.installations there (λ r h. there) linked.0)
            linked,
        has-upsert (λ r. r.id) (λ r. r.github_repo_id) repo.id new f (λ r. refl) db.repositories,
      )

  pub upsert_repositories-IsLinked :
      (id : ℕ) (repos : List RepoInfo) (db : Db)
      → HasInstallation id db
      → IsLinked db
      → IsLinked (upsert_repositories now id repos db)
  unfolding upsert_repositories upsert_repository
  upsert_repositories-IsLinked id [] db there linked = linked
  upsert_repositories-IsLinked id (repo ∷ repos) db there linked =
      upsert_repositories-IsLinked id repos (upsert_repository now id repo db).1 there
        (upsert_repository-IsLinked id repo db there linked).0

  deactivate_repository-IsLinked :
      (github_id : ℕ) (db : Db) → IsLinked db → IsLinked (deactivate_repository now github_id db)
  unfolding deactivate_repository
  deactivate_repository-IsLinked github_id db linked =
      elim (Option-cases (find_by_github_repo_id github_id db)) [
        | inl e ↦ rw (e, deactivate_repository) linked
        | inr (r, e) ↦
            let test : Repository → Bool = λ x. x.github_repo_id == github_id in
            rw (e, deactivate_repository)
              (with_repositories-IsLinked db (p.update_many test (set_inactive now) db.repositories)
                (Covers-update_many (λ x. x.id) test (set_inactive now) db.repositories (λ x. refl))
                (Linked-update_many (λ x. x.installation_id) (λ i. i.id) test (set_inactive now)
                  db.repositories db.installations (λ x h. h) linked.0)
                linked)
      ]

  deactivate_repositories-IsLinked :
      (ids : List ℕ) (db : Db) → IsLinked db → IsLinked (deactivate_repositories now ids db)
  unfolding deactivate_repositories
  deactivate_repositories-IsLinked [] db linked = linked
  deactivate_repositories-IsLinked (github_id ∷ ids) db linked =
      deactivate_repositories-IsLinked ids (deactivate_repository now github_id db)
        (deactivate_repository-IsLinked github_id db linked)

  pub sync_installation_repositories-IsLinked :
      (id : ℕ) (repos : Option (List RepoInfo)) (db : Db)
      → HasInstallation id db
      → IsLinked db
      → IsLinked (sync_installation_repositories now id repos db).1
  unfolding sync_installation_repositories
  sync_installation_repositories-IsLinked id repos db there linked =
      let upserted = upsert_repositories now id (fetched repos) db in
      deactivate_repositories-IsLinked (stale_repositories id (fetched repos) upserted) upserted
        (upsert_repositories-IsLinked id (fetched repos) db there linked)

  seed_installation-IsLinked :
      (github_id : ℕ) (repos : Option (List RepoSummary)) (user_id : Option ℕ) (db : Db)
      → IsLinked db
      → IsLinked (seed_installation now github_id repos user_id db)
  unfolding seed_installation
  seed_installation-IsLinked github_id none user_id db linked =
      (upsert_installation-IsLinked now github_id user_id db linked).0
  seed_installation-IsLinked github_id (some repos) user_id db linked =
      let (row, db') = upsert_installation now github_id user_id db in
      let (linked', there) = upsert_installation-IsLinked now github_id user_id db linked in
      upsert_repositories-IsLinked row.id (map of_summary repos) db' there linked'

  pub handle_installation_event-IsLinked :
      (payload : InstallationWebhookPayload) (user_id : Option ℕ) (db : Db)
      → IsLinked db
      → IsLinked (handle_installation_event now payload user_id db)
  unfolding handle_installation_event handle_action
  handle_installation_event-IsLinked payload user_id db linked =
      by_action payload.action payload.installation.id payload.repositories
    where
      by_action :
          (action : InstallationAction) (github_id : ℕ) (repos : Option (List RepoSummary))
          → IsLinked (handle_action now action github_id repos user_id db)
      by_action deleted github_id repos = delete_installation-IsLinked github_id db linked
      by_action suspend github_id repos = suspend_installation-IsLinked now github_id db linked
      by_action unsuspend github_id repos = unsuspend_installation-IsLinked now github_id db linked
      by_action created github_id repos =
          seed_installation-IsLinked github_id repos user_id db linked
      by_action new_permissions_accepted github_id repos =
          seed_installation-IsLinked github_id repos user_id db linked

  pub handle_installation_repositories_event-IsLinked :
      (payload : InstallationRepositoriesWebhookPayload) (db : Db)
      → IsLinked db
      → IsLinked (handle_installation_repositories_event now payload db)
  unfolding handle_installation_repositories_event
  handle_installation_repositories_event-IsLinked payload db linked =
      let (row, db') = find_or_create_installation now payload.installation.id db in
      let (linked', there) =
        find_or_create_installation-IsLinked now payload.installation.id db linked in
      let added = map of_summary payload.repositories_added in
      deactivate_repositories-IsLinked (map (λ r. r.id) payload.repositories_removed)
        (upsert_repositories now row.id added db')
        (upsert_repositories-IsLinked row.id added db' there linked')
