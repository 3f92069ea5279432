-- ===== src/Repository/Links.antt =====
-- The operations of src/repository/repository.service.ts on installations leave no foreign key that
-- leads nowhere.
pub mod Repositories
use pr_sentinel_backend.Base.{
  ℕ, String, ◌≡◌, refl, ◌∙◌, inl, inr, Bool, true, false, List, [], ◌∷◌, map, Option, none, some,
  if◌then◌else◌, if_both, ◌==◌, Option-cases,
}
use pr_sentinel_backend.Prisma.{Prisma}
use pr_sentinel_backend.Schema.{Installation, Repository}
use pr_sentinel_backend.Database.{Db}
use pr_sentinel_backend.Database.Links.{
  has, Covers, Linked, Covers-create, Covers-update_many, Covers-upsert, has-create, has-found,
  has-upsert, Linked-update_many, Linked-upsert,
}
use pr_sentinel_backend.Database.Links.Tables.{
  IsLinked, RepositoriesLinked, with_installations-IsLinked, with_repositories-IsLinked,
  delete_cascade-IsLinked,
}
use pr_sentinel_backend.Payloads.{
  InstallationAction, RepoSummary, created, deleted, suspend, unsuspend, new_permissions_accepted,
  InstallationWebhookPayload, InstallationRepositoriesWebhookPayload,
}
use pr_sentinel_backend.Repository.Installations.{
  find_installation_by_github_id, delete_installation, set_suspended, suspend_installation,
  unsuspend_installation, new_installation, claim_installation, relink_installation, is_unclaimed,
  upsert_installation, upsert_installation_with_user, find_or_create_installation,
}
use pr_sentinel_backend.Repository.Repositories.{
  RepoInfo, of_summary, fetched, stale_repositories, find_by_github_repo_id, refresh_repository,
  new_repository, set_inactive, upsert_repository, upsert_repositories, deactivate_repository,
  deactivate_repositories, sync_installation_repositories,
}
use pr_sentinel_backend.Repository.Events.{
  seed_installation, handle_action, handle_installation_event,
  handle_installation_repositories_event,
}

module _ ⦃p : Prisma⦄ where
  -- The installation row with this id is there.
  abbrev pub HasInstallation : ℕ → Db → Type 0
  HasInstallation id db = has (λ i. i.id) id db.installations ≡ true

  pub delete_installation-IsLinked :
      (github_id : ℕ) (db : Db) → IsLinked db → IsLinked (delete_installation github_id db)
  unfolding delete_installation
  delete_installation-IsLinked github_id db linked =
      elim (Option-cases (find_installation_by_github_id github_id db)) [
        | inl e ↦ rw (e, delete_installation) linked
        | inr (i, e) ↦ rw (e, delete_installation) (delete_cascade-IsLinked github_id db linked)
      ]

module _ ⦃p : Prisma⦄ (now : ℕ) where
  -- A write of the flag.
  flagged-IsLinked :
      (github_id : ℕ) (flag : Bool) (db : Db)
      → IsLinked db
      → IsLinked (record db {
        installations =
            p.update_many
              (λ i. i.github_installation_id == github_id)
              (set_suspended now flag)
              db.installations;
      })
  flagged-IsLinked github_id flag db =
      with_installations-IsLinked db
        (p.update_many (λ i. i.github_installation_id == github_id) (set_suspended now flag)
          db.installations)
        (Covers-update_many (λ i. i.id) (λ i. i.github_installation_id == github_id)
          (set_suspended now flag) db.installations (λ i. refl))

  created-IsLinked :
      (i : Installation) (db : Db)
      → IsLinked db
      → IsLinked (record db { installations = p.create i db.installations })
  created-IsLinked i db =
      with_installations-IsLinked db (p.create i db.installations)
        (Covers-create (λ i. i.id) i db.installations)

  pub suspend_installation-IsLinked :
      (github_id : ℕ) (db : Db) → IsLinked db → IsLinked (suspend_installation now github_id db)
  unfolding suspend_installation
  suspend_installation-IsLinked github_id db linked =
      elim (Option-cases (find_installation_by_github_id github_id db)) [
        | inl e ↦
            rw (e, suspend_installation)
              (created-IsLinked (new_installation now db github_id none none none true) db linked)
        | inr (i, e) ↦ rw (e, suspend_installation) (flagged-IsLinked github_id true db linked)
      ]

  pub unsuspend_installation-IsLinked :
      (github_id : ℕ) (db : Db) → IsLinked db → IsLinked (unsuspend_installation now github_id db)
  unfolding unsuspend_installation
  unsuspend_installation-IsLinked github_id db linked =
      elim (Option-cases (find_installation_by_github_id github_id db)) [
        | inl e ↦ rw (e, unsuspend_installation) linked
        | inr (i, e) ↦ rw (e, unsuspend_installation) (flagged-IsLinked github_id false db linked)
      ]

  -- The row that an upsert of an installation returns is there, and the keys still lead to rows.
  pub upsert_installation-IsLinked :
      (github_id : ℕ) (user_id : Option ℕ) (db : Db)
      → IsLinked db
      → let (row, db') = upsert_installation now github_id user_id db in
        IsLinked db' × HasInstallation row.id db'
  unfolding upsert_installation
  upsert_installation-IsLinked github_id user_id db linked =
      let new = new_installation now db github_id user_id none none false in
      let f : Installation → Installation = λ i. record i { suspended = false; updated_at = now } in
      (
        with_installations-IsLinked db
            (upsert_installation now github_id user_id db).1.installations
            (Covers-upsert (λ i. i.id) (λ i. i.github_installation_id) github_id new f (λ i. refl)
              db.installations)
            linked,
        has-upsert (λ i. i.id) (λ i. i.github_installation_id) github_id new f (λ i. refl)
            db.installations,
      )

  pub find_or_create_installation-IsLinked :
      (github_id : ℕ) (db : Db)
      → IsLinked db
      → let (row, db') = find_or_create_installation now github_id db in
        IsLinked db' × HasInstallation row.id db'
  unfolding find_or_create_installation
  find_or_create_installation-IsLinked github_id db linked =
      elim (Option-cases (find_installation_by_github_id github_id db)) [
        | inl e ↦
            let new = new_installation now db github_id none none none false in
            rw (e, find_or_create_installation)
              (created-IsLinked new db linked, has-create (λ i. i.id) new db.installations)
        | inr (i, e) ↦
            rw (e, find_or_create_installation)
              (
                linked,
                has-found (λ i. i.id) (λ i. i.github_installation_id == github_id) db.installations
                    e,
              )
      ]

  pub upsert_installation_with_user-IsLinked :
      (github_id user_id : ℕ) (login avatar : String) (db : Db)
      → IsLinked db
      → let (row, db') = upsert_installation_with_user now github_id user_id login avatar db in
        IsLinked db' × HasInstallation row.id db'
  unfolding upsert_installation_with_user claim_installation relink_installation
  upsert_installation_with_user-IsLinked github_id user_id login avatar db linked =
      let new = new_installation now db github_id (some user_id) (some login) (some avatar) false in
      let claims = is_unclaimed (find_installation_by_github_id github_id db) in
      let f : Installation → Installation =
        if claims
        then claim_installation now user_id login avatar
        else relink_installation now login avatar in
      let same : (i : Installation) → (f i).id ≡ i.id = λ i.
        if_both (λ (g : Installation → Installation). (g i).id ≡ i.id) claims
          (claim_installation now user_id login avatar) (relink_installation now login avatar) refl
          refl in
      (
        with_installations-IsLinked db
            (upsert_installation_with_user now github_id user_id login avatar db).1.installations
            (Covers-upsert (λ i. i.id) (λ i. i.github_installation_id) github_id new f same
              db.installations)
            linked,
        has-upsert (λ i. i.id) (λ i. i.github_installation_id) github_id new f same
            db.installations,
      )
