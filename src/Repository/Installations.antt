-- ===== src/Repository/Installations.antt =====
-- Installations of src/repository/repository.service.ts: lookups, upserts, deletion and the
-- suspended flag. Log lines are left out; `now` is the time that `new Date()` and the defaults of
-- the schema read.
use pr_sentinel_backend.Base.{
  ℕ, String, Bool, true, false, not, ◌&&◌, Option, none, some, length, is_some, if◌then◌else◌, ◌==◌,
}
use pr_sentinel_backend.Prisma.{Prisma, find_first, find_many, new_id}
use pr_sentinel_backend.Prisma.Keyed.{find_unique, update, upsert}
use pr_sentinel_backend.Schema.{Installation}
use pr_sentinel_backend.Database.{Db, belongs_to, delete_cascade}

-- `existing?.userId == null`
unfoldable pub is_unclaimed : Option Installation → Bool
is_unclaimed none = true
is_unclaimed (some i) = not (is_some i.user_id)

module _ (now : ℕ) where
  -- `data: { suspended, updatedAt }`
  abbrev pub set_suspended : Bool → Installation → Installation
  set_suspended suspended i = record i { suspended = suspended; updated_at = now }

  -- The two forms of the `update` data of `upsertInstallationWithUser`.
  unfoldable pub claim_installation : ℕ → String → String → Installation → Installation
  claim_installation user_id login avatar i = record i {
    user_id = some user_id;
    account_login = some login;
    account_avatar_url = some avatar;
    suspended = false;
    updated_at = now;
  }

  unfoldable pub relink_installation : String → String → Installation → Installation
  relink_installation login avatar i = record i {
    account_login = some login;
    account_avatar_url = some avatar;
    suspended = false;
    updated_at = now;
  }

module _ ⦃p : Prisma⦄ where
  -- `findInstallationByGithubId`
  abbrev pub find_installation_by_github_id : ℕ → Db → Option Installation
  find_installation_by_github_id github_id db =
      find_unique (λ i. i.github_installation_id) github_id db.installations

  -- `deleteInstallation`
  unfoldable pub delete_installation : ℕ → Db → Db
  delete_installation github_id db = elim (find_installation_by_github_id github_id db) [
    | none ↦ db
    | some existing ↦ delete_cascade github_id db
  ]

  -- `findInstallationByUserId`, with the count of active repositories that it includes.
  unfoldable pub find_installation_by_user_id : ℕ → Db → Option (Installation × ℕ)
  find_installation_by_user_id user_id db =
      elim (find_first (belongs_to user_id) db.installations) [
        | none ↦ none
        | some i ↦
            some (
              i,
              length (find_many (λ r. r.installation_id == i.id && r.is_active) db.repositories),
            )
      ]

module _ ⦃p : Prisma⦄ (now : ℕ) where
  -- A new installation row with the defaults of the schema.
  unfoldable pub new_installation :
      Db → ℕ → Option ℕ → Option String → Option String → Bool → Installation
  new_installation db github_id user_id login avatar suspended = record {
    id = new_id (λ i. i.id) db.installations;
    github_installation_id = github_id;
    account_login = login;
    account_avatar_url = avatar;
    suspended = suspended;
    user_id = user_id;
    created_at = now;
    updated_at = now;
  }

  -- `upsertInstallation`
  unfoldable pub upsert_installation : ℕ → Option ℕ → Db → Installation × Db
  unfolding new_installation
  upsert_installation github_id user_id db =
      let (row, t) =
        upsert (λ i. i.github_installation_id) github_id
          (new_installation db github_id user_id none none false)
          (λ i. record i { suspended = false; updated_at = now }) db.installations in
      (row, record db { installations = t })

  -- `suspendInstallation`
  unfoldable pub suspend_installation : ℕ → Db → Db
  unfolding new_installation
  suspend_installation github_id db = elim (find_installation_by_github_id github_id db) [
    | none ↦ record db {
      installations = p.create (new_installation db github_id none none none true) db.installations;
    }
    | some existing ↦ record db {
      installations =
          update (λ i. i.github_installation_id) github_id (set_suspended now true)
            db.installations;
    }
  ]

  -- `unsuspendInstallation`
  unfoldable pub unsuspend_installation : ℕ → Db → Db
  unsuspend_installation github_id db = elim (find_installation_by_github_id github_id db) [
    | none ↦ db
    | some existing ↦ record db {
      installations =
          update (λ i. i.github_installation_id) github_id (set_suspended now false)
            db.installations;
    }
  ]

  -- `upsertInstallationWithUser`
  unfoldable pub upsert_installation_with_user : ℕ → ℕ → String → String → Db → Installation × Db
  unfolding new_installation claim_installation relink_installation is_unclaimed
  upsert_installation_with_user github_id user_id login avatar db =
      let existing = find_installation_by_github_id github_id db in
      let (row, t) =
        upsert (λ i. i.github_installation_id) github_id
          (new_installation db github_id (some user_id) (some login) (some avatar) false)
          (if is_unclaimed existing
            then claim_installation now user_id login avatar
            else relink_installation now login avatar)
          db.installations in
      (row, record db { installations = t })

  -- The installation row of an `installation_repositories` event, or a placeholder.
  unfoldable pub find_or_create_installation : ℕ → Db → Installation × Db
  unfolding new_installation
  find_or_create_installation github_id db = elim (find_installation_by_github_id github_id db) [
    | none ↦
        let row = new_installation db github_id none none none false in
        (row, record db { installations = p.create row db.installations })
    | some existing ↦ (existing, db)
  ]
