-- ===== src/Github/Install/Links.antt =====
-- The install flow and the synchronisation route leave no foreign key that leads nowhere.
use pr_sentinel_backend.Base.{
  ℕ, String, inl, inr, Option, none, some, ◌==◌, Option-cases, Bool-cases,
}
use pr_sentinel_backend.Base.Text.{configured}
use pr_sentinel_backend.Errors.{Result-cases}
use pr_sentinel_backend.Prisma.{Prisma, find_first}
use pr_sentinel_backend.Prisma.Orders.{Orders}
use pr_sentinel_backend.Schema.{Installation}
use pr_sentinel_backend.Database.{Db, belongs_to}
use pr_sentinel_backend.Database.Links.{has-found}
use pr_sentinel_backend.Database.Links.Tables.{IsLinked}
use pr_sentinel_backend.Github.Service.{
  GithubApi, GithubInstallationInfo, verify_installation_with_github,
  list_installation_repositories,
}
use pr_sentinel_backend.Redis.{RedisClient, Json}
use pr_sentinel_backend.Redis.States.{InstallStatePayload}
use pr_sentinel_backend.Repository.Installations.{
  find_installation_by_github_id, find_installation_by_user_id, upsert_installation_with_user,
}
use pr_sentinel_backend.Repository.Links.{HasInstallation, upsert_installation_with_user-IsLinked}
use pr_sentinel_backend.Repository.Links.Repositories.{sync_installation_repositories-IsLinked}
use pr_sentinel_backend.Github.Install.{
  owned_by_other, try_sync, link_and_sync, verify_and_sync, claim_checked, claim_install,
  complete_with, state_user, complete_install,
}
use pr_sentinel_backend.Routes.Installations.{sync_connected, sync_installation}

module _ ⦃p : Prisma⦄ where
  -- The database after an answer; without one, it is as before.
  abbrev pub db_after : {A : Type 0} → Option (A × Db) → Db → Db
  db_after none db = db
  db_after (some (a, db')) db = db'

module _ ⦃p : Prisma⦄ (api : GithubApi) (fuel now : ℕ) where
  try_sync-IsLinked :
      (id github_id : ℕ) (db : Db)
      → HasInstallation id db
      → IsLinked db
      → IsLinked (db_after (try_sync api fuel now id github_id db) db)
  unfolding try_sync
  try_sync-IsLinked id github_id db there linked =
      elim (Option-cases (list_installation_repositories api fuel github_id)) [
        | inl e ↦ rw (e, try_sync) linked
        | inr (answer, e) ↦ elim (Result-cases answer) [
          | inl (x, fails) ↦ rw (e, try_sync) (rw fails linked)
          | inr (repos, works) ↦
              rw (e, try_sync)
                (rw works
                  (sync_installation_repositories-IsLinked now id (some repos) db there linked))
        ]
      ]

  link_and_sync-IsLinked :
      (github_id user_id : ℕ) (info : GithubInstallationInfo) (db : Db)
      → IsLinked db
      → IsLinked (db_after (link_and_sync api fuel now github_id user_id info db) db)
  unfolding link_and_sync
  link_and_sync-IsLinked github_id user_id info db linked =
      let (row, db') =
        upsert_installation_with_user now github_id user_id info.account_login
          info.account_avatar_url db in
      let (linked', there) =
        upsert_installation_with_user-IsLinked now github_id user_id info.account_login
          info.account_avatar_url db linked in
      let synced = try_sync-IsLinked row.id github_id db' there linked' in
      elim (Option-cases (try_sync api fuel now row.id github_id db')) [
        | inl e ↦ rw (e, link_and_sync) linked
        | inr (r, e) ↦ rw (e, link_and_sync) (rw e at synced)
      ]

  verify_and_sync-IsLinked :
      (github_id user_id : ℕ) (db : Db)
      → IsLinked db
      → IsLinked (db_after (verify_and_sync api fuel now github_id user_id db) db)
  unfolding verify_and_sync
  verify_and_sync-IsLinked github_id user_id db linked =
      elim (Result-cases (verify_installation_with_github api github_id)) [
        | inl (x, fails) ↦ rw (fails, verify_and_sync) linked
        | inr (info, works) ↦
            elim (Bool-cases
              (owned_by_other user_id (find_installation_by_github_id github_id db))) [
                | inl other ↦ rw (works, verify_and_sync) (rw other linked)
                | inr free ↦
                    rw (works, verify_and_sync)
                      (rw free (link_and_sync-IsLinked github_id user_id info db linked))
              ]
      ]

  claim_checked-IsLinked :
      (github_id user_id : ℕ) (db : Db)
      → IsLinked db
      → IsLinked (db_after (claim_checked api fuel now github_id user_id db) db)
  unfolding claim_checked
  claim_checked-IsLinked github_id user_id db linked =
      elim (Bool-cases (owned_by_other user_id (find_installation_by_github_id github_id db))) [
        | inl other ↦ rw (other, claim_checked) linked
        | inr free ↦ rw (free, claim_checked) (verify_and_sync-IsLinked github_id user_id db linked)
      ]

  module _ (parse_id : String → Option ℕ) where
    pub claim_install-IsLinked :
        (user_id : ℕ) (raw : Option String) (db : Db)
        → IsLinked db
        → IsLinked (db_after (claim_install api fuel now parse_id user_id raw db) db)
    unfolding claim_install
    claim_install-IsLinked user_id raw db linked = elim (Option-cases (configured raw)) [
      | inl e ↦ rw (e, claim_install) linked
      | inr (given, e) ↦ elim (Option-cases (parse_id given)) [
        | inl e' ↦ rw (e, claim_install) (rw e' linked)
        | inr (github_id, e') ↦
            rw (e, claim_install) (rw e' (claim_checked-IsLinked github_id user_id db linked))
      ]
    ]

    complete_with-IsLinked :
        (owner : Option ℕ) (github_id user_id : ℕ) (db : Db)
        → IsLinked db
        → IsLinked (db_after (complete_with api fuel now parse_id owner github_id user_id db) db)
    unfolding complete_with
    complete_with-IsLinked none github_id user_id db linked =
        claim_checked-IsLinked github_id user_id db linked
    complete_with-IsLinked (some state_user_id) github_id user_id db linked =
        elim (Bool-cases (user_id == state_user_id)) [
          | inl own ↦
              rw (own, complete_with) (verify_and_sync-IsLinked github_id state_user_id db linked)
          | inr other ↦ rw (other, complete_with) linked
        ]

    pub complete_install-IsLinked :
        ⦃r : RedisClient⦄ (json : Json InstallStatePayload) (user_id : ℕ)
        (raw state : Option String) (db : Db) (store : r.Store)
        → IsLinked db
        → IsLinked
            (db_after (complete_install api fuel now parse_id json user_id raw state db store).0 db)
    unfolding complete_install
    complete_install-IsLinked json user_id raw state db store linked =
        elim (Option-cases (configured raw)) [
          | inl e ↦ rw (e, complete_install) linked
          | inr (given, e) ↦ elim (Option-cases (parse_id given)) [
            | inl e' ↦ rw (e, complete_install) (rw e' linked)
            | inr (github_id, e') ↦
                rw (e, complete_install)
                  (rw e' (
                    complete_with-IsLinked (state_user api fuel now parse_id json state store).0
                      github_id user_id db linked))
          ]
        ]

  module _ ⦃o : Orders⦄ where
    sync_connected-IsLinked :
        (i : Installation) (user_id : ℕ) (db : Db)
        → HasInstallation i.id db
        → IsLinked db
        → IsLinked (db_after (sync_connected api fuel now i user_id db) db)
    unfolding sync_connected
    sync_connected-IsLinked i user_id db there linked =
        elim (Option-cases (list_installation_repositories api fuel i.github_installation_id)) [
          | inl e ↦ rw (e, sync_connected) linked
          | inr (answer, e) ↦ elim (Result-cases answer) [
            | inl (x, fails) ↦ rw (e, sync_connected) (rw fails linked)
            | inr (repos, works) ↦
                rw (e, sync_connected)
                  (rw works
                    (sync_installation_repositories-IsLinked now i.id (some repos) db there linked))
          ]
        ]

    pub sync_installation-IsLinked :
        (user_id : ℕ) (db : Db)
        → IsLinked db
        → IsLinked (db_after (sync_installation api fuel now user_id db) db)
    unfolding sync_installation find_installation_by_user_id
    sync_installation-IsLinked user_id db linked =
        elim (Option-cases (find_first (belongs_to user_id) db.installations)) [
          | inl e ↦ rw (e, sync_installation) linked
          | inr (i, e) ↦
              let there = has-found (λ x. x.id) (belongs_to user_id) db.installations e in
              elim (Bool-cases i.suspended) [
                | inl suspended ↦ rw (e, sync_installation) (rw suspended linked)
                | inr active ↦
                    rw (e, sync_installation)
                      (rw active (sync_connected-IsLinked i user_id db there linked))
              ]
        ]
