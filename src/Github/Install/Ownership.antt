-- ===== src/Github/Install/Ownership.antt =====
-- Who can link an installation, over all paths of the install flow.
use pr_sentinel_backend.Base.{
  ℕ, String, ◌≡◌, ◌≢◌, refl, sym, ap, ◌∙◌, inl, inr, true, false, Option, none, some, arith,
  if◌then◌else◌, ◌==◌, ==_iff, or_option, or_else, List, Bool-cases, Option-cases,
}
use pr_sentinel_backend.Base.Text.{configured}
use pr_sentinel_backend.Errors.{Exception, Result, ok, err, Result-cases, forbidden, unauthorized}
use pr_sentinel_backend.Prisma.{Prisma}
use pr_sentinel_backend.Schema.{Installation}
use pr_sentinel_backend.Database.{Db}
use pr_sentinel_backend.Redis.{RedisClient, Json}
use pr_sentinel_backend.Redis.States.{InstallStatePayload}
use pr_sentinel_backend.Repository.Installations.{
  find_installation_by_github_id, upsert_installation_with_user,
}
use pr_sentinel_backend.Repository.Repositories.{SyncResult, RepoInfo}
use pr_sentinel_backend.Repository.Status.{Status, active, status, status_of}
use pr_sentinel_backend.Repository.Ownership.{
  owner, status-upsert_installation_with_user, status-sync,
}
use pr_sentinel_backend.Github.Service.{
  GithubApi, GithubInstallationInfo, verify_installation_with_github,
  list_installation_repositories,
}
use pr_sentinel_backend.Github.Install.{
  InstallationStatus, verification_error, already_connected, already_connected_reinstall,
  owned_by_other, verify_and_sync, claim_checked, claim_install, complete_with, complete_install,
  state_user, link_and_sync, try_sync,
}

-- The user of a known row, as its status tells it.
owner-status_of : (i : Installation) → owner (status_of (some i)) ≡ i.user_id
owner-status_of i = elim (Bool-cases i.suspended) [ inl e ↦ rw e | inr e ↦ rw e ]

owned_by_other-owned :
    (u v : ℕ) (o : Option Installation)
    → owner (status_of o) ≡ some v
    → v ≢ u
    → owned_by_other u o ≡ true
owned_by_other-owned u v none h other = cc
owned_by_other-owned u v (some i) h other =
    let e : i.user_id ≡ some v = sym (owner-status_of i) ∙ h in rw e (ground arith)

owned_by_other-free :
    (u : ℕ) (o : Option Installation)
    → owned_by_other u o ≡ false
    → or_option (owner (status_of o)) (some u) ≡ some u
owned_by_other-free u none h = refl
owned_by_other-free u (some i) h = rw (owner-status_of i) (elim (Option-cases i.user_id) [
  | inl e ↦ rw e
  | inr (v, e) ↦ let same : v ≡ u = (==_iff v u).0 (ground (arith, rw e at h)) in rw (e, same)
])

module _ ⦃p : Prisma⦄ where
  -- The answer is an exception, and the database is as before.
  abbrev pub IsRefused : Db → Option (Result InstallationStatus × Db) → Type 0
  IsRefused db r = (e : Exception) × (r ≡ some (err e, db))

module _ ⦃p : Prisma⦄ (api : GithubApi) (fuel now : ℕ) where
  module _ (k u v : ℕ) (db : Db) (owned : owner (status k db) ≡ some v) (other : v ≢ u) where
    verify_and_sync-owned : IsRefused db (verify_and_sync api fuel now k u db)
    unfolding verify_and_sync
    verify_and_sync-owned = elim (Result-cases (verify_installation_with_github api k)) [
      | inl (e, h) ↦ (verification_error e, rw (h, verify_and_sync))
      | inr (info, h) ↦ (
        forbidden already_connected_reinstall,
        rw (
          h,
          owned_by_other-owned u v (find_installation_by_github_id k db) owned other,
          verify_and_sync,
        ),
      )
    ]

    claim_checked-owned : IsRefused db (claim_checked api fuel now k u db)
    unfolding claim_checked
    claim_checked-owned = (
      forbidden already_connected,
      rw (
        owned_by_other-owned u v (find_installation_by_github_id k db) owned other,
        claim_checked,
      ),
    )

  -- What the synchronisation returns has the statuses from before it.
  status-try_sync :
      (j id k : ℕ) (db : Db) (r : SyncResult × Db)
      → try_sync api fuel now id k db ≡ some r
      → status j r.1 ≡ status j db
  unfolding try_sync
  status-try_sync j id k db r h = go (list_installation_repositories api fuel k) refl
    where
      status_in : Option (SyncResult × Db) → Status
      status_in o = status j (or_else o r).1

      go :
          (o : Option (Result (List RepoInfo)))
          → list_installation_repositories api fuel k ≡ o
          → status j r.1 ≡ status j db
      go none e = cc (rw (e, try_sync) at h)
      go (some (err x)) e = ap status_in (sym (rw (e, try_sync) at h))
      go (some (ok repos)) e =
          ap status_in (sym (rw (e, try_sync) at h)) ∙ status-sync now j id (some repos) db

  module _ (j k u : ℕ) (db : Db) (answer : InstallationStatus) (after : Db) where
    -- What a success says of the statuses.
    abbrev IsLinked : Type 0
    IsLinked = status j after ≡ (if j == k then active (some u) else status j db)

    status-link_and_sync :
        (info : GithubInstallationInfo)
        → owned_by_other u (find_installation_by_github_id k db) ≡ false
        → link_and_sync api fuel now k u info db ≡ some (ok answer, after)
        → IsLinked
    unfolding link_and_sync
    status-link_and_sync info free h = go (try_sync api fuel now row.id k linked) refl
      where
        row : Installation
        row =
            (upsert_installation_with_user now k u info.account_login info.account_avatar_url db).0

        linked : Db
        linked =
            (upsert_installation_with_user now k u info.account_login info.account_avatar_url db).1

        status_in : Option (Result InstallationStatus × Db) → Status
        status_in none = status j after
        status_in (some r) = status j r.1

        go : (o : Option (SyncResult × Db)) → try_sync api fuel now row.id k linked ≡ o → IsLinked
        go none e = cc (rw (e, link_and_sync) at h)
        go (some r) e =
            ap status_in (sym (rw (e, link_and_sync) at h))
            ∙ status-try_sync j row.id k linked r e
            ∙ rw (
              status-upsert_installation_with_user now j k u info.account_login
                  info.account_avatar_url db,
              owned_by_other-free u (find_installation_by_github_id k db) free,
            )

    status-verify_and_sync :
        verify_and_sync api fuel now k u db ≡ some (ok answer, after) → IsLinked
    unfolding verify_and_sync
    status-verify_and_sync h = elim (Result-cases (verify_installation_with_github api k)) [
      | inl (e, x) ↦ cc (rw (x, verify_and_sync) at h)
      | inr (info, x) ↦ elim (Bool-cases (owned_by_other u (find_installation_by_github_id k db))) [
        | inl owned ↦ cc (rw (x, owned, verify_and_sync) at h)
        | inr free ↦ status-link_and_sync info free (rw (x, free, verify_and_sync) at h)
      ]
    ]

    status-claim_checked : claim_checked api fuel now k u db ≡ some (ok answer, after) → IsLinked
    unfolding claim_checked
    status-claim_checked h =
        elim (Bool-cases (owned_by_other u (find_installation_by_github_id k db))) [
          | inl owned ↦ cc (rw (owned, claim_checked) at h)
          | inr free ↦ status-verify_and_sync (rw (free, claim_checked) at h)
        ]

  module _ (parse_id : String → Option ℕ) where
    complete_with-owned :
        (state_user_id : Option ℕ) (k u v : ℕ) (db : Db)
        → owner (status k db) ≡ some v
        → v ≢ u
        → IsRefused db (complete_with api fuel now parse_id state_user_id k u db)
    unfolding complete_with
    complete_with-owned none k u v db owned other = claim_checked-owned k u v db owned other
    complete_with-owned (some s) k u v db owned other = elim (Bool-cases (u == s)) [
      | inl same ↦
          rw (same, ← (==_iff u s).0 same, complete_with)
            (verify_and_sync-owned k u v db owned other)
      | inr differ ↦ (
        unauthorized "Session mismatch. Please log in again and retry.",
        rw (differ, complete_with),
      )
    ]

    status-complete_with :
        (state_user_id : Option ℕ) (j k u : ℕ) (db : Db) (answer : InstallationStatus) (after : Db)
        → complete_with api fuel now parse_id state_user_id k u db ≡ some (ok answer, after)
        → IsLinked j k u db answer after
    unfolding complete_with
    status-complete_with none j k u db answer after h = status-claim_checked j k u db answer after h
    status-complete_with (some s) j k u db answer after h = elim (Bool-cases (u == s)) [
      | inl same ↦
          status-verify_and_sync j k u db answer after
            (rw (same, ← (==_iff u s).0 same, complete_with) at h)
      | inr differ ↦ cc (rw (differ, complete_with) at h)
    ]

    module _ (raw_id : Option String) (raw : String) (k : ℕ) (given : configured raw_id ≡ some raw)
        (parsed : parse_id raw ≡ some k) where
      -- An installation that another user owns cannot be claimed: the claim is refused with an
      -- exception, and the database stays as it is.
      pub claim_install-owned :
          (u v : ℕ) (db : Db)
          → owner (status k db) ≡ some v
          → v ≢ u
          → IsRefused db (claim_install api fuel now parse_id u raw_id db)
      unfolding claim_install
      claim_install-owned u v db owned other =
          rw (given, claim_install)
            (rw (parsed, claim_install) (claim_checked-owned k u v db owned other))

      -- A claim that succeeds leaves the installation active and owned by its user, and every other
      -- installation with the status that it had.
      pub status-claim_install :
          (j u : ℕ) (db : Db) (answer : InstallationStatus) (after : Db)
          → claim_install api fuel now parse_id u raw_id db ≡ some (ok answer, after)
          → status j after ≡ (if j == k then active (some u) else status j db)
      unfolding claim_install
      status-claim_install j u db answer after h =
          status-claim_checked j k u db answer after (rw (given, parsed, claim_install) at h)

      module _ ⦃r : RedisClient⦄ (json : Json InstallStatePayload) where
        -- No install state helps to take over an installation that another user owns: whatever state
        -- the completion is called with and whatever Redis holds, it is refused with an exception,
        -- and the database stays as it is.
        pub complete_install-owned :
            (u v : ℕ) (state : Option String) (db : Db) (store : r.Store)
            → owner (status k db) ≡ some v
            → v ≢ u
            → IsRefused db (complete_install api fuel now parse_id json u raw_id state db store).0
        unfolding complete_install
        complete_install-owned u v state db store owned other =
            rw (given, complete_install)
              (rw (parsed, complete_install)
                (complete_with-owned (state_user api fuel now parse_id json state store).0 k u v db
                  owned other))

        -- A completion that succeeds leaves the installation active and owned by the user of the
        -- request, and every other installation with the status that it had.
        pub status-complete_install :
            (j u : ℕ) (state : Option String) (db : Db) (store : r.Store)
            (answer : InstallationStatus) (after : Db)
            → (complete_install api fuel now parse_id json u raw_id state db store).0
              ≡ some (ok answer, after)
            → status j after ≡ (if j == k then active (some u) else status j db)
        unfolding complete_install
        status-complete_install j u state db store answer after h =
            status-complete_with (state_user api fuel now parse_id json state store).0 j k u db
              answer after (rw (given, parsed, complete_install) at h)
