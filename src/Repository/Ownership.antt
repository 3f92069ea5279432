-- ===== src/Repository/Ownership.antt =====
-- Who owns an installation, over any history of webhook events, browser installs and syncs.
use pr_sentinel_backend.Base.{
  ℕ, String, ◌≡◌, ap, ◌∙◌, inl, inr, Bool, true, false, List, [], ◌∷◌, Option, none, some, arith,
  if◌then◌else◌, ◌==◌, ==_iff, or_option, Option-cases, Bool-cases, All,
}
use pr_sentinel_backend.Prisma.{Prisma}
use pr_sentinel_backend.Prisma.Keyed.{find_unique}
use pr_sentinel_backend.Database.{Db}
use pr_sentinel_backend.Payloads.{
  InstallationAction, created, deleted, suspend, unsuspend, new_permissions_accepted,
  InstallationWebhookPayload, InstallationRepositoriesWebhookPayload,
}
use pr_sentinel_backend.Repository.Installations.{
  find_installation_by_github_id, is_unclaimed, new_installation, claim_installation,
  relink_installation, upsert_installation_with_user,
}
use pr_sentinel_backend.Repository.Repositories.{RepoInfo, sync_installation_repositories}
use pr_sentinel_backend.Repository.Events.{
  handle_installation_event, handle_installation_repositories_event,
}
use pr_sentinel_backend.Repository.Lookups.{find-upsert_installation_with_user}
use pr_sentinel_backend.Repository.Status.{
  Status, absent, active, suspended, next, noticed, status, status_of, status_of_lookup,
  status-handle_installation_event, status-handle_installation_repositories_event,
  installations-upsert_repositories, installations-deactivate_repositories,
}

abbrev pub owner : Status → Option ℕ
owner absent = none
owner (active o) = o
owner (suspended o) = o

-- What the service is asked to do to installations.
pub data Change : Type 0 where
  event : InstallationWebhookPayload → Change
  repositories_event : InstallationRepositoriesWebhookPayload → Change
  link : (github_id user_id : ℕ) (login avatar : String) → Change
  sync : ℕ → Option (List RepoInfo) → Change

abbrev is_deletion : InstallationAction → Bool
is_deletion deleted = true
is_deletion _ = false

-- The change is an uninstall of the installation `k`.
abbrev pub deletes : ℕ → Change → Bool
deletes k (event payload) =
    if k == payload.installation.id then is_deletion payload.action else false
deletes k _ = false

module _ ⦃p : Prisma⦄ (now : ℕ) where
  pub apply : Change → Db → Db
  apply (event payload) db = handle_installation_event now payload none db
  apply (repositories_event payload) db = handle_installation_repositories_event now payload db
  apply (link k u login avatar) db = (upsert_installation_with_user now k u login avatar db).1
  apply (sync id repos) db = (sync_installation_repositories now id repos db).1

  pub run : List Change → Db → Db
  run [] db = db
  run (c ∷ cs) db = run cs (apply c db)

  -- A completed install makes the installation active. Its owner is the one that it had; only an
  -- installation without one gets the user. Every other installation keeps its status.
  pub status-upsert_installation_with_user :
      (j k user_id : ℕ) (login avatar : String) (db : Db)
      → status j (upsert_installation_with_user now k user_id login avatar db).1
        ≡ (if j == k then active (or_option (owner (status k db)) (some user_id)) else status j db)
  unfolding is_unclaimed claim_installation relink_installation new_installation
  status-upsert_installation_with_user j k user_id login avatar db =
      status_of_lookup j k _ _ _
        (find-upsert_installation_with_user now j k user_id login avatar db)
        (elim (Option-cases (find_installation_by_github_id k db)) [
          | inl e ↦ rw e
          | inr (i, e) ↦ rw e (ground arith)
        ])

  pub status-sync :
      (j id : ℕ) (repos : Option (List RepoInfo)) (db : Db)
      → status j (sync_installation_repositories now id repos db).1 ≡ status j db
  unfolding sync_installation_repositories
  status-sync j id repos db =
      ap (λ t. status_of (find_unique (λ i. i.github_installation_id) j t))
        (installations-deactivate_repositories now _ _
          ∙ installations-upsert_repositories now id _ db)

  owner-next :
      (a : InstallationAction) (s : Status) (u : ℕ)
      → is_deletion a ≡ false
      → owner s ≡ some u
      → owner (next none a s) ≡ some u
  unfolding next
  owner-next deleted s u h e = cc
  owner-next a absent u h e = cc
  owner-next suspend (active o) u h e = e
  owner-next suspend (suspended o) u h e = e
  owner-next unsuspend (active o) u h e = e
  owner-next unsuspend (suspended o) u h e = e
  owner-next created (active o) u h e = e
  owner-next created (suspended o) u h e = e
  owner-next new_permissions_accepted (active o) u h e = e
  owner-next new_permissions_accepted (suspended o) u h e = e

  owner-noticed : (s : Status) {u : ℕ} → owner s ≡ some u → owner (noticed s) ≡ some u
  owner-noticed absent e = cc
  owner-noticed (active o) e = e
  owner-noticed (suspended o) e = e

  owner-apply :
      (k u : ℕ) (c : Change) (db : Db)
      → deletes k c ≡ false
      → owner (status k db) ≡ some u
      → owner (status k (apply c db)) ≡ some u
  unfolding apply
  owner-apply k u (event payload) db h e =
      rw (status-handle_installation_event now k payload none db)
        (elim (Bool-cases (k == payload.installation.id)) [
          | inl same ↦ rw same (
              rw (← (==_iff k payload.installation.id).0 same)
                (owner-next payload.action (status k db) u (ground arith) e))
          | inr other ↦ rw other e
        ])
  owner-apply k u (repositories_event payload) db h e =
      rw (status-handle_installation_repositories_event now k payload db)
        (elim (Bool-cases (k == payload.installation.id)) [
          | inl same ↦
              rw (same, ← (==_iff k payload.installation.id).0 same) (owner-noticed (status k db) e)
          | inr other ↦ rw other e
        ])
  owner-apply k u (link j v login avatar) db h e =
      rw (status-upsert_installation_with_user k j v login avatar db) (elim (Bool-cases (k == j)) [
        | inl same ↦ rw same (rw (← (==_iff k j).0 same, e))
        | inr other ↦ rw other e
      ])
  owner-apply k u (sync id repos) db h e = rw (status-sync k id repos db) e

  -- Ownership is never transferred: whatever events, installs by other users and syncs follow, an
  -- owned installation keeps its owner as long as none of them uninstalls it.
  pub owner-run :
      (k u : ℕ) (cs : List Change) (db : Db)
      → All (λ c. deletes k c ≡ false) cs
      → owner (status k db) ≡ some u
      → owner (status k (run cs db)) ≡ some u
  unfolding run
  owner-run k u [] db h e = e
  owner-run k u (c ∷ cs) db h e = owner-run k u cs (apply c db) h.1 (owner-apply k u c db h.0 e)
