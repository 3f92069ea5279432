-- ===== src/Repository/Sync.antt =====
-- The synchronisation of one installation makes its active repositories exactly those that GitHub
-- returned.
use mathlib.Core.Option
use pr_sentinel_backend.Base.{
  ℕ, ◌≡◌, refl, sym, subst, ◌∙◌, inl, inr, Bool, true, false, not, ◌&&◌, ◌||◌, List, [], ◌∷◌, map,
  Option, none, some, arith, if◌then◌else◌, ◌==◌, ==_iff, ==_refl, Option-cases, Bool-cases, any,
  keep, find,
}
use pr_sentinel_backend.Prisma.{Prisma}
use pr_sentinel_backend.Prisma.Keyed.{upserted, find-update, find-upsert}
use pr_sentinel_backend.Schema.{Repository}
use pr_sentinel_backend.Database.{Db}
use pr_sentinel_backend.Repository.Repositories.{
  RepoInfo, find_by_github_repo_id, new_repository, refresh_repository, upsert_repository,
  upsert_repositories, set_inactive, deactivate_repository, deactivate_repositories, is_returned,
  stale_repositories, fetched, sync_installation_repositories,
}

module _ ⦃p : Prisma⦄ where
  abbrev pub active_row : ℕ → Option Repository → Bool
  active_row id none = false
  active_row id (some r) = r.installation_id == id && r.is_active

  -- The repository with this GitHub id is an active one of the installation row `id`.
  abbrev pub active_in : ℕ → ℕ → Db → Bool
  active_in id j db = active_row id (find_by_github_repo_id j db)

module _ ⦃p : Prisma⦄ (now : ℕ) where
  abbrev pub upserted_repository : ℕ → RepoInfo → Db → Repository
  upserted_repository id repo db =
      upserted (find_by_github_repo_id repo.id db) (new_repository now db id repo)
        (refresh_repository now id repo)

  pub find-upsert_repository :
      (j id : ℕ) (repo : RepoInfo) (db : Db)
      → find_by_github_repo_id j (upsert_repository now id repo db).1 ≡ (
          if j == repo.id
          then some (upserted_repository id repo db)
          else find_by_github_repo_id j db)
  unfolding upsert_repository
  find-upsert_repository j id repo db =
      find-upsert _ repo.id _ (λ r. refl) j (new_repository now db id repo) db.repositories refl

  pub find-deactivate_repository :
      (j k : ℕ) (db : Db)
      → find_by_github_repo_id j (deactivate_repository now k db) ≡ (
          if j == k
          then Option.map (set_inactive now) (find_by_github_repo_id j db)
          else find_by_github_repo_id j db)
  unfolding deactivate_repository
  find-deactivate_repository j k db = elim (Option-cases (find_by_github_repo_id k db)) [
    | inl e ↦
        rw (e, deactivate_repository)
          (elim (Bool-cases (j == k)) [
            | inl same ↦ rw (
              same,
              subst (λ (n : ℕ). find_by_github_repo_id n db ≡ none) (sym ((==_iff j k).0 same)) e,
            )
            | inr other ↦ rw other
          ])
    | inr (r, e) ↦
        rw (e, deactivate_repository)
          (find-update _ k (set_inactive now) (λ r. refl) j db.repositories)
  ]

  active_in-upsert_repository :
      (j id : ℕ) (repo : RepoInfo) (db : Db)
      → active_in id j (upsert_repository now id repo db).1 ≡ (repo.id == j) || active_in id j db
  unfolding new_repository refresh_repository
  active_in-upsert_repository j id repo db =
      rw (find-upsert_repository j id repo db) (elim (Bool-cases (j == repo.id)) [
        | inl same ↦ rw same (elim (Option-cases (find_by_github_repo_id repo.id db)) [
          | inl e ↦ rw (e, ==_refl id) (ground arith)
          | inr (r, e) ↦ rw (e, ==_refl id) (ground arith)
        ])
        | inr other ↦ rw other (ground arith)
      ])

  active_in-upsert_repositories :
      (j id : ℕ) (repos : List RepoInfo) (db : Db)
      → active_in id j (upsert_repositories now id repos db)
        ≡ is_returned repos j || active_in id j db
  unfolding upsert_repositories
  active_in-upsert_repositories j id [] db = refl
  active_in-upsert_repositories j id (repo ∷ repos) db =
      active_in-upsert_repositories j id repos (upsert_repository now id repo db).1
      ∙ rw (active_in-upsert_repository j id repo db) (ground arith)

  active_in-deactivate_repository :
      (j id k : ℕ) (db : Db)
      → active_in id j (deactivate_repository now k db) ≡ active_in id j db && not (k == j)
  active_in-deactivate_repository j id k db =
      rw (find-deactivate_repository j k db) (elim (Option-cases (find_by_github_repo_id j db)) [
        | inl e ↦ rw e (ground arith)
        | inr (r, e) ↦ rw e (ground arith)
      ])

  active_in-deactivate_repositories :
      (j id : ℕ) (ks : List ℕ) (db : Db)
      → active_in id j (deactivate_repositories now ks db)
        ≡ active_in id j db && not (any (λ k. k == j) ks)
  unfolding deactivate_repositories
  active_in-deactivate_repositories j id [] db = ground arith
  active_in-deactivate_repositories j id (k ∷ ks) db =
      active_in-deactivate_repositories j id ks (deactivate_repository now k db)
      ∙ rw (active_in-deactivate_repository j id k db) (ground arith)

module _ (id j : ℕ) (repos : List RepoInfo) where
  abbrev stale_ids : List Repository → List ℕ
  stale_ids rows =
      map (λ r. r.github_repo_id)
        (keep (λ r. not (is_returned repos r.github_repo_id))
          (keep (λ r. r.installation_id == id && r.is_active) rows))

  stale_ids-returned :
      (rows : List Repository)
      → is_returned repos j ≡ true
      → any (λ k. k == j) (stale_ids rows) ≡ false
  stale_ids-returned [] h = refl
  stale_ids-returned (r ∷ rows) h = elim (Bool-cases (r.github_repo_id == j)) [
    | inl same ↦
        let k : r.github_repo_id ≡ j = (==_iff r.github_repo_id j).0 same in
        let ret : is_returned repos r.github_repo_id ≡ true = rw k h in
        ground (arith, ret, stale_ids-returned rows h)
    | inr other ↦ ground (arith, other, stale_ids-returned rows h)
  ]

  stale_ids-active :
      (rows : List Repository)
      → is_returned repos j ≡ false
      → (r : Repository) → find (λ r. r.github_repo_id == j) rows ≡ some r
      → (r.installation_id == id && r.is_active) ≡ true
      → any (λ k. k == j) (stale_ids rows) ≡ true
  stale_ids-active [] h r e a = cc
  stale_ids-active (x ∷ rows) h r e a = elim (Bool-cases (x.github_repo_id == j)) [
    | inl same ↦
        let k : x.github_repo_id ≡ j = (==_iff x.github_repo_id j).0 same in
        let ret : is_returned repos x.github_repo_id ≡ false = rw k h in ground (arith, ret)
    | inr other ↦
        let rest : find (λ r. r.github_repo_id == j) rows ≡ some r = rw other at e in
        ground (arith, other, stale_ids-active rows h r rest a)
  ]

module _ ⦃p : Prisma⦄ (now : ℕ) where
  -- After a synchronisation the active repositories of the installation are exactly those that
  -- GitHub returned: every returned one is active there, and every other one is not.
  pub active_in-sync_installation_repositories :
      (id j : ℕ) (github_repos : Option (List RepoInfo)) (db : Db)
      → active_in id j (sync_installation_repositories now id github_repos db).1
        ≡ is_returned (fetched github_repos) j
  unfolding sync_installation_repositories
  active_in-sync_installation_repositories id j github_repos db =
      active_in-deactivate_repositories now j id (stale_repositories id repos upserted) upserted
      ∙ elim (Bool-cases (is_returned repos j)) [
        | inl listed ↦
            rw (active_in-upsert_repositories now j id repos db, listed)
              (rw (stale_ids-returned id j repos (p.rows upserted.repositories) listed))
        | inr missing ↦ elim (Option-cases (find_by_github_repo_id j upserted)) [
          | inl e ↦ rw (e, missing)
          | inr (r, e) ↦ elim (Bool-cases (r.installation_id == id && r.is_active)) [
            | inl a ↦
                rw (e, missing, a)
                  (rw (stale_ids-active id j repos (p.rows upserted.repositories) missing r e a))
            | inr a ↦ rw (e, missing, a)
          ]
        ]
      ]
    where
      repos : List RepoInfo
      repos = fetched github_repos

      upserted : Db
      upserted = upsert_repositories now id repos db
