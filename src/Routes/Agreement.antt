-- ===== src/Routes/Agreement.antt =====
-- The two routes that list the pull requests of a repository agree.
use mathlib.Core.List.{Perm}
use mathlib.Core.List.Perm
use pr_sentinel_backend.Base.{
  ℕ, ◌≤◌, ◌≡◌, refl, ◌∙◌, sym, subst, inl, inr, Bool, true, false, ◌&&◌, List, [], map, none, some,
  arith, any, count, find-count_one, any-found, any-not_found, keep-same, keep-nothing, map-keep,
  find-passes, leb, ◌==◌, ==_iff, Bool-cases, Option-cases,
}
use pr_sentinel_backend.Errors.{Result, ok, err}
use pr_sentinel_backend.Prisma.{Prisma}
use pr_sentinel_backend.Prisma.Orders.{Orders, newest_first}
use pr_sentinel_backend.Schema.{Repository, PullRequest}
use pr_sentinel_backend.Database.{Db, repository_of_user, pull_request_of_user}
use pr_sentinel_backend.Repository.Repositories.{find_by_id_for_user}
use pr_sentinel_backend.PullRequest.{
  PullRequestFilters, passes_filters, find_by_repository, find_all_for_user,
}
use pr_sentinel_backend.Routes.Repositories.{
  repository_ref, PullRequestView, pull_request_view, repository_pull_requests,
}
use pr_sentinel_backend.Routes.PullRequests.{included_ref, list_pull_requests}

-- The query `repositoryId=id`.
abbrev pub of_repository : ℕ → PullRequestFilters
of_repository id = record { repository_id = some id; status = none; author = none; since = none }

-- What an answer shows, which is nothing where it is an error.
abbrev pub shown : Result (List PullRequestView) → List PullRequestView
shown (err e) = []
shown (ok views) = views

and_false : (b : Bool) → (b && false) ≡ false
and_false true = refl
and_false false = refl

and_true : (b : Bool) → (b && true) ≡ b
and_true true = refl
and_true false = refl

module _ ⦃p : Prisma⦄ (id user_id : ℕ) (db : Db) where
  abbrev in_repository : PullRequest → Bool
  in_repository pr = pr.repository_id == id

  abbrev own_repository : Repository → Bool
  own_repository r = r.id == id && repository_of_user db user_id r

  -- The test of the list is that of the repository, where the repository is the user's.
  tested :
      (pr : PullRequest)
      → (pull_request_of_user db user_id pr && passes_filters (of_repository id) pr)
        ≡ (in_repository pr && any own_repository (p.rows db.repositories))
  unfolding passes_filters pull_request_of_user
  tested pr = elim (Bool-cases (in_repository pr)) [
    | inr other ↦ rw other (and_false (pull_request_of_user db user_id pr))
    | inl same ↦ rw same (
        and_true (pull_request_of_user db user_id pr)
        ∙ subst
            (λ (k : ℕ).
              pull_request_of_user db user_id pr
              ≡ any (λ r. r.id == k && repository_of_user db user_id r) (p.rows db.repositories))
            ((==_iff pr.repository_id id).0 same) refl)
  ]

  -- The rows of the list, where the user has the repository, and where not.
  listed-own :
      {repo : Repository}
      → find_by_id_for_user id user_id db ≡ some repo
      → find_all_for_user user_id (of_repository id) db ≡ find_by_repository id db
  unfolding find_by_id_for_user find_all_for_user find_by_repository
  listed-own {repo} found =
      let owned = any-found own_repository (p.rows db.repositories) {x = repo} found in
      keep-same (λ pr. pull_request_of_user db user_id pr && passes_filters (of_repository id) pr)
        in_repository (p.rows db.pull_requests)
        (λ pr. tested pr ∙ rw owned (and_true (in_repository pr)))

  listed-foreign :
      find_by_id_for_user id user_id db ≡ none
      → find_all_for_user user_id (of_repository id) db ≡ []
  unfolding find_by_id_for_user find_all_for_user
  listed-foreign missing =
      let foreign = any-not_found own_repository (p.rows db.repositories) missing in
      keep-same (λ pr. pull_request_of_user db user_id pr && passes_filters (of_repository id) pr)
        (λ pr. false) (p.rows db.pull_requests)
        (λ pr. tested pr ∙ rw foreign (and_false (in_repository pr)))
      ∙ keep-nothing (p.rows db.pull_requests)

  -- The views of both routes.
  views-same :
      {repo : Repository}
      → count (λ r. r.id == id) (p.rows db.repositories) ≤ 1
      → find_by_id_for_user id user_id db ≡ some repo
      → map (λ pr. pull_request_view (included_ref db pr) pr) (find_by_repository id db)
        ≡ map (pull_request_view (some (repository_ref repo))) (find_by_repository id db)
  unfolding find_by_id_for_user find_by_repository
  views-same {repo} one found =
      let there =
        find-count_one (λ (r : Repository). r.id == id) (repository_of_user db user_id)
          (p.rows db.repositories) {x = repo} one found in
      map-keep (λ pr. pull_request_view (included_ref db pr) pr)
        (pull_request_view (some (repository_ref repo))) in_repository (p.rows db.pull_requests)
        (λ pr same. rw ((==_iff pr.repository_id id).0 same) (rw (there, included_ref) refl))

  found-id : {repo : Repository} → find_by_id_for_user id user_id db ≡ some repo → repo.id ≡ id
  unfolding find_by_id_for_user
  found-id {repo} found =
      let passes = find-passes own_repository (p.rows db.repositories) {x = repo} found in
      (==_iff repo.id id).0 (ground (arith, passes))

  module _ ⦃o : Orders⦄ where
    -- An answer shows its rows in some order.
    map-newest_first :
        {View : Type 0} (view : PullRequest → View) (time : PullRequest → ℕ)
        (rows : List PullRequest)
        → Perm (map view (newest_first time rows)) (map view rows)
    map-newest_first view time rows =
        Perm.map view (o.order_by-Perm (λ x y. leb (time y) (time x)) rows)

    own-Perm :
        {repo : Repository}
        → count (λ r. r.id == id) (p.rows db.repositories) ≤ 1
        → find_by_id_for_user id user_id db ≡ some repo
        → let rows = find_by_repository id db in
          Perm
            (map
              (pull_request_view (some (repository_ref repo)))
              (newest_first (λ pr. pr.created_at) rows))
            (map
              (λ pr. pull_request_view (included_ref db pr) pr)
              (newest_first (λ pr. pr.updated_at) rows))
    own-Perm {repo} one found =
        let rows = find_by_repository id db in
        let view : PullRequest → PullRequestView =
          λ pr. pull_request_view (included_ref db pr) pr in
        Perm.trans
          (map-newest_first (pull_request_view (some (repository_ref repo))) (λ pr. pr.created_at)
            rows)
          (subst (λ views. Perm views (map view (newest_first (λ pr. pr.updated_at) rows)))
            (views-same one found) (Perm.symm (map-newest_first view (λ pr. pr.updated_at) rows)))

    -- The two routes that list the pull requests of a repository agree: where ids of repositories
    -- are unique, the list of the repository shows the same pull requests as the list of all pull
    -- requests with that repository as the filter, in another order; and both show nothing where
    -- the repository is not the user's.
    pub list_pull_requests-of_repository :
        count (λ r. r.id == id) (p.rows db.repositories) ≤ 1
        → Perm
            (shown (repository_pull_requests id user_id db))
            (list_pull_requests user_id (of_repository id) db)
    unfolding repository_pull_requests list_pull_requests
    list_pull_requests-of_repository one = elim (Option-cases (find_by_id_for_user id user_id db)) [
      | inl missing ↦
          rw (missing, repository_pull_requests)
            (rw (listed-foreign missing) (
              Perm.symm (
                map-newest_first (λ pr. pull_request_view (included_ref db pr) pr)
                  (λ pr. pr.updated_at) [])))
      | inr (repo, found) ↦
          rw (found, repository_pull_requests)
            (rw (listed-own found) (
              subst
                (λ (k : ℕ).
                  Perm
                    (map (pull_request_view (some (repository_ref repo)))
                      (newest_first (λ pr. pr.created_at) (find_by_repository k db)))
                    (map (λ pr. pull_request_view (included_ref db pr) pr)
                      (newest_first (λ pr. pr.updated_at) (find_by_repository id db))))
                (sym (found-id found)) (own-Perm one found)))
    ]
