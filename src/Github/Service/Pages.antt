-- ===== src/Github/Service/Pages.antt =====
-- The pagination loop of `listInstallationRepositories`: what it returns and when it does not end.
use pr_sentinel_backend.Base.{
  ℕ, zero, suc, ◌+◌, ◌*◌, ◌≤◌, ◌<◌, String, ◌≡◌, refl, inl, inr, false, List, ◌++◌, none, some,
  length, arith, leb, take, drop, take-take-drop, take-all, length-take_short, length-append,
  Bool-cases,
}
use pr_sentinel_backend.Errors.{ok}
use pr_sentinel_backend.Repository.Repositories.{RepoInfo}
use pr_sentinel_backend.Github.Service.{
  GithubApi, data_of, list_pages, get_installation_token, list_installation_repositories,
}

-- GitHub pages as it documents: page k + 1 holds the repositories from k times the page size on,
-- and every page tells the number of all.
pub record Paginates (api : GithubApi) (token : String) (per_page : ℕ) (repos : List RepoInfo)
    : Type 0 where
  pub some_per_page : 0 < per_page
  pub page_holds :
      (k : ℕ)
      → api.get_repositories token 100 (k + 1)
        ≡ data_of (record {
          total_count = length repos;
          repositories = take per_page (drop (k * per_page) repos);
        })

-- How many repositories the `n` pages from `page` on hold.
abbrev pub collected : (ℕ → List RepoInfo) → ℕ → ℕ → ℕ
collected pages page zero = 0
collected pages page (suc n) = length (pages page) + collected pages (page + 1) n

le-mul_pos : (k m : ℕ) → 0 < m → k ≤ k * m
le-mul_pos zero m h = omega arith
le-mul_pos (suc k) m h = omega (arith, le-mul_pos k m h)

module _ (api : GithubApi) (token : String) where
  module _ (per_page : ℕ) (repos : List RepoInfo) (paged : Paginates api token per_page repos) where
    list_pages_from :
        (fuel k : ℕ)
        → k ≤ length repos
        → length repos < fuel + k
        → list_pages api fuel token (k + 1) (take (k * per_page) repos) ≡ some (ok repos)
    unfolding list_pages
    list_pages_from zero k below enough = absurd (omega arith)
    list_pages_from (suc fuel) k below enough =
        rw (paged.page_holds k, list_pages, take-take-drop (k * per_page) per_page repos)
          (elim (Bool-cases (leb (length repos) (length (take (k * per_page + per_page) repos)))) [
            | inl done ↦ rw (done, take-all (k * per_page + per_page) repos (ground arith)) refl
            | inr more ↦ rw more (
                let page : k + 1 + 1 ≡ suc k + 1 = omega arith in
                let window : k * per_page + per_page ≡ suc k * per_page = omega arith in
                let within : k * per_page + per_page < length repos =
                  length-take_short (k * per_page + per_page) repos (ground arith) in
                let further : suc k ≤ length repos =
                  omega (arith, le-mul_pos k per_page paged.some_per_page) in
                rw (page, window) (list_pages_from fuel (suc k) further (omega arith)))
          ])

    -- Where GitHub pages as it documents, the loop ends after at most one request more than there
    -- are repositories, and returns all of them in order.
    pub list_installation_repositories_complete :
        (installation_id : ℕ)
        → get_installation_token api installation_id ≡ ok token
        → list_installation_repositories api (length repos + 1) installation_id ≡ some (ok repos)
    unfolding list_installation_repositories
    list_installation_repositories_complete installation_id e =
        let none_yet : 0 * per_page ≡ 0 = omega arith in
        rw (e, list_installation_repositories)
          (rw none_yet at (list_pages_from (length repos + 1) 0 (omega arith) (omega arith)))

  -- Where GitHub tells a total above what the repositories collected so far and all further pages
  -- hold together, no number of requests ends the loop.
  pub list_pages-diverges :
      (total : ℕ) (pages : ℕ → List RepoInfo)
      → ((page : ℕ)
          → api.get_repositories token 100 page
            ≡ data_of (record { total_count = total; repositories = pages page }))
      → (fuel page : ℕ) (results : List RepoInfo)
      → ((n : ℕ) → length results + collected pages page n < total)
      → list_pages api fuel token page results ≡ none
  unfolding list_pages
  list_pages-diverges total pages serves zero page results short = refl
  list_pages-diverges total pages serves (suc fuel) page results short =
      rw (serves page, list_pages)
        (let missing : leb total (length (results ++ pages page)) ≡ false =
            ground (arith, short 1, length-append results (pages page)) in
          rw missing (
            list_pages-diverges total pages serves fuel (page + 1) (results ++ pages page)
              (λ n. omega (arith, short (suc n), length-append results (pages page)))))
