-- ===== src/Tests/Routes.antt =====
-- The theorems on the answers of routes.
use mathlib.Core.List.{Perm}
use pr_sentinel_backend.Base.{arith, count}
use pr_sentinel_backend.Prisma.InMemory.{in_memory}
use pr_sentinel_backend.Prisma.Insertion.{by_insertion}
use pr_sentinel_backend.Routes.Repositories.{repository_pull_requests}
use pr_sentinel_backend.Routes.PullRequests.{list_pull_requests}
use pr_sentinel_backend.Routes.Agreement.{shown, of_repository, list_pull_requests-of_repository}
use pr_sentinel_backend.Tests.Reviews.{review_db}

list_pull_requests-of_repository_example :
    Perm
      (shown (repository_pull_requests 1 2 review_db))
      (list_pull_requests 2 (of_repository 1) review_db)
unfolding count
list_pull_requests-of_repository_example =
    list_pull_requests-of_repository 1 2 review_db (omega arith)
