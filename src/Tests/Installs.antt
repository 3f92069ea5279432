-- ===== src/Tests/Installs.antt =====
-- The theorems on the install flow at concrete requests.
use pr_sentinel_backend.Base.{ℕ, String, ◌≡◌, ◌≢◌, refl, arith, false, [], Option, none, some}
use pr_sentinel_backend.Errors.{Result, ok}
use pr_sentinel_backend.Prisma.InMemory.{in_memory as tables}
use pr_sentinel_backend.Redis.InMemory.{in_memory as redis}
use pr_sentinel_backend.Database.{Db}
use pr_sentinel_backend.Repository.Status.{status, active}
use pr_sentinel_backend.Github.Service.{
  verify_installation_with_github, list_installation_repositories,
}
use pr_sentinel_backend.Github.Install.{InstallationStatus, claim_install, complete_install}
use pr_sentinel_backend.Github.Install.Ownership.{
  IsRefused, claim_install-owned, status-claim_install, complete_install-owned,
  status-complete_install,
}
use pr_sentinel_backend.Tests.Data.{empty_db, owned_db, api}
use pr_sentinel_backend.Tests.States.{install_json}

abbrev reads_three : String → Option ℕ
reads_three raw = some 3

abbrev owner_id : ℕ
owner_id = 2

two≢five : owner_id ≢ 5
two≢five = ground arith

complete_install-owned_example :
    IsRefused owned_db
      (complete_install api 9 5 reads_three install_json 5 (some "3") (some "token") owned_db []).0
complete_install-owned_example =
    complete_install-owned api 9 5 reads_three (some "3") "3" 3 refl refl install_json 5 2
      (some "token") owned_db [] refl two≢five

claim_install-owned_example :
    IsRefused owned_db (claim_install api 9 5 reads_three 5 (some "3") owned_db)
claim_install-owned_example =
    claim_install-owned api 9 5 reads_three (some "3") "3" 3 refl refl 5 2 owned_db refl two≢five

abbrev answer_of : Option (Result InstallationStatus × Db) → InstallationStatus
answer_of (some (ok answer, db)) = answer
answer_of _ = record { connected = false; installation = none; repository_count = 0 }

abbrev database_of : Option (Result InstallationStatus × Db) → Db
database_of none = empty_db
database_of (some (answer, db)) = db

abbrev completed : Option (Result InstallationStatus × Db)
completed = (complete_install api 9 5 reads_three install_json 5 (some "3") none empty_db []).0

completed-ok : completed ≡ some (ok (answer_of completed), database_of completed)
unfolding complete_install verify_installation_with_github list_installation_repositories
completed-ok = refl

status-complete_install_example : status 3 (database_of completed) ≡ active (some 5)
status-complete_install_example =
    status-complete_install api 9 5 reads_three (some "3") "3" 3 refl refl install_json 3 5 none
      empty_db [] (answer_of completed) (database_of completed) completed-ok

abbrev claimed : Option (Result InstallationStatus × Db)
claimed = claim_install api 9 5 reads_three 5 (some "3") empty_db

claimed-ok : claimed ≡ some (ok (answer_of claimed), database_of claimed)
unfolding claim_install verify_installation_with_github list_installation_repositories
claimed-ok = refl

status-claim_install_example : status 3 (database_of claimed) ≡ active (some 5)
status-claim_install_example =
    status-claim_install api 9 5 reads_three (some "3") "3" 3 refl refl 3 5 empty_db
      (answer_of claimed) (database_of claimed) claimed-ok
