-- ===== src/Tests/Data.antt =====
-- The clients, rows and payloads that the tests share. GitHub answers with two repositories on a
-- page and with one changed file; signatures are compared as texts.
use Prim.Native.String.{len}
use pr_sentinel_backend.Base.{
  ℕ, zero, suc, ◌*◌, String, Bool, false, List, [], ◌∷◌, none, some, take, drop, str_eq, eq_iff,
}
use pr_sentinel_backend.Errors.{ok}
use pr_sentinel_backend.Prisma.InMemory.{in_memory}
use pr_sentinel_backend.Schema.{Installation}
use pr_sentinel_backend.Database.{Db}
use pr_sentinel_backend.Payloads
use pr_sentinel_backend.Payloads.{
  GithubUser, GithubRepo, GithubBranch, GithubInstallation, GithubPullRequest,
  PullRequestWebhookPayload, GithubPrFile, RepoSummary, InstallationAction, InstallationDetails,
  InstallationWebhookPayload, InstallationRef, InstallationRepositoriesWebhookPayload,
}
use pr_sentinel_backend.Repository.Repositories.{RepoInfo}
use pr_sentinel_backend.Github.Service.{GithubApi, RepositoriesPage, Fetched, data_of}
use pr_sentinel_backend.Webhook.Handler.{World}
use pr_sentinel_backend.Webhook.Signature.{Crypto}

abbrev pub octo : GithubUser
octo = record { id = 11; login = "octo"; avatar_url = "a"; html_url = "h" }

abbrev pub app_repo : GithubRepo
app_repo = record {
  id = 70;
  name = "app";
  full_name = "octo/app";
  is_private = false;
  owner = octo;
  html_url = "h";
  default_branch = "main";
}

abbrev branch : String → GithubBranch
branch name = record { ref = name; sha = "0"; repo = app_repo }

abbrev pub pull : GithubPullRequest
pull = record {
  id = 500;
  number = 4;
  title = "Add a test";
  state = Payloads.PrState.opened;
  merged = false;
  html_url = "h";
  user = octo;
  head = branch "topic";
  base = branch "main";
  body = none;
  draft = false;
  created_at = "t";
  updated_at = "t";
  merged_at = none;
  closed_at = none;
  additions = 1;
  deletions = 0;
  changed_files = 1;
}

-- The pull request is opened in the repository of the installation 3.
abbrev pub pull_opened : PullRequestWebhookPayload
pull_opened = record {
  action = "opened";
  number = 4;
  pull_request = pull;
  repository = app_repo;
  sender = octo;
  installation = some (record { id = 3; node_id = "n" });
}

abbrev pub changed_file : GithubPrFile
changed_file = record {
  sha = "0";
  filename = "a.ts";
  status = "renamed";
  additions = 1;
  deletions = 0;
  changes = 1;
  blob_url = "b";
  raw_url = "r";
  contents_url = "c";
  patch = some "+x";
  previous_filename = some "b.ts";
}

abbrev pub summaries : List RepoSummary
summaries =
    record { id = 70; node_id = "n"; name = "app"; full_name = "octo/app"; is_private = false } ∷ []

abbrev pub installed : InstallationAction → InstallationWebhookPayload
installed action = record {
  action = action;
  installation = record {
    id = 3;
    account = octo;
    repository_selection = Payloads.all;
    html_url = "h";
    created_at = "t";
    updated_at = "t";
  };
  repositories = some summaries;
  sender = octo;
}

abbrev pub repositories_changed : InstallationRepositoriesWebhookPayload
repositories_changed = record {
  action = Payloads.RepositoriesAction.removed;
  installation = record { id = 3; account = octo };
  repositories_added = [];
  repositories_removed = summaries;
  sender = octo;
}

-- An installation of the user 2.
abbrev pub owned_row : Bool → Installation
owned_row suspended = record {
  id = 1;
  github_installation_id = 3;
  account_login = some "octo";
  account_avatar_url = none;
  suspended = suspended;
  user_id = some 2;
  created_at = 0;
  updated_at = 0;
}

abbrev pub with_installations : List Installation → Db
with_installations rows = record {
  users = [];
  installations = rows;
  repositories = [];
  pull_requests = [];
  pr_files = [];
  reviews = [];
  review_comments = [];
  user_llm_configs = [];
}

abbrev pub empty_db : Db
empty_db = with_installations []

abbrev pub owned_db : Db
owned_db = with_installations (owned_row false ∷ [])

abbrev pub world : Db → World
world db = record { db = db; jobs = [] }

abbrev pub repo_number : ℕ → RepoInfo
repo_number n = record {
  id = n;
  name = "app";
  full_name = "octo/app";
  is_private = false;
  html_url = none;
}

abbrev pub three_repos : List RepoInfo
three_repos = repo_number 70 ∷ repo_number 71 ∷ repo_number 72 ∷ []

abbrev pub page_of : ℕ → List RepoInfo
page_of zero = []
page_of (suc k) = take 2 (drop (k * 2) three_repos)

abbrev pub serving : (ℕ → Fetched RepositoriesPage) → GithubApi
serving pages = record {
  env = λ key. some key;
  read_file = λ path. ok "key";
  app_auth = λ app_id key request. ok "token";
  get_installation = λ token id. data_of (record {
    id = id;
    account_login = "octo";
    account_avatar_url = "a";
    account_type = "User";
    repository_selection = "all";
    app_slug = "pr-sentinel";
  });
  get_repositories = λ token per_page page. pages page;
  get_files = λ token owner repo number. data_of (changed_file ∷ []);
  post_review = λ token owner repo number review. data_of 9;
}

abbrev pub api : GithubApi
api = serving (λ page. data_of (record { total_count = 3; repositories = page_of page }))

-- Every page tells more repositories than there are.
abbrev pub overcounting : GithubApi
overcounting = serving (λ page. data_of (record { total_count = 5; repositories = [] }))

-- The buffer of a text is the text, and the HMAC of a body under any key is the body.
abbrev pub text_crypto : Crypto
text_crypto = record {
  Buffer = String;
  from_text = λ s. s;
  byte_length = len;
  hmac_sha256_hex = λ secret body. body;
  timing_safe_equal = str_eq;
  timing_safe_equal_iff = λ a b same. eq_iff a b;
}
