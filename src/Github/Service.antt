-- ===== src/Github/Service.antt =====
-- src/github/github.service.ts. What it calls is a parameter: `process.env`, the file system, the
-- token exchange of @octokit/auth-app (with the `Number` of the app id in it), and the requests of
-- axios, one field for each URL. Log lines are left out.
pub mod Pages
use Prim.Native.Char.{code}
use Prim.Native.String.{◌++◌ as append}
use pr_sentinel_backend.Base.{
  ℕ, zero, suc, ◌+◌, String, Bool, true, false, ◌&&◌, ◌||◌, List, [], ◌∷◌, ◌++◌, map, Option, none,
  some, length, if◌then◌else◌, ◌==◌, leb, str_eq, or_else,
}
use pr_sentinel_backend.Base.Text.{configured, decimal}
use pr_sentinel_backend.Errors.{Exception, js_error, Result, ok, err, ◌>>=◌}
use pr_sentinel_backend.Payloads.{GithubPrFile}
use pr_sentinel_backend.Repository.Repositories.{RepoInfo}

pub record GithubInstallationInfo : Type 0 where
  pub id : ℕ
  pub account_login : String
  pub account_avatar_url : String
  pub account_type : String
  pub repository_selection : String
  pub app_slug : String

pub data AuthRequest : Type 0 where
  app : AuthRequest
  installation : ℕ → AuthRequest

pub record RepositoriesPage : Type 0 where
  pub total_count : ℕ
  pub repositories : List RepoInfo

pub record ReviewCommentInput : Type 0 where
  pub path : String
  pub line : ℕ
  pub body : String

pub record ReviewRequest : Type 0 where
  pub owner : String
  pub repo : String
  pub pr_number : ℕ
  pub installation_id : ℕ
  pub body : String
  pub comments : List ReviewCommentInput

-- A comment as it is posted, with the side that the service adds.
pub record PostedComment : Type 0 where
  pub path : String
  pub line : ℕ
  pub body : String
  pub side : String

pub record PostedReview : Type 0 where
  pub body : String
  pub event : String
  pub comments : List PostedComment

-- A failed request of axios: the status of the response if there was one, and the message of its
-- body or of the error.
pub record AxiosError : Type 0 where
  pub status : Option ℕ
  pub message : String

pub data Fetched (A : Type 0) : Type 0 where
  data_of : A → Fetched A
  failed : AxiosError → Fetched A

pub record GithubApi : Type 0 where
  pub env : String → Option String
  pub read_file : String → Result String
  pub app_auth : (app_id private_key : String) → AuthRequest → Result String
  pub get_installation : (token : String) → ℕ → Fetched GithubInstallationInfo
  pub get_repositories : (token : String) → (per_page page : ℕ) → Fetched RepositoriesPage
  pub get_files : (token owner repo : String) → ℕ → Fetched (List GithubPrFile)
  pub post_review : (token owner repo : String) → ℕ → PostedReview → Fetched ℕ

-- `replace(/\\n/g, '\n')`: each backslash that an `n` follows becomes a newline with it.
unfoldable pub unescape_newlines : String → String
unescape_newlines String.[] = ""
unescape_newlines (String.◌∷◌ c String.[]) = String.◌∷◌ c ""
unescape_newlines (String.◌∷◌ c (String.◌∷◌ d s)) =
    let escaped = append "\n" (unescape_newlines s) in
    let plain = String.◌∷◌ c (unescape_newlines (String.◌∷◌ d s)) in
    if code c == 92 && code d == b'n' then escaped else plain

-- `parts.join(separator)`
unfoldable pub join_with : String → List String → String
join_with separator [] = ""
join_with separator (s ∷ []) = s
join_with separator (s ∷ t ∷ ts) = append s (append separator (join_with separator (t ∷ ts)))

-- The answer of a request whose failure is thrown on.
unfoldable pub or_throw : {A : Type 0} → Fetched A → Result A
or_throw (data_of a) = ok a
or_throw (failed e) = err (js_error e.message)

module _ (api : GithubApi) where
  -- `getPrivateKey`
  unfoldable pub get_private_key : Result String
  get_private_key = elim (configured (api.env "GITHUB_APP_PRIVATE_KEY")) [
    | some inline ↦ ok (unescape_newlines inline)
    | none ↦ elim (configured (api.env "GITHUB_PRIVATE_KEY_PATH")) [
      | some path ↦ api.read_file path
      | none ↦ err (
          js_error
            "GitHub App private key not configured. Set GITHUB_APP_PRIVATE_KEY (inline PEM) or GITHUB_PRIVATE_KEY_PATH (file path).")
    ]
  ]

  -- `getAppAuth`, called with the request that its result is applied to.
  unfoldable pub get_app_auth : AuthRequest → Result String
  unfolding get_private_key
  get_app_auth request = elim (configured (api.env "GITHUB_APP_ID")) [
    | none ↦ err (js_error "GITHUB_APP_ID is not configured")
    | some app_id ↦ do key ← get_private_key; api.app_auth app_id key request
  ]

  -- `getInstallationToken`
  unfoldable pub get_installation_token : ℕ → Result String
  unfolding get_app_auth
  get_installation_token installation_id = get_app_auth (installation installation_id)

  -- The error that `verifyInstallationWithGitHub` throws for a failed request.
  unfoldable pub verify_error : ℕ → AxiosError → Exception
  verify_error installation_id e = elim e.status [
    | none ↦ js_error e.message
    | some status ↦
        if status == 401 || status == 403
        then js_error
            "GitHub App authentication failed. Check GITHUB_APP_ID and GITHUB_APP_PRIVATE_KEY on the server."
        else if status == 404
        then js_error (
            append "GitHub installation "
              (append (decimal installation_id) " was not found for this GitHub App."))
        else js_error e.message
  ]

  -- `verifyInstallationWithGitHub`
  unfoldable pub verify_installation_with_github : ℕ → Result GithubInstallationInfo
  unfolding get_app_auth verify_error
  verify_installation_with_github installation_id = do
    token ← get_app_auth app
    elim (api.get_installation token installation_id) [
      | data_of info ↦ ok info
      | failed e ↦ err (verify_error installation_id e)
    ]

  -- The `while (true)` of `listInstallationRepositories`, on fuel: `none` is a loop that has made
  -- `fuel` requests and would make another.
  unfoldable pub list_pages :
      (fuel : ℕ) → (token : String) → (page : ℕ) → List RepoInfo → Option (Result (List RepoInfo))
  list_pages zero token page results = none
  list_pages (suc fuel) token page results = elim (api.get_repositories token 100 page) [
    | failed e ↦ some (err (js_error e.message))
    | data_of response ↦
        let results' = results ++ response.repositories in
        let rest = list_pages fuel token (page + 1) results' in
        if leb response.total_count (length results') then some (ok results') else rest
  ]

  -- `listInstallationRepositories`
  unfoldable pub list_installation_repositories : (fuel : ℕ) → ℕ → Option (Result (List RepoInfo))
  unfolding get_installation_token list_pages
  list_installation_repositories fuel installation_id =
      elim (get_installation_token installation_id) [
        | err e ↦ some (err e)
        | ok token ↦ list_pages fuel token 1 []
      ]

  -- `getPullRequestFiles`
  unfoldable pub get_pull_request_files : String → String → ℕ → String → Result (List GithubPrFile)
  unfolding or_throw
  get_pull_request_files owner repo pull_number token =
      or_throw (api.get_files token owner repo pull_number)

  -- The diff of one file, as a template literal writes it.
  unfoldable pub diff_part : String → String → String
  diff_part filename patch =
      append "--- a/" (append filename (append "\n+++ b/" (append filename (append "\n" patch))))

  -- The parts of the files that have a patch which is not empty.
  unfoldable pub diff_parts : List GithubPrFile → List String
  unfolding diff_part
  diff_parts [] = []
  diff_parts (f ∷ fs) = elim (configured f.patch) [
    | none ↦ diff_parts fs
    | some patch ↦ diff_part f.filename patch ∷ diff_parts fs
  ]

  -- `getPullRequestDiff`
  unfoldable pub get_pull_request_diff : String → String → ℕ → ℕ → Result String
  unfolding get_installation_token get_pull_request_files diff_parts join_with
  get_pull_request_diff owner repo pull_number installation_id = do
    token ← get_installation_token installation_id
    files ← get_pull_request_files owner repo pull_number token
    ok (join_with "\n\n" (diff_parts files))

  -- The comments of a review as they are posted.
  unfoldable pub posted_comment : ReviewCommentInput → PostedComment
  posted_comment c = record { path = c.path; line = c.line; body = c.body; side = "RIGHT" }

  -- `createPullRequestReview`
  unfoldable pub create_pull_request_review : ReviewRequest → Result ℕ
  unfolding get_installation_token or_throw posted_comment
  create_pull_request_review r = do
    token ← get_installation_token r.installation_id
    or_throw (
        api.post_review token r.owner r.repo r.pr_number
          (record { body = r.body; event = "COMMENT"; comments = map posted_comment r.comments }))
