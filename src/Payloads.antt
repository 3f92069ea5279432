-- ===== src/Payloads.antt =====
-- The GitHub webhook payloads of src/webhook/types/github-webhook.types.ts, with the event names of
-- src/webhook/constants/github-events.ts. Ids and counts are natural numbers.
use pr_sentinel_backend.Base.{ℕ, String, Bool, List, Option, none, some, str_eq, if◌then◌else◌}

pub record GithubUser : Type 0 where
  pub id : ℕ
  pub login : String
  pub avatar_url : String
  pub html_url : String

pub record GithubRepo : Type 0 where
  pub id : ℕ
  pub name : String
  pub full_name : String
  pub is_private : Bool
  pub owner : GithubUser
  pub html_url : String
  pub default_branch : String

pub record GithubBranch : Type 0 where
  pub ref : String
  pub sha : String
  pub repo : GithubRepo

pub record GithubInstallation : Type 0 where
  pub id : ℕ
  pub node_id : String

pub data PrState : Type 0 where
  opened closed : PrState

pub record GithubPullRequest : Type 0 where
  pub id : ℕ
  pub number : ℕ
  pub title : String
  pub state : PrState
  pub merged : Bool
  pub html_url : String
  pub user : GithubUser
  pub head : GithubBranch
  pub base : GithubBranch
  pub body : Option String
  pub draft : Bool
  pub created_at : String
  pub updated_at : String
  pub merged_at : Option String
  pub closed_at : Option String
  pub additions : ℕ
  pub deletions : ℕ
  pub changed_files : ℕ

pub data PullRequestTriggerAction : Type 0 where
  opened synchronize reopened : PullRequestTriggerAction

pub record PullRequestWebhookPayload : Type 0 where
  pub action : String
  pub number : ℕ
  pub pull_request : GithubPullRequest
  pub repository : GithubRepo
  pub sender : GithubUser
  pub installation : Option GithubInstallation

-- The status of a changed file is a text, since the mapping has a default for any other.
pub record GithubPrFile : Type 0 where
  pub sha : String
  pub filename : String
  pub status : String
  pub additions : ℕ
  pub deletions : ℕ
  pub changes : ℕ
  pub blob_url : String
  pub raw_url : String
  pub contents_url : String
  pub patch : Option String
  pub previous_filename : Option String

pub data InstallationAction : Type 0 where
  created deleted suspend unsuspend new_permissions_accepted : InstallationAction

pub data RepositorySelection : Type 0 where
  all selected : RepositorySelection

-- A repository as the installation events list it.
pub record RepoSummary : Type 0 where
  pub id : ℕ
  pub node_id : String
  pub name : String
  pub full_name : String
  pub is_private : Bool

pub record InstallationDetails : Type 0 where
  pub id : ℕ
  pub account : GithubUser
  pub repository_selection : RepositorySelection
  pub html_url : String
  pub created_at : String
  pub updated_at : String

pub record InstallationWebhookPayload : Type 0 where
  pub action : InstallationAction
  pub installation : InstallationDetails
  pub repositories : Option (List RepoSummary)
  pub sender : GithubUser

pub data RepositoriesAction : Type 0 where
  added removed : RepositoriesAction

pub record InstallationRef : Type 0 where
  pub id : ℕ
  pub account : GithubUser

pub record InstallationRepositoriesWebhookPayload : Type 0 where
  pub action : RepositoriesAction
  pub installation : InstallationRef
  pub repositories_added : List RepoSummary
  pub repositories_removed : List RepoSummary
  pub sender : GithubUser

pub record RawWebhookHeaders : Type 0 where
  pub github_event : String
  pub github_delivery : String
  pub hub_signature_256 : Option String

-- The value of the event header, as the switch reads it.
pub data GithubEvent : Type 0 where
  pull_request installation installation_repositories ping unhandled : GithubEvent

unfoldable pub event_of : String → GithubEvent
event_of name =
    if str_eq name "pull_request"
    then pull_request
    else if str_eq name "installation"
    then installation
    else if str_eq name "installation_repositories"
    then installation_repositories
    else if str_eq name "ping"
    then ping
    else unhandled

-- `PR_TRIGGER_ACTIONS.has(action)`, with the action that passes.
unfoldable pub trigger_action : String → Option PullRequestTriggerAction
trigger_action name =
    if str_eq name "opened"
    then some PullRequestTriggerAction.opened
    else if str_eq name "synchronize"
    then some synchronize
    else if str_eq name "reopened"
    then some reopened
    else none
