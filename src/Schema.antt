-- ===== src/Schema.antt =====
-- The rows of the database, as prisma/schema.prisma declares them. A uuid is the number that it
-- writes, a DateTime a number of milliseconds; BigInt columns hold GitHub's positive ids.
use pr_sentinel_backend.Base.{ℕ, String, Bool, Option}

pub data PullRequestStatus : Type 0 where
  received processing reviewed failed : PullRequestStatus

pub data FileStatus : Type 0 where
  added modified removed renamed : FileStatus

pub data ReviewStatus : Type 0 where
  pending completed failed : ReviewStatus

pub data Severity : Type 0 where
  low medium high critical : Severity

pub data LlmProviderType : Type 0 where
  openrouter openai gemini anthropic : LlmProviderType

pub data LlmMode : Type 0 where
  free byok : LlmMode

pub record User : Type 0 where
  pub id : ℕ
  pub github_id : Option String
  pub github_login : Option String
  pub email : Option String
  pub password : Option String
  pub avatar_url : Option String
  pub created_at : ℕ
  pub updated_at : ℕ
  pub llm_mode : LlmMode

pub record Installation : Type 0 where
  pub id : ℕ
  pub github_installation_id : ℕ
  pub account_login : Option String
  pub account_avatar_url : Option String
  pub suspended : Bool
  pub user_id : Option ℕ
  pub created_at : ℕ
  pub updated_at : ℕ

pub record Repository : Type 0 where
  pub id : ℕ
  pub github_repo_id : ℕ
  pub owner : String
  pub name : String
  pub full_name : String
  pub html_url : Option String
  pub is_active : Bool
  pub installation_id : ℕ
  pub created_at : ℕ
  pub updated_at : ℕ

pub record PullRequest : Type 0 where
  pub id : ℕ
  pub github_pr_id : ℕ
  pub github_pr_number : ℕ
  pub title : String
  pub author : String
  pub base_branch : String
  pub head_branch : String
  pub status : PullRequestStatus
  pub error_message : Option String
  pub last_delivery_id : Option String
  pub repository_id : ℕ
  pub created_at : ℕ
  pub updated_at : ℕ

pub record PrFile : Type 0 where
  pub id : ℕ
  pub filename : String
  pub status : FileStatus
  pub patch : Option String
  pub additions : ℕ
  pub deletions : ℕ
  pub changes : ℕ
  pub pull_request_id : ℕ
  pub created_at : ℕ

pub record Review : Type 0 where
  pub id : ℕ
  pub provider : String
  pub summary : Option String
  pub status : ReviewStatus
  pub error_message : Option String
  pub pull_request_id : ℕ
  pub created_at : ℕ
  pub updated_at : ℕ

pub record ReviewComment : Type 0 where
  pub id : ℕ
  pub file_path : String
  pub line_number : Option ℕ
  pub severity : Option Severity
  pub category : Option String
  pub message : String
  pub posted_to_github : Bool
  pub github_comment_id : Option ℕ
  pub review_id : ℕ
  pub created_at : ℕ

pub record UserLlmConfig : Type 0 where
  pub id : ℕ
  pub provider : LlmProviderType
  pub encrypted_api_key : String
  pub model : String
  pub is_active : Bool
  pub user_id : ℕ
  pub created_at : ℕ
  pub updated_at : ℕ
