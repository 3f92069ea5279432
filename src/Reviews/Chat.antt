-- ===== src/Reviews/Chat.antt =====
-- The chat about a review, of src/reviews/reviews.service.ts. A conversation is kept in Redis. The
-- identifier of a new one and the database's order of files by name are arguments.
pub mod Turns
use Prim.Native.String.{◌++◌ as append}
use pr_sentinel_backend.Base.{
  ℕ, ◌*◌, String, Bool, true, false, not, ◌||◌, List, [], ◌∷◌, ◌++◌, map, Option, none, some,
  if◌then◌else◌, ◌==◌,
}
use pr_sentinel_backend.Base.Text.{configured}
use pr_sentinel_backend.Errors.{not_found, Result, ok, err}
use pr_sentinel_backend.Prisma.{Prisma, find_many}
use pr_sentinel_backend.Schema
use pr_sentinel_backend.Schema.{FileStatus, PrFile, Review, ReviewComment, Severity}
use pr_sentinel_backend.Database.{Db}
use pr_sentinel_backend.Redis.{RedisClient, Json, set_json, get_json}
use pr_sentinel_backend.Reviews.Generation.{
  LlmService, LlmMessage, Role, system, user, assistant, IncludedPullRequest, find_included,
}
use pr_sentinel_backend.Reviews.Publication.{severity_text}
use pr_sentinel_backend.Reviews.Retry.{find_review_for_user}
use pr_sentinel_backend.Reviews.ChatPrompt.{
  ReviewContext, ContextFile, ContextFinding, build_system_prompt,
}

pub record StoredConversation : Type 0 where
  pub user_id : ℕ
  pub review_id : ℕ
  pub messages : List LlmMessage

pub record ChatAnswer : Type 0 where
  pub message : String
  pub conversation_id : String

abbrev pub conversation_ttl_seconds : ℕ
conversation_ttl_seconds = 2 * 60 * 60

-- `redisKey`
abbrev pub redis_key : String → String
redis_key conversation_id = append "chat-conversation:" conversation_id

abbrev pub file_status_text : FileStatus → String
file_status_text FileStatus.added = "added"
file_status_text FileStatus.modified = "modified"
file_status_text FileStatus.removed = "removed"
file_status_text FileStatus.renamed = "renamed"

abbrev pub context_file : PrFile → ContextFile
context_file f = record {
  filename = f.filename;
  status = file_status_text f.status;
  additions = f.additions;
  deletions = f.deletions;
}

abbrev severity_name : Option Severity → Option String
severity_name none = none
severity_name (some s) = some (severity_text s)

abbrev pub context_finding : ReviewComment → ContextFinding
context_finding c = record {
  severity = severity_name c.severity;
  file_path = c.file_path;
  line_number = c.line_number;
  category = c.category;
  message = c.message;
  suggestion = none;
}

abbrev pub message : Role → String → LlmMessage
message role content = record { role = role; content = content }

-- `stored.messages[0] = m`
abbrev pub with_first : LlmMessage → List LlmMessage → List LlmMessage
with_first m [] = m ∷ []
with_first m (old ∷ rest) = m ∷ rest

-- A conversation of another user or review is discarded.
abbrev pub own_conversation :
    (user_id review_id : ℕ) → Option StoredConversation → Option StoredConversation
own_conversation user_id review_id none = none
own_conversation user_id review_id (some c) =
    if not (c.user_id == user_id) || not (c.review_id == review_id) then none else some c

-- The conversation of a turn, with its identifier, before the message of the user is added.
abbrev pub started :
    (user_id review_id : ℕ)
    → (system_prompt fresh_id conversation_id : String) → Option StoredConversation
    → String × StoredConversation
started user_id review_id system_prompt fresh_id conversation_id none = (
  fresh_id,
  record { user_id = user_id; review_id = review_id; messages = message system system_prompt ∷ [] },
)
started user_id review_id system_prompt fresh_id conversation_id (some c) =
    (conversation_id, record c { messages = with_first (message system system_prompt) c.messages })

abbrev pub said : StoredConversation → LlmMessage → StoredConversation
said c m = record c { messages = c.messages ++ m ∷ [] }

module _ ⦃p : Prisma⦄ (by_filename : List PrFile → List PrFile) where
  -- The context of a review that is read with its pull request.
  unfoldable pub review_context : Review → IncludedPullRequest → Db → ReviewContext
  review_context review i db = record {
    repository = some (record { owner = i.repository.owner; name = i.repository.name });
    pr_number = i.pull_request.github_pr_number;
    pr_title = i.pull_request.title;
    pr_author = i.pull_request.author;
    base_branch = i.pull_request.base_branch;
    head_branch = i.pull_request.head_branch;
    pr_description = none;
    files =
        map context_file
          (by_filename (find_many (λ f. f.pull_request_id == i.pull_request.id) db.pr_files));
    review_summary = review.summary;
    findings = map context_finding (find_many (λ c. c.review_id == review.id) db.review_comments);
  }

module _ ⦃r : RedisClient⦄ (json : Json StoredConversation) (now : ℕ) where
  -- `saveConversation`
  unfoldable pub save_conversation : String → StoredConversation → r.Store → r.Store
  save_conversation conversation_id c store =
      set_json json now (redis_key conversation_id) c conversation_ttl_seconds store

  -- `loadConversation`, where an identifier is given, without what is not of the user and review.
  unfoldable pub load_own :
      (user_id review_id : ℕ) → Option String → r.Store → Option StoredConversation
  load_own user_id review_id given store = elim (configured given) [
    | none ↦ none
    | some conversation_id ↦
        own_conversation user_id review_id (get_json json now (redis_key conversation_id) store)
  ]

  module _ (llm : LlmService) where
    -- The turn of a conversation: the model is asked, and the conversation saved, without the
    -- message of the user when the model fails.
    unfoldable pub turn :
        (user_id : ℕ)
        → (user_message conversation_id : String) → StoredConversation
        → r.Store
        → llm.State
        → (Result ChatAnswer × r.Store) × llm.State
    unfolding save_conversation
    turn user_id user_message conversation_id c store s =
        let asked = said c (message user user_message) in
        let (reply, s') = llm.chat user_id asked.messages s in
        elim reply [
          | err e ↦ ((err e, save_conversation conversation_id c store), s')
          | ok text ↦ (
            (
              ok (record { message = text; conversation_id = conversation_id }),
              save_conversation conversation_id (said asked (message assistant text)) store,
            ),
            s',
          )
        ]

abbrev given_id : Option String → String
given_id none = ""
given_id (some s) = s

module _ ⦃p : Prisma⦄ ⦃r : RedisClient⦄ (json : Json StoredConversation)
    (by_filename : List PrFile → List PrFile) (now : ℕ) (llm : LlmService) where
  -- `chat`
  unfoldable pub chat :
      (review_id user_id : ℕ)
      → (user_message : String) → (conversation_id : Option String) → (fresh_id : String) → Db
      → r.Store
      → llm.State
      → (Result ChatAnswer × r.Store) × llm.State
  unfolding review_context load_own turn
  chat review_id user_id user_message conversation_id fresh_id db store s =
      elim (find_review_for_user review_id user_id db) [
        | none ↦ ((err (not_found "Review not found"), store), s)
        | some review ↦ elim (find_included review.pull_request_id db) [
          | none ↦ ((err (not_found "Review not found"), store), s)
          | some i ↦
              let prompt = build_system_prompt (review_context by_filename review i db) in
              let (id, c) =
                started user_id review_id prompt fresh_id (given_id conversation_id)
                  (load_own json now user_id review_id conversation_id store) in
              turn json now llm user_id user_message id c store s
        ]
      ]
