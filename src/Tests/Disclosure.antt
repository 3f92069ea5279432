-- ===== src/Tests/Disclosure.antt =====
-- The theorem on the answer to a failed chat, at a client that is always refused.
use Prim.Native.String.{◌++◌ as append}
use pr_sentinel_backend.Base.{ℕ, String, ◌≡◌, refl, true, false, List, [], ◌∷◌, Option, none, some}
use pr_sentinel_backend.Errors.{js_error, ok, err}
use pr_sentinel_backend.Prisma.InMemory.{in_memory}
use pr_sentinel_backend.Redis.InMemory.{in_memory as redis, Entry}
use pr_sentinel_backend.Schema.{free}
use pr_sentinel_backend.Database.{Db, review_of_user, pull_request_of_user, repository_of_user}
use pr_sentinel_backend.Reviews.Generation.{find_included}
use pr_sentinel_backend.Llm.Config.{user_or_throw}
use pr_sentinel_backend.Llm.Quota.{consume_free_review}
use pr_sentinel_backend.Llm.Service.{LlmSettings, resolve_key_and_model, llm_service}
use pr_sentinel_backend.Reviews.Chat.{chat}
use pr_sentinel_backend.Http.{error, error_name, nothing, catch_exception}
use pr_sentinel_backend.Http.Disclosure.{answered, chat-discloses}
use pr_sentinel_backend.Tests.Llm.{settings, user_in}
use pr_sentinel_backend.Tests.Chats.{conversation_json}
use pr_sentinel_backend.Tests.Reviews.{review_db, failed_row, included}

abbrev refused : LlmSettings
refused = record settings { complete = λ api_key model messages. err (js_error "key sk-1 revoked") }

abbrev free_db : Db
free_db = record review_db { users = user_in free ∷ [] }

abbrev name_of : ℕ → Option String
name_of status = some "Internal Server Error"

abbrev counted : List Entry
counted = (resolve_key_and_model refused 8 free_db 2 []).1

resolved :
    resolve_key_and_model refused 8 free_db 2 []
    ≡ (ok (record { api_key = "service"; model = "m" }), counted)
unfolding resolve_key_and_model user_or_throw consume_free_review
resolved = refl

chat-discloses_example :
    (answered name_of 9 "/chat"
        (chat conversation_json
          (λ files. files)
          8
          (llm_service refused 8 free_db)
          1
          2
          "hello"
          none
          "fresh"
          free_db
          []
          []).0.0
      ≡ some (
        500,
        record {
          message = append "OpenRouter request failed: " "key sk-1 revoked";
          status_code = 500;
          extra = error_name "Internal Server Error";
          timestamp = 9;
          path = "/chat";
        },
      ))
    × (catch_exception true false 9 "/chat" (error "key sk-1 revoked")
        ≡ some (
          500,
          record {
            message = "Internal server error";
            status_code = 500;
            extra = nothing;
            timestamp = 9;
            path = "/chat";
          },
        ))
unfolding review_of_user pull_request_of_user repository_of_user find_included
chat-discloses_example =
    chat-discloses refused 8 conversation_json (λ files. files) name_of 1 2 9 "hello" "fresh"
      "/chat" "key sk-1 revoked" none failed_row included
      (record { api_key = "service"; model = "m" }) free_db [] [] counted refl refl resolved
      (λ messages. refl)
