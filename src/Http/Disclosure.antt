-- ===== src/Http/Disclosure.antt =====
-- What the client learns in production of an error inside the service: the filter of exceptions,
-- after the chat and the provider that it asks.
use Prim.Native.String.{◌++◌ as append}
use pr_sentinel_backend.Base.{ℕ, String, ◌≡◌, refl, true, false, List, Option, none, some}
use pr_sentinel_backend.Errors.{
  Exception, http_exception, js_error, thrown_value, internal_server_error, Result, ok, err,
}
use pr_sentinel_backend.Prisma.{Prisma}
use pr_sentinel_backend.Schema.{PrFile, Review}
use pr_sentinel_backend.Database.{Db}
use pr_sentinel_backend.Redis.{RedisClient, Json}
use pr_sentinel_backend.Reviews.Generation.{LlmMessage, IncludedPullRequest, find_included}
use pr_sentinel_backend.Reviews.Retry.{find_review_for_user}
use pr_sentinel_backend.Reviews.Chat.{StoredConversation, turn, chat}
use pr_sentinel_backend.Llm.Config.{KeyAndModel}
use pr_sentinel_backend.Llm.Provider.{openrouter_chat, get_provider}
use pr_sentinel_backend.Llm.Service.{LlmSettings, resolve_key_and_model, llm_service}
use pr_sentinel_backend.Llm.Service.{chat as ask}
use pr_sentinel_backend.Http.{
  Thrown, http, error, value, one, object, nothing, extra_of, ApiErrorResponse, get_status,
  parse_exception, catch_exception,
}

-- An exception of the services as the filter gets it; an HttpException answers with its message and
-- the name that Nest has for its status.
abbrev pub thrown_of : (name_of : ℕ → Option String) → Exception → Thrown
thrown_of name_of (http_exception status message) =
    http status message (object (one message) (name_of status))
thrown_of name_of (js_error message) = error message
thrown_of name_of (thrown_value text) = value text

-- The error that a route answers with in production.
abbrev pub answered :
    {A : Type 0}
    → (ℕ → Option String)
    → (at : ℕ) → (path : String) → Result A
    → Option (ℕ × ApiErrorResponse)
answered name_of at path (ok a) = none
answered name_of at path (err e) = catch_exception true false at path (thrown_of name_of e)

module _ ⦃p : Prisma⦄ ⦃r : RedisClient⦄ (c : LlmSettings) (now : ℕ) where
  -- A failure of the provider is thrown on as an HttpException with its message.
  ask-fails :
      (user_id : ℕ) (k : KeyAndModel) (m : String) (messages : List LlmMessage) (db : Db)
      (s s' : r.Store)
      → resolve_key_and_model c now db user_id s ≡ (ok k, s')
      → c.complete k.api_key k.model messages ≡ err (js_error m)
      → ask c now db user_id messages s
        ≡ (err (internal_server_error (append "OpenRouter request failed: " m)), s')
  unfolding ask get_provider openrouter_chat
  ask-fails user_id k m messages db s s' resolved down =
      rw (resolved, ask) (rw (down, openrouter_chat) refl)

  module _ (json : Json StoredConversation) (by_filename : List PrFile → List PrFile)
      (name_of : ℕ → Option String) where
    -- The filter does not keep inner errors from the client: when the client of OpenRouter throws an
    -- error, for the key and the model that the service has found for the user, a chat about a
    -- review of that user is answered in production with the message of that error, though the
    -- filter answers `Internal server error` to the same error when it comes to it as it is.
    pub chat-discloses :
        (review_id user_id at : ℕ) (user_message fresh_id path m : String) (given : Option String)
        (review : Review) (i : IncludedPullRequest) (k : KeyAndModel) (db : Db)
        (store s s' : r.Store)
        → find_review_for_user review_id user_id db ≡ some review
        → find_included review.pull_request_id db ≡ some i
        → resolve_key_and_model c now db user_id s ≡ (ok k, s')
        → ((messages : List LlmMessage) → c.complete k.api_key k.model messages ≡ err (js_error m))
        → (answered name_of at path
              (chat json by_filename now
                (llm_service c now db)
                review_id
                user_id
                user_message
                given
                fresh_id
                db
                store
                s).0.0
            ≡ some (
              500,
              record {
                message = append "OpenRouter request failed: " m;
                status_code = 500;
                extra = extra_of (name_of 500);
                timestamp = at;
                path = path;
              },
            ))
          × (catch_exception true false at path (error m)
              ≡ some (
                500,
                record {
                  message = "Internal server error";
                  status_code = 500;
                  extra = nothing;
                  timestamp = at;
                  path = path;
                },
              ))
    unfolding chat turn catch_exception get_status parse_exception
    chat-discloses review_id user_id at user_message fresh_id path m given review i k db store s s'
          found there resolved down =
        (
          rw (found, chat)
              (rw there (rw (turn, ask-fails user_id k m _ db s s' resolved (down _)) refl)),
          refl,
        )
