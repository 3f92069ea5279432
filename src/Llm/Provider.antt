-- ===== src/Llm/Provider.antt =====
-- src/llm/llm.factory.ts and src/llm/providers/openrouter/openrouter.provider.ts. The client of the
-- package openai is a parameter: what a completion of a model and messages answers or throws.
use Prim.Native.String.{◌++◌ as append}
use pr_sentinel_backend.Base.{ℕ, String, List, [], ◌∷◌, Option, none, some, or_else}
use pr_sentinel_backend.Errors.{
  Exception, http_exception, js_error, thrown_value, bad_request, internal_server_error, Result, ok,
  err,
}
use pr_sentinel_backend.Schema.{LlmProviderType, openrouter, openai, gemini, anthropic}
use pr_sentinel_backend.Reviews.Generation.{LlmMessage, system, user}

pub record LlmChatRequest : Type 0 where
  pub api_key : String
  pub model : String
  pub messages : List LlmMessage

pub record LlmReviewRequest : Type 0 where
  pub api_key : String
  pub model : String
  pub system_prompt : String
  pub user_prompt : String

pub record Usage : Type 0 where
  pub input_tokens : Option ℕ
  pub output_tokens : Option ℕ

pub record LlmReviewResponse : Type 0 where
  pub content : String
  pub model : Option String
  pub usage : Option Usage

-- A completion: the content of its first choice, if there is one, the model, and the tokens.
pub record Completion : Type 0 where
  pub first_content : Option String
  pub model : String
  pub usage : Option Usage

-- `err instanceof Error ? err.message : 'unknown error'`
abbrev pub error_text : Exception → String
error_text (http_exception status message) = message
error_text (js_error message) = message
error_text (thrown_value text) = "unknown error"

-- `completion.usage?.prompt_tokens` and `completion.usage?.completion_tokens`
abbrev usage_of : Option Usage → Usage
usage_of none = record { input_tokens = none; output_tokens = none }
usage_of (some u) = u

module _ (complete : (api_key model : String) → List LlmMessage → Result Completion) where
  -- `chat` of OpenRouterProvider
  unfoldable pub openrouter_chat : LlmChatRequest → Result LlmReviewResponse
  openrouter_chat request = elim (complete request.api_key request.model request.messages) [
    | err e ↦ err (internal_server_error (append "OpenRouter request failed: " (error_text e)))
    | ok completion ↦ ok (record {
      content = or_else completion.first_content "";
      model = some completion.model;
      usage = some (usage_of completion.usage);
    })
  ]

  -- `review` of OpenRouterProvider
  unfoldable pub openrouter_review : LlmReviewRequest → Result LlmReviewResponse
  unfolding openrouter_chat
  openrouter_review request = openrouter_chat (record {
    api_key = request.api_key;
    model = request.model;
    messages =
        record { role = system; content = request.system_prompt }
        ∷ record { role = user; content = request.user_prompt }
        ∷ [];
  })

pub data Provider : Type 0 where
  openrouter_provider : Provider

-- `getProvider`
unfoldable pub get_provider : LlmProviderType → Result Provider
get_provider openrouter = ok openrouter_provider
get_provider openai = err (bad_request "OpenAI provider is not implemented yet")
get_provider gemini = err (bad_request "Gemini provider is not implemented yet")
get_provider anthropic = err (bad_request "Anthropic provider is not implemented yet")
