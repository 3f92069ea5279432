-- ===== src/Llm/Service.antt =====
-- src/llm/llm.service.ts and the guard of src/llm/guards/free-quota.quard.ts: the key and the model
-- for a user, and the calls of the provider. The users and configurations are read from a database
-- that a call does not change; its state is the Redis store of the quota.
pub mod Keys
use pr_sentinel_backend.Base.{
  ℕ, String, List, Bool, true, false, Option, none, some, if◌then◌else◌, ltb,
}
use pr_sentinel_backend.Base.Text.{configured}
use pr_sentinel_backend.Errors.{internal_server_error, too_many_requests, Result, ok, err, ◌>>=◌}
use pr_sentinel_backend.Prisma.{Prisma}
use pr_sentinel_backend.Redis.{RedisClient}
use pr_sentinel_backend.Schema.{openrouter, LlmMode, free, byok}
use pr_sentinel_backend.Database.{Db}
use pr_sentinel_backend.Reviews.Generation.{LlmService, LlmMessage}
use pr_sentinel_backend.Llm.Encryption.{AesGcm}
use pr_sentinel_backend.Llm.Quota.{consume_free_review, get_remaining}
use pr_sentinel_backend.Llm.Config.{KeyAndModel, user_or_throw, get_decrypted_config}
use pr_sentinel_backend.Llm.Provider.{
  Completion, LlmReviewResponse, openrouter_chat, openrouter_review, get_provider,
}

-- What the service is configured with: its settings, its encryption key, the client and the limit.
pub record LlmSettings : Type 1 where
  pub cipher : AesGcm
  pub key : List cipher.Byte
  pub api_key : Option String
  pub default_model : Option String
  pub iso_date : ℕ → String
  pub limit : ℕ
  pub complete : (api_key model : String) → List LlmMessage → Result Completion

-- The content of a response.
abbrev pub content_of : Result LlmReviewResponse → Result String
content_of r = r >>= λ response. ok response.content

module _ ⦃p : Prisma⦄ ⦃r : RedisClient⦄ (c : LlmSettings) (now : ℕ) (db : Db) where
  -- The settings of the service for a free review, which is counted.
  unfoldable pub free_key_and_model : ℕ → r.Store → Result KeyAndModel × r.Store
  free_key_and_model user_id store =
      let missing : Result KeyAndModel × r.Store = (
        err (internal_server_error "OPENROUTER_API_KEY / OPENROUTER_DEFAULT_MODEL not configured"),
        store,
      ) in
      elim (configured c.api_key) [
        | none ↦ missing
        | some api_key ↦ elim (configured c.default_model) [
          | none ↦ missing
          | some model ↦
              let (counted, store') = consume_free_review c.iso_date c.limit user_id now store in
              (counted >>= λ u. ok (record { api_key = api_key; model = model }), store')
        ]
      ]

  -- `resolveKeyAndModel`
  unfoldable pub resolve_key_and_model : ℕ → r.Store → Result KeyAndModel × r.Store
  unfolding free_key_and_model
  resolve_key_and_model user_id store = elim (user_or_throw user_id db) [
    | err e ↦ (err e, store)
    | ok user ↦ elim user.llm_mode [
      | byok ↦ (get_decrypted_config c.cipher c.key user_id openrouter db, store)
      | free ↦ free_key_and_model user_id store
    ]
  ]

  -- `generateReview`, of whose response the caller reads the content.
  unfoldable pub generate_review :
      ℕ → (system_prompt user_prompt : String) → r.Store → Result String × r.Store
  unfolding resolve_key_and_model
  generate_review user_id system_prompt user_prompt store =
      let (resolved, store') = resolve_key_and_model user_id store in
      (
        (resolved >>= λ k. get_provider openrouter >>= λ provider. content_of (
            openrouter_review c.complete (record {
              api_key = k.api_key;
              model = k.model;
              system_prompt = system_prompt;
              user_prompt = user_prompt;
            }))),
        store',
      )

  -- `chat`
  unfoldable pub chat : ℕ → List LlmMessage → r.Store → Result String × r.Store
  unfolding resolve_key_and_model
  chat user_id messages store =
      let (resolved, store') = resolve_key_and_model user_id store in
      (
        (resolved >>= λ k. get_provider openrouter >>= λ provider. content_of (
            openrouter_chat c.complete
              (record { api_key = k.api_key; model = k.model; messages = messages }))),
        store',
      )

  -- The service, as the reviews use it.
  abbrev pub llm_service : LlmService
  llm_service = record { State = r.Store; generate_review = generate_review; chat = chat }

  -- `canActivate` of FreeQuotaGuard
  unfoldable pub can_activate : ℕ → r.Store → Result Bool
  can_activate user_id store = do
    user ← user_or_throw user_id db
    elim user.llm_mode [
      | byok ↦ ok true
      | free ↦
          if ltb 0 (get_remaining c.iso_date c.limit user_id now store)
          then ok true
          else err (too_many_requests "Free AI review limit reached for today")
    ]
