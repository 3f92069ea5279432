-- ===== src/Llm/Service/Keys.antt =====
-- With which key a model is asked, and that a mode without a usable key can be chosen.
use pr_sentinel_backend.Base.{
  ℕ, String, ◌≡◌, refl, ap, ◌∙◌, inl, inr, List, [], ◌∷◌, none, some, or_else, ◌==◌, ==_refl,
  length, Option-cases,
}
use Prim.Native.String.{◌++◌ as append}
use pr_sentinel_backend.Errors.{Result, ok, err, not_found, internal_server_error, Result-cases}
use pr_sentinel_backend.Reviews.Generation.{LlmMessage, Role}
use pr_sentinel_backend.Prisma.{Prisma}
use pr_sentinel_backend.Prisma.Keyed.{find_unique, find-update}
use pr_sentinel_backend.Redis.{RedisClient}
use pr_sentinel_backend.Schema.{openrouter, byok, User, UserLlmConfig}
use pr_sentinel_backend.Database.{Db}
use pr_sentinel_backend.Prisma.{find_first}
use pr_sentinel_backend.Llm.Encryption.{AesGcm, payload_of}
use pr_sentinel_backend.Llm.Config.{
  user_or_throw, find_config, write_config, upsert_config, update_mode, get_decrypted_config,
}
use pr_sentinel_backend.Llm.Config.Keys.{
  upsert_config-write_config, get_decrypted_config-upsert_config,
}
use pr_sentinel_backend.Llm.Provider.{
  Completion, error_text, openrouter_chat, openrouter_review, get_provider,
}
use pr_sentinel_backend.Llm.Service.{
  LlmSettings, resolve_key_and_model, content_of, generate_review,
}

-- The messages of a review.
abbrev pub prompts : (system_prompt user_prompt : String) → List LlmMessage
prompts system_prompt user_prompt =
    record { role = Role.system; content = system_prompt }
    ∷ record { role = Role.user; content = user_prompt }
    ∷ []

-- The text of a completion, or the failure of the request.
abbrev pub reply_of : Result Completion → Result String
reply_of (ok completion) = ok (or_else completion.first_content "")
reply_of (err e) = err (internal_server_error (append "OpenRouter request failed: " (error_text e)))

openrouter_review-prompts :
    (complete : (api_key model : String) → List LlmMessage → Result Completion)
    (api_key model system_prompt user_prompt : String)
    → content_of (
        openrouter_review complete (record {
          api_key = api_key;
          model = model;
          system_prompt = system_prompt;
          user_prompt = user_prompt;
        }))
      ≡ reply_of (complete api_key model (prompts system_prompt user_prompt))
unfolding openrouter_review openrouter_chat
openrouter_review-prompts complete api_key model system_prompt user_prompt =
    elim (Result-cases (complete api_key model (prompts system_prompt user_prompt))) [
      | inl (e, fails) ↦ rw (fails, openrouter_chat) refl
      | inr (completion, works) ↦ rw (works, openrouter_chat) refl
    ]

module _ ⦃p : Prisma⦄ (now : ℕ) where
  -- To store a key leaves the users alone.
  users-write_config :
      (user_id : ℕ) (encrypted model : String) (db : Db)
      → (write_config now user_id openrouter encrypted model db).1.users ≡ db.users
  unfolding write_config
  users-write_config user_id encrypted model db =
      elim (Option-cases (find_config user_id openrouter db)) [
        | inl e ↦ rw (e, write_config) refl
        | inr (old, e) ↦ rw (e, write_config) refl
      ]

  users-upsert_config :
      (c : AesGcm) (key iv : List c.Byte) (user_id : ℕ) (api_key model : String) (db : Db)
      → length key ≡ 32
      → (upsert_config now c key iv user_id openrouter api_key model db).1.users ≡ db.users
  users-upsert_config c key iv user_id api_key model db valid =
      rw (upsert_config-write_config now c key iv user_id openrouter api_key model db valid)
        (users-write_config user_id (payload_of c key iv api_key) model db)

module _ ⦃p : Prisma⦄ ⦃r : RedisClient⦄ (c : LlmSettings) (now : ℕ) where
  resolve_key_and_model-byok :
      (user_id : ℕ) (user : User) (db : Db) (store : r.Store)
      → find_unique (λ u. u.id) user_id db.users ≡ some user
      → user.llm_mode ≡ byok
      → resolve_key_and_model c now db user_id store
        ≡ (get_decrypted_config c.cipher c.key user_id openrouter db, store)
  unfolding resolve_key_and_model user_or_throw
  resolve_key_and_model-byok user_id user db store found mode =
      rw (found, resolve_key_and_model) (rw mode refl)

module _ ⦃p : Prisma⦄ ⦃r : RedisClient⦄ (c : LlmSettings) (now : ℕ) where
  -- A user in mode BYOK pays with the own key: once a key for OpenRouter is stored, under a key of
  -- the service of 32 bytes, a review is asked of OpenRouter with that key and model, and the free
  -- quota is not touched; the review is the text of the answer.
  pub generate_review-upsert_config :
      (iv : List c.cipher.Byte) (user_id : ℕ) (api_key model : String)
      (system_prompt user_prompt : String) (user : User) (db : Db) (store : r.Store)
      → length c.key ≡ 32
      → length iv ≡ 12
      → find_unique (λ u. u.id) user_id db.users ≡ some user
      → user.llm_mode ≡ byok
      → generate_review c now
          (upsert_config now c.cipher c.key iv user_id openrouter api_key model db).1
          user_id
          system_prompt
          user_prompt
          store
        ≡ (reply_of (c.complete api_key model (prompts system_prompt user_prompt)), store)
  unfolding generate_review resolve_key_and_model user_or_throw get_provider upsert_config
  generate_review-upsert_config iv user_id api_key model system_prompt user_prompt user db store
        valid twelve found mode =
      let after = (upsert_config now c.cipher c.key iv user_id openrouter api_key model db).1 in
      let there : find_unique (λ (u : User). u.id) user_id after.users ≡ some user =
        rw (users-upsert_config now c.cipher c.key iv user_id api_key model db valid) found in
      rw
        (
          resolve_key_and_model-byok c now user_id user after store there mode,
          get_decrypted_config-upsert_config now c.cipher c.key iv user_id openrouter api_key model
              db valid twelve,
        )
        (ap (λ t. (t, store))
          (openrouter_review-prompts c.complete api_key model system_prompt user_prompt))

  -- The mode BYOK can be chosen without a usable key: a user whose keys are all for other providers
  -- than OpenRouter is let into the mode, and from then on every review fails because no
  -- configuration is found.
  pub generate_review-update_mode :
      (user_id : ℕ) (other : UserLlmConfig) (user : User) (system_prompt user_prompt : String)
      (db : Db) (store : r.Store)
      → find_unique (λ u. u.id) user_id db.users ≡ some user
      → find_first (λ x. x.user_id == user_id) db.user_llm_configs ≡ some other
      → find_config user_id openrouter db ≡ none
      → ((update_mode now user_id byok db).0 ≡ ok byok)
        × (generate_review c now
              (update_mode now user_id byok db).1
              user_id
              system_prompt
              user_prompt
              store
            ≡ (err (not_found "LLM config not found"), store))
  unfolding generate_review resolve_key_and_model user_or_throw update_mode get_decrypted_config
  generate_review-update_mode user_id other user system_prompt user_prompt db store found some_key
        no_key =
      let after = (update_mode now user_id byok db).1 in
      let switched : User → User = λ u. record u { llm_mode = byok; updated_at = now } in
      let there : find_unique (λ (u : User). u.id) user_id after.users ≡ some (switched user) =
        rw (some_key, update_mode)
          (rw found (
            find-update (λ (u : User). u.id) user_id switched (λ u. refl) user_id db.users
            ∙ rw (==_refl user_id, found))) in
      let missing : find_config user_id openrouter after ≡ none =
        rw (some_key, update_mode) (rw found no_key) in
      (
        rw (some_key, update_mode) (rw found refl),
        rw (resolve_key_and_model-byok c now user_id (switched user) after store there refl)
            (rw (missing, get_decrypted_config) refl),
      )
