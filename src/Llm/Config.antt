-- ===== src/Llm/Config.antt =====
-- src/llm/services/llm-config.service.ts: the keys of a user, one for each provider, and the mode.
-- The selected columns of a configuration are a view of its row; errors of Prisma are texts.
pub mod Keys
use pr_sentinel_backend.Base.{
  ℕ, String, Bool, true, false, ◌&&◌, List, [], ◌∷◌, map, Option, none, some, if◌then◌else◌, ◌==◌,
  is_some,
}
use pr_sentinel_backend.Errors.{bad_request, not_found, js_error, Result, ok, err, ◌>>=◌}
use pr_sentinel_backend.Prisma.{Prisma, find_first, find_many, new_id}
use pr_sentinel_backend.Prisma.Keyed.{find_unique, update}
use pr_sentinel_backend.Schema.{
  LlmProviderType, openrouter, openai, gemini, anthropic, LlmMode, free, byok, User, UserLlmConfig,
}
use pr_sentinel_backend.Database.{Db}
use pr_sentinel_backend.Llm.Encryption.{AesGcm, encrypt, decrypt}

abbrev pub same_provider : LlmProviderType → LlmProviderType → Bool
same_provider openrouter openrouter = true
same_provider openai openai = true
same_provider gemini gemini = true
same_provider anthropic anthropic = true
same_provider _ _ = false

-- `select: { id, provider, model, isActive }`
pub record ConfigView : Type 0 where
  pub id : ℕ
  pub provider : LlmProviderType
  pub model : String
  pub is_active : Bool

abbrev pub config_view : UserLlmConfig → ConfigView
config_view c = record {
  id = c.id;
  provider = c.provider;
  model = c.model;
  is_active = c.is_active;
}

pub record KeyAndModel : Type 0 where
  pub api_key : String
  pub model : String

-- `userId_provider: { userId, provider }`
abbrev pub is_config : (user_id : ℕ) → LlmProviderType → UserLlmConfig → Bool
is_config user_id provider c = c.user_id == user_id && same_provider c.provider provider

-- The update data of `upsertConfig`.
abbrev pub rekeyed : (now : ℕ) → (encrypted_api_key model : String) → UserLlmConfig → UserLlmConfig
rekeyed now encrypted_api_key model c = record c {
  encrypted_api_key = encrypted_api_key;
  model = model;
  updated_at = now;
}

module _ ⦃p : Prisma⦄ where
  abbrev pub find_config : (user_id : ℕ) → LlmProviderType → Db → Option UserLlmConfig
  find_config user_id provider db = find_first (is_config user_id provider) db.user_llm_configs

  -- `listConfigs`
  unfoldable pub list_configs : ℕ → Db → List ConfigView
  list_configs user_id db =
      map config_view (find_many (λ c. c.user_id == user_id) db.user_llm_configs)

  -- `removeConfig`
  unfoldable pub remove_config : ℕ → LlmProviderType → Db → Result UserLlmConfig × Db
  remove_config user_id provider db = elim (find_config user_id provider db) [
    | none ↦ (err (js_error "No record was found for a delete."), db)
    | some c ↦ (
      ok c,
      record db {
        user_llm_configs = p.delete_many (is_config user_id provider) db.user_llm_configs;
      },
    )
  ]

  -- `findUniqueOrThrow` on a user.
  unfoldable pub user_or_throw : ℕ → Db → Result User
  user_or_throw user_id db = elim (find_unique (λ u. u.id) user_id db.users) [
    | none ↦ err (js_error "No record was found for a query.")
    | some user ↦ ok user
  ]

  -- `getMode`
  unfoldable pub get_mode : ℕ → Db → Result LlmMode
  unfolding user_or_throw
  get_mode user_id db = do user ← user_or_throw user_id db; ok user.llm_mode

  -- A user in mode BYOK has a configuration.
  abbrev pub may_switch : ℕ → LlmMode → Db → Bool
  may_switch user_id free db = true
  may_switch user_id byok db = is_some (find_first (λ c. c.user_id == user_id) db.user_llm_configs)

module _ ⦃p : Prisma⦄ (now : ℕ) where
  abbrev new_config : ℕ → LlmProviderType → (encrypted_api_key model : String) → Db → UserLlmConfig
  new_config user_id provider encrypted_api_key model db = record {
    id = new_id (λ c. c.id) db.user_llm_configs;
    provider = provider;
    encrypted_api_key = encrypted_api_key;
    model = model;
    is_active = true;
    user_id = user_id;
    created_at = now;
    updated_at = now;
  }

  -- The write of `upsertConfig`.
  unfoldable pub write_config :
      ℕ → LlmProviderType → (encrypted model : String) → Db → ConfigView × Db
  write_config user_id provider encrypted model db = elim (find_config user_id provider db) [
    | none ↦
        let row = new_config user_id provider encrypted model db in
        (config_view row, record db { user_llm_configs = p.create row db.user_llm_configs })
    | some old ↦ (
      config_view (rekeyed now encrypted model old),
      record db {
        user_llm_configs =
            p.update_many (is_config user_id provider) (rekeyed now encrypted model)
              db.user_llm_configs;
      },
    )
  ]

  -- `upsertConfig`, with the key of the service and the random bytes of the encryption.
  unfoldable pub upsert_config :
      (c : AesGcm) (key iv : List c.Byte)
      → ℕ
      → LlmProviderType
      → (api_key model : String) → Db
      → Result ConfigView × Db
  unfolding write_config
  upsert_config c key iv user_id provider api_key model db = elim (encrypt c key iv api_key) [
    | err e ↦ (err e, db)
    | ok encrypted ↦
        let (view, db') = write_config user_id provider encrypted model db in (ok view, db')
  ]

  -- `updateMode`
  unfoldable pub update_mode : ℕ → LlmMode → Db → Result LlmMode × Db
  update_mode user_id mode db =
      if may_switch user_id mode db
      then elim (find_unique (λ u. u.id) user_id db.users) [
        | none ↦ (err (js_error "No record was found for an update."), db)
        | some user ↦ (
          ok mode,
          record db {
            users =
                update (λ u. u.id) user_id (λ u. record u { llm_mode = mode; updated_at = now })
                  db.users;
          },
        )
      ]
      else (err (bad_request "Add at least one provider before switching to BYOK mode"), db)

module _ ⦃p : Prisma⦄ (c : AesGcm) (key : List c.Byte) where
  -- `getDecryptedConfig`
  unfoldable pub get_decrypted_config : ℕ → LlmProviderType → Db → Result KeyAndModel
  get_decrypted_config user_id provider db = elim (find_config user_id provider db) [
    | none ↦ err (not_found "LLM config not found")
    | some config ↦ decrypt c key config.encrypted_api_key >>= λ api_key.
        ok (record { api_key = api_key; model = config.model })
  ]
