-- ===== src/Llm/Config/Keys.antt =====
-- A stored key comes back, and those of other users and providers stay.
use pr_sentinel_backend.Base.{
  ℕ, String, ◌≡◌, refl, ◌∙◌, inl, inr, true, List, some, ==_refl, length, Option-cases, find-passes,
}
use pr_sentinel_backend.Errors.{ok}
use pr_sentinel_backend.Prisma.{Prisma}
use pr_sentinel_backend.Prisma.Keyed.{find-create, find-update_many}
use pr_sentinel_backend.Schema.{
  LlmProviderType, openrouter, openai, gemini, anthropic, UserLlmConfig,
}
use pr_sentinel_backend.Database.{Db}
use pr_sentinel_backend.Llm.Encryption.{AesGcm, payload_of, encrypt, decrypt-payload_of}
use pr_sentinel_backend.Llm.Config.{
  same_provider, is_config, find_config, rekeyed, new_config, write_config, upsert_config,
  get_decrypted_config,
}

pub same_provider_refl : (a : LlmProviderType) → same_provider a a ≡ true
same_provider_refl openrouter = refl
same_provider_refl openai = refl
same_provider_refl gemini = refl
same_provider_refl anthropic = refl

module _ ⦃p : Prisma⦄ (now : ℕ) (c : AesGcm) (key iv : List c.Byte) (user_id : ℕ)
    (provider : LlmProviderType) (api_key model : String) (db : Db) where
  abbrev stored : Db
  stored = (write_config now user_id provider (payload_of c key iv api_key) model db).1

  is_config-own :
      (row : UserLlmConfig)
      → row.user_id ≡ user_id
      → row.provider ≡ provider
      → is_config user_id provider row ≡ true
  is_config-own row e e' = rw (e, e', ==_refl user_id) (same_provider_refl provider)

  find_config-stored :
      (row : UserLlmConfig) × (find_config user_id provider stored ≡ some row)
      × (row.encrypted_api_key ≡ payload_of c key iv api_key)
      × (row.model ≡ model)
  unfolding write_config
  find_config-stored = elim (Option-cases (find_config user_id provider db)) [
    | inl e ↦
        let row = new_config now user_id provider (payload_of c key iv api_key) model db in
        let own = is_config-own row refl refl in
        (
          row,
          rw (e, stored, write_config)
              (find-create (is_config user_id provider) row db.user_llm_configs ∙ rw e (rw own)),
          refl,
          refl,
        )
    | inr (old, e) ↦
        let new = rekeyed now (payload_of c key iv api_key) model in
        (
          new old,
          rw (e, stored, write_config)
              (find-update_many (is_config user_id provider) (is_config user_id provider) new
                  db.user_llm_configs (λ r. refl)
                ∙ rw e
                    (rw (find-passes (is_config user_id provider) (p.rows db.user_llm_configs) e))),
          refl,
          refl,
        )
  ]

  pub upsert_config-write_config :
      length key ≡ 32
      → upsert_config now c key iv user_id provider api_key model db
        ≡ (ok (write_config now user_id provider (payload_of c key iv api_key) model db).0, stored)
  unfolding upsert_config encrypt
  upsert_config-write_config valid =
      let encrypts : encrypt c key iv api_key ≡ ok (payload_of c key iv api_key) = rw valid refl in
      rw (encrypts, upsert_config) refl

  -- A stored key comes back: under a key of the service of 32 bytes, after a key has been stored for
  -- a provider, whether or not there was one before, the configuration for that provider is the key
  -- as it was given and the model.
  pub get_decrypted_config-upsert_config :
      length key ≡ 32
      → length iv ≡ 12
      → get_decrypted_config c key user_id provider
          (upsert_config now c key iv user_id provider api_key model db).1
        ≡ ok (record { api_key = api_key; model = model })
  unfolding get_decrypted_config
  get_decrypted_config-upsert_config valid twelve =
      let (row, found, sealed, same) = find_config-stored in
      rw (upsert_config-write_config valid) (
        rw (found, get_decrypted_config)
          (rw (sealed, same, decrypt-payload_of c key iv api_key valid twelve)))
