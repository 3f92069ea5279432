-- ===== src/Llm/Controller.antt =====
-- src/llm/llm.controller.ts: the configurations and the mode of the user of the request.
use pr_sentinel_backend.Base.{ℕ, Option, none, some}
use pr_sentinel_backend.Errors.{Result, ok, err}
use pr_sentinel_backend.Prisma.{Prisma}
use pr_sentinel_backend.Redis.{RedisClient}
use pr_sentinel_backend.Schema.{LlmMode, free, byok}
use pr_sentinel_backend.Database.{Db}
use pr_sentinel_backend.Llm.Quota.{get_remaining}
use pr_sentinel_backend.Llm.Config.{get_mode}
use pr_sentinel_backend.Llm.Service.{LlmSettings}

pub record ModeView : Type 0 where
  pub llm_mode : LlmMode
  pub remaining_free : Option ℕ

module _ ⦃p : Prisma⦄ ⦃r : RedisClient⦄ (c : LlmSettings) (now : ℕ) where
  -- What is left of the free quota, in the mode that has one.
  abbrev pub remaining_free : LlmMode → (user_id : ℕ) → r.Store → Option ℕ
  remaining_free free user_id store = some (get_remaining c.iso_date c.limit user_id now store)
  remaining_free byok user_id store = none

  -- `getMode`; the other routes are the operations of the configurations.
  unfoldable pub get_mode_route : (user_id : ℕ) → Db → r.Store → Result ModeView
  get_mode_route user_id db store = elim (get_mode user_id db) [
    | err e ↦ err e
    | ok mode ↦ ok (record { llm_mode = mode; remaining_free = remaining_free mode user_id store })
  ]
