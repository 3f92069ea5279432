-- ===== src/Llm/Quota.antt =====
-- src/llm/services/free-quota.service.ts and src/llm/guards/free-quota.quard.ts. Times are
-- milliseconds since 1970, the clock of Redis counts seconds. The calendar date of a day, as
-- toISOString writes it, and `Number` on the setting, where it gives a natural number, are
-- parameters; a limit with a fraction is not represented.
pub mod Day
use Prim.Native.Nat.{◌/◌, ◌%◌}
use Prim.Native.String.{◌++◌ as append}
use pr_sentinel_backend.Base.{
  ℕ, ◌+◌, ◌-◌, ◌*◌, String, Bool, true, false, List, [], ◌∷◌, Option, none, some, if◌then◌else◌,
  ◌==◌, ltb, or_else,
}
use pr_sentinel_backend.Base.Text.{decimal}
use pr_sentinel_backend.Errors.{js_error, too_many_requests, Result, ok, err}
use pr_sentinel_backend.Redis.{RedisClient}

abbrev pub day_ms : ℕ
day_ms = 1000 * 60 * 60 * 24

-- The time in seconds.
abbrev pub seconds : ℕ → ℕ
seconds now = now / 1000

-- The constructor of FreeQuotaService: the daily limit.
unfoldable pub daily_limit : (number : String → Option ℕ) → Option String → Result ℕ
daily_limit number setting =
    let refused = err (js_error "FREE_REVIEWS_PER_USER_PER_DAY must be a valid positive number") in
    elim (number (or_else setting "5")) [
      | none ↦ refused
      | some limit ↦ if ltb limit 1 then refused else ok limit
    ]

-- `secondsUntilMidnightUTC`
unfoldable pub seconds_until_midnight : ℕ → ℕ
seconds_until_midnight now = (day_ms - now % day_ms + 999) / 1000

module _ (iso_date : ℕ → String) where
  -- The key of a day, given by its number.
  pub day_key : (user_id day : ℕ) → String
  day_key user_id day =
      append "ai-review:user:" (append (decimal user_id) (append ":" (iso_date day)))

  -- `buildKey`
  abbrev pub build_key : (user_id now : ℕ) → String
  build_key user_id now = day_key user_id (now / day_ms)

  module _ ⦃r : RedisClient⦄ (limit : ℕ) where
    -- `consumeFreeReview`
    unfoldable pub consume_free_review : (user_id now : ℕ) → r.Store → Result (Unit {0}) × r.Store
    unfolding seconds_until_midnight
    consume_free_review user_id now store =
        let key = build_key user_id now in
        let (count, counted) = r.incr (seconds now) key store in
        let store' =
          (if count == 1
            then r.expire (seconds now) key (seconds_until_midnight now) counted
            else counted) in
        if ltb limit count
        then (err (too_many_requests "Free AI review limit reached for today"), store')
        else (ok tt, store')

    -- `getRemaining`
    unfoldable pub get_remaining : (user_id now : ℕ) → r.Store → ℕ
    get_remaining user_id now store = limit - r.count (seconds now) (build_key user_id now) store
