-- ===== src/Llm/Quota/Day.antt =====
-- What the quota allows in the course of a day.
use Prim.Native.Nat.{◌/◌, min}
use pr_sentinel_backend.Base.{
  ℕ, suc, ◌+◌, ◌-◌, ◌<◌, ◌≤◌, String, ◌≡◌, refl, inl, inr, false, List, [], ◌∷◌, arith, length,
  if◌then◌else◌, ◌==◌, ltb, Bool-cases, ◌∙◌,
}
use pr_sentinel_backend.Errors.{Result, ok, err}
use pr_sentinel_backend.Redis.{RedisClient}
use pr_sentinel_backend.Llm.Quota.{
  seconds_until_midnight, day_key, consume_free_review, get_remaining,
}

abbrev pub is_ok : Result (Unit {0}) → ℕ
is_ok (ok u) = 1
is_ok (err e) = 0

-- Times of one day, none before the one that it follows.
abbrev pub AreInDay : (day from : ℕ) → List ℕ → Type 0
AreInDay day from [] = Unit
AreInDay day from (t ∷ ts) = (from ≤ t) × (t / 86400000 ≡ day) × AreInDay day t ts

-- A key that expires at midnight is there for the rest of the day.
until_midnight :
    (day now later : ℕ)
    → now / 86400000 ≡ day
    → later / 86400000 ≡ day
    → later / 1000 < now / 1000 + seconds_until_midnight now
unfolding seconds_until_midnight
until_midnight day now later e e' = omega arith

module _ (iso_date : ℕ → String) ⦃r : RedisClient⦄ (limit user_id : ℕ) where
  -- How many of the reviews that are asked for at these times are allowed.
  pub allowed : List ℕ → r.Store → ℕ
  allowed [] store = 0
  allowed (t ∷ ts) store =
      let (answer, store') = consume_free_review iso_date limit user_id t store in
      is_ok answer + allowed ts store'

  module _ (day : ℕ) where
    abbrev key : String
    key = day_key iso_date user_id day

    -- The key holds `m` from this time to the end of the day.
    abbrev Holds : (from m : ℕ) → r.Store → Type 0
    Holds from m store =
        (later : ℕ) → from ≤ later → later / 86400000 ≡ day → r.count (later / 1000) key store ≡ m

    abbrev after : ℕ → r.Store → Result (Unit {0}) × r.Store
    after t store = consume_free_review iso_date limit user_id t store

    is_ok-consume :
        (t m : ℕ) (store : r.Store)
        → t / 86400000 ≡ day
        → r.count (t / 1000) key store ≡ m
        → is_ok (after t store).0 ≡ (if ltb m limit then 1 else 0)
    unfolding consume_free_review
    is_ok-consume t m store e holds =
        rw (e, r.incr-count (t / 1000) key store, holds) (ground arith)

    after-store :
        (t m : ℕ) (store : r.Store)
        → t / 86400000 ≡ day
        → r.count (t / 1000) key store ≡ m
        → (after t store).1 ≡ (
            if suc m == 1
            then r.expire (t / 1000) key (seconds_until_midnight t) (r.incr (t / 1000) key store).1
            else (r.incr (t / 1000) key store).1)
    unfolding consume_free_review
    after-store t m store e holds =
        rw (e, r.incr-count (t / 1000) key store, holds)
          (elim (Bool-cases (ltb limit (suc m))) [
            | inl over ↦ rw over refl
            | inr within ↦ rw within refl
          ])

    first-Holds :
        (t : ℕ) (store : r.Store)
        → t / 86400000 ≡ day
        → r.count (t / 1000) key store ≡ 0
        → Holds t 1 (after t store).1
    first-Holds t store e none_yet later h e' = rw (after-store t 0 store e none_yet) (
        r.count-expire (t / 1000) (later / 1000) (seconds_until_midnight t) key
          (r.incr (t / 1000) key store).1 (omega arith) (until_midnight day t later e e')
        ∙ r.count-incr (t / 1000) key store
        ∙ rw none_yet)

    next-Holds :
        (from t m : ℕ) (store : r.Store)
        → from ≤ t
        → t / 86400000 ≡ day
        → Holds from (suc m) store
        → Holds t (suc (suc m)) (after t store).1
    next-Holds from t m store h e holds later h' e' =
        let later_count : r.count (later / 1000) key store ≡ suc m = holds later (omega arith) e' in
        let counted : (suc (suc m) == 1) ≡ false = ground arith in
        rw (after-store t (suc m) store e (holds t h e), counted)
          (r.count-incr_later (t / 1000) (later / 1000) key store (omega arith)
              (omega (arith, later_count))
            ∙ rw later_count)

    allowed-rest :
        (from m : ℕ) (ts : List ℕ) (store : r.Store)
        → AreInDay day from ts
        → Holds from (suc m) store
        → allowed ts store ≡ min (length ts) (limit - suc m)
    unfolding allowed
    allowed-rest from m [] store times holds = omega arith
    allowed-rest from m (t ∷ ts) store (h, e, rest) holds =
        let first = is_ok-consume t (suc m) store e (holds t h e) in
        let others =
          allowed-rest t (suc m) ts (after t store).1 rest (next-Holds from t m store h e holds) in
        rw (first, others)
          (elim (Bool-cases (ltb (suc m) limit)) [
            | inl within ↦ rw within (ground arith)
            | inr over ↦ rw over (ground arith)
          ])

    -- The quota is exact: of the reviews that a user without one yet asks for in the course of a
    -- day, the first ones are allowed up to the limit, and no more.
    pub allowed-first :
        (t : ℕ) (ts : List ℕ) (store : r.Store)
        → AreInDay day t (t ∷ ts)
        → r.count (t / 1000) (day_key iso_date user_id day) store ≡ 0
        → allowed (t ∷ ts) store ≡ min (length (t ∷ ts)) limit
    unfolding allowed
    allowed-first t ts store (h, e, rest) none_yet =
        rw
          (
            is_ok-consume t 0 store e none_yet,
            allowed-rest t 0 ts (after t store).1 rest (first-Holds t store e none_yet),
          )
          (ground arith)

    -- What the user is told to have left is what is allowed: with some left the next review is
    -- allowed and one less is left for the rest of the day, and with none left it is refused.
    pub get_remaining-consume :
        (from t later m : ℕ) (store : r.Store)
        → from ≤ t
        → t ≤ later
        → t / 86400000 ≡ day
        → later / 86400000 ≡ day
        → Holds from (suc m) store
        → (is_ok (after t store).0
            ≡ (if 0 == get_remaining iso_date limit user_id t store then 0 else 1))
          × (get_remaining iso_date limit user_id later (after t store).1
              ≡ get_remaining iso_date limit user_id t store - 1)
    unfolding get_remaining
    get_remaining-consume from t later m store h h' e e' holds = (
      is_ok-consume t (suc m) store e (holds t h e) ∙ rw (e, holds t h e) (ground arith),
      rw (e, e', holds t h e, next-Holds from t m store h e holds later h' e') (omega arith),
    )
