-- ===== src/Redis/States.antt =====
-- src/auth/oauth-state.service.ts and src/github/install-state.service.ts: random single-use tokens
-- in Redis. The random bytes of a token are an argument; times are in seconds.
use Prim.Native.String.{◌++◌ as append}
use pr_sentinel_backend.Base.{ℕ, ◌+◌, ◌*◌, ◌<◌, ◌≤◌, String, ◌≡◌, refl, Option, none, some}
use pr_sentinel_backend.Redis.{
  RedisClient, Json, set_json, get_json, get_json-set_json, get_json-set_json_expired, get_json-del,
}

pub record OAuthStatePayload : Type 0 where
  pub redirect : Option String
  pub created_at : String

pub record InstallStatePayload : Type 0 where
  pub user_id : ℕ
  pub created_at : String

abbrev pub oauth_state_ttl_seconds : ℕ
oauth_state_ttl_seconds = 15 * 60

abbrev pub install_state_ttl_seconds : ℕ
install_state_ttl_seconds = 10 * 60

module _ ⦃r : RedisClient⦄ where
  -- `consume` of both services: the payload of a live token, which is deleted with it.
  unfoldable pub consume_key :
      {A : Type 0} → Json A → (now : ℕ) → String → r.Store → Option A × r.Store
  consume_key json now key s = elim (get_json json now key s) [
    | none ↦ (none, s)
    | some payload ↦ (some payload, r.del key s)
  ]

  module _ {A : Type 0} (json : Json A) (now : ℕ) (key : String) where
    pub consume_key-live :
        (s : r.Store) {a : A}
        → get_json json now key s ≡ some a
        → consume_key json now key s ≡ (some a, r.del key s)
    unfolding consume_key
    consume_key-live s e = rw (e, consume_key)

    pub consume_key-dead :
        (s : r.Store) → get_json json now key s ≡ none → consume_key json now key s ≡ (none, s)
    unfolding consume_key
    consume_key-dead s e = rw (e, consume_key)

  module _ (json : Json OAuthStatePayload) where
    -- `OAuthStateService.create`
    unfoldable pub create_oauth_state :
        (now : ℕ) → (state created_at : String) → Option String → r.Store → String × r.Store
    create_oauth_state now state created_at redirect s = (
      state,
      set_json json now (append "oauth-state:" state)
          (record { redirect = redirect; created_at = created_at }) oauth_state_ttl_seconds s,
    )

    -- `OAuthStateService.consume`
    unfoldable pub consume_oauth_state :
        (now : ℕ) → String → r.Store → Option OAuthStatePayload × r.Store
    unfolding consume_key
    consume_oauth_state now state s = consume_key json now (append "oauth-state:" state) s

    -- An OAuth state gives the payload that it was created with, once, within a quarter of an hour.
    pub consume_oauth_state-create_oauth_state :
        (now later again : ℕ) (state created_at : String) (redirect : Option String) (s : r.Store)
        → now ≤ later
        → later < now + 900
        → let s1 = (create_oauth_state now state created_at redirect s).1 in
          ((consume_oauth_state later state s1).0
            ≡ some (record { redirect = redirect; created_at = created_at }))
          × ((consume_oauth_state again state (consume_oauth_state later state s1).1).0 ≡ none)
    unfolding consume_oauth_state create_oauth_state
    consume_oauth_state-create_oauth_state now later again state created_at redirect s h before =
        let key = append "oauth-state:" state in
        let payload : OAuthStatePayload = record { redirect = redirect; created_at = created_at } in
        let s1 = set_json json now key payload oauth_state_ttl_seconds s in
        rw
          (consume_key-live json later key s1
            (get_json-set_json json now later oauth_state_ttl_seconds key payload s h before))
          (
            refl,
            rw (consume_key-dead json again key (r.del key s1) (get_json-del json again key s1)),
          )

  module _ (json : Json InstallStatePayload) where
    -- `InstallStateService.create`
    unfoldable pub create_install_state :
        (now : ℕ) → (state created_at : String) → ℕ → r.Store → String × r.Store
    create_install_state now state created_at user_id s = (
      state,
      set_json json now (append "github-install-state:" state)
          (record { user_id = user_id; created_at = created_at }) install_state_ttl_seconds s,
    )

    -- `payload.userId` of a consumed state.
    abbrev pub user_of : Option InstallStatePayload → Option ℕ
    user_of none = none
    user_of (some payload) = some payload.user_id

    -- `InstallStateService.consume`
    unfoldable pub consume_install_state : (now : ℕ) → String → r.Store → Option ℕ × r.Store
    unfolding consume_key
    consume_install_state now state s =
        let (payload, s') = consume_key json now (append "github-install-state:" state) s in
        (user_of payload, s')

    -- An install state is good for its user, once: consumed within ten minutes of its creation it
    -- gives the user who created it, and consumed again at any time it gives null.
    pub consume_install_state-create_install_state :
        (now later again : ℕ) (state created_at : String) (user_id : ℕ) (s : r.Store)
        → now ≤ later
        → later < now + 600
        → let s1 = (create_install_state now state created_at user_id s).1 in
          ((consume_install_state later state s1).0 ≡ some user_id)
          × ((consume_install_state again state (consume_install_state later state s1).1).0 ≡ none)
    unfolding consume_install_state create_install_state
    consume_install_state-create_install_state now later again state created_at user_id s h before =
        let key = append "github-install-state:" state in
        let payload : InstallStatePayload = record { user_id = user_id; created_at = created_at } in
        let s1 = set_json json now key payload install_state_ttl_seconds s in
        rw
          (consume_key-live json later key s1
            (get_json-set_json json now later install_state_ttl_seconds key payload s h before))
          (
            refl,
            rw (consume_key-dead json again key (r.del key s1) (get_json-del json again key s1)),
          )

    -- An install state that is consumed ten minutes after its creation, or later, gives null.
    pub consume_install_state-expired :
        (now later : ℕ) (state created_at : String) (user_id : ℕ) (s : r.Store)
        → now + 600 ≤ later
        → (consume_install_state later state
            (create_install_state now state created_at user_id s).1).0
          ≡ none
    unfolding consume_install_state create_install_state
    consume_install_state-expired now later state created_at user_id s late =
        let key = append "github-install-state:" state in
        let payload : InstallStatePayload = record { user_id = user_id; created_at = created_at } in
        rw (
          consume_key-dead json later key
            (set_json json now key payload install_state_ttl_seconds s)
            (get_json-set_json_expired json now later install_state_ttl_seconds key payload s late))
