-- ===== src/Reviews/Chat/Turns.antt =====
-- What a turn of the chat keeps, and that conversations of others stay apart.
use pr_sentinel_backend.Base.{
  ℕ, ◌+◌, ◌≤◌, ◌<◌, String, ◌≡◌, ◌≢◌, ◌⊎◌, refl, inl, inr, List, none, some, arith, Option-cases,
}
use pr_sentinel_backend.Base.Text.{configured}
use pr_sentinel_backend.Errors.{Result, ok, err, Result-cases}
use pr_sentinel_backend.Prisma.{Prisma}
use pr_sentinel_backend.Schema.{PrFile}
use pr_sentinel_backend.Database.{Db}
use pr_sentinel_backend.Redis.{RedisClient, Json, get_json, get_json-set_json}
use pr_sentinel_backend.Reviews.Generation.{LlmService, user, assistant, find_included}
use pr_sentinel_backend.Reviews.Retry.{find_review_for_user}
use pr_sentinel_backend.Reviews.Chat.{
  StoredConversation, ChatAnswer, redis_key, message, said, own_conversation, load_own, turn, chat,
  save_conversation,
}

-- What a conversation is after a turn with this answer.
abbrev pub after_turn : StoredConversation → String → Result ChatAnswer → StoredConversation
after_turn c user_message (err e) = c
after_turn c user_message (ok answer) =
    said (said c (message user user_message)) (message assistant answer.message)

module _ ⦃p : Prisma⦄ ⦃r : RedisClient⦄ (json : Json StoredConversation)
    (by_filename : List PrFile → List PrFile) (now : ℕ) (llm : LlmService) where
  load_own-foreign :
      (user_id review_id : ℕ) (id : String) (c : StoredConversation) (store : r.Store)
      → configured (some id) ≡ some id
      → get_json json now (redis_key id) store ≡ some c
      → (c.user_id ≢ user_id) ⊎ (c.review_id ≢ review_id)
      → load_own json now user_id review_id (some id) store ≡ none
  unfolding load_own
  load_own-foreign user_id review_id id c store given found other =
      rw (given, load_own) (rw found (discarded other))
    where
      discarded :
          (c.user_id ≢ user_id) ⊎ (c.review_id ≢ review_id)
          → own_conversation user_id review_id (some c) ≡ none
      discarded (inl h) = ground arith
      discarded (inr h) = ground arith

  -- The conversation of another user, or about another review, has no influence: to name it gives
  -- the same answer, and leaves the same store, as to name none.
  pub chat-foreign :
      (review_id user_id : ℕ) (user_message id fresh_id : String) (c : StoredConversation) (db : Db)
      (store : r.Store) (s : llm.State)
      → configured (some id) ≡ some id
      → get_json json now (redis_key id) store ≡ some c
      → (c.user_id ≢ user_id) ⊎ (c.review_id ≢ review_id)
      → chat json by_filename now llm review_id user_id user_message (some id) fresh_id db store s
        ≡ chat json by_filename now llm review_id user_id user_message none fresh_id db store s
  unfolding chat
  chat-foreign review_id user_id user_message id fresh_id c db store s given found other =
      elim (Option-cases (find_review_for_user review_id user_id db)) [
        | inl e ↦ rw (e, chat)
        | inr (review, e) ↦ elim (Option-cases (find_included review.pull_request_id db)) [
          | inl e' ↦ rw (e, chat) (rw e' refl)
          | inr (i, e') ↦
              rw (e, chat)
                (rw (e', load_own-foreign user_id review_id id c store given found other) refl)
        ]
      ]

module _ ⦃r : RedisClient⦄ (json : Json StoredConversation) (now : ℕ) (llm : LlmService) where
  -- After a turn the conversation is found again for two hours: with the message of the user and
  -- the reply at its end when the model has answered, and without the message when it has failed.
  pub get_json-turn :
      (user_id later : ℕ) (user_message id : String) (c : StoredConversation) (store : r.Store)
      (s : llm.State)
      → now ≤ later
      → later < now + 7200
      → let result = (turn json now llm user_id user_message id c store s).0 in
        get_json json later (redis_key id) result.1 ≡ some (after_turn c user_message result.0)
  unfolding turn save_conversation
  get_json-turn user_id later user_message id c store s from before =
      elim (Result-cases (llm.chat user_id (said c (message user user_message)).messages s).0) [
        | inl (e, fails) ↦
            rw (fails, turn)
              (get_json-set_json json now later 7200 (redis_key id) c store from before)
        | inr (text, works) ↦
            rw (works, turn)
              (get_json-set_json json now later 7200 (redis_key id)
                (said (said c (message user user_message)) (message assistant text)) store from
                before)
      ]
