-- ===== src/Tests/Chats.antt =====
-- The theorems on the chat at a stored conversation, with a codec of conversations.
use Prim.Native.Char.{Char, code}
use pr_sentinel_backend.Base.{
  ◌≡◌, refl, ap, ◌∙◌, inl, arith, String, List, [], ◌∷◌, none, some, if◌then◌else◌, ◌==◌,
}
use pr_sentinel_backend.Prisma.InMemory.{in_memory as tables}
use pr_sentinel_backend.Redis.{Json, get_json, get_json-set_json}
use pr_sentinel_backend.Redis.InMemory.{in_memory as redis, Entry}
use pr_sentinel_backend.Redis.States.{InstallStatePayload}
use pr_sentinel_backend.Reviews.Generation.{Role, system, user, assistant, LlmMessage}
use pr_sentinel_backend.Reviews.Chat.{
  StoredConversation, message, redis_key, save_conversation, turn, chat,
}
use pr_sentinel_backend.Reviews.Chat.Turns.{chat-foreign, get_json-turn, after_turn}
use pr_sentinel_backend.Tests.States.{units, read_units, read_units-units}
use pr_sentinel_backend.Tests.Reviews.{review_db, model}

abbrev role_text : Role → String → String
role_text system s = String.◌∷◌ "s" s
role_text user s = String.◌∷◌ "u" s
role_text assistant s = String.◌∷◌ "a" s

abbrev role_of : Char → Role
role_of c = if code c == b's' then system else if code c == b'u' then user else assistant

-- A message as its characters, an `r` before each, and a dot with its role.
write_message : Role → String → String → String
write_message role String.[] rest = String.◌∷◌ "." (role_text role rest)
write_message role (String.◌∷◌ c s) rest = String.◌∷◌ "r" (String.◌∷◌ c (write_message role s rest))

abbrev begun : Char → List LlmMessage → List LlmMessage
begun c [] = []
begun c (m ∷ ms) = record m { content = String.◌∷◌ c m.content } ∷ ms

pub read_messages : String → List LlmMessage
read_messages String.[] = []
read_messages (String.◌∷◌ c String.[]) = []
read_messages (String.◌∷◌ c (String.◌∷◌ d s)) =
    let rest = read_messages s in
    if code c == b'r' then begun d rest else message (role_of d) "" ∷ rest

read_messages-write_message :
    (role : Role) (s rest : String)
    → read_messages (write_message role s rest) ≡ message role s ∷ read_messages rest
unfolding read_messages write_message
read_messages-write_message system String.[] rest = refl
read_messages-write_message user String.[] rest = refl
read_messages-write_message assistant String.[] rest = refl
read_messages-write_message role (String.◌∷◌ c s) rest =
    ap (begun c) (read_messages-write_message role s rest)

write_messages : List LlmMessage → String
write_messages [] = ""
write_messages (m ∷ ms) = write_message m.role m.content (write_messages ms)

read_messages-write_messages : (ms : List LlmMessage) → read_messages (write_messages ms) ≡ ms
unfolding read_messages write_messages
read_messages-write_messages [] = refl
read_messages-write_messages (m ∷ ms) =
    read_messages-write_message m.role m.content (write_messages ms)
    ∙ ap (◌∷◌ m) (read_messages-write_messages ms)

pub write_conversation : StoredConversation → String
write_conversation c = units c.user_id (units c.review_id (write_messages c.messages))

abbrev pub numbered : InstallStatePayload → InstallStatePayload → StoredConversation
numbered a b = record {
  user_id = a.user_id;
  review_id = b.user_id;
  messages = read_messages b.created_at;
}

pub read_conversation : String → StoredConversation
read_conversation s = numbered (read_units s) (read_units (read_units s).created_at)

pub read_conversation-write_conversation :
    (c : StoredConversation) → read_conversation (write_conversation c) ≡ c
unfolding read_conversation write_conversation
read_conversation-write_conversation c =
    rw (read_units-units c.user_id (units c.review_id (write_messages c.messages))) (
      rw (read_units-units c.review_id (write_messages c.messages))
        (rw (read_messages-write_messages c.messages)))

abbrev pub conversation_json : Json StoredConversation
conversation_json = record {
  stringify = write_conversation;
  parse = read_conversation;
  parse-stringify = read_conversation-write_conversation;
}

-- A conversation of the user 7.
abbrev of_seven : StoredConversation
of_seven = record {
  user_id = 7;
  review_id = 1;
  messages = message system "p" ∷ message user "secret" ∷ message assistant "reply" ∷ [];
}

abbrev store_of_seven : List Entry
store_of_seven = save_conversation conversation_json 5 "chat" of_seven []

stored_of_seven : get_json conversation_json 6 (redis_key "chat") store_of_seven ≡ some of_seven
unfolding save_conversation
stored_of_seven =
    get_json-set_json conversation_json 5 6 7200 (redis_key "chat") of_seven [] (omega arith)
      (omega arith)

chat-foreign_example :
    chat conversation_json
      (λ files. files)
      6
      model
      1
      2
      "hello"
      (some "chat")
      "fresh"
      review_db
      store_of_seven
      0
    ≡ chat conversation_json
        (λ files. files)
        6
        model
        1
        2
        "hello"
        none
        "fresh"
        review_db
        store_of_seven
        0
chat-foreign_example =
    chat-foreign conversation_json (λ files. files) 6 model 1 2 "hello" "chat" "fresh" of_seven
      review_db store_of_seven 0 refl stored_of_seven (inl (λ e. cc))

get_json-turn_example :
    get_json conversation_json 60
      (redis_key "chat")
      (turn conversation_json 6 model 7 "hello" "chat" of_seven store_of_seven 0).0.1
    ≡ some (
        after_turn of_seven "hello"
          (turn conversation_json 6 model 7 "hello" "chat" of_seven store_of_seven 0).0.0)
get_json-turn_example =
    get_json-turn conversation_json 6 model 7 60 "hello" "chat" of_seven store_of_seven 0
      (omega arith) (omega arith)
