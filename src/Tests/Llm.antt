-- ===== src/Tests/Llm.antt =====
-- The theorems on the access to language models, at a cipher that encloses the bytes of a text with
-- a tag, and a model that always answers the same.
use Prim.Native.Char.{Char}
use Prim.Native.Nat.{min}
use pr_sentinel_backend.Base.{
  ℕ, zero, suc, String, ◌≡◌, refl, ap, arith, true, List, [], ◌∷◌, none, some,
}
use pr_sentinel_backend.Base.Text.{decimal}
use pr_sentinel_backend.Errors.{ok, err, not_found}
use pr_sentinel_backend.Prisma.InMemory.{in_memory}
use pr_sentinel_backend.Redis.InMemory.{in_memory as redis}
use pr_sentinel_backend.Schema.{User, UserLlmConfig, LlmMode, free, byok, openrouter, gemini}
use pr_sentinel_backend.Database.{Db}
use pr_sentinel_backend.Tests.Data.{empty_db}
use pr_sentinel_backend.Llm.Quota.Day.{allowed, allowed-first}
use pr_sentinel_backend.Llm.Encryption.{AesGcm}
use pr_sentinel_backend.Llm.Config.{upsert_config, update_mode, get_decrypted_config}
use pr_sentinel_backend.Llm.Config.Keys.{get_decrypted_config-upsert_config}
use pr_sentinel_backend.Llm.Service.{LlmSettings, generate_review}
use pr_sentinel_backend.Llm.Service.Keys.{
  prompts, reply_of, generate_review-upsert_config, generate_review-update_mode,
}

pub chars : String → List Char
chars String.[] = []
chars (String.◌∷◌ c s) = c ∷ chars s

pub of_chars : List Char → String
of_chars [] = ""
of_chars (c ∷ cs) = String.◌∷◌ c (of_chars cs)

pub of_chars-chars : (s : String) → of_chars (chars s) ≡ s
unfolding of_chars chars
of_chars-chars String.[] = refl
of_chars-chars (String.◌∷◌ c s) = ap (String.◌∷◌ c) (of_chars-chars s)

pub chars-of_chars : (cs : List Char) → chars (of_chars cs) ≡ cs
unfolding of_chars chars
chars-of_chars [] = refl
chars-of_chars (c ∷ cs) = ap (◌∷◌ c) (chars-of_chars cs)

abbrev pub copies : ℕ → List Char
copies zero = []
copies (suc n) = "t" ∷ copies n

-- A cipher text is the plain text, and every tag is the same.
abbrev pub open_cipher : AesGcm
open_cipher = record {
  Byte = Char;
  from_hex = chars;
  utf8 = chars;
  text = of_chars;
  base64 = of_chars;
  from_base64 = chars;
  seal = λ key iv plain. record { encrypted = plain; auth_tag = copies 16 };
  open_sealed = λ key iv auth_tag encrypted. some encrypted;
  text-utf8 = of_chars-chars;
  from_base64-base64 = chars-of_chars;
  length-auth_tag = λ key iv plain. refl;
  open_sealed-seal = λ key iv plain. refl;
}

abbrev twelve : List Char
twelve = copies 12

abbrev pub service_key : List Char
service_key = copies 32

abbrev pub settings : LlmSettings
settings = record {
  cipher = open_cipher;
  key = service_key;
  api_key = some "service";
  default_model = some "m";
  iso_date = decimal;
  limit = 5;
  complete = λ api_key model messages.
      ok (record { first_content = some "fine"; model = model; usage = none });
}

abbrev pub user_in : LlmMode → User
user_in mode = record {
  id = 2;
  github_id = none;
  github_login = none;
  email = some "a";
  password = none;
  avatar_url = none;
  created_at = 0;
  updated_at = 0;
  llm_mode = mode;
}

abbrev other_config : UserLlmConfig
other_config = record {
  id = 1;
  provider = gemini;
  encrypted_api_key = "";
  model = "g";
  is_active = true;
  user_id = 2;
  created_at = 0;
  updated_at = 0;
}

abbrev db_in : LlmMode → Db
db_in mode = record empty_db { users = user_in mode ∷ []; user_llm_configs = other_config ∷ [] }

allowed-first_example : allowed decimal 2 1 (1000 ∷ 2000 ∷ 3000 ∷ []) [] ≡ min 3 2
allowed-first_example =
    allowed-first decimal 2 1 0 1000 (2000 ∷ 3000 ∷ []) []
      (omega arith, refl, (omega arith, refl, (omega arith, refl, tt))) refl

get_decrypted_config-upsert_config_example :
    get_decrypted_config open_cipher service_key 2 openrouter
      (upsert_config 9 open_cipher service_key twelve 2 openrouter "sk-or-1" "m1" (db_in free)).1
    ≡ ok (record { api_key = "sk-or-1"; model = "m1" })
get_decrypted_config-upsert_config_example =
    get_decrypted_config-upsert_config 9 open_cipher service_key twelve 2 openrouter "sk-or-1" "m1"
      (db_in free) refl refl

generate_review-upsert_config_example :
    generate_review settings 8
      (upsert_config 8 open_cipher service_key twelve 2 openrouter "sk-or-1" "m1" (db_in byok)).1
      2
      "s"
      "u"
      []
    ≡ (reply_of (settings.complete "sk-or-1" "m1" (prompts "s" "u")), [])
generate_review-upsert_config_example =
    generate_review-upsert_config settings 8 twelve 2 "sk-or-1" "m1" "s" "u" (user_in byok)
      (db_in byok) [] refl refl refl refl

generate_review-update_mode_example :
    ((update_mode 8 2 byok (db_in free)).0 ≡ ok byok)
    × (generate_review settings 8 (update_mode 8 2 byok (db_in free)).1 2 "s" "u" []
        ≡ (err (not_found "LLM config not found"), []))
generate_review-update_mode_example =
    generate_review-update_mode settings 8 2 other_config (user_in free) "s" "u" (db_in free) []
      refl refl refl
