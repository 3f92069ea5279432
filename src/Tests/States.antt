-- ===== src/Tests/States.antt =====
-- The theorems on OAuth and install states at concrete tokens, with codecs of the payloads.
use Prim.Native.Char.{Char, code}
use pr_sentinel_backend.Base.{
  ℕ, zero, suc, [], String, ◌≡◌, refl, ap, arith, Option, none, some, ◌==◌, if◌then◌else◌,
}
use pr_sentinel_backend.Redis.{Json}
use pr_sentinel_backend.Redis.InMemory.{in_memory}
use pr_sentinel_backend.Redis.States.{
  OAuthStatePayload, InstallStatePayload, create_oauth_state, consume_oauth_state,
  create_install_state, consume_install_state, consume_oauth_state-create_oauth_state,
  consume_install_state-create_install_state, consume_install_state-expired,
}

-- A user as that many letters `u`, a dot, and the time.
pub units : ℕ → String → String
units zero rest = String.◌∷◌ "." rest
units (suc n) rest = String.◌∷◌ "u" (units n rest)

abbrev counted : InstallStatePayload → InstallStatePayload
counted payload = record payload { user_id = suc payload.user_id }

pub read_units : String → InstallStatePayload
read_units String.[] = record { user_id = 0; created_at = "" }
read_units (String.◌∷◌ c s) =
    let more = read_units s in
    if code c == b'u' then counted more else record { user_id = 0; created_at = s }

pub read_units-units :
    (n : ℕ) (rest : String) → read_units (units n rest) ≡ record { user_id = n; created_at = rest }
unfolding read_units units
read_units-units zero rest = refl
read_units-units (suc n) rest = ap counted (read_units-units n rest)

abbrev pub install_json : Json InstallStatePayload
install_json = record {
  stringify = λ payload. units payload.user_id payload.created_at;
  parse = read_units;
  parse-stringify = λ payload. read_units-units payload.user_id payload.created_at;
}

-- A redirect with an `r` before each character, two dots, and the time.
pub marked : String → String → String
marked String.[] rest = String.◌∷◌ "." (String.◌∷◌ "." rest)
marked (String.◌∷◌ c s) rest = String.◌∷◌ "r" (String.◌∷◌ c (marked s rest))

abbrev pub lengthened : Char → String × String → String × String
lengthened c (s, rest) = (String.◌∷◌ c s, rest)

pub read_marked : String → String × String
read_marked String.[] = ("", "")
read_marked (String.◌∷◌ c String.[]) = ("", "")
read_marked (String.◌∷◌ c (String.◌∷◌ d s)) =
    let more = read_marked s in if code c == b'r' then lengthened d more else ("", s)

pub read_marked-marked : (s rest : String) → read_marked (marked s rest) ≡ (s, rest)
unfolding read_marked marked
read_marked-marked String.[] rest = refl
read_marked-marked (String.◌∷◌ c s) rest = ap (lengthened c) (read_marked-marked s rest)

-- The payload with its redirect, if there is one.
pub write_oauth : Option String → String → String
write_oauth none created_at = String.◌∷◌ "n" created_at
write_oauth (some redirect) created_at = String.◌∷◌ "s" (marked redirect created_at)

abbrev pub redirected : String × String → OAuthStatePayload
redirected (s, created_at) = record { redirect = some s; created_at = created_at }

pub read_oauth : String → OAuthStatePayload
read_oauth String.[] = record { redirect = none; created_at = "" }
read_oauth (String.◌∷◌ c s) =
    if code c == b'n'
    then record { redirect = none; created_at = s }
    else redirected (read_marked s)

pub read_oauth-write_oauth :
    (redirect : Option String) (created_at : String)
    → read_oauth (write_oauth redirect created_at)
      ≡ record { redirect = redirect; created_at = created_at }
unfolding read_oauth write_oauth
read_oauth-write_oauth none created_at = refl
read_oauth-write_oauth (some s) created_at = ap redirected (read_marked-marked s created_at)

abbrev pub oauth_json : Json OAuthStatePayload
oauth_json = record {
  stringify = λ payload. write_oauth payload.redirect payload.created_at;
  parse = read_oauth;
  parse-stringify = λ payload. read_oauth-write_oauth payload.redirect payload.created_at;
}

consume_oauth_state-create_oauth_state_example :
    let s1 = (create_oauth_state oauth_json 5 "token" "t" (some "/app") []).1 in
    ((consume_oauth_state oauth_json 8 "token" s1).0
      ≡ some (record { redirect = some "/app"; created_at = "t" }))
    × ((consume_oauth_state oauth_json 9 "token" (consume_oauth_state oauth_json 8 "token" s1).1).0
        ≡ none)
consume_oauth_state-create_oauth_state_example =
    consume_oauth_state-create_oauth_state oauth_json 5 8 9 "token" "t" (some "/app") []
      (omega arith) (omega arith)

consume_install_state-create_install_state_example :
    let s1 = (create_install_state install_json 5 "token" "t" 2 []).1 in
    ((consume_install_state install_json 8 "token" s1).0 ≡ some 2)
    × ((consume_install_state install_json 9 "token"
          (consume_install_state install_json 8 "token" s1).1).0
        ≡ none)
consume_install_state-create_install_state_example =
    consume_install_state-create_install_state install_json 5 8 9 "token" "t" 2 [] (omega arith)
      (omega arith)

consume_install_state-expired_example :
    (consume_install_state install_json 605 "token"
      (create_install_state install_json 5 "token" "t" 2 []).1).0
    ≡ none
consume_install_state-expired_example =
    consume_install_state-expired install_json 5 605 "token" "t" 2 [] (omega arith)
