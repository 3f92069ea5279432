-- ===== src/Base/Text.antt =====
-- Texts as the source handles them: the head of a split, and the truth of a text.
use Prim.Native.Char.{code}
use Prim.Native.Nat.{ℕ, zero, suc, ◌+◌, ◌-◌, ◌/◌, ◌%◌}
use Prim.Native.String.{String, ◌++◌}
use mathlib.Core.Path.{◌≡◌, refl}
use mathlib.Core.Bool.{Bool, true, false, ◌&&◌, ◌||◌}
use mathlib.Core.Option.{Option, none, some}
use pr_sentinel_backend.Base.Tests.{◌==◌, if◌then◌else◌, str_eq, leb}

-- `s.split('/')[0]`: what stands before the first slash.
unfoldable pub split_head : String → String
split_head String.[] = ""
split_head (String.◌∷◌ c s) = if code c == b'/' then "" else String.◌∷◌ c (split_head s)

split_head_test : split_head "octo/app" ≡ "octo"
unfolding split_head
split_head_test = refl

-- The truth of a text in a condition: the empty text is false.
abbrev pub truthy : String → Bool
truthy s = if str_eq s "" then false else true

-- A setting or header that is there and not empty.
abbrev pub configured : Option String → Option String
configured none = none
configured (some s) = if truthy s then some s else none

digit : ℕ → String
digit d =
    if d == 0
    then "0"
    else if d == 1
    then "1"
    else if d == 2
    then "2"
    else if d == 3
    then "3"
    else if d == 4
    then "4"
    else if d == 5
    then "5"
    else if d == 6
    then "6"
    else if d == 7
    then "7"
    else if d == 8
    then "8"
    else "9"

decimal_from : (fuel n : ℕ) → String → String
unfolding digit
decimal_from zero n rest = rest
decimal_from (suc fuel) n rest =
    let more = decimal_from fuel (n / 10) (digit (n % 10) ++ rest) in
    if n / 10 == 0 then digit (n % 10) ++ rest else more

-- `${n}` for a natural number: at most as many digits as its value.
unfoldable pub decimal : ℕ → String
unfolding decimal_from
decimal n = decimal_from (suc n) n ""

decimal_test : decimal 4096 ≡ "4096"
unfolding decimal
decimal_test = refl

-- The white space of JavaScript, by code point.
abbrev is_space : ℕ → Bool
is_space n =
    n == 32
    || (leb 9 n && leb n 13)
    || n == 160
    || n == 5760
    || (leb 8192 n && leb n 8202)
    || n == 8232
    || n == 8233
    || n == 8239
    || n == 8287
    || n == 12288
    || n == 65279

trim_start : String → String
trim_start String.[] = ""
trim_start (String.◌∷◌ c s) =
    let rest = trim_start s in if is_space (code c) then rest else String.◌∷◌ c s

trim_end : String → String
trim_end String.[] = ""
trim_end (String.◌∷◌ c s) =
    let rest = trim_end s in if is_space (code c) && str_eq rest "" then "" else String.◌∷◌ c rest

-- `s.trim()`
unfoldable pub trim : String → String
unfolding trim_start trim_end
trim s = trim_end (trim_start s)

trim_test : trim " a b \n" ≡ "a b"
unfolding trim
trim_test = refl

abbrev lower : ℕ → ℕ
lower n = if leb 65 n && leb n 90 then n + 32 else n

-- What follows a prefix, which is written in lower case and matched in any.
unfoldable pub after_prefix : String → String → Option String
after_prefix String.[] s = some s
after_prefix (String.◌∷◌ p ps) String.[] = none
after_prefix (String.◌∷◌ p ps) (String.◌∷◌ c s) =
    let rest = after_prefix ps s in if lower (code c) == code p then rest else none

-- A text without the suffix, where it ends with it.
unfoldable pub without_suffix : String → String → String
without_suffix suffix String.[] = ""
without_suffix suffix (String.◌∷◌ c s) =
    let rest = without_suffix suffix s in
    if str_eq (String.◌∷◌ c s) suffix then "" else String.◌∷◌ c rest

-- The UTF-16 code units of a character, in which JavaScript counts and cuts a text.
abbrev units : ℕ → ℕ
units n = if leb 65536 n then 2 else 1

-- `s.length`
unfoldable pub utf16_length : String → ℕ
utf16_length String.[] = 0
utf16_length (String.◌∷◌ c s) = units (code c) + utf16_length s

-- `s.slice(0, n)`, up to the last character that is whole in it.
unfoldable pub slice_to : ℕ → String → String
slice_to n String.[] = ""
slice_to n (String.◌∷◌ c s) =
    let rest = slice_to (n - units (code c)) s in
    if leb (units (code c)) n then String.◌∷◌ c rest else ""
