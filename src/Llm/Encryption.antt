-- ===== src/Llm/Encryption.antt =====
-- src/llm/encryption/api-key-encryption.service.ts. Node's crypto and Buffer are parameters: bytes,
-- the encodings of texts, and AES-256-GCM. What is assumed of them is what their documentation says:
-- decoding inverts encoding, a tag has 16 bytes, and a cipher text is opened under the key, the
-- vector and the tag with which it was made.
use pr_sentinel_backend.Base.{
  ℕ, String, ◌≡◌, sym, ◌∙◌, List, ◌++◌, Option, none, some, if◌then◌else◌, ◌==◌, length, take, drop,
  take-append, drop-append, drop-drop,
}
use pr_sentinel_backend.Base.Text.{configured, utf16_length}
use pr_sentinel_backend.Errors.{js_error, Result, ok, err}
use Prim.Native.String.{◌++◌ as append}
use pr_sentinel_backend.Base.Text.{decimal}

pub record Sealed (Byte : Type 0) : Type 0 where
  pub encrypted : List Byte
  pub auth_tag : List Byte

pub record AesGcm : Type 1 where
  pub Byte : Type 0
  pub from_hex : String → List Byte
  pub utf8 : String → List Byte
  pub text : List Byte → String
  pub base64 : List Byte → String
  pub from_base64 : String → List Byte
  pub seal : (key iv plain : List Byte) → Sealed Byte
  pub open_sealed : (key iv auth_tag encrypted : List Byte) → Option (List Byte)
  pub text-utf8 : (s : String) → text (utf8 s) ≡ s
  pub from_base64-base64 : (b : List Byte) → from_base64 (base64 b) ≡ b
  pub length-auth_tag : (key iv plain : List Byte) → length (seal key iv plain).auth_tag ≡ 16
  pub open_sealed-seal :
      (key iv plain : List Byte)
      → open_sealed key iv (seal key iv plain).auth_tag (seal key iv plain).encrypted ≡ some plain

abbrev setting_length : Option String → ℕ
setting_length none = 0
setting_length (some raw) = utf16_length raw

module _ (c : AesGcm) where
  -- The constructor: the key of the setting ENCRYPTION_KEY.
  unfoldable pub encryption_key : Option String → Result (List c.Byte)
  encryption_key setting =
      let refused = err (
        js_error (
          append "ENCRYPTION_KEY must be a 32-byte hex string (64 chars). Got length: "
            (decimal (setting_length setting)))) in
      elim (configured setting) [
        | none ↦ refused
        | some raw ↦ if utf16_length raw == 64 then ok (c.from_hex raw) else refused
      ]

  -- What createCipheriv and createDecipheriv throw for a key that has not 32 bytes, as one that is
  -- decoded from 64 characters that are not hexadecimal.
  abbrev pub with_key : {A : Type 0} → (key : List c.Byte) → Result A → Result A
  with_key key rest = if length key == 32 then rest else err (js_error "Invalid key length")

  -- The concatenation that `encrypt` returns.
  unfoldable pub payload_of : (key iv : List c.Byte) → String → String
  payload_of key iv plain_text =
      let sealed = c.seal key iv (c.utf8 plain_text) in
      c.base64 (iv ++ (sealed.auth_tag ++ sealed.encrypted))

  -- `encrypt`, with the bytes that randomBytes(12) gives.
  unfoldable pub encrypt : (key iv : List c.Byte) → String → Result String
  unfolding payload_of
  encrypt key iv plain_text = with_key key (ok (payload_of key iv plain_text))

  -- `decrypt`
  unfoldable pub decrypt : (key : List c.Byte) → String → Result String
  decrypt key payload =
      let raw = c.from_base64 payload in
      let iv = take 12 raw in
      let auth_tag = take 16 (drop 12 raw) in
      let encrypted = drop 28 raw in
      let opened : Result String = elim (c.open_sealed key iv auth_tag encrypted) [
        | none ↦ err (js_error "Unsupported state or unable to authenticate data")
        | some plain ↦ ok (c.text plain)
      ] in
      with_key key opened

  -- The two ends of a list whose first part has a known length.
  parts :
      (n : ℕ) (xs ys : List c.Byte)
      → length xs ≡ n
      → (take n (xs ++ ys) ≡ xs) × (drop n (xs ++ ys) ≡ ys)
  parts n xs ys e = (rw (← e) (take-append xs ys), rw (← e) (drop-append xs ys))

  -- What is encrypted is decrypted again under the same key of 32 bytes, whatever the twelve random
  -- bytes are.
  pub decrypt-payload_of :
      (key iv : List c.Byte) (plain_text : String)
      → length key ≡ 32
      → length iv ≡ 12
      → decrypt key (payload_of key iv plain_text) ≡ ok plain_text
  unfolding payload_of decrypt
  decrypt-payload_of key iv plain_text valid twelve =
      let sealed = c.seal key iv (c.utf8 plain_text) in
      let rest = sealed.auth_tag ++ sealed.encrypted in
      let (first, others) = parts 12 iv rest twelve in
      let (tag, body) =
        parts 16 sealed.auth_tag sealed.encrypted (c.length-auth_tag key iv (c.utf8 plain_text)) in
      let end : drop 28 (iv ++ rest) ≡ sealed.encrypted =
        sym (drop-drop 12 16 (iv ++ rest)) ∙ rw (others, body) in
      let raw = c.from_base64 (c.base64 (iv ++ rest)) in
      let opened : c.open_sealed key (take 12 raw) (take 16 (drop 12 raw)) (drop 28 raw)
          ≡ some (c.utf8 plain_text) =
        rw (c.from_base64-base64 (iv ++ rest))
          (rw (first, others, end) (rw tag (c.open_sealed-seal key iv (c.utf8 plain_text)))) in
      rw (opened, decrypt) (rw valid (rw (c.text-utf8 plain_text)))
