-- ===== src/Webhook/Signature.antt =====
-- src/webhook/signature.service.ts. The crypto package is a parameter: the hexadecimal HMAC-SHA256
-- of a body, `Buffer.from` on a text and `timingSafeEqual`, of which is assumed what its
-- documentation says: on buffers of one length it tells whether they are equal.
use Prim.Native.String.{◌++◌ as append}
use pr_sentinel_backend.Base.{
  ℕ, String, ◌≡◌, ◌↔◌, ap, inl, inr, Bool, true, false, not, ◌||◌, Option, none, some, arith,
  if◌then◌else◌, ◌==◌, Bool-cases, Option-cases,
}
use pr_sentinel_backend.Base.Text.{configured}
use pr_sentinel_backend.Errors.{unauthorized, js_error, Result, ok, err}

pub record Crypto : Type 1 where
  pub Buffer : Type 0
  pub from_text : String → Buffer
  pub byte_length : Buffer → ℕ
  pub hmac_sha256_hex : (secret : String) → Buffer → String
  pub timing_safe_equal : Buffer → Buffer → Bool
  pub timing_safe_equal_iff :
      (a b : Buffer) → byte_length a ≡ byte_length b → (timing_safe_equal a b ≡ true) ↔ (a ≡ b)

module _ (c : Crypto) where
  -- `verifySignature`; the secret is the setting GITHUB_WEBHOOK_SECRET.
  pub expected_signature : String → c.Buffer → String
  expected_signature secret raw_body = append "sha256=" (c.hmac_sha256_hex secret raw_body)

  -- The comparison of the two signatures, the lengths first.
  pub differs : String → String → Bool
  differs signature expected =
      let signature_buffer = c.from_text signature in
      let expected_buffer = c.from_text expected in
      not (c.byte_length signature_buffer == c.byte_length expected_buffer)
      || not (c.timing_safe_equal signature_buffer expected_buffer)

  unfoldable pub verify_signature :
      Option String → (secret : Option String) → c.Buffer → Result (Unit {0})
  unfolding expected_signature differs
  verify_signature signature secret raw_body = elim (configured signature) [
    | none ↦ err (unauthorized "Missing GitHub signature")
    | some given ↦ elim (configured secret) [
      | none ↦ err (js_error "GITHUB_WEBHOOK_SECRET is not configured")
      | some key ↦
          if differs given (expected_signature key raw_body)
          then err (unauthorized "Invalid GitHub signature")
          else ok tt
    ]
  ]

  differs_iff : (s t : String) → (differs s t ≡ false) ↔ (c.from_text s ≡ c.from_text t)
  unfolding differs
  differs_iff s t = (to, from)
    where
      to : differs s t ≡ false → c.from_text s ≡ c.from_text t
      to h =
          let same : c.byte_length (c.from_text s) ≡ c.byte_length (c.from_text t) = ground arith in
          (c.timing_safe_equal_iff (c.from_text s) (c.from_text t) same).0 (ground arith)

      from : c.from_text s ≡ c.from_text t → differs s t ≡ false
      from e =
          let same : c.byte_length (c.from_text s) ≡ c.byte_length (c.from_text t) =
            ap c.byte_length e in
          let equal : c.timing_safe_equal (c.from_text s) (c.from_text t) ≡ true =
            (c.timing_safe_equal_iff (c.from_text s) (c.from_text t) same).1 e in
          ground (arith, same, equal)

  -- What makes a request genuine: a signature and a secret that are not empty, and the signature
  -- has the bytes of "sha256=" with the HMAC of the raw body under the secret.
  abbrev pub IsGenuine : Option String → Option String → c.Buffer → Type 0
  IsGenuine signature secret raw_body =
      (given key : String) × (configured signature ≡ some given)
      × (configured secret ≡ some key)
      × (c.from_text given ≡ c.from_text (expected_signature key raw_body))

  -- The check lets a request through exactly when it is genuine.
  pub verify_signature_iff :
      (signature secret : Option String) (raw_body : c.Buffer)
      → (verify_signature signature secret raw_body ≡ ok tt) ↔ IsGenuine signature secret raw_body
  unfolding verify_signature
  verify_signature_iff signature secret raw_body = (to, from)
    where
      to : verify_signature signature secret raw_body ≡ ok tt → IsGenuine signature secret raw_body
      to h = elim (Option-cases (configured signature)) [
        | inl e ↦ cc (rw (e, verify_signature) at h)
        | inr (given, e) ↦ elim (Option-cases (configured secret)) [
          | inl e' ↦ cc (rw (e, e', verify_signature) at h)
          | inr (key, e') ↦ elim (Bool-cases (differs given (expected_signature key raw_body))) [
            | inl bad ↦ cc (rw (e, e', bad, verify_signature) at h)
            | inr good ↦
                (given, key, e, e', (differs_iff given (expected_signature key raw_body)).0 good)
          ]
        ]
      ]

      from :
          IsGenuine signature secret raw_body → verify_signature signature secret raw_body ≡ ok tt
      from (given, key, e, e', same) =
          rw (e, e', (differs_iff given (expected_signature key raw_body)).1 same, verify_signature)
