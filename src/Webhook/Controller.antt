-- ===== src/Webhook/Controller.antt =====
-- src/webhook/webhook.controller.ts: the route that GitHub calls.
use pr_sentinel_backend.Base.{ℕ, String, ◌≡◌, refl, Option}
use pr_sentinel_backend.Errors.{Exception, Result, ok, err}
use pr_sentinel_backend.Prisma.{Prisma}
use pr_sentinel_backend.Payloads.{RawWebhookHeaders}
use pr_sentinel_backend.Github.Service.{GithubApi}
use pr_sentinel_backend.Webhook.Signature.{
  Crypto, verify_signature, verify_signature_iff, IsGenuine,
}
use pr_sentinel_backend.Webhook.Handler.{World, Response, Body, handle_github_webhook}

module _ ⦃p : Prisma⦄ (c : Crypto) (api : GithubApi) (secret : Option String) (now : ℕ) where
  -- `githubWebhook`: the signature over the raw body is checked before anything is done.
  unfoldable pub github_webhook :
      c.Buffer → Body → RawWebhookHeaders → World → Result Response × World
  github_webhook raw_body body headers w =
      elim (verify_signature c headers.hub_signature_256 secret raw_body) [
        | err e ↦ (err e, w)
        | ok u ↦
            let (response, w') = handle_github_webhook api now body headers w in (ok response, w')
      ]

  -- A request that is not genuine is answered with an exception, and leaves the database and the
  -- queue as they are.
  pub github_webhook-forged :
      (raw_body : c.Buffer) (body : Body) (headers : RawWebhookHeaders) (w : World)
      → ¬ IsGenuine c headers.hub_signature_256 secret raw_body
      → (e : Exception) × (github_webhook raw_body body headers w ≡ (err e, w))
  unfolding github_webhook
  github_webhook-forged raw_body body headers w forged =
      go (verify_signature c headers.hub_signature_256 secret raw_body) refl
    where
      go :
          (r : Result (Unit {0}))
          → verify_signature c headers.hub_signature_256 secret raw_body ≡ r
          → (e : Exception) × (github_webhook raw_body body headers w ≡ (err e, w))
      go (err e) h = (e, rw (h, github_webhook))
      go (ok u) h =
          absurd (forged ((verify_signature_iff c headers.hub_signature_256 secret raw_body).0 h))
