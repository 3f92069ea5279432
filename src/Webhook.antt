-- ===== src/Webhook.antt =====
-- src/webhook: the signature check of webhook.controller.ts and signature.service.ts, and the event
-- handlers of webhook.service.ts. The HMAC and the comparison of the crypto package, the review
-- queue of BullMQ and the GitHub API are parameters.
pub mod Signature
pub mod Handler
pub mod Controller
