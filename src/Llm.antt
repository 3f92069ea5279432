-- ===== src/Llm.antt =====
-- src/llm: the access to language models, with a daily quota or with keys of the user.
pub mod Quota
pub mod Encryption
pub mod Config
pub mod Provider
pub mod Service
pub mod Controller
