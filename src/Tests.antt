-- ===== src/Tests.antt =====
-- Runs of the development: concrete clients, rows and payloads, and the theorems at them.
pub mod Data
mod Installs
mod Webhooks
pub mod States
pub mod Reviews
pub mod Chats
pub mod Llm
mod Accounts
mod Routes
mod Disclosure
mod History
