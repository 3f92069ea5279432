-- ===== src/Auth.antt =====
-- src/auth: accounts, sessions and the login by GitHub.
pub mod Api
pub mod Accounts
pub mod Columns
pub mod Unique
pub mod Login
pub mod Controller
pub mod Again
