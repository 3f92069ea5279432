-- ===== src/Repository.antt =====
-- src/repository/repository.service.ts: installations, repositories and the events that GitHub sends
-- about them.
pub mod Links
pub mod Installations
pub mod Repositories
pub mod Events
pub mod Lookups
pub mod Status
pub mod Ownership
pub mod Sync
