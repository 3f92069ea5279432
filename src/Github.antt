-- ===== src/Github.antt =====
-- The GitHub side of the service: the client of GitHub's API and the routes of the install flow.
pub mod Service
pub mod Install
