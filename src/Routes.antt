-- ===== src/Routes.antt =====
-- The routes of the other controllers: what they read for the user of the request, who is the one
-- that the JWT names, and how they show it. Times are numbers of milliseconds, BigInt columns
-- numbers.
pub mod Repositories
pub mod PullRequests
pub mod Reviews
pub mod Installations
pub mod Agreement
