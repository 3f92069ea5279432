-- ===== src/Reviews.antt =====
-- src/reviews: the review of a pull request by a language model.
pub mod Links
pub mod Status
pub mod Prompts
pub mod Answer
pub mod Generation
pub mod Publication
pub mod Retry
pub mod ChatPrompt
pub mod Chat
