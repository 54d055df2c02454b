-- ===== src/Prs.antt =====
-- channel/github/prs.rs: the turns that the pull requests of GitHub start.
pub mod Wire
pub mod Messages
pub mod Briefs
pub mod Feedback
pub mod Reviews
pub mod State
pub mod Poll
pub mod Passes
pub mod Recovery
pub mod Chain
pub mod Vouched
mod Tests
