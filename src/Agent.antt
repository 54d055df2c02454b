-- ===== src/Agent.antt =====
-- The agent (agent/).
pub mod Escalation
pub mod Errors
pub mod Usage
pub mod Repeats
pub mod Strikes
pub mod Hints
pub mod World
pub mod Results
pub mod Directives
pub mod Rounds
pub mod Turn
mod Tests
