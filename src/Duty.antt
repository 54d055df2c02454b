-- ===== src/Duty.antt =====
-- The duty scheduler (duty/): schedules, the persisted state, the gated runs and the loop.
pub mod Schedule
pub mod State
pub mod World
pub mod Dispatch
pub mod Analysis
pub mod Warm
pub mod Scheduler
mod Tests
