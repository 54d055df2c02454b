-- ===== src/Lcm.antt =====
-- context/lcm: the engine that keeps a conversation's messages and summaries in a store.
pub mod Prompts
pub mod Summarize
pub mod Store
pub mod Writes
pub mod Ride
pub mod Assemble
pub mod Leaf
pub mod Condensed
pub mod Compaction
pub mod Engine
pub mod Transcript
mod Tests
