-- ===== src/Consumer.antt =====
-- The consumer package (consumer/): one worker for each shard a consumer holds.
mod Tests
mod GroupTests
pub mod Config
pub mod Util
pub mod Client
pub mod HeartBeat
pub mod Tracker
pub mod ShardWorker
pub mod Tasks
pub mod Worker
