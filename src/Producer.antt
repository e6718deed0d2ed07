-- ===== src/Producer.antt =====
-- The producer package (producer/): log batching, retries and the background goroutines.
mod Tests
mod SendingTests
mod SystemTests
pub mod Hash
pub mod Config
pub mod Result
pub mod Batch
pub mod State
pub mod ThreadPool
pub mod Accumulator
pub mod RetryQueue
pub mod IoWorker
pub mod Mover
pub mod Send
pub mod System
