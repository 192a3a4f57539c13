-- ===== src/Master/Dashboard.antt =====
-- What the master shows of itself: the capacity of the consumers and the rows of the two registries.
pub mod Rows
pub mod Capacity
pub mod ConsumerRows
pub mod ProducerRows
pub mod Snapshot
pub mod Sampler
pub mod Counts
mod Runs
