-- ===== src/Master.antt =====
-- The master: the registries of the connected producers and consumers, the metrics, and the
-- matchmaker that joins the two.
pub mod Producers
pub mod Store
pub mod Consumers
pub mod Ticks
pub mod History
pub mod Metrics
pub mod Matchmaker
pub mod Server
pub mod Dashboard
