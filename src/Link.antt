-- ===== src/Link.antt =====
-- master/src/producer/client.rs and master/src/consumer/client.rs together: a delivery, from the ring
-- of the producer over a data connection to the consumer.
pub mod Payloads
pub mod Delivery
mod Runs
