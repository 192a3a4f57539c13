-- ===== src/Protocol.antt =====
-- master/src/protocol.rs: the wire format of the control and the data connections.
pub mod Wire
pub mod Batch
pub mod Control
