-- ===== src/Fillp.antt =====
-- The parts of pkg/fillp, the reliable transport over UDP.
pub mod RingBuffer
pub mod Packet
pub mod Sending
pub mod Retransmission
mod Tests
