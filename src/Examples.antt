-- ===== src/Examples.antt =====
-- The theorems at concrete inputs.
pub mod Queues
pub mod Acks
pub mod Frames
pub mod Counters
pub mod Sends
pub mod Ticks
pub mod Receives
pub mod Lives
pub mod Servers
pub mod Motds
pub mod Answers
pub mod Handshakes
pub mod Links
