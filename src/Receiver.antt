-- ===== src/Receiver.antt =====
-- The receiver (src/escp/receiver.rs), one child for each of its operations.
pub mod State
pub mod Entries
pub mod Order
pub mod Opening
pub mod Closing
pub mod Completions
pub mod Checksums
pub mod Loop
pub mod Run
mod Tests
