-- ===== src/Sender.antt =====
-- The sender's side of the transfer (src/escp/sender.rs).
pub mod Check
pub mod Batch
pub mod Rounds
pub mod Transfer
pub mod Alerts
pub mod Finished
pub mod Completions
pub mod Finish
pub mod Ssh
mod Tests
pub mod Workers
pub mod Sources
pub mod Files
pub mod Walk
