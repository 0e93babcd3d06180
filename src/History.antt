-- ===== src/History.antt =====
-- src/logParse.py: what the history of a call is made of, and the payload that is built from it.
pub mod Record
pub mod State
pub mod Fold
pub mod Payload
pub mod Closing
pub mod Starting
pub mod Streams
pub mod Lines
pub mod Parser
pub mod Push
mod Tests
