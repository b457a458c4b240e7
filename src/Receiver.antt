-- ===== src/Receiver.antt =====
-- src/receiver/mod.rs
pub mod Fields
pub mod Reply
pub mod Process
pub mod Callback
pub mod Cdata
pub mod Boundary
pub mod Keeps
pub mod Inserts
pub mod Reaches
pub mod Effects
pub mod Queues
pub mod Rows
pub mod Delivers
pub mod Joins
pub mod Refuses
pub mod Runs
pub mod Goes
pub mod Counts
