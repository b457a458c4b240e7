-- ===== src/Store.antt =====
-- src/store/mod.rs
pub mod Schema
pub mod Messages
pub mod Jobs
pub mod Invariant
pub mod MessagesKeep
pub mod JobsKeep
pub mod Claim
pub mod Steps
pub mod Repeat
pub mod GiveUp
pub mod Status
pub mod Pages
