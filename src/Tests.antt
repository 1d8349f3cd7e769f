-- ===== src/Tests.antt =====
-- The theorems at concrete inputs: a JSON library of trees, pools of a few slots, callbacks that
-- return, throw and free.
pub mod Pool
pub mod Data
pub mod Calls
pub mod Client
pub mod Native
pub mod Sharing
pub mod Registered
pub mod Requests
pub mod Handles
pub mod Users
pub mod Metrics
pub mod Registry
pub mod Sessions
