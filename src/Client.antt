-- ===== src/Client.antt =====
-- src/statsig.cpp: the client, by part: the native library, the ref that an object holds, the calls
-- that it passes on, the text of an event, and the functions that decode an answer.
pub mod Native
pub mod Handles
pub mod Calls
pub mod Events
pub mod Decode
pub mod Getters
pub mod Methods
pub mod Sessions
