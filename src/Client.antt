-- ===== src/Client.antt =====
-- crates/core/src/client: what a client does with the server's messages.
pub mod Shared
pub mod Dispatch
pub mod Threads
pub mod Queue
pub mod View
pub mod Control
pub mod Session
pub mod Ends
