-- ===== src/Server.antt =====
-- crates/core/src/server: the clients, the links and the local machine around the session. A handler
-- is a function on the whole state, with the time of the call as an argument.
pub mod Policy
pub mod World
pub mod Apply
pub mod Registry
pub mod Handshake
pub mod Inbound
pub mod Datagrams
pub mod Controls
pub mod Rest
pub mod Coherent
pub mod Admission
pub mod Spoof
pub mod Superseded
pub mod IdLists
pub mod Desks
pub mod Drops
pub mod Leaves
pub mod Departures
pub mod Watchdog
pub mod Turns
pub mod Arrivals
pub mod Orders
pub mod Reach
pub mod Start
pub mod Served
pub mod Races
