-- ===== src/Session.antt =====
-- crates/core/src/session: one cursor, one layout, and the rules for moving between screens.
-- A `&mut self` method returns the new session; `Run` tells a panic from a result. The time of a
-- call is an argument, read once for the whole call.
pub mod Boundary
pub mod State
pub mod Crossing
pub mod Placed
pub mod Loops
pub mod LocalHandlers
pub mod RemoteHandlers
pub mod Sound
pub mod Invariant
pub mod Told
pub mod History
pub mod Held
pub mod Keys
pub mod Entry
pub mod Park
pub mod Pushed
pub mod Reports
pub mod Admit
pub mod Adopted
pub mod Motion
pub mod Beacon
pub mod Events
pub mod Clients
