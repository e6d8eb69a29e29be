-- ===== src/Pointer.antt =====
-- crates/core/src/motion: the arithmetic of pointer motion, over the f64 parameter.
pub mod Gain
pub mod Pending
pub mod Follower
pub mod Probe
pub mod Inside
