-- ===== src/World.antt =====
-- The daemon's state, the world around it, and the code between the two.
pub mod Calls
pub mod State
pub mod Run
pub mod Keeps
pub mod Ends
pub mod Stays
pub mod Succeeds
pub mod Yields
pub mod Gives
