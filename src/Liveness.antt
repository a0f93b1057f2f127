-- ===== src/Liveness.antt =====
-- When the daemon ends: the events that make `main` of src/cwdaemon.c leave its loop.
pub mod Devices
pub mod Handlers
pub mod Requests
pub mod Runs
pub mod Start
