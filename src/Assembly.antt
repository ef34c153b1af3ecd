-- ===== src/Assembly.antt =====
-- cmd/dcm-kcli-provider/server.go: the process that puts the parts together.
pub mod Profiles
pub mod Endpoints
pub mod Probe
pub mod Startup
pub mod Shutdown
pub mod Interval
pub mod Process
pub mod Runs
