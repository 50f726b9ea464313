-- ===== src/Program.antt =====
-- cmd/federation-controller/main.go: how the parts are put together. `log.Fatalf` ends the process, and
-- is a failed outcome here.
pub mod Resolution
pub mod Reconcilers
pub mod Startup
pub mod Clients
pub mod Main
pub mod System
