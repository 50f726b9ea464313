-- ===== src/Kube.antt =====
-- The reconcilers: the client of the API server, the body they share, and what each one does.
pub mod Api
pub mod Sync
pub mod Reconcilers
pub mod Manager
