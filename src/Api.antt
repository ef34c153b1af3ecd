-- ===== src/Api.antt =====
-- internal/api/server: the handlers of the HTTP API.
pub mod Types
pub mod Json
pub mod Helpers
pub mod Hints
pub mod Sorting
pub mod MemorySize
pub mod Paging
pub mod Server
pub mod Vms
pub mod Kubeconfig
pub mod Clusters
pub mod Health
pub mod Runs
