-- ===== src/Orchestrator.antt =====
-- crates/signet-orchestrator/src/lib.rs and reaper.rs: what the server asks of Kubernetes. The
-- client of `Orchestrator` is the platform; the other fields are a record of their own.
pub mod Naming
pub mod Pods
pub mod Workloads
pub mod Reaper
pub mod Keeping
pub mod Mesh
pub mod Reaping
pub mod Manifests
pub mod Provision
