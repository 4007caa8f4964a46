-- ===== src/Proxy.antt =====
-- crates/common/volume_group_proxy/src/data_vg_proxy.rs: the quorum client of the storage nodes.
pub mod Breaker
pub mod Volumes
pub mod Replicated
mod Examples
pub mod Cohorts
pub mod Erasure
pub mod Listing
pub mod Dispatch
