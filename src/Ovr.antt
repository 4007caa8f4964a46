-- ===== src/Ovr.antt =====
-- crates/common/data_types/src/ovr_map.rs: the overwrite rows `@ovr/` of a blob.
pub mod Row
pub mod Marker
pub mod Resolve
pub mod Ranges
pub mod Keys
pub mod Map
mod Examples
