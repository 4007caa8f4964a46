-- ===== src/Ovr/Marker.antt =====
-- ovr_map.rs, the teardown marker of a blob and its phases.
pub mod Phases
use fractalbits.Base.{ℕ, Bool, ◌&&◌, List, ◌++◌, ◌==◌, if◌then◌else◌, length, take, slice}
use fractalbits.Base.Bytes.{bytes_eq, le_bytes, from_le}
use fractalbits.Base.Text.{codes}

abbrev pub ovr_gc_legacy_value : List ℕ
ovr_gc_legacy_value = codes "gc"

abbrev pub ovr_gc_data_pending_tag : List ℕ
ovr_gc_data_pending_tag = codes "gcpend01"

abbrev pub ovr_gc_rows_ready_tag : List ℕ
ovr_gc_rows_ready_tag = codes "gcrows01"

abbrev pub ovr_gc_data_pending_len : ℕ
ovr_gc_data_pending_len = 18

abbrev pub ovr_gc_rows_ready_len : ℕ
ovr_gc_rows_ready_len = 10

pub data OvrGcMarker : Type 0 where
  conditional : OvrGcMarker
  legacy_data_pending : OvrGcMarker
  data_pending : ℕ → ℕ → OvrGcMarker
  rows_ready : ℕ → OvrGcMarker

unfoldable pub encode_ovr_gc_data_pending : ℕ → ℕ → List ℕ
encode_ovr_gc_data_pending volume_id not_before_unix_ms =
    ovr_gc_data_pending_tag ++ (le_bytes 2 volume_id ++ le_bytes 8 not_before_unix_ms)

unfoldable pub encode_ovr_gc_rows_ready : ℕ → List ℕ
encode_ovr_gc_rows_ready volume_id = ovr_gc_rows_ready_tag ++ le_bytes 2 volume_id

unfoldable pub parse_ovr_gc_marker : List ℕ → OvrGcMarker
parse_ovr_gc_marker value =
    if bytes_eq value ovr_gc_legacy_value
    then OvrGcMarker.legacy_data_pending
    else if (length value == ovr_gc_data_pending_len)
        && bytes_eq (take 8 value) ovr_gc_data_pending_tag
    then OvrGcMarker.data_pending (from_le (slice 8 10 value)) (from_le (slice 10 18 value))
    else if (length value == ovr_gc_rows_ready_len) && bytes_eq (take 8 value) ovr_gc_rows_ready_tag
    then OvrGcMarker.rows_ready (from_le (slice 8 10 value))
    else OvrGcMarker.conditional
