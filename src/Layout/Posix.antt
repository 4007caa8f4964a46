-- ===== src/Layout/Posix.antt =====
-- object_layout.rs, the POSIX attributes of a layout, and the comparisons of two layouts that leave
-- them out; get_object.rs, the comparison that a GET makes. `to_bytes` is the encoder of rkyv.
pub mod Compare
pub mod Committed
use fractalbits.Base.Bytes.{bytes_eq}
use fractalbits.Base.{ℕ, Bool, true, false, ◌&&◌, Option, none, some, List, ◌==◌, if◌then◌else◌}
use native.Mathlib.Decide.{ℕ_discrete}
use mathlib.Core.Bool.{decide}
use fractalbits.Layout.{
  ObjectLayout, ObjectState, MpuState, PosixAttrs, ObjectMetaData, DirectoryData, DataBlobGuid,
}
use fractalbits.Layout.Ext.{fs_posix, map_epoch, set_fs_posix}

abbrev pub posix_default : PosixAttrs
posix_default = record { mode = 0; uid = 0; gid = 0; mtime_ns = 0; ctime_ns = 0 }

unfoldable pub unwrap_posix : Option PosixAttrs → PosixAttrs
unwrap_posix none = posix_default
unwrap_posix (some p) = p

-- The shapes whose attributes stand in `fs_ext`.
unfoldable pub has_ext_posix : ObjectState → Bool
has_ext_posix (ObjectState.normal _) = true
has_ext_posix (ObjectState.mpu MpuState.uploading) = false
has_ext_posix (ObjectState.mpu (MpuState.completed _)) = true
has_ext_posix (ObjectState.symlink _) = true
has_ext_posix (ObjectState.special _) = true
has_ext_posix (ObjectState.directory _) = false
has_ext_posix (ObjectState.indirect _) = false

unfoldable pub directory_data : ObjectState → Option DirectoryData
directory_data (ObjectState.directory d) = some d
directory_data _ = none

unfoldable pub layout_posix : ObjectLayout → PosixAttrs
unfolding directory_data has_ext_posix unwrap_posix
layout_posix l = elim (directory_data l.state) [
  | some d ↦ d.posix
  | none ↦ if has_ext_posix l.state then unwrap_posix (fs_posix l) else posix_default
]

unfoldable pub layout_with_posix : ObjectLayout → PosixAttrs → ObjectLayout
unfolding directory_data has_ext_posix
layout_with_posix l new_posix = elim (directory_data l.state) [
  | some d ↦ record l { state = ObjectState.directory (record d { posix = new_posix }) }
  | none ↦ if has_ext_posix l.state then set_fs_posix (some new_posix) l else l
]

-- `current` with the attributes of `expected`; `none` where only one of the two is a directory.
unfoldable pub rebase_posix : ObjectLayout → ObjectLayout → Option ObjectLayout
unfolding directory_data
rebase_posix expected current = elim (directory_data expected.state) [
  | some e ↦ elim (directory_data current.state) [
    | some c ↦
        some (record current { state = ObjectState.directory (record c { posix = e.posix }) })
    | none ↦ none
  ]
  | none ↦ elim (directory_data current.state) [
    | some c ↦ none
    | none ↦ some (set_fs_posix (fs_posix expected) current)
  ]
]

unfoldable pub same_bytes : Option (List ℕ) → Option (List ℕ) → Bool
same_bytes (some a) (some b) = bytes_eq a b
same_bytes (some a) none = false
same_bytes none b = false

unfoldable pub posix_only_moved :
    (ObjectLayout → Option (List ℕ)) → ObjectLayout → ObjectLayout → Bool
unfolding rebase_posix same_bytes
posix_only_moved to_bytes expected current = elim (rebase_posix expected current) [
  | none ↦ false
  | some normalized ↦ same_bytes (to_bytes expected) (to_bytes normalized)
]

unfoldable pub normal_data : ObjectState → Option ObjectMetaData
normal_data (ObjectState.normal d) = some d
normal_data _ = none

unfoldable pub guid_eq : DataBlobGuid → DataBlobGuid → Bool
guid_eq a b = (a.blob_id == b.blob_id) && (a.volume_id == b.volume_id)

unfoldable pub same_committed_data : ObjectLayout → ObjectLayout → Bool
unfolding normal_data guid_eq
same_committed_data expected current = elim (normal_data expected.state) [
  | none ↦ false
  | some a ↦ elim (normal_data current.state) [
    | none ↦ false
    | some b ↦
        guid_eq a.blob_guid b.blob_guid
        && (a.core_meta_data.size == b.core_meta_data.size)
        && (expected.blob_version == current.blob_version)
        && (expected.block_size == current.block_size)
        && (map_epoch expected == map_epoch current)
  ]
]

-- The derived equality of object states.
pub state_discrete : Discrete ObjectState
state_discrete = hlevel ℕ_discrete

unfoldable pub same_committed_read_snapshot : ObjectLayout → ObjectLayout → Bool
same_committed_read_snapshot expected current =
    (expected.version_id == current.version_id)
    && (expected.block_size == current.block_size)
    && (expected.blob_version == current.blob_version)
    && (map_epoch expected == map_epoch current)
    && decide (state_discrete expected.state current.state)
