-- ===== src/Layout.antt =====
-- crates/common/data_types/src/object_layout.rs: the value stored for an object, and its accessors.
-- A uuid is its 128-bit number, a text its code points. The boxes of the source are not modelled.
use fractalbits.Base.{
  ℕ, ◌+◌, ◌/◌, ◌%◌, Bool, true, false, ◌&&◌, Option, none, some, List, ◌==◌, if◌then◌else◌, is_none,
  length,
}
use fractalbits.Base.Results.{Result, ok, err, ◌>>=◌}
pub mod Ext
pub mod Normalized
pub mod Posix
mod Examples

abbrev pub Text : Type 0
Text = List ℕ

abbrev pub HeaderList : Type 0
HeaderList = List (Text × Text)

pub data ObjectLayoutError : Type 0 where
  invalid_state : ObjectLayoutError

pub data BlobLocation : Type 0 where
  data_vg_proxy s3 : BlobLocation

pub record DataBlobGuid : Type 0 where
  pub blob_id : ℕ
  pub volume_id : ℕ

-- `DataBlobGuid::S3_VOLUME`, which is `u16::MAX`.
abbrev pub s3_volume : ℕ
s3_volume = 65535

pub data ChecksumAlgorithm : Type 0 where
  crc32 crc32c crc64_nvme sha1 sha256 : ChecksumAlgorithm

pub record ChecksumValue : Type 0 where
  pub algorithm : ChecksumAlgorithm
  pub digest : List ℕ

pub record PosixAttrs : Type 0 where
  pub mode : ℕ
  pub uid : ℕ
  pub gid : ℕ
  pub mtime_ns : ℕ
  pub ctime_ns : ℕ

pub record FsExt : Type 0 where
  pub posix : Option PosixAttrs
  pub next_version : ℕ
  pub pending_append : Option (ℕ × ℕ)
  pub map_epoch : ℕ

pub record ObjectCoreMetaData : Type 0 where
  pub size : ℕ
  pub etag : Text
  pub headers : HeaderList
  pub checksum : Option ChecksumValue

pub record ObjectMetaData : Type 0 where
  pub blob_guid : DataBlobGuid
  pub core_meta_data : ObjectCoreMetaData

pub data MpuState : Type 0 where
  uploading : MpuState
  completed : ObjectCoreMetaData → MpuState

pub record SymlinkData : Type 0 where
  pub target : List ℕ
  pub core_meta_data : ObjectCoreMetaData

pub data SpecialKind : Type 0 where
  fifo block_device char_device socket : SpecialKind

pub record SpecialData : Type 0 where
  pub kind : SpecialKind
  pub rdev : ℕ
  pub core_meta_data : ObjectCoreMetaData

pub record DirectoryData : Type 0 where
  pub posix : PosixAttrs

pub record IndirectEntry : Type 0 where
  pub inode_id : ℕ

pub data ObjectState : Type 0 where
  normal : ObjectMetaData → ObjectState
  mpu : MpuState → ObjectState
  symlink : SymlinkData → ObjectState
  special : SpecialData → ObjectState
  directory : DirectoryData → ObjectState
  indirect : IndirectEntry → ObjectState

pub record ObjectLayout : Type 0 where
  pub timestamp : ℕ
  pub version_id : ℕ
  pub block_size : ℕ
  pub blob_version : ℕ
  pub fs_ext : Option FsExt
  pub state : ObjectState

abbrev pub default_block_size : ℕ
default_block_size = 131072

unfoldable pub state_is_listable : ObjectState → Bool
state_is_listable (ObjectState.normal _) = true
state_is_listable (ObjectState.mpu MpuState.uploading) = false
state_is_listable (ObjectState.mpu (MpuState.completed _)) = true
state_is_listable (ObjectState.symlink _) = true
state_is_listable (ObjectState.special _) = false
state_is_listable (ObjectState.directory _) = false
state_is_listable (ObjectState.indirect _) = true

unfoldable pub is_listable : ObjectLayout → Bool
unfolding state_is_listable
is_listable l = state_is_listable l.state

unfoldable pub state_is_fs_visible : ObjectState → Bool
state_is_fs_visible (ObjectState.normal _) = true
state_is_fs_visible (ObjectState.mpu MpuState.uploading) = false
state_is_fs_visible (ObjectState.mpu (MpuState.completed _)) = true
state_is_fs_visible (ObjectState.symlink _) = true
state_is_fs_visible (ObjectState.special _) = true
state_is_fs_visible (ObjectState.directory _) = false
state_is_fs_visible (ObjectState.indirect _) = true

unfoldable pub is_fs_visible : ObjectLayout → Bool
unfolding state_is_fs_visible
is_fs_visible l = state_is_fs_visible l.state

unfoldable pub state_blob_guid : ObjectState → Result ObjectLayoutError DataBlobGuid
state_blob_guid (ObjectState.normal data') = ok data'.blob_guid
state_blob_guid _ = err ObjectLayoutError.invalid_state

unfoldable pub blob_guid : ObjectLayout → Result ObjectLayoutError DataBlobGuid
unfolding state_blob_guid
blob_guid l = state_blob_guid l.state

unfoldable pub get_blob_location : ObjectLayout → Result ObjectLayoutError BlobLocation
unfolding blob_guid
get_blob_location l = do
  guid ← blob_guid l
  if guid.volume_id == s3_volume then ok BlobLocation.s3 else ok BlobLocation.data_vg_proxy

unfoldable pub state_size : ObjectState → Result ObjectLayoutError ℕ
state_size (ObjectState.normal data') = ok data'.core_meta_data.size
state_size (ObjectState.mpu MpuState.uploading) = err ObjectLayoutError.invalid_state
state_size (ObjectState.mpu (MpuState.completed core)) = ok core.size
state_size (ObjectState.symlink data') = ok (length data'.target)
state_size (ObjectState.special _) = ok 0
state_size (ObjectState.directory _) = ok 0
state_size (ObjectState.indirect _) = err ObjectLayoutError.invalid_state

unfoldable pub size : ObjectLayout → Result ObjectLayoutError ℕ
unfolding state_size
size l = state_size l.state

-- `u64::div_ceil`. A zero divisor panics in the source and yields 0 here.
unfoldable pub div_ceil : ℕ → ℕ → ℕ
div_ceil a b = if a % b == 0 then a / b else a / b + 1

unfoldable pub state_num_blocks : ObjectState → ℕ → Result ObjectLayoutError ℕ
unfolding state_size div_ceil
state_num_blocks (ObjectState.symlink _) block_size = ok 0
state_num_blocks (ObjectState.directory _) block_size = ok 0
state_num_blocks s block_size = state_size s >>= λ n. ok (div_ceil n block_size)

unfoldable pub num_blocks : ObjectLayout → Result ObjectLayoutError ℕ
unfolding state_num_blocks
num_blocks l = state_num_blocks l.state l.block_size

-- The metadata that `etag`, `checksum` and `headers` read a field of.
unfoldable pub core_meta_data : ObjectState → Result ObjectLayoutError ObjectCoreMetaData
core_meta_data (ObjectState.normal data') = ok data'.core_meta_data
core_meta_data (ObjectState.mpu (MpuState.completed core)) = ok core
core_meta_data (ObjectState.symlink data') = ok data'.core_meta_data
core_meta_data _ = err ObjectLayoutError.invalid_state

unfoldable pub etag : ObjectLayout → Result ObjectLayoutError Text
unfolding core_meta_data
etag l = core_meta_data l.state >>= λ m. ok m.etag

unfoldable pub checksum : ObjectLayout → Result ObjectLayoutError (Option ChecksumValue)
unfolding core_meta_data
checksum l = core_meta_data l.state >>= λ m. ok m.checksum

unfoldable pub headers : ObjectLayout → Result ObjectLayoutError HeaderList
unfolding core_meta_data
headers l = core_meta_data l.state >>= λ m. ok m.headers

-- `FsExt::default()`, and the test against it.
abbrev pub fs_ext_default : FsExt
fs_ext_default = record { posix = none; next_version = 0; pending_append = none; map_epoch = 0 }

unfoldable pub fs_ext_is_default : FsExt → Bool
fs_ext_is_default e =
    is_none e.posix && (e.next_version == 0) && is_none e.pending_append && (e.map_epoch == 0)

-- `(ext != FsExt::default()).then(|| Box::new(ext))`.
unfoldable pub normalize_ext : FsExt → Option FsExt
unfolding fs_ext_is_default
normalize_ext e = if fs_ext_is_default e then none else some e

unfoldable pub ext_or_default : Option FsExt → FsExt
ext_or_default none = fs_ext_default
ext_or_default (some e) = e

unfoldable pub update_fs_ext : (FsExt → FsExt) → ObjectLayout → ObjectLayout
unfolding ext_or_default normalize_ext
update_fs_ext f l = record l { fs_ext = normalize_ext (f (ext_or_default l.fs_ext)) }
