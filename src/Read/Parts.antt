-- ===== src/Read/Parts.antt =====
-- get_object.rs, the body of an object and a range of it, for every state that an object can be in:
-- one blob, or the parts of an upload one behind the other. The listing of the parts, the loading
-- of the rows and the blob client are arguments, given by their answers.
pub mod Ranges
use fractalbits.Base.Results.{Result, ok, err, ◌>>=◌}
use fractalbits.Base.{
  ◌%◌, ◌^◌, ℕ, zero, suc, ◌+◌, ◌-◌, ◌&&◌, Option, none, some, List, [], ◌∷◌, ◌++◌, ltb, leb,
  if◌then◌else◌, get_elem?,
}
use fractalbits.Ovr.Map.{OvrRowMap}
use fractalbits.Layout.{
  DataBlobGuid, ObjectLayout, ObjectLayoutError, ObjectCoreMetaData, ObjectState, MpuState,
  blob_guid, get_blob_location, size, num_blocks,
}
use fractalbits.Read.{
  S3Error, Bytes, Fetched, read_block, get_full_blob_stream, get_range_blob_stream,
}

-- The key of a part with its layout.
abbrev pub Part : Type 0
Part = Bytes × ObjectLayout

abbrev pub Stream : Type 0
Stream = List (Result S3Error Bytes)

-- `From<ObjectLayoutError>`.
unfoldable pub from_layout : {A : Type 0} → Result ObjectLayoutError A → Result S3Error A
from_layout (ok a) = ok a
from_layout (err _) = err S3Error.invalid_object_state

-- The blob client, and what `validate_base_miss` answers for a key and its layout.
pub record BlobClient : Type 0 where
  pub get_blob : DataBlobGuid → ℕ → ℕ → ℕ → Fetched
  pub base_miss : Bytes → ObjectLayout → Result S3Error (Unit {0})

-- The block with number `i`, cast to 32 bits.
unfoldable pub read_object :
    BlobClient
    → Bytes
    → ObjectLayout
    → DataBlobGuid
    → Option OvrRowMap
    → ℕ
    → ℕ
    → Result S3Error Bytes
unfolding read_block
read_object client key object guid rows i content_len =
    read_block (client.get_blob guid) (client.base_miss key object) rows object.blob_version
      object.block_size (i % 2 ^ 32) content_len

-- `try_flatten`: the error of a stream that cannot be opened is an item.
unfoldable pub try_flatten : List (Result S3Error Stream) → Stream
try_flatten [] = []
try_flatten (ok s ∷ rest) = s ++ try_flatten rest
try_flatten (err e ∷ rest) = err e ∷ try_flatten rest

unfoldable pub full_stream :
    BlobClient → Bytes → ObjectLayout → Option OvrRowMap → Result S3Error Stream
unfolding from_layout read_object get_full_blob_stream
full_stream client key object rows = from_layout (blob_guid object) >>= λ guid.
    from_layout (num_blocks object) >>= λ blocks. from_layout (size object) >>= λ object_size.
    from_layout (get_blob_location object) >>= λ _.
    get_full_blob_stream (read_object client key object guid rows) object.block_size object_size
      blocks

unfoldable pub range_stream :
    BlobClient → Bytes → ObjectLayout → Option OvrRowMap → ℕ → ℕ → Result S3Error Stream
unfolding from_layout read_object get_range_blob_stream
range_stream client key object rows start end' = from_layout (blob_guid object) >>= λ guid.
    from_layout (size object) >>= λ object_size. from_layout (num_blocks object) >>= λ blocks.
    from_layout (get_blob_location object) >>= λ _. ok (
      get_range_blob_stream (read_object client key object guid rows) object.block_size object_size
        blocks start end')

-- A part with the range of it that is asked for.
pub record PartRange : Type 0 where
  pub part : Part
  pub blob_start : ℕ
  pub blob_end : ℕ

-- The loop over the parts, from the offset of the first of them.
unfoldable pub parts_in_range : ℕ → ℕ → ℕ → List Part → Result S3Error (List PartRange)
unfolding from_layout
parts_in_range start end' obj_offset [] = ok []
parts_in_range start end' obj_offset (p ∷ mpus) = from_layout (size p.1) >>= λ mpu_size.
    if leb end' obj_offset
    then ok []
    else if ltb obj_offset end' && ltb start (obj_offset + mpu_size)
    then (parts_in_range start end' (obj_offset + mpu_size) mpus >>= λ rest. ok (
        record {
          part = p;
          blob_start = start - obj_offset;
          blob_end = if ltb (obj_offset + mpu_size) end' then mpu_size else end' - obj_offset;
        }
        ∷ rest))
    else parts_in_range start end' (obj_offset + mpu_size) mpus

unfoldable pub part_streams : BlobClient → List PartRange → List (Result S3Error Stream)
unfolding range_stream
part_streams client [] = []
part_streams client (r ∷ rest) =
    range_stream client r.part.0 r.part.1 none r.blob_start r.blob_end ∷ part_streams client rest

unfoldable pub whole_streams : BlobClient → List Part → List (Result S3Error Stream)
unfolding full_stream
whole_streams client [] = []
whole_streams client (p ∷ rest) = full_stream client p.0 p.1 none ∷ whole_streams client rest

-- `rows` and `mpus` are the answers of `load_row_map` and of the listing.
unfoldable pub range_of_state :
    BlobClient
    → Bytes
    → ObjectLayout
    → Result S3Error (Option OvrRowMap)
    → Result S3Error (List Part)
    → ℕ
    → ℕ
    → ObjectState
    → Result S3Error Stream
unfolding range_stream parts_in_range part_streams try_flatten
range_of_state client key object rows mpus start end' (ObjectState.normal _) =
    from_layout (blob_guid object) >>= λ _. from_layout (get_blob_location object) >>= λ _.
    from_layout (size object) >>= λ _. from_layout (num_blocks object) >>= λ _.
    rows >>= λ r. range_stream client key object r start end'
range_of_state client key object rows mpus start end' (ObjectState.mpu MpuState.uploading) =
    err S3Error.invalid_object_state
range_of_state client key object rows mpus start end' (ObjectState.mpu (MpuState.completed _)) =
    mpus >>= λ parts.
    parts_in_range start end' 0 parts >>= λ ranges. ok (try_flatten (part_streams client ranges))
range_of_state client key object rows mpus start end' (ObjectState.symlink _) =
    err S3Error.invalid_object_state
range_of_state client key object rows mpus start end' (ObjectState.special _) =
    err S3Error.invalid_object_state
range_of_state client key object rows mpus start end' (ObjectState.directory _) =
    err S3Error.invalid_object_state
range_of_state client key object rows mpus start end' (ObjectState.indirect _) =
    err S3Error.invalid_object_state

-- `client` is `none` where there is no blob client for the bucket.
unfoldable pub get_object_range_content :
    Option BlobClient
    → Bytes
    → ObjectLayout
    → Result S3Error (Option OvrRowMap)
    → Result S3Error (List Part)
    → ℕ
    → ℕ
    → Result S3Error Stream
unfolding range_of_state
get_object_range_content none key object rows mpus start end' = err S3Error.internal_error
get_object_range_content (some client) key object rows mpus start end' =
    range_of_state client key object rows mpus start end' object.state

-- The parts of a request and the size of the body; `none` stands for the panic at a part number
-- that has no part.
unfoldable pub chosen_parts :
    List Part → ObjectCoreMetaData → Option ℕ → Option (Result S3Error (List Part × ℕ))
unfolding from_layout
chosen_parts mpus core none = some (ok (mpus, core.size))
chosen_parts mpus core (some zero) = none
chosen_parts mpus core (some (suc i)) = elim (get_elem? mpus i) [
  | none ↦ none
  | some p ↦ some (from_layout (size p.1) >>= λ mpu_size. ok (p ∷ [], mpu_size))
]

unfoldable pub content_of_parts :
    BlobClient → Result S3Error (List Part × ℕ) → Result S3Error (Stream × ℕ)
unfolding whole_streams try_flatten
content_of_parts client chosen =
    chosen >>= λ (c : List Part × ℕ). ok (try_flatten (whole_streams client c.0), c.1)

unfoldable pub content_of_state :
    BlobClient
    → Bytes
    → ObjectLayout
    → Result S3Error (Option OvrRowMap)
    → Result S3Error (List Part)
    → Option ℕ
    → ObjectState
    → Option (Result S3Error (Stream × ℕ))
unfolding full_stream chosen_parts content_of_parts
content_of_state client key object rows mpus part_number (ObjectState.normal _) = some (
    from_layout (blob_guid object) >>= λ _. from_layout (num_blocks object) >>= λ _.
    from_layout (size object) >>= λ object_size. from_layout (get_blob_location object) >>= λ _.
    rows >>= λ r. full_stream client key object r >>= λ body. ok (body, object_size))
content_of_state client key object rows mpus part_number (ObjectState.mpu MpuState.uploading) =
    some (err S3Error.invalid_object_state)
content_of_state client key object rows (err e) part_number
      (ObjectState.mpu (MpuState.completed core)) =
    some (err e)
content_of_state client key object rows (ok parts) part_number
      (ObjectState.mpu (MpuState.completed core)) =
    elim (chosen_parts parts core part_number) [
      | none ↦ none
      | some chosen ↦ some (content_of_parts client chosen)
    ]
content_of_state client key object rows mpus part_number (ObjectState.symlink _) =
    some (err S3Error.invalid_object_state)
content_of_state client key object rows mpus part_number (ObjectState.special _) =
    some (err S3Error.invalid_object_state)
content_of_state client key object rows mpus part_number (ObjectState.directory _) =
    some (err S3Error.invalid_object_state)
content_of_state client key object rows mpus part_number (ObjectState.indirect _) =
    some (err S3Error.invalid_object_state)

unfoldable pub get_object_content :
    Option BlobClient
    → Bytes
    → ObjectLayout
    → Result S3Error (Option OvrRowMap)
    → Result S3Error (List Part)
    → Option ℕ
    → Option (Result S3Error (Stream × ℕ))
unfolding content_of_state
get_object_content none key object rows mpus part_number = some (err S3Error.internal_error)
get_object_content (some client) key object rows mpus part_number =
    content_of_state client key object rows mpus part_number object.state
