-- ===== src/Read/Examples.antt =====
-- Each theorem about reading at a concrete input.
use fractalbits.Layout.{blob_guid}
use fractalbits.Layout.Ext.{map_epoch}
use fractalbits.Read.RowMap.{RowMaps}
use fractalbits.Base.{
  ◌<◌, ◌↔◌, ◌⊎◌, ◌==◌, if◌then◌else◌, length-take, length, ℕ, ◌≡◌, refl, true, false, none, some,
  List, [], ◌∷◌, ◌++◌, arith, take, drop, Bool, ◌*◌,
}
use fractalbits.Base.Results.{Result, ok, ◌>>=◌, collect}
use fractalbits.Base.Text.Hex.{hex_fixed}
use fractalbits.Layout.{div_ceil, ObjectLayout, ObjectState}
use fractalbits.Ovr.Row.{OvrRow, RowState, PrevSlot, encode}
use fractalbits.Ovr.Ranges.{Range, covered}
use fractalbits.Ovr.Map
use fractalbits.Ovr.Keys.{ovr_row_key}
use fractalbits.Ovr.Keys.RoundTrip.{IsIdText}
use fractalbits.Ovr.Map.{OvrRowMap, Rows, new, get, get_row, BlockFetchPlan, block_fetch_plan}
use fractalbits.Read.{
  S3Error, Bytes, Entry, load_page, load_pages, get_range_blob_stream, last_key, Fetched,
  read_block,
}
use fractalbits.Layout.{ObjectMetaData, DataBlobGuid, MpuState}
use fractalbits.Read.Parts.{
  Part, Stream, BlobClient, read_object, get_object_content, get_object_range_content,
}
use fractalbits.Read.Parts.Ranges.{
  AreParts, get_object_range_content-parts, get_object_content-parts, get_object_content_panic,
}
use fractalbits.Read.Content.{Reads, get_range_blob_stream-content}
use fractalbits.Read.Paging.{IsListing, last_page, next_page, load_pages-listing}
use fractalbits.Read.Snapshot.{AreRows, last_row, row_entries, abort_entries, load_page-listing}

abbrev content : Bytes
content = 10 ∷ 11 ∷ 12 ∷ 13 ∷ 14 ∷ 15 ∷ 16 ∷ []

-- Blocks of three bytes.
abbrev read_at : ℕ → ℕ → Result S3Error Bytes
read_at i len = ok (take len (drop (3 * i) content))

get_range_blob_stream-content_example :
    collect (get_range_blob_stream read_at 3 7 (div_ceil 7 3) 2 5) ≡ ok (12 ∷ 13 ∷ 14 ∷ [])
get_range_blob_stream-content_example =
    get_range_blob_stream-content content 3 (omega arith) read_at 2 5 (λ i len h k. refl)
      (omega arith) (omega arith)

abbrev as_simple : ℕ → List ℕ
as_simple = hex_fixed 32

as_simple-IsIdText : IsIdText (as_simple 7)
unfolding hex_fixed
as_simple-IsIdText = record { no_slash = omega arith; no_nul = omega arith }

abbrev row_at : ℕ → OvrRow
row_at v = record { cur_state = RowState.written; cur_version = v; prev = PrevSlot.base }

abbrev stored_rows : Rows
stored_rows = (3, row_at 5) ∷ (8, row_at 6) ∷ []

abbrev stored_aborts : List Range
stored_aborts = (2, 4) ∷ []

stored_rows-AreRows : AreRows stored_rows
stored_rows-AreRows = (
  omega arith,
  record { positive = omega arith; is_word = omega arith; below = tt },
  (omega arith, record { positive = omega arith; is_word = omega arith; below = tt }, tt),
)

abbrev snapshot_of_pages : OvrRowMap
snapshot_of_pages = record { epoch = 5; rows = stored_rows; aborted = [] }

load_page-listing_example :
    (m : OvrRowMap) × (load_page (new 5) (
        row_entries as_simple 7 as_simple-IsIdText stored_rows
        ++ abort_entries as_simple 7 as_simple-IsIdText stored_aborts)
      ≡ ok m)
    × (m.epoch ≡ 5)
    × ((block : ℕ) → get m block ≡ last_row block stored_rows none)
    × ((version : ℕ) → Map.is_aborted m version ≡ covered stored_aborts version)
load_page-listing_example =
    load_page-listing as_simple 7 as_simple-IsIdText 5 stored_rows stored_aborts stored_rows-AreRows
      (omega arith)

abbrev first_entry : Entry
first_entry = (ovr_row_key as_simple 7 3, encode (row_at 5))

abbrev second_entry : Entry
second_entry = (ovr_row_key as_simple 7 8, encode (row_at 6))

-- One row on the first page, one on the second.
abbrev list_inodes : List ℕ → Result S3Error (List Entry × Bool)
list_inodes [] = ok (first_entry ∷ [], true)
list_inodes (_ ∷ _) = ok (second_entry ∷ [], false)

two_pages : IsListing list_inodes [] (first_entry ∷ second_entry ∷ [])
unfolding last_key ovr_row_key
two_pages =
    next_page [] (ovr_row_key as_simple 7 3) (first_entry ∷ []) (second_entry ∷ []) refl refl
      (last_page (ovr_row_key as_simple 7 3) (second_entry ∷ []) refl)

load_pages-listing_example :
    load_pages list_inodes 3 [] (new 5) ≡ some (load_page (new 5) (first_entry ∷ second_entry ∷ []))
load_pages-listing_example =
    load_pages-listing list_inodes 3 [] (first_entry ∷ second_entry ∷ []) (new 5) two_pages
      (omega arith)

abbrev mapped_layout : ObjectLayout
mapped_layout = record {
  timestamp = 1;
  version_id = 2;
  block_size = 3;
  blob_version = 6;
  fs_ext = some (record { posix = none; next_version = 6; pending_append = none; map_epoch = 5 });
  state = ObjectState.normal (record {
    blob_guid = record { blob_id = 7; volume_id = 1 };
    core_meta_data = record { size = 7; etag = []; headers = []; checksum = none };
  });
}

abbrev first_content : Bytes
first_content = 20 ∷ 21 ∷ 22 ∷ 23 ∷ []

abbrev second_content : Bytes
second_content = 24 ∷ 25 ∷ []

abbrev stored_at : ℕ → Bytes
stored_at id = if id == 1 then first_content else second_content

abbrev part_meta : ℕ → Bytes → ObjectMetaData
part_meta id bytes = record {
  blob_guid = record { blob_id = id; volume_id = 1 };
  core_meta_data = record { size = length bytes; etag = []; headers = []; checksum = none };
}

abbrev layout_of : ObjectState → ObjectLayout
layout_of state = record {
  timestamp = 1;
  version_id = 1;
  block_size = 3;
  blob_version = 0;
  fs_ext = none;
  state = state;
}

abbrev parts : List Part
parts =
    (1 ∷ [], layout_of (ObjectState.normal (part_meta 1 first_content)))
    ∷ (2 ∷ [], layout_of (ObjectState.normal (part_meta 2 second_content)))
    ∷ []

abbrev part_client : BlobClient
part_client = record {
  get_blob = λ guid i v len. Fetched.body (take len (drop (3 * i) (stored_at guid.blob_id)));
  base_miss = λ key object. ok tt;
}

abbrev upload : ObjectLayout
upload = layout_of (
    ObjectState.mpu
      (MpuState.completed (record { size = 6; etag = []; headers = []; checksum = none })))

part_blocks :
    (key : Bytes) (object : ObjectLayout) (guid : DataBlobGuid)
    → object.block_size ≡ 3
    → Reads (stored_at guid.blob_id) 3 (omega arith) (read_object part_client key object guid none)
unfolding read_object read_block block_fetch_plan
part_blocks key object guid e i len h k =
    ground (arith, length-take len (drop (3 * i) (stored_at guid.blob_id)))

are_parts : AreParts part_client parts (first_content ∷ second_content ∷ [])
are_parts = (
  (
    part_meta 1 first_content,
    refl,
    refl,
    omega arith,
    part_blocks (1 ∷ []) (layout_of (ObjectState.normal (part_meta 1 first_content)))
        (record { blob_id = 1; volume_id = 1 }) refl,
  ),
  (
    (
      part_meta 2 second_content,
      refl,
      refl,
      omega arith,
      part_blocks (2 ∷ []) (layout_of (ObjectState.normal (part_meta 2 second_content)))
          (record { blob_id = 2; volume_id = 1 }) refl,
    ),
    tt,
  ),
)

get_object_range_content-parts_example :
    (get_object_range_content (some part_client) [] upload (ok none) (ok parts) 2 5 >>= collect)
    ≡ ok (22 ∷ 23 ∷ 24 ∷ [])
get_object_range_content-parts_example =
    get_object_range_content-parts part_client [] upload
      (record { size = 6; etag = []; headers = []; checksum = none }) (ok none) parts
      (first_content ∷ second_content ∷ []) 2 5 refl are_parts (omega arith) (omega arith)

get_object_content-parts_example :
    (s : Stream) × (get_object_content (some part_client) [] upload (ok none) (ok parts) none
      ≡ some (ok (s, 6)))
    × (collect s ≡ ok (20 ∷ 21 ∷ 22 ∷ 23 ∷ 24 ∷ 25 ∷ []))
get_object_content-parts_example =
    get_object_content-parts part_client [] upload
      (record { size = 6; etag = []; headers = []; checksum = none }) (ok none) parts
      (first_content ∷ second_content ∷ []) refl are_parts

abbrev third : ℕ
third = 3

get_object_content_panic_example :
    (get_object_content (some part_client) [] upload (ok none) (ok parts) (some third) ≡ none)
    ↔ ((third ≡ 0) ⊎ (length parts < third))
get_object_content_panic_example =
    get_object_content_panic part_client [] upload
      (record { size = 6; etag = []; headers = []; checksum = none }) (ok none) parts third refl

abbrev nothing_cached : RowMaps
nothing_cached id epoch = none
