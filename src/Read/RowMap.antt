-- ===== src/Read/RowMap.antt =====
-- get_object.rs, `load_row_map`: the committed row snapshot of a layout, from the cache or from the
-- NSS listing. The cache is its contents by blob id and map epoch; nothing is evicted.
use fractalbits.Base.{ℕ, ◌&&◌, Bool, Option, none, some, List, [], not, ◌==◌, if◌then◌else◌}
use fractalbits.Base.Results.{Result, ok, err}
use fractalbits.Layout.{ObjectLayout, blob_guid}
use fractalbits.Layout.Ext.{is_mapped, map_epoch}
use fractalbits.Ovr.Keys.{ovr_row_prefix}
use fractalbits.Ovr.Map.{OvrRowMap, new}
use fractalbits.Read.{S3Error, Entry, load_pages}

abbrev pub RowMaps : Type 0
RowMaps = ℕ → ℕ → Option OvrRowMap

unfoldable pub insert_map : ℕ → ℕ → OvrRowMap → RowMaps → RowMaps
insert_map blob_id epoch m maps id e = if (id == blob_id) && (e == epoch) then some m else maps id e

-- The listing of one prefix, behind a key.
abbrev pub ListInodes : Type 0
ListInodes = List ℕ → List ℕ → Result S3Error (List Entry × Bool)

-- The loaded map is cached; an error leaves the cache alone.
unfoldable pub cache_loaded :
    ℕ → ℕ → RowMaps → Result S3Error OvrRowMap → Result S3Error (Option OvrRowMap) × RowMaps
unfolding insert_map
cache_loaded blob_id epoch maps (ok m) = (ok (some m), insert_map blob_id epoch m maps)
cache_loaded blob_id epoch maps (err e) = (err e, maps)

-- Without fuel for the paging loop the answer is `none`.
unfoldable pub load_row_map :
    (ℕ → List ℕ)
    → ListInodes
    → ℕ
    → RowMaps
    → ObjectLayout
    → Option (Result S3Error (Option OvrRowMap) × RowMaps)
unfolding cache_loaded
load_row_map as_simple list_inodes fuel maps layout =
    if not (is_mapped layout) then some (ok none, maps) else elim (blob_guid layout) [
      | err _ ↦ some (err S3Error.invalid_object_state, maps)
      | ok guid ↦ elim (maps guid.blob_id (map_epoch layout)) [
        | some m ↦ some (ok (some m), maps)
        | none ↦
            elim (load_pages (list_inodes (ovr_row_prefix as_simple guid.blob_id)) fuel []
              (new (map_epoch layout))) [
                | none ↦ none
                | some r ↦ some (cache_loaded guid.blob_id (map_epoch layout) maps r)
              ]
      ]
    ]
