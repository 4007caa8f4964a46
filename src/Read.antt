-- ===== src/Read.antt =====
-- crates/s3_gateway/src/handler/get/get_object.rs: loading a blob's rows, reading one block, and the
-- body streams of full and range requests. What other services answer is a parameter.
pub mod Streams
pub mod Paging
pub mod RowMap
pub mod Content
pub mod Snapshot
pub mod Parts
mod Examples
use fractalbits.Base.Bytes.{bytes_eq}
use fractalbits.Base.{
  ℕ, zero, suc, ◌+◌, ◌-◌, ◌*◌, ◌/◌, Bool, true, false, not, Option, none, some, List, [], ◌∷◌, ltb,
  leb, ◌==◌, if◌then◌else◌, length, take, slice, replicate,
}
use fractalbits.Base.Results.{Result, ok, err, ◌>>=◌}
use fractalbits.Ovr.Row
use fractalbits.Ovr.Keys.{parse_ovr_row_block, parse_ovr_abort_range}
use fractalbits.Ovr.Map.{OvrRowMap, BlockFetchPlan, block_fetch_plan, insert, add_aborted_range}
use fractalbits.Layout.{ObjectLayout}
use fractalbits.Layout.Posix.{same_committed_read_snapshot}

-- The errors that these functions return or tell apart; any other one of a service is `other`.
pub data S3Error : Type 0 where
  internal_error no_such_key no_such_bucket invalid_object_state : S3Error
  other : ℕ → S3Error

abbrev pub Bytes : Type 0
Bytes = List ℕ

-- A key of the NSS listing with its value.
abbrev pub Entry : Type 0
Entry = List ℕ × List ℕ

abbrev pub ovr_abort_value : List ℕ
ovr_abort_value = 1 ∷ []

unfoldable pub load_abort : OvrRowMap → List ℕ → Option (ℕ × ℕ) → Result S3Error OvrRowMap
load_abort m value none = err S3Error.internal_error
load_abort m value (some (lo, hi)) =
    if not (bytes_eq value ovr_abort_value)
    then err S3Error.internal_error
    else ok (add_aborted_range m lo hi)

unfoldable pub load_row : OvrRowMap → ℕ → Option Row.OvrRow → Result S3Error OvrRowMap
load_row m block none = err S3Error.internal_error
load_row m block (some row) = ok (insert m block row)

unfoldable pub load_entry : OvrRowMap → Entry → Result S3Error OvrRowMap
unfolding load_abort load_row
load_entry m (key, value) = elim (parse_ovr_row_block key) [
  | some block ↦ load_row m block (Row.decode value)
  | none ↦ load_abort m value (parse_ovr_abort_range key)
]

unfoldable pub load_page : OvrRowMap → List Entry → Result S3Error OvrRowMap
unfolding load_entry
load_page m [] = ok m
load_page m (e ∷ page) = load_entry m e >>= λ m'. load_page m' page

unfoldable pub last_key : List Entry → Option (List ℕ)
last_key [] = none
last_key ((key, _) ∷ []) = some key
last_key (_ ∷ e ∷ rest) = last_key (e ∷ rest)

-- The paging loop. `list_inodes` is the NSS listing behind a key: a page, and whether more follow.
-- Without fuel the answer is `none`.
unfoldable pub load_pages :
    (List ℕ → Result S3Error (List Entry × Bool))
    → ℕ
    → List ℕ
    → OvrRowMap
    → Option (Result S3Error OvrRowMap)
unfolding load_page last_key
load_pages list_inodes zero start_after m = none
load_pages list_inodes (suc fuel) start_after m = elim (list_inodes start_after) [
  | err e ↦ some (err e)
  | ok (page, has_more) ↦ elim (load_page m page) [
    | err e ↦ some (err e)
    | ok m' ↦ elim (last_key page) [
      | none ↦ some (ok m')
      | some key ↦ elim has_more [
        | false ↦ some (ok m')
        | true ↦ load_pages list_inodes fuel key m'
      ]
    ]
  ]
]

-- What the namespace holds for the key when the base generation was missed.
unfoldable pub validate_base_miss :
    ObjectLayout → Result S3Error ObjectLayout → Result S3Error (Unit {0})
validate_base_miss layout (ok current) =
    if same_committed_read_snapshot layout current then ok tt else err S3Error.internal_error
validate_base_miss layout (err S3Error.no_such_key) = err S3Error.internal_error
validate_base_miss layout (err S3Error.no_such_bucket) = err S3Error.internal_error
validate_base_miss layout (err S3Error.internal_error) = err S3Error.internal_error
validate_base_miss layout (err S3Error.invalid_object_state) = err S3Error.invalid_object_state
validate_base_miss layout (err (S3Error.other n)) = err (S3Error.other n)

-- What the blob client answers: the body, `BlockNotFound`, or another error.
pub data Fetched : Type 0 where
  body : Bytes → Fetched
  block_not_found : Fetched
  failed : S3Error → Fetched

abbrev pub zeros : ℕ → Bytes
zeros len = replicate len 0

unfoldable pub read_fetched : Result S3Error (Unit {0}) → ℕ → Bool → Fetched → Result S3Error Bytes
read_fetched base_miss content_len miss_is_loss (Fetched.body b) =
    ok (if ltb content_len (length b) then take content_len b else b)
read_fetched base_miss content_len miss_is_loss Fetched.block_not_found =
    if miss_is_loss then err S3Error.internal_error else base_miss >>= λ _. ok (zeros content_len)
read_fetched base_miss content_len miss_is_loss (Fetched.failed e) = err e

-- `get_blob block version read_len` is the blob client, `base_miss` the answer of
-- `validate_base_miss` at that moment.
unfoldable pub read_block :
    (ℕ → ℕ → ℕ → Fetched)
    → Result S3Error (Unit {0})
    → Option OvrRowMap
    → ℕ
    → ℕ
    → ℕ
    → ℕ
    → Result S3Error Bytes
unfolding read_fetched
read_block get_blob base_miss rows ceiling block_size block content_len =
    elim (block_fetch_plan rows block ceiling block_size content_len) [
      | BlockFetchPlan.zeros ↦ ok (zeros content_len)
      | BlockFetchPlan.stale ↦ err S3Error.internal_error
      | BlockFetchPlan.fetch version read_len miss_is_loss ↦
          read_fetched base_miss content_len miss_is_loss (get_blob block version read_len)
    ]

-- The bytes to be read of block `i`, one of the `num_blocks` blocks of the object. The code also
-- subtracts where there is none, and wraps around there; the streams of this file then differ.
unfoldable pub content_len_at : ℕ → ℕ → ℕ → ℕ → ℕ
content_len_at block_size object_size num_blocks i =
    if i == num_blocks - 1 then object_size - block_size * i else block_size

-- The blocks from `i` on, `count` of them, each by `read i content_len`: the call of `read_block`,
-- with `i` cast to 32 bits by the caller (`Parts.read_object`).
unfoldable pub read_blocks :
    (ℕ → ℕ → Result S3Error Bytes) → ℕ → ℕ → ℕ → ℕ → ℕ → List (Result S3Error Bytes)
unfolding content_len_at
read_blocks read block_size object_size num_blocks i zero = []
read_blocks read block_size object_size num_blocks i (suc count) =
    read i (content_len_at block_size object_size num_blocks i)
    ∷ read_blocks read block_size object_size num_blocks (i + 1) count

-- The first block is read at once, and its error is the answer; the others follow as they are
-- asked for.
unfoldable pub get_full_blob_stream :
    (ℕ → ℕ → Result S3Error Bytes) → ℕ → ℕ → ℕ → Result S3Error (List (Result S3Error Bytes))
unfolding read_blocks
get_full_blob_stream read block_size object_size num_blocks =
    if num_blocks == 0
    then ok []
    else read 0 (if num_blocks == 1 then object_size else block_size) >>= λ first.
        if num_blocks == 1
        then ok (ok first ∷ [])
        else ok (ok first ∷ read_blocks read block_size object_size num_blocks 1 (num_blocks - 1))

-- The `scan` and `filter_map` of a range stream: chunks before the range are dropped, and the
-- stream ends at the first chunk behind it.
unfoldable pub scan_chunks : ℕ → ℕ → ℕ → List (Result S3Error Bytes) → List (Result S3Error Bytes)
scan_chunks start end' chunk_offset [] = []
scan_chunks start end' chunk_offset (err e ∷ rest) =
    err e ∷ scan_chunks start end' chunk_offset rest
scan_chunks start end' chunk_offset (ok chunk ∷ rest) =
    let chunk_len = length chunk in
    let more = scan_chunks start end' (chunk_offset + chunk_len) rest in
    if leb end' chunk_offset
    then []
    else if leb (chunk_offset + chunk_len) start
    then more
    else ok (
        slice (start - chunk_offset)
          (if ltb (chunk_offset + chunk_len) end' then chunk_len else end' - chunk_offset) chunk)
      ∷ more

unfoldable pub get_range_blob_stream :
    (ℕ → ℕ → Result S3Error Bytes) → ℕ → ℕ → ℕ → ℕ → ℕ → List (Result S3Error Bytes)
unfolding read_blocks scan_chunks
get_range_blob_stream read block_size object_size num_blocks start end' =
    let start_block_i = start / block_size in
    let end_block_i = (end' - 1) / block_size in
    scan_chunks start end' (block_size * start_block_i) (
      read_blocks read block_size object_size num_blocks start_block_i
        (end_block_i + 1 - start_block_i))
