-- ===== src/Ovr/Marker/Phases.antt =====
-- A marker is read in exactly one phase, and only from the bytes that were written for it.
use fractalbits.Base.Bytes.{
  le_bytes-from_le, bytes_eq→eq, from_le, IsByte, from_le-le_bytes, le_bytes, length-le_bytes,
  IsU64, IsU16,
}
use fractalbits.Base.{
  length-take, drop-drop, take-append-drop, sym, All-take, All-drop, ◌∙◌, length-drop, two_parts,
  drop, ◌++◌, take, ◌+◌, All, length, List, drop-append, take-append, arith, take_all,
  length-append, ℕ, ◌≡◌,
}
use fractalbits.Ovr.Marker.{
  ovr_gc_rows_ready_tag, ovr_gc_data_pending_tag, OvrGcMarker, encode_ovr_gc_data_pending,
  encode_ovr_gc_rows_ready, parse_ovr_gc_marker,
}

-- The marker written for a 16-bit volume and a 64-bit time reads as that phase, volume and time.
pub parse-encode_data_pending :
    (volume_id ms : ℕ)
    → IsU16 volume_id
    → IsU64 ms
    → parse_ovr_gc_marker (encode_ovr_gc_data_pending volume_id ms)
      ≡ OvrGcMarker.data_pending volume_id ms
unfolding parse_ovr_gc_marker encode_ovr_gc_data_pending
parse-encode_data_pending volume_id ms h k = rw (
  length-append (le_bytes 2 volume_id) (le_bytes 8 ms),
  length-le_bytes 2 volume_id,
  length-le_bytes 8 ms,
  take-append (le_bytes 2 volume_id) (le_bytes 8 ms) 2 (length-le_bytes 2 volume_id),
  drop-append (le_bytes 2 volume_id) (le_bytes 8 ms) 2 (length-le_bytes 2 volume_id),
  take_all 8 (le_bytes 8 ms) (omega (arith, length-le_bytes 8 ms)),
  from_le-le_bytes 2 volume_id (omega arith),
  from_le-le_bytes 8 ms (omega arith),
)

-- The marker written for a 16-bit volume reads as that phase and volume.
pub parse-encode_rows_ready :
    (volume_id : ℕ)
    → IsU16 volume_id
    → parse_ovr_gc_marker (encode_ovr_gc_rows_ready volume_id) ≡ OvrGcMarker.rows_ready volume_id
unfolding parse_ovr_gc_marker encode_ovr_gc_rows_ready
parse-encode_rows_ready volume_id h = rw (
  length-le_bytes 2 volume_id,
  take_all 2 (le_bytes 2 volume_id) (omega (arith, length-le_bytes 2 volume_id)),
  from_le-le_bytes 2 volume_id (omega arith),
)

-- A part of a byte string, written out again.
part-le_bytes :
    (n k : ℕ) (value : List ℕ)
    → length value ≡ n + k
    → All IsByte value
    → value ≡ take n value ++ le_bytes k (from_le (take k (drop n value)))
part-le_bytes n k value h bytes =
    let (e, _, size) = two_parts n k value h in
    rw
      (le_bytes-from_le k (take k (drop n value)) size
        (All-take IsByte k (drop n value) (All-drop IsByte n value bytes)))
      e

-- A marker that reads as `rows_ready` is the one written for that volume.
pub rows_ready_sound :
    (value : List ℕ) (volume_id : ℕ)
    → All IsByte value
    → parse_ovr_gc_marker value ≡ OvrGcMarker.rows_ready volume_id
    → value ≡ encode_ovr_gc_rows_ready volume_id
unfolding parse_ovr_gc_marker encode_ovr_gc_rows_ready
rows_ready_sound value volume_id bytes h =
    let size : length value ≡ 10 = ground arith in
    let tag : take 8 value ≡ ovr_gc_rows_ready_tag =
      bytes_eq→eq (take 8 value) ovr_gc_rows_ready_tag (ground arith) in
    let id : from_le (take 2 (drop 8 value)) ≡ volume_id = ground arith in
    part-le_bytes 8 2 value size bytes ∙ rw (tag, id)

-- A byte string that reads as `data_pending` is the marker written for that volume and time.
pub data_pending_sound :
    (value : List ℕ) (volume_id ms : ℕ)
    → All IsByte value
    → parse_ovr_gc_marker value ≡ OvrGcMarker.data_pending volume_id ms
    → value ≡ encode_ovr_gc_data_pending volume_id ms
unfolding parse_ovr_gc_marker encode_ovr_gc_data_pending
data_pending_sound value volume_id ms bytes h =
    let size : length value ≡ 18 = ground arith in
    let tag : take 8 value ≡ ovr_gc_data_pending_tag =
      bytes_eq→eq (take 8 value) ovr_gc_data_pending_tag (ground arith) in
    let id : from_le (take 2 (drop 8 value)) ≡ volume_id = ground arith in
    let time : from_le (take 8 (drop 10 value)) ≡ ms = ground arith in
    let later : drop 2 (drop 8 value) ≡ drop 10 value = drop-drop 2 8 value in
    let rest =
      part-le_bytes 2 8 (drop 8 value) (omega (arith, length-drop 8 value))
        (All-drop IsByte 8 value bytes) in
    let first : le_bytes 2 (from_le (take 2 (drop 8 value))) ≡ take 2 (drop 8 value) =
      le_bytes-from_le 2 (take 2 (drop 8 value))
        (omega (arith, length-take 2 (drop 8 value), length-drop 8 value))
        (All-take IsByte 2 (drop 8 value) (All-drop IsByte 8 value bytes)) in
    sym (take-append-drop 8 value) ∙ cc (rest, later, first, tag, id, time)
