-- ===== src/Ovr/Examples.antt =====
-- Runs of the row map's code, and each theorem about it at a concrete input.
use fractalbits.Ovr.Resolve.Visibility.{merge-IsValid}
use fractalbits.Base.Bytes.{from_le}
use fractalbits.Base.{
  subst, ℕ, ◌≡◌, refl, Bool, false, ◌||◌, some, List, [], ◌∷◌, ◌++◌, arith, replicate,
}
use fractalbits.Base.Text.Hex.{hex_fixed}
use fractalbits.Ovr.Row.{OvrRow, RowState, PrevSlot, IsValid, encode, decode}
use fractalbits.Ovr.Row.Codec.{decode-encode, encode-decode}
use fractalbits.Ovr.Resolve.{resolve_row_filtered, merge_row_for_write_filtered}
use fractalbits.Ovr.Resolve.Visibility.{resolve-merge_abandoned}
use fractalbits.Ovr.Ranges.{Range, add_aborted_range, is_aborted, IsNormal, within}
use fractalbits.Ovr.Ranges.Laws.{is_aborted-add_aborted_range}
use fractalbits.Ovr.Keys.{ovr_row_key, parse_ovr_row_block}
use fractalbits.Ovr.Keys.RoundTrip.{IsIdText, parse_ovr_row_block-ovr_row_key}

-- The uuid text of a number, and a blob.
abbrev as_simple : ℕ → List ℕ
as_simple = hex_fixed 32

abbrev blob : ℕ
blob = 51966

blob-IsIdText : IsIdText (as_simple blob)
unfolding hex_fixed
blob-IsIdText = record { no_slash = omega arith; no_nul = omega arith }

abbrev old_row : OvrRow
old_row = record {
  cur_state = RowState.written;
  cur_version = 5;
  prev = PrevSlot.slot RowState.written 3;
}

abbrev staged_row : OvrRow
staged_row = record {
  cur_state = RowState.hole;
  cur_version = 7;
  prev = PrevSlot.slot RowState.written 5;
}

old_row-IsValid : IsValid old_row
old_row-IsValid = record { positive = omega arith; is_word = omega arith; below = omega arith }

abbrev nothing : ℕ → Bool
nothing _ = false

staged : merge_row_for_write_filtered (some old_row) RowState.hole 7 5 nothing ≡ some staged_row
unfolding merge_row_for_write_filtered
staged = refl

resolve-merge_abandoned_example :
    resolve_row_filtered (some staged_row) 8 (within 6 8)
    ≡ resolve_row_filtered (some old_row) 5 nothing
resolve-merge_abandoned_example =
    resolve-merge_abandoned (some old_row) RowState.hole 7 5 8 nothing (within 6 8) staged_row
      staged (omega arith) (omega arith) (λ v h. ground arith) (λ v h k. ground arith)

abbrev ranges : List Range
ranges = (2, 3) ∷ (9, 12) ∷ []

ranges-IsNormal : IsNormal ranges
ranges-IsNormal = omega arith

is_aborted-add_aborted_range_example :
    is_aborted (add_aborted_range 4 8 ranges) 6 ≡ (within 4 8 6 || is_aborted ranges 6)
is_aborted-add_aborted_range_example =
    is_aborted-add_aborted_range 4 8 ranges 6 ranges-IsNormal (omega arith) (omega arith)
      (omega arith)

-- The four ranges become one.
merged : add_aborted_range 4 8 ranges ≡ (2, 12) ∷ []
unfolding add_aborted_range
merged = refl

decode-encode_example : decode (encode old_row) ≡ some old_row
decode-encode_example = decode-encode old_row old_row-IsValid

abbrev old_bytes : List ℕ
old_bytes = 1 ∷ 1 ∷ 1 ∷ 0 ∷ 5 ∷ 0 ∷ 0 ∷ 0 ∷ 0 ∷ 0 ∷ 0 ∷ 0 ∷ 3 ∷ 0 ∷ 0 ∷ 0 ∷ 0 ∷ 0 ∷ 0 ∷ 0 ∷ []

old_bytes-decode : decode old_bytes ≡ some old_row
unfolding decode from_le
old_bytes-decode = refl

encode-decode_example : encode old_row ≡ old_bytes
encode-decode_example = encode-decode old_bytes old_row (omega arith) old_bytes-decode

abbrev pending_bytes : List ℕ
pending_bytes =
    b'g' ∷ b'c' ∷ b'p' ∷ b'e' ∷ b'n' ∷ b'd' ∷ b'0' ∷ b'1' ∷ 3 ∷ 0 ∷ 7 ∷ 1 ∷ 0 ∷ 0 ∷ 0 ∷ 0 ∷ 0 ∷ 0
    ∷ []

parse_ovr_row_block-ovr_row_key_example :
    parse_ovr_row_block (ovr_row_key as_simple blob 300 ++ replicate 2 0) ≡ some 300
parse_ovr_row_block-ovr_row_key_example =
    parse_ovr_row_block-ovr_row_key as_simple blob blob-IsIdText 300 2 (omega arith)

merge-IsValid_example : IsValid staged_row
merge-IsValid_example =
    merge-IsValid (some old_row) RowState.hole 7 5 nothing staged_row
      (λ r e. subst IsValid (same r e) old_row-IsValid) (omega arith) (omega arith) staged
  where
    same : (r : OvrRow) → some old_row ≡ some r → old_row ≡ r
    same r e = cc
