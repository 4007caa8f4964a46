-- ===== src/Ovr/Keys.antt =====
-- ovr_map.rs, the NSS keys of rows, abort records and teardown markers. A key is its code points.
-- `as_simple` is the uuid crate's 32-digit text of a blob id, and `try_parse` its parser.
pub mod RoundTrip
pub mod Sorted
use fractalbits.Base.{
  ℕ, ◌^◌, Bool, not, ◌&&◌, ◌||◌, Option, none, some, List, [], ◌∷◌, ◌++◌, ltb, leb, ◌==◌,
  if◌then◌else◌, length, ◌>>=◌,
}
use fractalbits.Base.Text.{codes, strip_prefix, split_once, trim_end}
use fractalbits.Base.Text.Hex.{hex_fixed, from_hex}

abbrev pub ovr_row_prefix_text : List ℕ
ovr_row_prefix_text = codes "@ovr/"

abbrev pub ovr_gc_prefix : List ℕ
ovr_gc_prefix = codes "@ovr-gc/"

module _ {U : Type 0} (as_simple : U → List ℕ) where
  unfoldable pub ovr_row_prefix : U → List ℕ
  ovr_row_prefix blob_id = ovr_row_prefix_text ++ (as_simple blob_id ++ (b'/' ∷ []))

  unfoldable pub ovr_row_key : U → ℕ → List ℕ
  ovr_row_key blob_id block =
      ovr_row_prefix_text ++ (as_simple blob_id ++ (b'/' ∷ hex_fixed 8 block))

  unfoldable pub ovr_abort_key : U → ℕ → ℕ → List ℕ
  ovr_abort_key blob_id lo hi =
      ovr_row_prefix_text
      ++ (as_simple blob_id ++ (b'/' ∷ b'x' ∷ (hex_fixed 16 lo ++ (b'-' ∷ hex_fixed 16 hi))))

  unfoldable pub ovr_gc_key : U → List ℕ
  ovr_gc_key blob_id = ovr_gc_prefix ++ as_simple blob_id

unfoldable pub parse_ovr_row_block : List ℕ → Option ℕ
parse_ovr_row_block key = do
  rest ← strip_prefix ovr_row_prefix_text (trim_end 0 key)
  (_, block_hex) ← split_once b'/' rest
  if not (length block_hex == 8) then none else from_hex (2 ^ 32) block_hex

unfoldable pub abort_range : List ℕ → List ℕ → Option (ℕ × ℕ)
abort_range lo_hex hi_hex =
    if not (length lo_hex == 16) || not (length hi_hex == 16) then none else do
      lo ← from_hex (2 ^ 64) lo_hex
      hi ← from_hex (2 ^ 64) hi_hex
      if ltb 0 lo && leb lo hi then some (lo, hi) else none

unfoldable pub parse_ovr_abort_range : List ℕ → Option (ℕ × ℕ)
unfolding abort_range
parse_ovr_abort_range key = do
  rest ← strip_prefix ovr_row_prefix_text (trim_end 0 key)
  (_, encoded) ← split_once b'/' rest
  tail ← strip_prefix (b'x' ∷ []) encoded
  (lo_hex, hi_hex) ← split_once b'-' tail
  abort_range lo_hex hi_hex

unfoldable pub parse_ovr_gc_blob_id {ℓ} : {U : Type ℓ} → (List ℕ → Option U) → List ℕ → Option U
parse_ovr_gc_blob_id try_parse key = do
  text ← strip_prefix ovr_gc_prefix (trim_end 0 key)
  try_parse text
