-- ===== src/Ovr/Row.antt =====
-- ovr_map.rs, the row itself: its states, its two slots and its 20-byte codec.
pub mod Codec
use fractalbits.Base.{
  ℕ, ◌+◌, ◌<◌, ◌≡◌, ◌≢◌, Bool, true, false, not, ◌&&◌, ◌||◌, Option, none, some, List, [], ◌∷◌,
  ◌++◌, leb, ◌==◌, if◌then◌else◌, length, get_or, slice, ◌>>=◌,
}
use fractalbits.Base.Bytes.{IsU64, le_bytes, from_le}

abbrev pub ovr_row_len : ℕ
ovr_row_len = 20

abbrev pub ovr_codec_tag : ℕ
ovr_codec_tag = 1

abbrev pub state_written : ℕ
state_written = 1

abbrev pub state_hole : ℕ
state_hole = 2

abbrev pub prev_base : ℕ
prev_base = 0

pub data RowState : Type 0 where
  written hole : RowState

pub data PrevSlot : Type 0 where
  base : PrevSlot
  slot : RowState → ℕ → PrevSlot

pub record OvrRow : Type 0 where
  pub cur_state : RowState
  pub cur_version : ℕ
  pub prev : PrevSlot

unfoldable pub state_tag : RowState → ℕ
state_tag RowState.written = state_written
state_tag RowState.hole = state_hole

unfoldable pub tag_state : ℕ → Option RowState
tag_state tag =
    if tag == state_written
    then some RowState.written
    else if tag == state_hole
    then some RowState.hole
    else none

unfoldable pub prev_bytes : PrevSlot → ℕ × ℕ
prev_bytes PrevSlot.base = (prev_base, 0)
prev_bytes (PrevSlot.slot state version) = (state_tag state, version)

-- `out[3]`, the flags, stays 0.
unfoldable pub encode : OvrRow → List ℕ
unfolding prev_bytes state_tag
encode r =
    ovr_codec_tag
    ∷ state_tag r.cur_state
    ∷ (prev_bytes r.prev).0
    ∷ 0
    ∷ (le_bytes 8 r.cur_version ++ le_bytes 8 (prev_bytes r.prev).1)

unfoldable pub decode_prev : ℕ → ℕ → ℕ → Option PrevSlot
decode_prev tag prev_version cur_version =
    if tag == prev_base then if not (prev_version == 0) then none else some PrevSlot.base else do
      state ← tag_state tag
      if (prev_version == 0) || leb cur_version prev_version
          then none
          else some (PrevSlot.slot state prev_version)

unfoldable pub decode : List ℕ → Option OvrRow
unfolding decode_prev tag_state
decode buf =
    if not (length buf == ovr_row_len)
      || (not (get_or buf 0 0 == ovr_codec_tag) || not (get_or buf 3 0 == 0))
    then none
    else do
      cur_state ← tag_state (get_or buf 1 0)
      let cur_version = from_le (slice 4 12 buf)
      let prev_version = from_le (slice 12 20 buf)
      prev ← decode_prev (get_or buf 2 0) prev_version cur_version
      if cur_version == 0
          then none
          else some (record { cur_state = cur_state; cur_version = cur_version; prev = prev })

-- The documented field invariants of a row.
abbrev pub IsPrevBelow : PrevSlot → ℕ → Type 0
IsPrevBelow PrevSlot.base v = Unit {0}
IsPrevBelow (PrevSlot.slot s p) v = (0 < p) × (p < v)

pub record IsValid (r : OvrRow) : Type 0 where
  pub positive : 0 < r.cur_version
  pub is_word : IsU64 r.cur_version
  pub below : IsPrevBelow r.prev r.cur_version
