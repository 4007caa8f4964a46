-- ===== src/Ovr/Resolve.antt =====
-- ovr_map.rs, the reader's decision for one block, and the row that a flush writes over another.
pub mod Visibility
use fractalbits.Base.{ℕ, Bool, false, not, ◌&&◌, Option, none, some, leb, if◌then◌else◌}
use fractalbits.Ovr.Row.{OvrRow, RowState, PrevSlot}

pub data BlockResolution : Type 0 where
  hole : BlockResolution
  exact : ℕ → BlockResolution
  base : BlockResolution
  stale : BlockResolution

unfoldable pub resolve_slot : RowState → ℕ → BlockResolution
resolve_slot RowState.hole version = BlockResolution.hole
resolve_slot RowState.written version = BlockResolution.exact version

unfoldable pub resolve_prev : PrevSlot → ℕ → (ℕ → Bool) → BlockResolution
resolve_prev PrevSlot.base ceiling is_aborted = BlockResolution.base
resolve_prev (PrevSlot.slot state version) ceiling is_aborted =
    if leb version ceiling && not (is_aborted version)
    then resolve_slot state version
    else BlockResolution.stale

unfoldable pub resolve_row_filtered : Option OvrRow → ℕ → (ℕ → Bool) → BlockResolution
unfolding resolve_prev resolve_slot
resolve_row_filtered none ceiling is_aborted = BlockResolution.base
resolve_row_filtered (some row) ceiling is_aborted =
    if leb row.cur_version ceiling && not (is_aborted row.cur_version)
    then resolve_slot row.cur_state row.cur_version
    else resolve_prev row.prev ceiling is_aborted

unfoldable pub resolve_row : Option OvrRow → ℕ → BlockResolution
unfolding resolve_row_filtered
resolve_row row ceiling = resolve_row_filtered row ceiling (λ _. false)

-- `prev` of the row to be written, `none` when the write is skipped.
unfoldable pub merged_prev : Option OvrRow → ℕ → ℕ → (ℕ → Bool) → Option PrevSlot
merged_prev none version base_ceiling is_aborted = some PrevSlot.base
merged_prev (some old) version base_ceiling is_aborted =
    if leb version old.cur_version
    then none
    else if leb old.cur_version base_ceiling && not (is_aborted old.cur_version)
    then some (PrevSlot.slot old.cur_state old.cur_version)
    else some old.prev

unfoldable pub merge_row_for_write_filtered :
    Option OvrRow → RowState → ℕ → ℕ → (ℕ → Bool) → Option OvrRow
unfolding merged_prev
merge_row_for_write_filtered old new_state version base_ceiling is_aborted =
    elim (merged_prev old version base_ceiling is_aborted) [
      | none ↦ none
      | some prev ↦ some (record { cur_state = new_state; cur_version = version; prev = prev })
    ]

unfoldable pub merge_row_for_write : Option OvrRow → RowState → ℕ → ℕ → Option OvrRow
unfolding merge_row_for_write_filtered
merge_row_for_write old new_state version base_ceiling =
    merge_row_for_write_filtered old new_state version base_ceiling (λ _. false)
