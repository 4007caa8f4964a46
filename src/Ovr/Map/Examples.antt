-- ===== src/Ovr/Map/Examples.antt =====
-- Each theorem about the row map and its fetch plans at a concrete input.
use fractalbits.Ovr.Resolve.{resolve_row_filtered}
use fractalbits.Base.{refl, true, some, [], ◌∷◌}
use fractalbits.Ovr.Row.{OvrRow, RowState, PrevSlot}
use fractalbits.Ovr.Ranges.{is_aborted}
use fractalbits.Ovr.Map.{resolve_row_filtered, Rows, OvrRowMap, get_row, block_fetch_plan}
use fractalbits.Ovr.Map.Plans.{PlanBounds, block_fetch_plan_bounds}

abbrev row_at : OvrRow
row_at = record { cur_state = RowState.written; cur_version = 5; prev = PrevSlot.base }

abbrev two_rows : Rows
two_rows = (3, row_at) ∷ (8, row_at) ∷ []

abbrev snapshot : OvrRowMap
snapshot = record { epoch = 5; rows = two_rows; aborted = (2, 4) ∷ [] }

block_fetch_plan_bounds_example : PlanBounds (some snapshot) 6 4096 100 5 4096 true
unfolding block_fetch_plan resolve_row_filtered get_row is_aborted
block_fetch_plan_bounds_example =
    block_fetch_plan_bounds (some snapshot) 8 6 4096 100 5 4096 true refl
