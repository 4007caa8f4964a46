-- ===== src/Ovr/Map.antt =====
-- ovr_map.rs, the row snapshot of one blob, and the fetch plan of a block under it. The `BTreeMap`
-- of rows is a list in block order.
pub mod Lookup
pub mod Plans
mod Examples
use Prim.Native.Nat.{max, ℕ}
use fractalbits.Base.{
  max, ◌&&◌, ◌==◌, leb, ltb, false, if◌then◌else◌, none, Bool, [], true, some, ◌∷◌, List, ℕ, Option,
}
use fractalbits.Ovr.Row.{OvrRow, RowState}
use fractalbits.Ovr.Resolve.{BlockResolution, resolve_row_filtered, merge_row_for_write_filtered}
use fractalbits.Ovr.Ranges.{Range}
use fractalbits.Ovr.Ranges

abbrev pub Rows : Type 0
Rows = List (ℕ × OvrRow)

pub record OvrRowMap : Type 0 where
  pub epoch : ℕ
  pub rows : Rows
  pub aborted : List Range

-- `BTreeMap::insert`.
unfoldable pub insert_row : ℕ → OvrRow → Rows → Rows
insert_row block row [] = (block, row) ∷ []
insert_row block row ((b, r) ∷ rest) =
    if ltb block b
    then (block, row) ∷ (b, r) ∷ rest
    else if block == b
    then (block, row) ∷ rest
    else (b, r) ∷ insert_row block row rest

-- `BTreeMap::get`.
unfoldable pub get_row : ℕ → Rows → Option OvrRow
get_row block [] = none
get_row block ((b, r) ∷ rest) = if block == b then some r else get_row block rest

unfoldable pub new : ℕ → OvrRowMap
new epoch = record { epoch = epoch; rows = []; aborted = [] }

unfoldable pub insert : OvrRowMap → ℕ → OvrRow → OvrRowMap
insert m block row = record m { rows = insert_row block row m.rows }

unfoldable pub get : OvrRowMap → ℕ → Option OvrRow
get m block = get_row block m.rows

unfoldable pub add_aborted_range : OvrRowMap → ℕ → ℕ → OvrRowMap
add_aborted_range m lo hi = record m { aborted = Ranges.add_aborted_range lo hi m.aborted }

unfoldable pub is_aborted : OvrRowMap → ℕ → Bool
is_aborted m version = Ranges.is_aborted m.aborted version

unfoldable pub resolve : OvrRowMap → ℕ → ℕ → BlockResolution
unfolding get is_aborted
resolve m block ceiling = resolve_row_filtered (get m block) ceiling (is_aborted m)

unfoldable pub range_rows : ℕ → ℕ → Rows → Rows
range_rows start end_excl [] = []
range_rows start end_excl ((b, r) ∷ rest) =
    let more = range_rows start end_excl rest in
    if leb start b && ltb b end_excl then (b, r) ∷ more else more

unfoldable pub range : OvrRowMap → ℕ → ℕ → Rows
unfolding range_rows
range m start end_excl = range_rows start end_excl m.rows

pub data BlockFetchPlan : Type 0 where
  zeros : BlockFetchPlan
  stale : BlockFetchPlan
  -- The version, the bytes to request, and whether a total miss is data loss.
  fetch : ℕ → ℕ → Bool → BlockFetchPlan

unfoldable pub resolve_in : Option OvrRowMap → ℕ → ℕ → BlockResolution
unfolding resolve
resolve_in none block ceiling = BlockResolution.base
resolve_in (some rows) block ceiling = resolve rows block ceiling

unfoldable pub fetch_plan : ℕ → Bool → ℕ → ℕ → BlockFetchPlan
fetch_plan version miss_is_loss block_size content_len =
    BlockFetchPlan.fetch version (if ltb 1 version then max block_size content_len else content_len)
      miss_is_loss

unfoldable pub block_fetch_plan : Option OvrRowMap → ℕ → ℕ → ℕ → ℕ → BlockFetchPlan
unfolding resolve_in fetch_plan
block_fetch_plan rows block ceiling block_size content_len = elim (resolve_in rows block ceiling) [
  | BlockResolution.hole ↦ BlockFetchPlan.zeros
  | BlockResolution.stale ↦ BlockFetchPlan.stale
  | BlockResolution.exact version ↦ fetch_plan version true block_size content_len
  | BlockResolution.base ↦ fetch_plan 1 false block_size content_len
]

unfoldable pub aborted_in : Option OvrRowMap → ℕ → Bool
unfolding is_aborted
aborted_in none candidate = false
aborted_in (some m) candidate = is_aborted m candidate

unfoldable pub merge_row_for_write_in_map :
    Option OvrRow → RowState → ℕ → ℕ → Option OvrRowMap → Option OvrRow
unfolding aborted_in merge_row_for_write_filtered
merge_row_for_write_in_map old new_state version base_ceiling base_map =
    merge_row_for_write_filtered old new_state version base_ceiling (aborted_in base_map)
