-- ===== src/Ovr/Resolve/Visibility.antt =====
-- The rows that a flush writes, and what a reader makes of them.
use fractalbits.Base.{ℕ, ◌≤◌, ◌<◌, ◌≡◌, refl, ◌↔◌, Bool, true, false, Option, none, some, arith}
use fractalbits.Base.Bytes.{IsU64}
use fractalbits.Ovr.Row.{OvrRow, RowState, PrevSlot, IsValid}
use fractalbits.Ovr.Resolve.{BlockResolution, resolve_row_filtered, merge_row_for_write_filtered}

-- A delayed row of an abandoned flush never shows: if the ceiling has moved on from the flush's
-- base, every generation that it crossed was rejected, and no decision at or below the base was
-- changed, a reader at the new ceiling resolves the block as a reader at the old ceiling did
-- before the row was written.
pub resolve-merge_abandoned :
    (old : Option OvrRow) (state : RowState) (version base_ceiling ceiling : ℕ)
    (aborted aborted' : ℕ → Bool) (new : OvrRow)
    → merge_row_for_write_filtered old state version base_ceiling aborted ≡ some new
    → base_ceiling < version
    → base_ceiling ≤ ceiling
    → ((v : ℕ) → v ≤ base_ceiling → aborted' v ≡ aborted v)
    → ((v : ℕ) → base_ceiling < v → v ≤ ceiling → aborted' v ≡ true)
    → resolve_row_filtered (some new) ceiling aborted'
      ≡ resolve_row_filtered old base_ceiling aborted
unfolding merge_row_for_write_filtered resolve_row_filtered
resolve-merge_abandoned none state version base_ceiling ceiling aborted aborted' new h lt le same
      out =
    ground (arith, out version)
resolve-merge_abandoned (some old) state version base_ceiling ceiling aborted aborted' new h lt le
      same out =
    go old.prev refl
  where
    go :
        (p : PrevSlot)
        → old.prev ≡ p
        → resolve_row_filtered (some new) ceiling aborted'
          ≡ resolve_row_filtered (some old) base_ceiling aborted
    go PrevSlot.base e = ground (arith, out version, same old.cur_version, out old.cur_version)
    go (PrevSlot.slot s p) e =
        ground (arith, out version, same old.cur_version, out old.cur_version, same p, out p)

-- A row that is written over nothing or over a valid row is valid, if its version is a positive
-- 64-bit number.
pub merge-IsValid :
    (old : Option OvrRow) (state : RowState) (version base_ceiling : ℕ) (aborted : ℕ → Bool)
    (new : OvrRow)
    → ((r : OvrRow) → old ≡ some r → IsValid r)
    → 0 < version
    → IsU64 version
    → merge_row_for_write_filtered old state version base_ceiling aborted ≡ some new
    → IsValid new
unfolding merge_row_for_write_filtered
merge-IsValid none state version base_ceiling aborted new v pos word h = ground arith
merge-IsValid (some old) state version base_ceiling aborted new v pos word h = go old.prev refl
  where
    go : (p : PrevSlot) → old.prev ≡ p → IsValid new
    go PrevSlot.base e = ground (arith, v old refl)
    go (PrevSlot.slot s p) e = ground (arith, v old refl)

-- A write is skipped exactly if the stored row is at that version or a newer one.
pub merge-none_iff :
    (old : OvrRow) (state : RowState) (version base_ceiling : ℕ) (aborted : ℕ → Bool)
    → (merge_row_for_write_filtered (some old) state version base_ceiling aborted ≡ none)
      ↔ (version ≤ old.cur_version)
unfolding merge_row_for_write_filtered
merge-none_iff old state version base_ceiling aborted = (λ h. ground arith, λ h. ground arith)

-- A reader is only ever sent to a generation at or below its ceiling that was not rejected.
pub resolve-eq-exact :
    (row : Option OvrRow) (ceiling : ℕ) (aborted : ℕ → Bool) (version : ℕ)
    → resolve_row_filtered row ceiling aborted ≡ BlockResolution.exact version
    → (version ≤ ceiling) × (aborted version ≡ false)
unfolding resolve_row_filtered
resolve-eq-exact none ceiling aborted version h = cc
resolve-eq-exact (some r) ceiling aborted version h = go r.cur_state r.prev refl refl
  where
    go :
        (s : RowState) (p : PrevSlot)
        → r.cur_state ≡ s
        → r.prev ≡ p
        → (version ≤ ceiling) × (aborted version ≡ false)
    go RowState.written PrevSlot.base e f = ground arith
    go RowState.hole PrevSlot.base e f = ground arith
    go RowState.written (PrevSlot.slot RowState.written p) e f = ground arith
    go RowState.written (PrevSlot.slot RowState.hole p) e f = ground arith
    go RowState.hole (PrevSlot.slot RowState.written p) e f = ground arith
    go RowState.hole (PrevSlot.slot RowState.hole p) e f = ground arith
