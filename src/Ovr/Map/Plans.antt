-- ===== src/Ovr/Map/Plans.antt =====
-- What the fetch plan guarantees to every reader.
use fractalbits.Base.{refl, none, some, arith, ◌<◌, false, ◌≤◌, true, ◌≡◌, Bool, ℕ, Option}
use fractalbits.Ovr.Resolve.{BlockResolution}
use fractalbits.Ovr.Resolve.Visibility.{resolve-eq-exact}
use fractalbits.Ovr.Map.{
  aborted_in, get, is_aborted, aborted_in, Option, OvrRowMap, BlockFetchPlan, block_fetch_plan,
  resolve_in,
}

abbrev pub PlanBounds : Option OvrRowMap → ℕ → ℕ → ℕ → ℕ → ℕ → Bool → Type 0
PlanBounds rows ceiling block_size content_len version read_len loss =
    (loss ≡ true → (version ≤ ceiling) × (aborted_in rows version ≡ false))
    × (loss ≡ false → (version ≡ 1) × (read_len ≡ content_len))
    × (content_len ≤ read_len)
    × (1 < version → block_size ≤ read_len)

resolve_in-eq-exact :
    (rows : Option OvrRowMap) (block ceiling version : ℕ)
    → resolve_in rows block ceiling ≡ BlockResolution.exact version
    → (version ≤ ceiling) × (aborted_in rows version ≡ false)
unfolding resolve_in aborted_in
resolve_in-eq-exact none block ceiling version h = cc
resolve_in-eq-exact (some m) block ceiling version h =
    resolve-eq-exact (get m block) ceiling (is_aborted m) version h

-- A plan that fetches and holds a total miss for data loss names a generation at or below the
-- reader's ceiling that was not rejected; any other fetch is of version 1 at the content's
-- length. At least the content's length is requested, and at least a whole block of a generation
-- above 1.
pub block_fetch_plan_bounds :
    (rows : Option OvrRowMap) (block ceiling block_size content_len version read_len : ℕ)
    (loss : Bool)
    → block_fetch_plan rows block ceiling block_size content_len
      ≡ BlockFetchPlan.fetch version read_len loss
    → PlanBounds rows ceiling block_size content_len version read_len loss
unfolding block_fetch_plan
block_fetch_plan_bounds rows block ceiling block_size content_len version read_len loss h =
    go (resolve_in rows block ceiling) refl
  where
    go :
        (r : BlockResolution)
        → resolve_in rows block ceiling ≡ r
        → PlanBounds rows ceiling block_size content_len version read_len loss
    go BlockResolution.hole e = ground arith
    go BlockResolution.stale e = ground arith
    go BlockResolution.base e = ground arith
    go (BlockResolution.exact v) e = ground (arith, resolve_in-eq-exact rows block ceiling v e)
