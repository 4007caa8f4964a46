-- ===== src/Ovr/Ranges.antt =====
-- ovr_map.rs, the rejected generations of a row map: a normalized list of inclusive ranges.
pub mod Laws
use fractalbits.Base.{
  ℕ, zero, suc, ◌+◌, ◌-◌, ◌^◌, ◌≤◌, ◌<◌, min, max, Bool, true, false, ◌&&◌, ◌||◌, List, [], ◌∷◌,
  ◌++◌, ltb, leb, ◌==◌, if◌then◌else◌, get_or, take, drop,
}

-- An inclusive range of generations, (lo, hi).
abbrev pub Range : Type 0
Range = ℕ × ℕ

abbrev pub u64_max : ℕ
u64_max = 2 ^ 64 - 1

-- `u64::saturating_add`.
unfoldable pub saturating_add : ℕ → ℕ → ℕ
saturating_add a b = min (a + b) u64_max

-- `slice::partition_point` on a slice that the test partitions: how many elements pass it.
unfoldable pub partition_point {ℓ} : {A : Type ℓ} → (A → Bool) → List A → ℕ
partition_point p [] = 0
partition_point p (x ∷ xs) = if p x then suc (partition_point p xs) else 0

-- The `while let` of `add_aborted_range`, over the ranges from index `end` on. The result is the
-- merged range, and the ranges that the loop did not reach.
unfoldable pub absorb : ℕ → ℕ → List Range → ℕ × ℕ × List Range
unfolding saturating_add
absorb merged_lo merged_hi [] = (merged_lo, merged_hi, [])
absorb merged_lo merged_hi ((existing_lo, existing_hi) ∷ rest) =
    let more = absorb (min merged_lo existing_lo) (max merged_hi existing_hi) rest in
    if ltb (saturating_add merged_hi 1) existing_lo
    then (merged_lo, merged_hi, (existing_lo, existing_hi) ∷ rest)
    else more

unfoldable pub splice_range : ℕ → ℕ → List Range → List Range
unfolding absorb partition_point saturating_add
splice_range lo hi aborted =
    let start = partition_point (λ (r : Range). ltb (saturating_add r.1 1) lo) aborted in
    let (merged_lo, merged_hi, rest) = absorb lo hi (drop start aborted) in
    take start aborted ++ ((merged_lo, merged_hi) ∷ rest)

unfoldable pub add_aborted_range : ℕ → ℕ → List Range → List Range
unfolding splice_range
add_aborted_range lo hi aborted =
    if (lo == 0) || ltb hi lo then aborted else splice_range lo hi aborted

unfoldable pub is_aborted : List Range → ℕ → Bool
unfolding partition_point
is_aborted aborted version =
    let index = partition_point (λ (r : Range). leb r.0 version) aborted in
    ltb 0 index && leb version (get_or aborted (index - 1) (0, 0)).1

-- Ranges from `b` on, in order, and neither overlapping nor adjacent.
abbrev pub IsNormalFrom : ℕ → List Range → Type 0
IsNormalFrom b [] = Unit {0}
IsNormalFrom b ((lo, hi) ∷ rest) =
    (b ≤ lo) × (lo ≤ hi) × (hi ≤ u64_max) × IsNormalFrom (hi + 2) rest

abbrev pub IsNormal : List Range → Type 0
IsNormal = IsNormalFrom 1

-- The generations that a list of ranges names, by a plain scan.
abbrev pub within : ℕ → ℕ → ℕ → Bool
within lo hi v = leb lo v && leb v hi

abbrev pub covered : List Range → ℕ → Bool
covered [] v = false
covered ((lo, hi) ∷ rest) v = within lo hi v || covered rest v
