-- ===== src/Ovr/Ranges/Laws.antt =====
-- The normalized list stays normalized, and names exactly the generations that were rejected.
use fractalbits.Base.{
  ℕ, ◌+◌, ◌≤◌, ◌<◌, ◌≡◌, refl, ◌∙◌, min, max, ◌⊎◌, inl, inr, true, false, ◌||◌, List, [], ◌∷◌,
  arith, ltb, Bool-cases, All,
}
use fractalbits.Ovr.Ranges.{
  Range, u64_max, saturating_add, partition_point, absorb, splice_range, add_aborted_range,
  is_aborted, IsNormalFrom, IsNormal, within, covered,
}

IsNormalFrom-mono : (a b : ℕ) (rs : List Range) → a ≤ b → IsNormalFrom b rs → IsNormalFrom a rs
IsNormalFrom-mono a b [] h n = tt
IsNormalFrom-mono a b ((lo, hi) ∷ rest) h n = (omega arith, n.1, n.2, n.3)

covered_below : (b : ℕ) (rs : List Range) (v : ℕ) → IsNormalFrom b rs → v < b → covered rs v ≡ false
covered_below b [] v n h = refl
covered_below b ((lo, hi) ∷ rest) v n h =
    ground (arith, covered_below (hi + 2) rest v n.3 (omega arith))

-- The binary search over a normalized list finds what a plain scan finds.
is_aborted-covered :
    (b : ℕ) (rs : List Range) (v : ℕ) → IsNormalFrom b rs → is_aborted rs v ≡ covered rs v
unfolding is_aborted partition_point
is_aborted-covered b [] v n = refl
is_aborted-covered b ((lo, hi) ∷ []) v n = ground arith
is_aborted-covered b ((lo, hi) ∷ (lo', hi') ∷ rest) v n = ground (
  arith,
  is_aborted-covered (hi + 2) ((lo', hi') ∷ rest) v n.3,
  covered_below (hi + 2) ((lo', hi') ∷ rest) v n.3,
)

-- The head of the list reaches up to `lo`, or ends just below it.
abbrev Touches : ℕ → List Range → Type 0
Touches lo [] = Unit {0}
Touches lo ((e, f) ∷ rest) = lo ≤ f + 1

Touches-next :
    (lo e f b : ℕ) (rest : List Range) → IsNormalFrom b rest → lo ≤ b → Touches (min lo e) rest
Touches-next lo e f b [] n h = tt
Touches-next lo e f b ((lo', hi') ∷ rest) n h = omega arith

absorb-IsNormal :
    (b lo hi : ℕ) (rs : List Range)
    → IsNormalFrom b rs
    → Touches lo rs
    → b ≤ lo
    → lo ≤ hi
    → hi ≤ u64_max
    → let m = absorb lo hi rs in IsNormalFrom b ((m.0, m.1) ∷ m.2)
unfolding absorb saturating_add
absorb-IsNormal b lo hi [] n t p q r = (p, q, r, tt)
absorb-IsNormal b lo hi ((e, f) ∷ rest) n t p q r = ground (
  arith,
  absorb-IsNormal b (min lo e) (max hi f) rest (IsNormalFrom-mono b (f + 2) rest (omega arith) n.3)
      (Touches-next lo e f (f + 2) rest n.3 (omega arith)) (omega arith) (omega arith)
      (omega arith),
)

absorb-covered :
    (b lo hi : ℕ) (rs : List Range) (v : ℕ)
    → IsNormalFrom b rs
    → Touches lo rs
    → lo ≤ hi
    → hi ≤ u64_max
    → let m = absorb lo hi rs in covered ((m.0, m.1) ∷ m.2) v ≡ (within lo hi v || covered rs v)
unfolding absorb saturating_add
absorb-covered b lo hi [] v n t q r = refl
absorb-covered b lo hi ((e, f) ∷ rest) v n t q r = ground (
  arith,
  absorb-covered (f + 2) (min lo e) (max hi f) rest v n.3
      (Touches-next lo e f (f + 2) rest n.3 (omega arith)) (omega arith) (omega arith),
)

splice_range_far :
    (lo hi e f : ℕ) (rest : List Range)
    → ltb (saturating_add f 1) lo ≡ true
    → splice_range lo hi ((e, f) ∷ rest) ≡ (e, f) ∷ splice_range lo hi rest
unfolding splice_range partition_point
splice_range_far lo hi e f rest h = rw h

splice_range_near :
    (lo hi e f : ℕ) (rest : List Range)
    → ltb (saturating_add f 1) lo ≡ false
    → let m = absorb lo hi ((e, f) ∷ rest) in splice_range lo hi ((e, f) ∷ rest) ≡ (m.0, m.1) ∷ m.2
unfolding splice_range partition_point
splice_range_near lo hi e f rest h = rw h

Touches-near :
    (lo e f : ℕ) (rest : List Range)
    → ltb (saturating_add f 1) lo ≡ false
    → f ≤ u64_max
    → lo ≤ u64_max
    → Touches lo ((e, f) ∷ rest)
unfolding saturating_add
Touches-near lo e f rest h p q = ground arith

below_far : (lo f : ℕ) → ltb (saturating_add f 1) lo ≡ true → lo ≤ u64_max → f + 2 ≤ lo
unfolding saturating_add
below_far lo f h q = ground arith

splice_range-IsNormal :
    (b lo hi : ℕ) (rs : List Range)
    → IsNormalFrom b rs
    → b ≤ lo
    → lo ≤ hi
    → hi ≤ u64_max
    → IsNormalFrom b (splice_range lo hi rs)
splice_range-IsNormal b lo hi [] n p q r =
    unfold splice_range partition_point absorb in (p, q, r, tt)
splice_range-IsNormal b lo hi ((e, f) ∷ rest) n p q r =
    elim (Bool-cases (ltb (saturating_add f 1) lo)) [
      | inl far ↦ rw (splice_range_far lo hi e f rest far) (
        n.0,
        n.1,
        n.2,
        splice_range-IsNormal (f + 2) lo hi rest n.3 (below_far lo f far (omega arith)) q r,
      )
      | inr near ↦ rw (splice_range_near lo hi e f rest near) (
          absorb-IsNormal b lo hi ((e, f) ∷ rest) n
            (Touches-near lo e f rest near n.2 (omega arith)) p q r)
    ]

splice_range-covered :
    (b lo hi : ℕ) (rs : List Range) (v : ℕ)
    → IsNormalFrom b rs
    → lo ≤ hi
    → hi ≤ u64_max
    → covered (splice_range lo hi rs) v ≡ (within lo hi v || covered rs v)
splice_range-covered b lo hi [] v n q r = unfold splice_range partition_point absorb in refl
splice_range-covered b lo hi ((e, f) ∷ rest) v n q r =
    elim (Bool-cases (ltb (saturating_add f 1) lo)) [
      | inl far ↦
          rw (splice_range_far lo hi e f rest far)
            (ground (arith, splice_range-covered (f + 2) lo hi rest v n.3 q r))
      | inr near ↦ rw (splice_range_near lo hi e f rest near) (
          absorb-covered b lo hi ((e, f) ∷ rest) v n
            (Touches-near lo e f rest near n.2 (omega arith)) q r)
    ]

-- `add_aborted_range` with a 64-bit upper end keeps a normalized list normalized: the ranges in
-- order, apart and never adjacent.
pub add_aborted_range-IsNormal :
    (lo hi : ℕ) (rs : List Range)
    → IsNormal rs
    → hi ≤ u64_max
    → IsNormal (add_aborted_range lo hi rs)
unfolding add_aborted_range
add_aborted_range-IsNormal lo hi rs n h = ground (arith, splice_range-IsNormal 1 lo hi rs n)

-- After a range that is not malformed is added to a normalized list, exactly the generations in
-- the range and those rejected before are rejected.
pub is_aborted-add_aborted_range :
    (lo hi : ℕ) (rs : List Range) (v : ℕ)
    → IsNormal rs
    → 0 < lo
    → lo ≤ hi
    → hi ≤ u64_max
    → is_aborted (add_aborted_range lo hi rs) v ≡ (within lo hi v || is_aborted rs v)
is_aborted-add_aborted_range lo hi rs v n p q r =
    is_aborted-covered 1 (add_aborted_range lo hi rs) v (add_aborted_range-IsNormal lo hi rs n r)
    ∙ rw (is_aborted-covered 1 rs v n)
        (unfold add_aborted_range in ground (arith, splice_range-covered 1 lo hi rs v n q r))

-- A malformed range, which starts at 0 or ends before it starts, rejects nothing.
pub add_aborted_range_malformed :
    (lo hi : ℕ) (rs : List Range) → (lo ≡ 0) ⊎ (hi < lo) → add_aborted_range lo hi rs ≡ rs
unfolding add_aborted_range
add_aborted_range_malformed lo hi rs h = ground arith

-- A whole history of range records, folded in one by one as `load_row_map` does.
unfoldable pub add_ranges : List Range → List Range → List Range
add_ranges [] rs = rs
add_ranges ((lo, hi) ∷ more) rs = add_ranges more (add_aborted_range lo hi rs)

abbrev pub IsRecord : Range → Type 0
IsRecord (lo, hi) = (0 < lo) × (lo ≤ hi) × (hi ≤ u64_max)

pub add_ranges-IsNormal :
    (more rs : List Range) → All IsRecord more → IsNormal rs → IsNormal (add_ranges more rs)
unfolding add_ranges
add_ranges-IsNormal [] rs h n = n
add_ranges-IsNormal ((lo, hi) ∷ more) rs h n =
    add_ranges-IsNormal more _ h.1 (add_aborted_range-IsNormal lo hi rs n h.0.2)

-- Whatever the order in which the records are listed, a generation is rejected exactly if one of
-- them holds it.
is_aborted-add_ranges :
    (more rs : List Range) (v : ℕ)
    → All IsRecord more
    → IsNormal rs
    → is_aborted (add_ranges more rs) v ≡ (covered more v || is_aborted rs v)
unfolding add_ranges
is_aborted-add_ranges [] rs v h n = refl
is_aborted-add_ranges ((lo, hi) ∷ more) rs v h n = ground (
  arith,
  is_aborted-add_ranges more (add_aborted_range lo hi rs) v h.1
      (add_aborted_range-IsNormal lo hi rs n h.0.2),
  is_aborted-add_aborted_range lo hi rs v n h.0.0 h.0.1 h.0.2,
)

-- For any list of range records, in any order, overlapping or not, each starting above 0 and
-- ending at a 64-bit number not below its start: the normalized list built from them, searched by
-- bisection, rejects exactly the generations that one of the records holds.
pub is_aborted_lem :
    (more : List Range) (v : ℕ)
    → All IsRecord more
    → is_aborted (add_ranges more []) v ≡ covered more v
is_aborted_lem more v h = ground (arith, is_aborted-add_ranges more [] v h tt, none_yet)
  where
    none_yet : is_aborted [] v ≡ false
    none_yet = is_aborted-covered 1 [] v tt
