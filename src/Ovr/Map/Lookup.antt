-- ===== src/Ovr/Map/Lookup.antt =====
-- The rows behave as a finite map in block order.
use fractalbits.Ovr.Row.{OvrRow}
use fractalbits.Base.{
  ◌+◌, refl, ◌&&◌, none, some, [], ◌∷◌, arith, ltb, leb, ◌==◌, if◌then◌else◌, ◌≤◌, ◌≡◌, ℕ,
}
use fractalbits.Ovr.Map.{OvrRow, ℕ, Rows, get_row, insert_row, range_rows}

abbrev pub IsSortedFrom : ℕ → Rows → Type 0
IsSortedFrom b [] = Unit {0}
IsSortedFrom b ((c, r) ∷ rest) = (b ≤ c) × IsSortedFrom (c + 1) rest

-- After an insertion a lookup finds the new row at its block, and what it found before at every
-- other block.
pub get_row-insert_row :
    (block other : ℕ) (row : OvrRow) (rows : Rows)
    → get_row other (insert_row block row rows)
      ≡ (if other == block then some row else get_row other rows)
unfolding get_row insert_row
get_row-insert_row block other row [] = refl
get_row-insert_row block other row ((b, r) ∷ rest) =
    ground (arith, get_row-insert_row block other row rest)

-- An insertion keeps the rows in strict block order.
pub insert_row-IsSorted :
    (a block : ℕ) (row : OvrRow) (rows : Rows)
    → IsSortedFrom a rows
    → a ≤ block
    → IsSortedFrom a (insert_row block row rows)
unfolding insert_row
insert_row-IsSorted a block row [] s h = (h, tt)
insert_row-IsSorted a block row ((b, r) ∷ rest) s h =
    ground (arith, insert_row-IsSorted (b + 1) block row rest s.1)

-- A listing of a half-open range of blocks holds the row of a block exactly if the map does and
-- the block is in the range.
pub get_row-range_rows :
    (start end_excl block : ℕ) (rows : Rows)
    → get_row block (range_rows start end_excl rows)
      ≡ (if leb start block && ltb block end_excl then get_row block rows else none)
unfolding get_row range_rows
get_row-range_rows start end_excl block [] = ground arith
get_row-range_rows start end_excl block ((b, r) ∷ rest) =
    ground (arith, get_row-range_rows start end_excl block rest)

IsSortedFrom-mono : (a b : ℕ) (rows : Rows) → a ≤ b → IsSortedFrom b rows → IsSortedFrom a rows
IsSortedFrom-mono a b [] h s = tt
IsSortedFrom-mono a b ((c, r) ∷ rest) h s = (omega arith, s.1)

-- A listing of a range is in strict block order.
pub range_rows-IsSorted :
    (start end_excl a : ℕ) (rows : Rows)
    → IsSortedFrom a rows
    → IsSortedFrom a (range_rows start end_excl rows)
unfolding range_rows
range_rows-IsSorted start end_excl a [] s = tt
range_rows-IsSorted start end_excl a ((b, r) ∷ rest) s = ground (
  arith,
  range_rows-IsSorted start end_excl (b + 1) rest s.1,
  IsSortedFrom-mono a (b + 1) (range_rows start end_excl rest),
)
