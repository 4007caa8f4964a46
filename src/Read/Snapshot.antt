-- ===== src/Read/Snapshot.antt =====
-- The snapshot that a GET loads is the one that was stored, and what reading a block may answer.
use fractalbits.Base.Bytes.{IsU32}
use fractalbits.Base.{
  ℕ, ◌≤◌, ◌≡◌, refl, ap, ◌∙◌, Bool, Option, none, some, List, [], ◌∷◌, ◌++◌, arith, ◌==◌,
  if◌then◌else◌, length, All, length-take, length-replicate,
}
use mathlib.Core.List.{append-nil}
use fractalbits.Base.Results.{Result, ok, err, ◌>>=◌}
use fractalbits.Ovr.Row.{OvrRow, IsValid, encode}
use fractalbits.Ovr.Row.Codec.{decode-encode}
use fractalbits.Ovr.Ranges.{Range, covered}
use fractalbits.Ovr.Ranges.Laws.{IsRecord, add_ranges, is_aborted_lem}
use fractalbits.Ovr.Keys.{ovr_row_key, ovr_abort_key}
use fractalbits.Ovr.Keys.RoundTrip.{
  IsIdText, parse_ovr_row_block-ovr_row_key, parse_ovr_abort_range-ovr_abort_key,
  parse_ovr_row_block-ovr_abort_key,
}
use fractalbits.Ovr.Map.{
  OvrRowMap, Rows, insert_row, get_row, insert, new, get, add_aborted_range, is_aborted,
  BlockFetchPlan, block_fetch_plan,
}
use fractalbits.Ovr.Map.Lookup.{get_row-insert_row}
use fractalbits.Read.{
  S3Error, Bytes, Entry, ovr_abort_value, load_entry, load_page, Fetched, read_block, read_fetched,
  zeros,
}

-- The rows that a list of writes leaves, the last write of a block standing.
abbrev insert_all : Rows → Rows → Rows
insert_all [] m = m
insert_all ((b, r) ∷ rest) m = insert_all rest (insert_row b r m)

-- The last row written for a block.
abbrev pub last_row : ℕ → Rows → Option OvrRow → Option OvrRow
last_row block [] found = found
last_row block ((b, r) ∷ rest) found = last_row block rest (if block == b then some r else found)

get_row-insert_all :
    (block : ℕ) (rows m : Rows)
    → get_row block (insert_all rows m) ≡ last_row block rows (get_row block m)
get_row-insert_all block [] m = refl
get_row-insert_all block ((b, r) ∷ rest) m =
    get_row-insert_all block rest (insert_row b r m)
    ∙ ap (last_row block rest) (get_row-insert_row b block r m)

abbrev pub AreRows : Rows → Type 0
AreRows [] = Unit {0}
AreRows ((b, r) ∷ rest) = IsU32 b × IsValid r × AreRows rest

module _ {U : Type 0} (as_simple : U → List ℕ) (blob_id : U)
    (id : IsIdText (as_simple blob_id)) where
  -- What the listing of a blob holds: its rows, and behind them its abort records.
  abbrev pub row_entries : Rows → List Entry
  row_entries [] = []
  row_entries ((b, r) ∷ rest) = (ovr_row_key as_simple blob_id b, encode r) ∷ row_entries rest

  abbrev pub abort_entries : List Range → List Entry
  abort_entries [] = []
  abort_entries ((lo, hi) ∷ rest) =
      (ovr_abort_key as_simple blob_id lo hi, ovr_abort_value) ∷ abort_entries rest

  row_entry :
      (m : OvrRowMap) (b : ℕ) (r : OvrRow)
      → IsU32 b
      → IsValid r
      → load_entry m (ovr_row_key as_simple blob_id b, encode r) ≡ ok (insert m b r)
  unfolding load_entry
  row_entry m b r h v =
      let key = parse_ovr_row_block-ovr_row_key as_simple blob_id id b 0 h in
      let plain = rw append-nil at key in ground (arith, plain, decode-encode r v)

  abort_entry :
      (m : OvrRowMap) (lo hi : ℕ)
      → IsRecord (lo, hi)
      → load_entry m (ovr_abort_key as_simple blob_id lo hi, ovr_abort_value)
        ≡ ok (add_aborted_range m lo hi)
  unfolding load_entry
  abort_entry m lo hi h =
      let other =
        rw append-nil at (parse_ovr_row_block-ovr_abort_key as_simple blob_id id lo hi 0) in
      let key =
        rw append-nil at (
          parse_ovr_abort_range-ovr_abort_key as_simple blob_id id lo hi 0 h.0 h.1 (omega arith)) in
      ground (arith, other, key)

  load_rows :
      (m : OvrRowMap) (rows : Rows) (more : List Entry)
      → AreRows rows
      → load_page m (row_entries rows ++ more)
        ≡ load_page (record m { rows = insert_all rows m.rows }) more
  unfolding load_page insert
  load_rows m [] more h = refl
  load_rows m ((b, r) ∷ rest) more h =
      rw (row_entry m b r h.0 h.1) (load_rows (insert m b r) rest more h.2)

  load_aborts :
      (m : OvrRowMap) (aborts : List Range)
      → All IsRecord aborts
      → load_page m (abort_entries aborts) ≡ ok (record m { aborted = add_ranges aborts m.aborted })
  unfolding load_page add_aborted_range add_ranges
  load_aborts m [] h = refl
  load_aborts m ((lo, hi) ∷ rest) h =
      rw (abort_entry m lo hi h.0) (load_aborts (add_aborted_range m lo hi) rest h.1)

  -- For a blob id whose text holds neither a slash nor a NUL: the listing of the blob's stored
  -- rows, each valid and at a 32-bit block, and of its abort records, none malformed, loads
  -- without an error, into a snapshot of the epoch asked for that holds the last row of each
  -- block and rejects exactly the generations of the records.
  pub load_page-listing :
      (epoch : ℕ) (rows : Rows) (aborts : List Range)
      → AreRows rows
      → All IsRecord aborts
      → (m : OvrRowMap) × (load_page (new epoch) (row_entries rows ++ abort_entries aborts) ≡ ok m)
        × (m.epoch ≡ epoch)
        × ((block : ℕ) → get m block ≡ last_row block rows none)
        × ((version : ℕ) → is_aborted m version ≡ covered aborts version)
  unfolding new get is_aborted get_row
  load_page-listing epoch rows aborts h k = (
    record { epoch = epoch; rows = insert_all rows []; aborted = add_ranges aborts [] },
    load_rows (new epoch) rows (abort_entries aborts) h
        ∙ load_aborts (record { epoch = epoch; rows = insert_all rows []; aborted = [] }) aborts k,
    refl,
    λ block. get_row-insert_all block rows [],
    λ version. is_aborted_lem aborts version k,
  )

-- A block that was read has at most the requested length.
pub read_block-length :
    (get_blob : ℕ → ℕ → ℕ → Fetched) (base_miss : Result S3Error (Unit {0}))
    (rows : Option OvrRowMap) (ceiling block_size block content_len : ℕ) (b : Bytes)
    → read_block get_blob base_miss rows ceiling block_size block content_len ≡ ok b
    → length b ≤ content_len
unfolding read_block
read_block-length get_blob base_miss rows ceiling block_size block content_len b h =
    go (block_fetch_plan rows block ceiling block_size content_len) refl
  where
    zeros_len : length (zeros content_len) ≡ content_len
    zeros_len = length-replicate content_len 0

    fetched :
        (f : Fetched) (loss : Bool) (miss : Result S3Error (Unit {0}))
        → read_fetched miss content_len loss f ≡ ok b
        → length b ≤ content_len
    fetched (Fetched.body c) loss miss e =
        unfold read_fetched in ground (arith, length-take content_len c)
    fetched Fetched.block_not_found loss (ok u) e = unfold read_fetched in ground (arith, zeros_len)
    fetched Fetched.block_not_found loss (err x) e = unfold read_fetched in ground arith
    fetched (Fetched.failed x) loss miss e = unfold read_fetched in ground arith

    go :
        (p : BlockFetchPlan)
        → block_fetch_plan rows block ceiling block_size content_len ≡ p
        → length b ≤ content_len
    go BlockFetchPlan.zeros e = ground (arith, zeros_len)
    go BlockFetchPlan.stale e = ground arith
    go (BlockFetchPlan.fetch v len loss) e =
        fetched (get_blob block v len) loss base_miss (ground arith)

-- A committed generation that is missing on every replica is an error, whatever the namespace says;
-- a missing base version is zeros exactly if the snapshot was found unchanged.
pub read_block_missing :
    (get_blob : ℕ → ℕ → ℕ → Fetched) (base_miss : Result S3Error (Unit {0}))
    (rows : Option OvrRowMap) (ceiling block_size block content_len version read_len : ℕ)
    (loss : Bool)
    → block_fetch_plan rows block ceiling block_size content_len
      ≡ BlockFetchPlan.fetch version read_len loss
    → get_blob block version read_len ≡ Fetched.block_not_found
    → read_block get_blob base_miss rows ceiling block_size block content_len
      ≡ (if loss then err S3Error.internal_error else base_miss >>= λ _. ok (zeros content_len))
unfolding read_block read_fetched
read_block_missing get_blob base_miss rows ceiling block_size block content_len version read_len
      loss p q =
    ground (arith, p, q)
