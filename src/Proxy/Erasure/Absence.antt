-- ===== src/Proxy/Erasure/Absence.antt =====
-- A read after a write of an erasure-coded block: what is reported as written is never absent.
use fractalbits.Base.Counting.{IsDistinct, IsBelow, two_sides}
use fractalbits.Base.Results.{ok, Result-cases, err, Result}
use fractalbits.Base.{
  ◌||◌, ◌==◌, Bool-cases, zero, suc, ◌+◌, ◌<◌, refl, sym, ap, subst, ◌∙◌, inl, inr, Bool, true, not,
  [], ◌∷◌, ◌++◌, Option-cases, length, take, All, ℕ, ◌≤◌, ◌≡◌, ◌≢◌, Option, some, List, arith,
}
use native.Mathlib.Nat.{mod-lt}
use fractalbits.Proxy.Volumes.{DataVgError}
use fractalbits.Proxy.Cohorts.{NodeBlob, node_index, shard_index, decodable_cohort}
use fractalbits.Proxy.Cohorts.Placement.{node_index-shard_index}
use fractalbits.Proxy.Replicated.{Nodes, Reply, PutBlobOutcome}
use fractalbits.Proxy.Replicated.Writes.{Acks, is_ack, positions_of}
use fractalbits.Proxy.Replicated.Deletes.{all_positions, All-positions_of, IsDistinct-positions_of}
use fractalbits.Proxy.Replicated.Quorums.{is_absent}
use fractalbits.Proxy.Replicated.ReadAfterWrite.{length-positions_of}
use fractalbits.Proxy.Erasure.{Bytes, put_blob_ec}
use fractalbits.Proxy.Erasure.Arrivals.{
  Shards, ReadState, is_absent_block, await_data, await_parity,
}
use fractalbits.Proxy.Erasure.Reads.{
  are_places, panicked, repair_with, Code, Arrivals, join_bodies, reconstruct, checked_body,
  inline_repair, undecodable, failed_get, decode_shards, join_cohort, read_parity, ask_shards,
  initial, get_blob_ec,
}
use fractalbits.Proxy.Erasure.Loops.{heard, await_data-heard, await_parity-IsTaken, note_all-absent}
use fractalbits.Proxy.Erasure.OneWrite.{positions_of-append}
use fractalbits.Proxy.Erasure.Writes.{put_blob_ec-IsQuorum}

abbrev absent : Option (Result DataVgError Bytes)
absent = some (err DataVgError.block_not_found)

checked_body-present :
    (xxh3 : Bytes → ℕ) (tag len : ℕ) (padded : Bytes)
    → checked_body xxh3 tag len padded ≢ err DataVgError.block_not_found
unfolding checked_body
checked_body-present xxh3 tag len padded h = ground (arith, h)

reconstruct-present :
    (c : Code) (tag : ℕ) (shards : Shards)
    → reconstruct c.rs_decode c.data_shards c.parity_shards tag shards
      ≢ err DataVgError.block_not_found
unfolding reconstruct
reconstruct-present c tag shards h = ground (arith, h)

inline_repair-present :
    (c : Code) (ro : ℕ) (clock : ℕ → ℕ) (repaired : List (Reply (Unit {0}))) (tag : ℕ)
    (padded body : Bytes) (s : ReadState)
    → (inline_repair c ro clock repaired tag padded body s).result ≢ absent
unfolding inline_repair repair_with failed_get panicked
inline_repair-present c ro clock repaired tag padded body s h = ground (arith, h)

decode_shards-absent :
    (c : Code) (ro : ℕ) (clock : ℕ → ℕ) (repaired : List (Reply (Unit {0}))) (len : ℕ)
    (s : ReadState)
    → (decode_shards c ro clock repaired len s).result ≡ absent
    → c.parity_shards ≤ s.shards_not_found
unfolding decode_shards failed_get undecodable is_absent_block
decode_shards-absent c ro clock repaired len s h =
    elim (Option-cases (decodable_cohort s.shard_results c.data_shards)) [
      | inl e ↦ ground (arith, e, h)
      | inr (t, e) ↦
          elim (Result-cases
            (reconstruct c.rs_decode c.data_shards c.parity_shards t s.shard_results)) [
              | inl (x, f) ↦
                  absurd (reconstruct-present c t s.shard_results (ground (arith, e, f, h)))
              | inr (padded, f) ↦ elim (Result-cases (checked_body c.xxh3 t len padded)) [
                | inl (x, g) ↦
                    absurd (checked_body-present c.xxh3 t len padded (ground (arith, e, f, g, h)))
                | inr (b, g) ↦ absurd (
                    inline_repair-present c ro clock repaired t padded b s
                      (ground (arith, e, f, g, h)))
              ]
            ]
    ]

join_cohort-present :
    (c : Code) (len tag : ℕ) (s : ReadState) → (join_cohort c len tag s).result ≢ absent
unfolding join_cohort
join_cohort-present c len tag s h =
    elim (Option-cases (join_bodies (take c.data_shards s.shard_results))) [
      | inl e ↦ ground (arith, e, h)
      | inr (padded, e) ↦ checked_body-present c.xxh3 tag len padded (ground (arith, e, h))
    ]

read_parity-absent :
    (c : Code) (ro : ℕ) (a : Arrivals) (len : ℕ) (s : ReadState)
    → (read_parity c ro a len s).result ≡ absent
    → c.parity_shards ≤ s.shards_not_found + length (positions_of is_absent a.replies)
unfolding read_parity failed_get panicked
read_parity-absent c ro a len s h =
    let k = c.data_shards in
    let m = c.parity_shards in
    let asked = record s { nodes = ask_shards a.parity_clock ro (k + m) k m s.nodes } in
    let (before, after, (split, state, _, left)) = await_parity-IsTaken ro k m a.replies asked in
    let total : length (positions_of is_absent a.replies)
        ≡ length (positions_of is_absent before) + length (positions_of is_absent after) =
      ap (λ l. length (positions_of is_absent l)) split
      ∙ positions_of-append is_absent before after in
    let seen = note_all-absent ro (k + m) before asked in
    let last = (await_parity ro k m a.replies asked).1 in
    let enough : m ≤ last.shards_not_found =
      elim (Result-cases (await_parity ro k m a.replies asked).0) [
        | inl (e, f) ↦ (left e f).1
        | inr (_, f) ↦ elim (Bool-cases (are_places ro (k + m) (length s.nodes) k m)) [
          | inr g ↦ absurd (ground (arith, g, h))
          | inl g ↦
              decode_shards-absent c ro a.repair_clock a.repaired len last (ground (arith, f, g, h))
        ]
      ] in
    omega (arith, subst (λ t. m ≤ t.shards_not_found) state enough, seen, total)

get_blob_ec-absent :
    (c : Code) (ro len : ℕ) (a : Arrivals) (nodes : Nodes)
    → (get_blob_ec c ro len a nodes).result ≡ absent
    → c.parity_shards
      ≤ length (positions_of is_absent (heard c.data_shards 0 a.events ++ a.replies))
unfolding get_blob_ec failed_get panicked
get_blob_ec-absent c ro zero a nodes h = absurd (ground (arith, h))
get_blob_ec-absent c ro (suc len) a nodes h =
    let k = c.data_shards in
    let m = c.parity_shards in
    let start = initial (k + m) (ask_shards a.clock ro (k + m) 0 k nodes) in
    let bad = (k == 0) || not (are_places ro (k + m) (length nodes) 0 k) in
    let taken = heard k 0 a.events in
    let (state, left) = await_data-heard ro k m 0 a.events start in
    let seen = note_all-absent ro (k + m) taken start in
    let zero_ : start.shards_not_found ≡ 0 = unfold initial in refl in
    let total = positions_of-append is_absent taken a.replies in
    let s = (await_data ro k m 0 a.events start).1 in
    let enough : m ≤ s.shards_not_found + length (positions_of is_absent a.replies) =
      elim (Result-cases (await_data ro k m 0 a.events start).0) [
        | inl (e, f) ↦ omega (arith, (left e f).1)
        | inr (_, f) ↦ elim (Bool-cases bad) [
          | inl w ↦ absurd (ground (arith, w, h))
          | inr w ↦ elim (Option-cases (decodable_cohort s.shard_results k)) [
            | inl g ↦ read_parity-absent c ro a (suc len) s (ground (arith, f, g, h, w))
            | inr (t, g) ↦ absurd (join_cohort-present c (suc len) t s (ground (arith, f, g, h, w)))
          ]
        ]
      ] in
    omega (
      arith,
      subst (λ t. m ≤ t.shards_not_found + length (positions_of is_absent a.replies)) state enough,
      seen,
      zero_,
      total,
    )

-- The nodes of some shards.
abbrev nodes_of : ℕ → ℕ → List ℕ → List ℕ
nodes_of ro total [] = []
nodes_of ro total (i ∷ is) = node_index i ro total ∷ nodes_of ro total is

module _ (ro total : ℕ) where
  IsDistinct-nodes_of :
      (is : List ℕ)
      → ro < total
      → IsDistinct is
      → IsBelow total is
      → IsDistinct (nodes_of ro total is)
  IsDistinct-nodes_of [] r d b = tt
  IsDistinct-nodes_of (i ∷ is) r d b = (apart is d.0 b.1, IsDistinct-nodes_of is r d.1 b.1)
    where
      apart :
          (js : List ℕ)
          → All (λ j. j ≢ i) js
          → IsBelow total js
          → All (λ q. q ≢ node_index i ro total) (nodes_of ro total js)
      apart [] ne lt = tt
      apart (j ∷ js) ne lt = (
        λ e. ne.0 (
            sym (node_index-shard_index j ro total lt.0 r).1
            ∙ ap (λ q. shard_index q ro total) e
            ∙ (node_index-shard_index i ro total b.0 r).1),
        apart js ne.1 lt.1,
      )

  IsBelow-nodes_of : (is : List ℕ) → 0 < total → IsBelow total (nodes_of ro total is)
  unfolding node_index
  IsBelow-nodes_of [] pos = tt
  IsBelow-nodes_of (i ∷ is) pos = (mod-lt (i + ro) pos, IsBelow-nodes_of is pos)

  All-nodes_of :
      (test : ℕ → Bool) (is : List ℕ)
      → All (λ i. not (test (node_index i ro total)) ≡ true) is
      → All (λ q. not (test q) ≡ true) (nodes_of ro total is)
  All-nodes_of test [] h = tt
  All-nodes_of test (i ∷ is) h = (h.0, All-nodes_of test is h.1)

  length-nodes_of : (is : List ℕ) → length (nodes_of ro total is) ≡ length is
  length-nodes_of [] = refl
  length-nodes_of (i ∷ is) = omega (arith, length-nodes_of is)

-- Each node answers at most once, the write's under its position and the read's under its shard's
-- index; a node that acknowledged the write holds its shard, and one that does not hold it is the
-- only one that reports it absent.
abbrev pub AreHonest : ℕ → ℕ → (ℕ → Bool) → Acks → List (Reply NodeBlob) → Type 0
AreHonest ro total holds writes reads =
    IsDistinct (all_positions writes)
    × IsBelow total (all_positions writes)
    × IsDistinct (all_positions reads)
    × IsBelow total (all_positions reads)
    × All (λ p. holds p ≡ true) (positions_of is_ack writes)
    × All (λ i. not (holds (node_index i ro total)) ≡ true) (positions_of is_absent reads)

-- After a write of a body that is not empty was reported as done, no read of it reports the block
-- as absent, whichever shards arrive, in whatever order and after whatever delay; provided that
-- each node answers at most once, that nodes which acknowledged hold their shard, and that no node
-- which holds its shard answers that it is absent.
pub ec_read_after_write :
    (c : Code) (ro len : ℕ) (body : Bytes) (holds : ℕ → Bool) (clock : ℕ → ℕ) (writes : Acks)
    (nodes nodes_later : Nodes) (o : PutBlobOutcome) (a : Arrivals)
    → ro < c.data_shards + c.parity_shards
    → 0 < length body
    → AreHonest ro
        (c.data_shards + c.parity_shards)
        holds
        writes
        (heard c.data_shards 0 a.events ++ a.replies)
    → (put_blob_ec c.rs_encode c.xxh3 ro c.data_shards c.parity_shards body clock writes
        nodes).result
      ≡ ok o
    → (get_blob_ec c ro len a nodes_later).result ≢ some (err DataVgError.block_not_found)
ec_read_after_write c ro len body holds clock writes nodes nodes_later o a r pos
      (dw, bw, dr, br, hw, hr) put gone =
    let total = c.data_shards + c.parity_shards in
    let reads = heard c.data_shards 0 a.events ++ a.replies in
    let absents = positions_of is_absent reads in
    let ((before, after, split, n, _, _), _) =
      put_blob_ec-IsQuorum c.rs_encode c.xxh3 ro c.data_shards c.parity_shards body clock writes
        nodes o pos put in
    let acks : c.data_shards + 1 ≤ length (positions_of is_ack writes) =
      rw split (omega (arith, length-positions_of before after, n)) in
    let below = All-positions_of is_absent (λ p. p < total) reads br in
    omega (
      arith,
      acks,
      get_blob_ec-absent c ro len a nodes_later gone,
      length-nodes_of ro total absents,
      two_sides holds total (positions_of is_ack writes) (nodes_of ro total absents)
          (IsDistinct-positions_of is_ack writes dw)
          (IsDistinct-nodes_of ro total absents r (IsDistinct-positions_of is_absent reads dr)
            below)
          (All-positions_of is_ack (λ p. p < total) writes bw)
          (IsBelow-nodes_of ro total absents (omega (arith, r))) hw
          (All-nodes_of ro total holds absents hr),
    )
