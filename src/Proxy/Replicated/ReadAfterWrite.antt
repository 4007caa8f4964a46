-- ===== src/Proxy/Replicated/ReadAfterWrite.antt =====
-- A read after a write: the quorum for absence meets every write quorum.
use fractalbits.Base.{
  ℕ, ◌+◌, ◌-◌, ◌≤◌, ◌<◌, ◌≡◌, ◌≢◌, Bool, true, not, List, [], ◌∷◌, ◌++◌, arith, length, All,
}
use fractalbits.Base.Results.{ok, err}
use fractalbits.Base.Counting.{IsDistinct, IsBelow, two_sides}
use fractalbits.Proxy.Volumes.{DataVgError}
use fractalbits.Proxy.Replicated.{
  Nodes, Reply, PutBlobOutcome, available_nodes, get_blob_fallback, get_blob_replicated,
  put_blob_replicated,
}
use fractalbits.Proxy.Replicated.Writes.{Acks, is_ack, positions_of, put_blob_replicated-IsQuorum}
use fractalbits.Proxy.Replicated.Deletes.{all_positions, All-positions_of, IsDistinct-positions_of}
use fractalbits.Proxy.Replicated.Quorums.{
  is_absent, IsAnswer, collect_reads_total, get_blob_replicated-absent,
}

pub length-positions_of :
    (before after : Acks)
    → length (positions_of is_ack before) ≤ length (positions_of is_ack (before ++ after))
length-positions_of [] after = omega arith
length-positions_of (r ∷ before) after = ground (arith, length-positions_of before after)

-- A write that was reported as done has the acknowledgements of a quorum among its answers.
put_blob_replicated-acks :
    (w : ℕ) (clock : ℕ → ℕ) (writes : Acks) (nodes : Nodes) (o : PutBlobOutcome)
    → 0 < w
    → (put_blob_replicated w clock writes nodes).0 ≡ ok o
    → w ≤ length (positions_of is_ack writes)
put_blob_replicated-acks w clock writes nodes o pos h =
    let (before, after, split, n, _, _) =
      put_blob_replicated-IsQuorum w clock writes nodes o pos h in
    rw split (omega (arith, length-positions_of before after, n))

-- Each node answers at most once, under its position.
abbrev pub AreReplies : {A : Type 0} → ℕ → List (Reply A) → Type 0
AreReplies n replies = IsDistinct (all_positions replies) × IsBelow n (all_positions replies)

-- Who acknowledged the write holds the block, and who holds it does not report it absent.
abbrev pub AreHonest : {A : Type 0} → (ℕ → Bool) → Acks → List (Reply A) → Type 0
AreHonest holds writes replies =
    All (λ p. holds p ≡ true) (positions_of is_ack writes)
    × All (λ p. not (holds p) ≡ true) (positions_of is_absent replies)

few_absent :
    {A : Type 0} (n w : ℕ) (holds : ℕ → Bool) (writes : Acks) (replies : List (Reply A))
    → AreReplies n writes
    → AreReplies n replies
    → AreHonest holds writes replies
    → w ≤ length (positions_of is_ack writes)
    → w + length (positions_of is_absent replies) ≤ n
few_absent n w holds writes replies (dw, bw) (dr, br) (hw, hr) h = omega (
  arith,
  two_sides holds n (positions_of is_ack writes) (positions_of is_absent replies)
      (IsDistinct-positions_of is_ack writes dw) (IsDistinct-positions_of is_absent replies dr)
      (All-positions_of is_ack (λ p. p < n) writes bw)
      (All-positions_of is_absent (λ p. p < n) replies br) hw hr,
)

-- After a write to a quorum of the nodes, between one and all of them, was reported as done, no
-- read reports the block as absent, whichever nodes answer, in whatever order, and in whatever
-- state the breakers are by then; provided that each node answers at most once, that nodes which
-- acknowledged hold the block, and that no node which holds it answers that it is absent.
pub read_after_write :
    {A : Type 0} (w : ℕ) (holds : ℕ → Bool) (clock : ℕ → ℕ) (writes : Acks) (nodes : Nodes)
    (o : PutBlobOutcome) (fast_clock later_clock : ℕ → ℕ) (fast : Reply A)
    (replies : List (Reply A)) (nodes_later : Nodes)
    → 0 < w
    → w ≤ length nodes
    → length nodes_later ≡ length nodes
    → AreReplies (length nodes) writes
    → AreReplies (length nodes) replies
    → AreHonest holds writes replies
    → (put_blob_replicated w clock writes nodes).0 ≡ ok o
    → (get_blob_replicated w fast_clock fast later_clock replies nodes_later).0
      ≢ err DataVgError.block_not_found
read_after_write w holds clock writes nodes o fast_clock later_clock fast replies nodes_later pos le
      same dw dr honest put absent =
    let acks = put_blob_replicated-acks w clock writes nodes o pos put in
    let few = few_absent (length nodes) w holds writes replies dw dr honest acks in
    let many =
      get_blob_replicated-absent w fast_clock later_clock fast replies nodes_later absent in
    omega (arith, few, many, same)

-- Under the conditions of a read after a write, if some node may be polled and one of the polled
-- nodes answers with a body, the second phase of the read returns one of the bodies that were
-- answered.
pub read_after_write_total :
    {A : Type 0} (w : ℕ) (holds : ℕ → Bool) (clock : ℕ → ℕ) (writes : Acks) (nodes : Nodes)
    (o : PutBlobOutcome) (later_clock : ℕ → ℕ) (replies : List (Reply A)) (nodes_later : Nodes)
    (b : A)
    → 0 < w
    → w ≤ length nodes
    → length nodes_later ≡ length nodes
    → AreReplies (length nodes) writes
    → AreReplies (length nodes) replies
    → AreHonest holds writes replies
    → (put_blob_replicated w clock writes nodes).0 ≡ ok o
    → 0 < length (available_nodes later_clock 0 nodes_later).0
    → IsAnswer b replies
    → (c : A) × ((get_blob_fallback w later_clock replies nodes_later).0 ≡ ok c)
      × IsAnswer c replies
unfolding get_blob_fallback
read_after_write_total w holds clock writes nodes o later_clock replies nodes_later b pos le same dw
      dr honest put asked answer =
    let acks = put_blob_replicated-acks w clock writes nodes o pos put in
    let few = few_absent (length nodes) w holds writes replies dw dr honest acks in
    let (c, e, source) =
      collect_reads_total (length nodes_later - w + 1) 0 replies
        (available_nodes later_clock 0 nodes_later).1 b answer (omega (arith, few, same)) in
    (c, ground (arith, asked, e), source)
