-- ===== src/Proxy/Replicated.antt =====
-- data_vg_proxy.rs, the operations on a replicated volume. The answers of the nodes come in the
-- order in which the futures complete, each with the position of its node in the volume and the time
-- at which it is noted. `clock` is the time at which the breaker of a position is asked.
pub mod Writes
pub mod Deletes
pub mod Quorums
pub mod ReadAfterWrite
mod Examples
use fractalbits.Base.{
  ℕ, zero, suc, ◌+◌, ◌-◌, ◌≤◌, ◌<◌, Bool, true, false, Option, none, some, List, [], ◌∷◌, ltb, leb,
  ◌==◌, if◌then◌else◌, length,
}
use fractalbits.Base.Results.{Result, ok, err}
use fractalbits.Proxy.Breaker.{CircuitBreaker, is_available, record_success, record_failure}
use fractalbits.Proxy.Volumes.{RpcError, DataVgError, BssNode}

abbrev pub Nodes : Type 0
Nodes = List BssNode

-- What a node answers, and when that is noted.
pub record Reply (A : Type 0) : Type 0 where
  pub position : ℕ
  pub now : ℕ
  pub answer : Result RpcError A

pub data PutBlobOutcome : Type 0 where
  stored already_present : PutBlobOutcome

-- The operation on the breaker of the node at a position.
unfoldable pub update_node : ℕ → (CircuitBreaker → CircuitBreaker) → Nodes → Nodes
update_node i f [] = []
update_node zero f (n ∷ ns) = record n { circuit_breaker = f n.circuit_breaker } ∷ ns
update_node (suc i) f (n ∷ ns) = n ∷ update_node i f ns

unfoldable pub node_success : ℕ → Nodes → Nodes
unfolding update_node
node_success i = update_node i record_success

unfoldable pub node_failure : ℕ → ℕ → Nodes → Nodes
unfolding update_node
node_failure i now = update_node i (record_failure now)

-- The positions of the nodes that may be asked, from position `i` on; asking may half-open breakers.
unfoldable pub available_nodes : (ℕ → ℕ) → ℕ → Nodes → List ℕ × Nodes
available_nodes clock i [] = ([], [])
available_nodes clock i (n ∷ ns) =
    let (yes_, breaker) = is_available (clock i) n.circuit_breaker in
    let (positions, rest) = available_nodes clock (i + 1) ns in
    (if yes_ then i ∷ positions else positions, record n { circuit_breaker = breaker } ∷ rest)

-- The background task that takes the rest of the answers after the quorum.
unfoldable pub background_writes : List (Reply (Unit {0})) → Nodes → Nodes
unfolding node_success node_failure
background_writes [] nodes = nodes
background_writes (r ∷ rest) nodes = background_writes rest (elim r.answer [
  | ok _ ↦ node_success r.position nodes
  | err RpcError.version_skipped ↦ node_success r.position nodes
  | err RpcError.mismatch ↦ node_failure r.position r.now nodes
  | err RpcError.not_found ↦ node_failure r.position r.now nodes
  | err (RpcError.other _) ↦ node_failure r.position r.now nodes
])

-- The loop over the answers. A mismatch ends it at once, and the requests still running are dropped.
unfoldable pub collect_writes :
    ℕ
    → ℕ
    → PutBlobOutcome
    → List (Reply (Unit {0}))
    → Nodes
    → Result DataVgError PutBlobOutcome × Nodes
unfolding node_success node_failure background_writes
collect_writes write_quorum successful outcome [] nodes = (err DataVgError.quorum_failure, nodes)
collect_writes write_quorum successful outcome (r ∷ rest) nodes =
    let acked = node_success r.position nodes in
    let failed = node_failure r.position r.now nodes in
    let after_ok = collect_writes write_quorum (successful + 1) outcome rest acked in
    let after_skip =
      collect_writes write_quorum (successful + 1) PutBlobOutcome.already_present rest acked in
    let after_error = collect_writes write_quorum successful outcome rest failed in
    let next_error =
      if leb write_quorum successful
      then (ok outcome, background_writes rest failed)
      else after_error in
    elim r.answer [
      | ok _ ↦
          if leb write_quorum (successful + 1)
          then (ok outcome, background_writes rest acked)
          else after_ok
      | err RpcError.version_skipped ↦
          if leb write_quorum (successful + 1)
          then (ok PutBlobOutcome.already_present, background_writes rest acked)
          else after_skip
      | err RpcError.mismatch ↦ (err (DataVgError.bss_rpc RpcError.mismatch), failed)
      | err RpcError.not_found ↦ next_error
      | err (RpcError.other _) ↦ next_error
    ]

unfoldable pub put_blob_replicated :
    ℕ → (ℕ → ℕ) → List (Reply (Unit {0})) → Nodes → Result DataVgError PutBlobOutcome × Nodes
unfolding available_nodes collect_writes
put_blob_replicated write_quorum clock replies nodes =
    let (positions, asked) = available_nodes clock 0 nodes in
    if ltb (length positions) write_quorum
    then (err DataVgError.quorum_failure, asked)
    else collect_writes write_quorum 0 PutBlobOutcome.stored replies asked

-- The loop over the answers of the fallback. The first body ends it.
unfoldable pub collect_reads :
    {A : Type 0} → ℕ → ℕ → List (Reply A) → Nodes → Result DataVgError A × Nodes
unfolding node_success node_failure
collect_reads absence_quorum not_found_count [] nodes = (
  if leb absence_quorum not_found_count
      then err DataVgError.block_not_found
      else err DataVgError.quorum_failure,
  nodes,
)
collect_reads absence_quorum not_found_count (r ∷ rest) nodes =
    let answered = node_success r.position nodes in
    let failed = node_failure r.position r.now nodes in
    let after_absent = collect_reads absence_quorum (not_found_count + 1) rest answered in
    let after_error = collect_reads absence_quorum not_found_count rest failed in
    elim r.answer [
      | ok body ↦ (ok body, answered)
      | err RpcError.not_found ↦
          if leb absence_quorum (not_found_count + 1)
          then (err DataVgError.block_not_found, answered)
          else after_absent
      | err RpcError.version_skipped ↦ after_error
      | err RpcError.mismatch ↦ after_error
      | err (RpcError.other _) ↦ after_error
    ]

-- The second phase of a read: every node that may be asked.
unfoldable pub get_blob_fallback :
    {A : Type 0} → ℕ → (ℕ → ℕ) → List (Reply A) → Nodes → Result DataVgError A × Nodes
unfolding available_nodes collect_reads
get_blob_fallback write_quorum clock replies nodes =
    let (positions, asked) = available_nodes clock 0 nodes in
    if length positions == 0
    then (err DataVgError.quorum_failure, asked)
    else collect_reads (length nodes - write_quorum + 1) 0 replies asked

-- `fast` is the answer of the node that the first phase picks, if it may ask any node.
unfoldable pub get_blob_replicated :
    {A : Type 0}
    → ℕ
    → (ℕ → ℕ)
    → Reply A
    → (ℕ → ℕ)
    → List (Reply A)
    → Nodes
    → Result DataVgError A × Nodes
unfolding available_nodes node_success node_failure get_blob_fallback
get_blob_replicated write_quorum clock fast later replies nodes =
    let (positions, asked) = available_nodes clock 0 nodes in
    if length positions == 0
    then get_blob_fallback write_quorum later replies asked
    else elim fast.answer [
      | ok body ↦ (ok body, node_success fast.position asked)
      | err RpcError.not_found ↦
          get_blob_fallback write_quorum later replies (node_success fast.position asked)
      | err RpcError.version_skipped ↦
          get_blob_fallback write_quorum later replies (node_failure fast.position fast.now asked)
      | err RpcError.mismatch ↦
          get_blob_fallback write_quorum later replies (node_failure fast.position fast.now asked)
      | err (RpcError.other _) ↦
          get_blob_fallback write_quorum later replies (node_failure fast.position fast.now asked)
    ]

-- The loop over the answers to a deletion: how many nodes do not hold the block any more.
unfoldable pub collect_deletes : ℕ → List (Reply (Unit {0})) → Nodes → ℕ × Nodes
unfolding node_success node_failure
collect_deletes successful [] nodes = (successful, nodes)
collect_deletes successful (r ∷ rest) nodes =
    let gone = collect_deletes (successful + 1) rest (node_success r.position nodes) in
    let failed = collect_deletes successful rest (node_failure r.position r.now nodes) in
    elim r.answer [
      | ok _ ↦ gone
      | err RpcError.not_found ↦ gone
      | err RpcError.version_skipped ↦ failed
      | err RpcError.mismatch ↦ failed
      | err (RpcError.other _) ↦ failed
    ]

unfoldable pub delete_blob_replicated :
    (ℕ → ℕ) → List (Reply (Unit {0})) → Nodes → Result DataVgError (Unit {0}) × Nodes
unfolding available_nodes collect_deletes
delete_blob_replicated clock replies nodes =
    let (positions, asked) = available_nodes clock 0 nodes in
    let (successful, after) = collect_deletes 0 replies asked in
    if ltb (length positions) (length nodes)
    then (err DataVgError.quorum_failure, asked)
    else if successful == length nodes
    then (ok tt, after)
    else (err DataVgError.quorum_failure, after)
