-- ===== src/Proxy/Erasure/Places.antt =====
-- The number of nodes and shards during a read, and the places of the shards among the nodes.
use fractalbits.Base.Counting.{count}
use fractalbits.Base.{
  ℕ, zero, suc, ◌+◌, ◌≤◌, ◌<◌, ◌≡◌, refl, ◌∙◌, true, List, [], ◌∷◌, arith, length,
}
use native.Mathlib.Nat.{mod-lt}
use fractalbits.Base.Results.{Result, ok, err}
use fractalbits.Proxy.Breaker.{record_success, record_failure}
use fractalbits.Proxy.Replicated.Quorums.{length-update_node}
use fractalbits.Proxy.Volumes.{RpcError}
use fractalbits.Proxy.Cohorts.{NodeBlob, node_index}
use fractalbits.Proxy.Replicated.{Nodes, Reply, node_success, node_failure}
use fractalbits.Proxy.Erasure.Arrivals.{Shards, ReadState, set_shard, note_shard}
use fractalbits.Proxy.Erasure.Reads.{may_ask, ask_shards, are_places}
use fractalbits.Proxy.Erasure.Loops.{note_all}

-- On a volume with a node for each shard all places are there.
pub are_places_lem :
    (ro total n i count : ℕ) → 0 < total → total ≤ n → are_places ro total n i count ≡ true
unfolding are_places node_index
are_places_lem ro total n i zero pos le = refl
are_places_lem ro total n i (suc count) pos le =
    ground (arith, mod-lt (i + ro) pos, le, are_places_lem ro total n (i + 1) count pos le)

length-may_ask : (now i : ℕ) (ns : Nodes) → length (may_ask now i ns).1 ≡ length ns
unfolding may_ask
length-may_ask now i [] = refl
length-may_ask now zero (n ∷ ns) = refl
length-may_ask now (suc i) (n ∷ ns) = omega (arith, length-may_ask now i ns)

pub length-ask_shards :
    (clock : ℕ → ℕ) (ro total i count : ℕ) (ns : Nodes)
    → length (ask_shards clock ro total i count ns) ≡ length ns
unfolding ask_shards
length-ask_shards clock ro total i zero ns = refl
length-ask_shards clock ro total i (suc count) ns =
    length-ask_shards clock ro total (i + 1) count (may_ask (clock i) (node_index i ro total) ns).1
    ∙ length-may_ask (clock i) (node_index i ro total) ns

length-set_shard :
    (i : ℕ) (b : NodeBlob) (shards : Shards) → length (set_shard i b shards) ≡ length shards
unfolding set_shard
length-set_shard i b [] = refl
length-set_shard zero b (s ∷ shards) = refl
length-set_shard (suc i) b (s ∷ shards) = omega (arith, length-set_shard i b shards)

-- The number of nodes and shards is the same.
abbrev pub SameLengths : ReadState → ReadState → Type 0
SameLengths s t =
    (length s.nodes ≡ length t.nodes) × (length s.shard_results ≡ length t.shard_results)

note_shard-SameLengths :
    (ro total : ℕ) (r : Reply NodeBlob) (s : ReadState) → SameLengths (note_shard ro total r s) s
unfolding note_shard node_success node_failure
note_shard-SameLengths ro total r s = go r.answer refl
  where
    i : ℕ
    i = node_index r.position ro total

    go : (a : Result RpcError NodeBlob) → r.answer ≡ a → SameLengths (note_shard ro total r s) s
    go (ok b) e =
        rw e (
          length-update_node i record_success s.nodes,
          length-set_shard r.position b s.shard_results,
        )
    go (err RpcError.not_found) e = rw e (length-update_node i record_success s.nodes, refl)
    go (err RpcError.version_skipped) e =
        rw e (length-update_node i (record_failure r.now) s.nodes, refl)
    go (err RpcError.mismatch) e = rw e (length-update_node i (record_failure r.now) s.nodes, refl)
    go (err (RpcError.other x)) e = rw e (length-update_node i (record_failure r.now) s.nodes, refl)

pub note_all-SameLengths :
    (ro total : ℕ) (replies : List (Reply NodeBlob)) (s : ReadState)
    → SameLengths (note_all ro total replies s) s
note_all-SameLengths ro total [] s = (refl, refl)
note_all-SameLengths ro total (r ∷ replies) s =
    let (n, m) = note_all-SameLengths ro total replies (note_shard ro total r s) in
    let (p, q) = note_shard-SameLengths ro total r s in (n ∙ p, m ∙ q)
