-- ===== src/Proxy/Replicated/Examples.antt =====
-- Each theorem about reads, writes and deletions at a concrete input: three nodes, a write quorum of two.
use fractalbits.Proxy.Replicated.{get_blob_fallback}
use fractalbits.Proxy.Replicated.ReadAfterWrite.{read_after_write_total}
use fractalbits.Proxy.Replicated.Quorums.{IsAnswer}
use fractalbits.Base.{inl, inr, ℕ, ◌≡◌, ◌≢◌, refl, Bool, true, List, [], ◌∷◌, arith, ltb, length}
use fractalbits.Base.Results.{Result, ok, err}
use fractalbits.Base.Counting.{mem}
use fractalbits.Proxy.Breaker
use fractalbits.Proxy.Breaker.{default_config, is_available}
use fractalbits.Proxy.Volumes.{RpcError, DataVgError, BssNode}
use fractalbits.Proxy.Replicated.{
  Nodes, Reply, PutBlobOutcome, available_nodes, put_blob_replicated, get_blob_replicated,
  delete_blob_replicated,
}
use fractalbits.Proxy.Replicated.Writes.{Acks, positions_of, IsQuorum, put_blob_replicated-IsQuorum}
use fractalbits.Proxy.Replicated.Deletes.{is_gone, delete_blob_replicated_exact}
use fractalbits.Proxy.Replicated.ReadAfterWrite.{read_after_write}

abbrev node : BssNode
node = record { address = ([], 9000); circuit_breaker = Breaker.new default_config }

abbrev nodes : Nodes
nodes = node ∷ node ∷ node ∷ []

abbrev clock : ℕ → ℕ
clock _ = 10

abbrev reply : {A : Type 0} → ℕ → Result RpcError A → Reply A
reply i a = record { position = i; now = 20; answer = a }

-- Node 1 stores, node 0 fails, node 2 held the block.
abbrev writes : Acks
writes =
    reply 1 (ok tt) ∷ reply 0 (err (RpcError.other 1)) ∷ reply 2 (err RpcError.version_skipped) ∷ []

abbrev holds : ℕ → Bool
holds i = ltb 0 i

-- Node 0 misses the block, node 2 has the body.
abbrev reads : List (Reply (List ℕ))
reads = reply 0 (err RpcError.not_found) ∷ reply 2 (ok (7 ∷ [])) ∷ []

abbrev deletes : Acks
deletes = reply 2 (ok tt) ∷ reply 0 (err RpcError.not_found) ∷ reply 1 (ok tt) ∷ []

written : (put_blob_replicated 2 clock writes nodes).0 ≡ ok PutBlobOutcome.already_present
unfolding put_blob_replicated is_available Breaker.new
written = refl

deleted : (delete_blob_replicated clock deletes nodes).0 ≡ ok tt
unfolding delete_blob_replicated is_available Breaker.new
deleted = refl

asked : length (available_nodes clock 0 nodes).0 ≡ 3
unfolding available_nodes is_available Breaker.new
asked = refl

put_blob_replicated-IsQuorum_example :
    IsQuorum 2 PutBlobOutcome.stored writes PutBlobOutcome.already_present
put_blob_replicated-IsQuorum_example =
    put_blob_replicated-IsQuorum 2 clock writes nodes PutBlobOutcome.already_present (omega arith)
      written

delete_blob_replicated_exact_example : mem (positions_of is_gone deletes) 0 ≡ true
delete_blob_replicated_exact_example =
    delete_blob_replicated_exact clock deletes nodes (omega arith) (omega arith) deleted 0
      (omega arith)

read_after_write_example :
    (get_blob_replicated 2 clock (reply 0 (err RpcError.not_found)) clock reads nodes).0
    ≢ err DataVgError.block_not_found
read_after_write_example =
    read_after_write 2 holds clock writes nodes PutBlobOutcome.already_present clock clock
      (reply 0 (err RpcError.not_found)) reads nodes (omega arith) (omega arith) refl (omega arith)
      (omega arith) ((refl, (refl, tt)), (refl, tt)) written

read_after_write_total_example :
    (c : List ℕ) × ((get_blob_fallback 2 clock reads nodes).0 ≡ ok c) × IsAnswer c reads
read_after_write_total_example =
    read_after_write_total 2 holds clock writes nodes PutBlobOutcome.already_present clock reads
      nodes (7 ∷ []) (omega arith) (omega arith) refl (omega arith) (omega arith)
      ((refl, (refl, tt)), (refl, tt)) written (omega (arith, asked)) (inr (inl refl))
