-- ===== src/Proxy/Erasure/Arrivals.antt =====
-- data_vg_proxy.rs, what a read of an erasure-coded block makes of the answers: the loop over the
-- data shards, and the one over those still running and the parity shards.
use fractalbits.Base.{
  ℕ, zero, suc, ◌+◌, Bool, not, ◌&&◌, Option, none, some, List, [], ◌∷◌, leb, ◌==◌, if◌then◌else◌,
  is_none,
}
use fractalbits.Base.Results.{Result, ok, err}
use fractalbits.Proxy.Volumes.{DataVgError, RpcError}
use fractalbits.Proxy.Cohorts.{NodeBlob, node_index, decodable_cohort}
use fractalbits.Proxy.Replicated.{Nodes, Reply, node_success, node_failure}

abbrev pub Shards : Type 0
Shards = List (Option NodeBlob)

-- What happens while the data shards are awaited: an answer, by the shard asked for, or the end of
-- the hedge delay.
pub data DataEvent : Type 0 where
  answered : Reply NodeBlob → DataEvent
  hedge : DataEvent

-- The variables of the read. `missing` are the shards reported absent, the last one first.
pub record ReadState : Type 0 where
  pub shard_results : Shards
  pub missing : List ℕ
  pub shards_not_found : ℕ
  pub nodes : Nodes

unfoldable pub set_shard : ℕ → NodeBlob → Shards → Shards
set_shard i b [] = []
set_shard zero b (s ∷ shards) = some b ∷ shards
set_shard (suc i) b (s ∷ shards) = s ∷ set_shard i b shards

-- How many shards have arrived.
unfoldable pub received : Shards → ℕ
received [] = 0
received (none ∷ shards) = received shards
received (some _ ∷ shards) = suc (received shards)

-- One answer, with the rotation `ro` and the number `total` of shards.
unfoldable pub note_shard : ℕ → ℕ → Reply NodeBlob → ReadState → ReadState
unfolding set_shard node_index node_success node_failure
note_shard ro total r s =
    let i = node_index r.position ro total in
    let failed = record s { nodes = node_failure i r.now s.nodes } in
    elim r.answer [
      | ok b ↦ record s {
        shard_results = set_shard r.position b s.shard_results;
        nodes = node_success i s.nodes;
      }
      | err RpcError.not_found ↦ record s {
        missing = r.position ∷ s.missing;
        shards_not_found = s.shards_not_found + 1;
        nodes = node_success i s.nodes;
      }
      | err RpcError.version_skipped ↦ failed
      | err RpcError.mismatch ↦ failed
      | err (RpcError.other _) ↦ failed
    ]

-- An absence quorum, and no shard at all.
unfoldable pub is_absent_block : ℕ → ℕ → ℕ → Bool
is_absent_block m received not_found = (received == 0) && leb m not_found

-- The first loop, with `n` shards received: it ends with all data shards, at the first failure, or
-- with the hedge delay.
unfoldable pub await_data :
    ℕ → ℕ → ℕ → ℕ → List DataEvent → ReadState → Result DataVgError (Unit {0}) × ReadState
unfolding note_shard is_absent_block
await_data ro k m n [] s = (ok tt, s)
await_data ro k m n (DataEvent.hedge ∷ events) s = (ok tt, s)
await_data ro k m n (DataEvent.answered r ∷ events) s =
    let s' = note_shard ro (k + m) r s in
    let more = await_data ro k m (n + 1) events s' in
    elim r.answer [
      | ok _ ↦ if n + 1 == k then (ok tt, s') else more
      | err RpcError.not_found ↦
          if is_absent_block m n s'.shards_not_found
          then (err DataVgError.block_not_found, s')
          else (ok tt, s')
      | err RpcError.version_skipped ↦ (ok tt, s')
      | err RpcError.mismatch ↦ (ok tt, s')
      | err (RpcError.other _) ↦ (ok tt, s')
    ]

-- The second loop: it ends with a cohort that can be decoded.
unfoldable pub await_parity :
    ℕ → ℕ → ℕ → List (Reply NodeBlob) → ReadState → Result DataVgError (Unit {0}) × ReadState
unfolding note_shard received is_absent_block decodable_cohort
await_parity ro k m [] s = (ok tt, s)
await_parity ro k m (r ∷ replies) s =
    let s' = note_shard ro (k + m) r s in
    let more = await_parity ro k m replies s' in
    if not (is_none (decodable_cohort s'.shard_results k))
    then (ok tt, s')
    else if is_absent_block m (received s'.shard_results) s'.shards_not_found
    then (err DataVgError.block_not_found, s')
    else more
