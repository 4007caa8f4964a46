-- ===== src/Proxy/Erasure.antt =====
-- data_vg_proxy.rs, writes and deletions on an erasure-coded volume of `k` data and `m` parity shards.
-- `rs_encode` is the Reed-Solomon encoder, `none` where it fails; `xxh3` and `crc32` are the hashes;
-- a blob id is its bytes. The volume has at least one data shard and a node for each shard, as the
-- check of the configuration demands: on other volumes the code panics, and the definitions of this
-- file do not say so.
pub mod Arrivals
pub mod Loops
pub mod Words
pub mod Reads
pub mod Encoding
pub mod Writes
pub mod Absence
pub mod Places
pub mod Panic
pub mod Decoding
pub mod OneWrite
pub mod RoundTrip
pub mod Unmixed
mod Examples
use fractalbits.Base.{
  ℕ, zero, suc, ◌+◌, ◌-◌, ◌*◌, ◌/◌, ◌%◌, max, Bool, true, false, Option, none, some, List, [], ◌∷◌,
  ◌++◌, ltb, ◌==◌, if◌then◌else◌, length, slice, replicate,
}
use fractalbits.Base.Results.{Result, ok, err}
use fractalbits.Base.Counting.{count, mem}
use fractalbits.Proxy.Volumes.{DataVgError}
use fractalbits.Proxy.Cohorts.{ec_padded_len, node_index}
use fractalbits.Proxy.Replicated.{
  Nodes, Reply, PutBlobOutcome, available_nodes, collect_writes, collect_deletes,
}

abbrev pub Bytes : Type 0
Bytes = List ℕ

unfoldable pub ec_rotation : (Bytes → ℕ) → Bytes → ℕ → ℕ
ec_rotation crc32 blob_id total_shards = crc32 blob_id % total_shards

unfoldable pub ec_cohort_tag : (Bytes → ℕ) → Bytes → ℕ
ec_cohort_tag xxh3 padded_body = max (xxh3 padded_body) 1

-- The body resized to its padded length.
unfoldable pub pad_body : ℕ → Bytes → Bytes
unfolding ec_padded_len
pad_body k body = body ++ replicate (ec_padded_len (length body) k - length body) 0

-- The shards from index `i` on, `count` of them.
unfoldable pub split_shards : ℕ → ℕ → ℕ → Bytes → List Bytes
split_shards shard_size i zero padded = []
split_shards shard_size i (suc count) padded =
    slice (i * shard_size) ((i + 1) * shard_size) padded
    ∷ split_shards shard_size (i + 1) count padded

-- The data shards and the parity shards of a padded body.
unfoldable pub encode_shards :
    (ℕ → ℕ → List Bytes → Option (List Bytes)) → ℕ → ℕ → Bytes → Option (List Bytes)
unfolding split_shards
encode_shards rs_encode k m padded =
    let shards = split_shards (length padded / k) 0 k padded in
    elim (rs_encode k m shards) [ none ↦ none | some parity ↦ some (shards ++ parity) ]

-- A shard as it is sent to a node.
pub record ShardWrite : Type 0 where
  pub shard_idx : ℕ
  pub node_idx : ℕ
  pub shard : Bytes
  pub cohort_tag : ℕ

-- Shard `i` and those behind it go to the nodes that the rotation gives, if these may be asked.
unfoldable pub shard_writes : ℕ → ℕ → ℕ → List ℕ → ℕ → List Bytes → List ShardWrite
unfolding node_index
shard_writes rotation total cohort_tag positions i [] = []
shard_writes rotation total cohort_tag positions i (shard ∷ rest) =
    let more = shard_writes rotation total cohort_tag positions (i + 1) rest in
    let node_idx = node_index i rotation total in
    if mem positions node_idx
    then (record { shard_idx = i; node_idx = node_idx; shard = shard; cohort_tag = cohort_tag }
        ∷ more)
    else more

pub record EcPut : Type 0 where
  pub result : Result DataVgError PutBlobOutcome
  pub nodes : Nodes
  pub sent : List ShardWrite

-- Without the breakers' and the nodes' part: what is sent when these positions may be asked.
unfoldable pub send_shards :
    (Bytes → ℕ) → ℕ → ℕ → ℕ → Bytes → List Bytes → List (Reply (Unit {0})) → List ℕ × Nodes → EcPut
unfolding ec_cohort_tag shard_writes collect_writes
send_shards xxh3 rotation k m padded shards replies (positions, asked) =
    if ltb (length positions) (k + 1)
    then record { result = err DataVgError.quorum_failure; nodes = asked; sent = [] }
    else (let (result, after) = collect_writes (k + 1) 0 PutBlobOutcome.stored replies asked in
        record {
          result = result;
          nodes = after;
          sent = shard_writes rotation (k + m) (ec_cohort_tag xxh3 padded) positions 0 shards;
        })

unfoldable pub put_blob_ec :
    (ℕ → ℕ → List Bytes → Option (List Bytes))
    → (Bytes → ℕ)
    → ℕ
    → ℕ
    → ℕ
    → Bytes
    → (ℕ → ℕ)
    → List (Reply (Unit {0}))
    → Nodes
    → EcPut
unfolding pad_body encode_shards send_shards available_nodes
put_blob_ec rs_encode xxh3 rotation k m [] clock replies nodes = record {
  result = ok PutBlobOutcome.stored;
  nodes = nodes;
  sent = [];
}
put_blob_ec rs_encode xxh3 rotation k m (b ∷ body) clock replies nodes =
    let padded = pad_body k (b ∷ body) in
    elim (encode_shards rs_encode k m padded) [
      | none ↦ record { result = err DataVgError.internal; nodes = nodes; sent = [] }
      | some shards ↦
          send_shards xxh3 rotation k m padded shards replies (available_nodes clock 0 nodes)
    ]

unfoldable pub delete_blob_ec :
    ℕ → ℕ → (ℕ → ℕ) → List (Reply (Unit {0})) → Nodes → Result DataVgError (Unit {0}) × Nodes
unfolding available_nodes collect_deletes
delete_blob_ec k m clock replies nodes =
    let (positions, asked) = available_nodes clock 0 nodes in
    let (successful, after) = collect_deletes 0 replies asked in
    if ltb (length positions) (k + m)
    then (err DataVgError.quorum_failure, asked)
    else if successful == k + m
    then (ok tt, after)
    else (err DataVgError.quorum_failure, after)
