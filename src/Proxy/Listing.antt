-- ===== src/Proxy/Listing.antt =====
-- data_vg_proxy.rs, the listing of the blocks of a blob over the nodes of its volume. An entry of a
-- node's answer is its key and its other fields.
pub mod Complete
mod Examples
use fractalbits.Base.{
  ℕ, ◌+◌, ◌-◌, Bool, ◌&&◌, ◌||◌, List, [], ◌∷◌, ltb, leb, ◌==◌, if◌then◌else◌, length,
}
use fractalbits.Base.Results.{Result, ok, err}
use fractalbits.Proxy.Volumes.{RpcError, DataVgError, VolumeMode}
use fractalbits.Proxy.Replicated.{Nodes, Reply, node_success, node_failure, available_nodes}

pub record BlobBlockEntry : Type 0 where
  pub block_number : ℕ
  pub version : ℕ
  pub fields : List ℕ

unfoldable pub same_key : BlobBlockEntry → BlobBlockEntry → Bool
same_key a b = (a.block_number == b.block_number) && (a.version == b.version)

-- The order of the keys of the map.
unfoldable pub key_before : BlobBlockEntry → BlobBlockEntry → Bool
key_before a b =
    ltb a.block_number b.block_number
    || ((a.block_number == b.block_number) && ltb a.version b.version)

-- `entry(key).or_insert`, on the map as the list of its values in key order.
unfoldable pub or_insert : BlobBlockEntry → List BlobBlockEntry → List BlobBlockEntry
unfolding same_key key_before
or_insert e [] = e ∷ []
or_insert e (x ∷ xs) =
    let more = or_insert e xs in
    if same_key e x then x ∷ xs else if key_before e x then e ∷ x ∷ xs else x ∷ more

unfoldable pub insert_all : List BlobBlockEntry → List BlobBlockEntry → List BlobBlockEntry
unfolding or_insert
insert_all [] entries = entries
insert_all (e ∷ es) entries = insert_all es (or_insert e entries)

unfoldable pub collect_listings :
    ℕ
    → ℕ
    → List BlobBlockEntry
    → List (Reply (List BlobBlockEntry))
    → Nodes
    → Result DataVgError (List BlobBlockEntry) × Nodes
unfolding insert_all node_success node_failure
collect_listings required_responses successful entries [] nodes = (
  if ltb successful required_responses then err DataVgError.quorum_failure else ok entries,
  nodes,
)
collect_listings required_responses successful entries (r ∷ rest) nodes =
    let answered = node_success r.position nodes in
    let after_error =
      collect_listings required_responses successful entries rest
        (node_failure r.position r.now nodes) in
    elim r.answer [
      | ok node_entries ↦
          let merged = insert_all node_entries entries in
          let more = collect_listings required_responses (successful + 1) merged rest answered in
          if leb required_responses (successful + 1) then (ok merged, answered) else more
      | err _ ↦ after_error
    ]

unfoldable pub write_quorum_of : VolumeMode → ℕ
write_quorum_of (VolumeMode.replicated n r w) = w
write_quorum_of (VolumeMode.erasure_coded data_shards parity_shards) = data_shards + 1

-- How many answers are needed. More nodes than the volume has cannot be a write quorum.
unfoldable pub required_of : Bool → ℕ → ℕ → ℕ
required_of require_all_nodes nodes write_quorum =
    if require_all_nodes then nodes else nodes - write_quorum + 1

unfoldable pub list_blob_blocks_inner :
    Bool
    → VolumeMode
    → (ℕ → ℕ)
    → List (Reply (List BlobBlockEntry))
    → Nodes
    → Result DataVgError (List BlobBlockEntry) × Nodes
unfolding available_nodes write_quorum_of required_of collect_listings
list_blob_blocks_inner require_all_nodes mode clock replies nodes =
    let (positions, asked) = available_nodes clock 0 nodes in
    let required = required_of require_all_nodes (length nodes) (write_quorum_of mode) in
    if ltb (length positions) required
    then (err DataVgError.quorum_failure, asked)
    else collect_listings required 0 [] replies asked
