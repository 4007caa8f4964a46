-- ===== src/Proxy/Erasure/Writes.antt =====
-- When a write or a deletion of an erasure-coded block is reported as done.
use fractalbits.Base.Counting.{IsDistinct, IsBelow, mem, mem_all}
use fractalbits.Base.{
  sym, ℕ, suc, ◌+◌, ◌-◌, ◌≤◌, ◌<◌, ◌≡◌, refl, subst, inl, inr, true, Option, some, List, [], ◌∷◌,
  arith, ltb, Bool-cases, Option-cases, length, get_elem?, All,
}
use fractalbits.Proxy.Replicated.{Nodes, PutBlobOutcome, available_nodes}
use fractalbits.Proxy.Replicated.Writes.{Acks, IsQuorum, positions_of, collect_writes-IsQuorum}
use fractalbits.Proxy.Replicated.Deletes.{
  is_gone, all_positions, All-positions_of, IsDistinct-positions_of, collect_deletes-count,
}
use fractalbits.Proxy.Cohorts.{node_index}
use fractalbits.Proxy.Erasure.{
  ok, Bytes, ec_cohort_tag, pad_body, encode_shards, ShardWrite, shard_writes, send_shards,
  put_blob_ec, delete_blob_ec,
}

-- A shard on its way is the one of the word at its index, goes to the node of that index and carries
-- the tag of the padded body.
abbrev pub IsSent : (Bytes → ℕ) → ℕ → ℕ → Bytes → List Bytes → ShardWrite → Type 0
IsSent xxh3 rotation total padded word w =
    (get_elem? word w.shard_idx ≡ some w.shard)
    × (w.node_idx ≡ node_index w.shard_idx rotation total)
    × (w.cohort_tag ≡ ec_cohort_tag xxh3 padded)

shard_writes_lem :
    (xxh3 : Bytes → ℕ) (rotation total : ℕ) (padded : Bytes) (positions : List ℕ) (i : ℕ)
    (shards word : List Bytes)
    → ((j : ℕ) (x : Bytes) → get_elem? shards j ≡ some x → get_elem? word (i + j) ≡ some x)
    → All
        (IsSent xxh3 rotation total padded word)
        (shard_writes rotation total (ec_cohort_tag xxh3 padded) positions i shards)
unfolding shard_writes
shard_writes_lem xxh3 rotation total padded positions i [] word h = tt
shard_writes_lem xxh3 rotation total padded positions i (x ∷ shards) word h =
    let here : get_elem? word i ≡ some x =
      subst (λ n. get_elem? word n ≡ some x) (omega arith) (h 0 x refl) in
    let rest =
      shard_writes_lem xxh3 rotation total padded positions (i + 1) shards word
        (λ j y e. subst (λ n. get_elem? word n ≡ some y) (omega arith) (h (suc j) y e)) in
    elim (Bool-cases (mem positions (node_index i rotation total))) [
      | inl e ↦ rw e ((here, refl, refl), rest)
      | inr e ↦ rw e rest
    ]

-- For a body that is not empty: a write is reported as done only after exactly one answer more than
-- there are data shards acknowledged it and none of the answers up to then was a mismatch, and what
-- it has sent are shards that the encoder made of the padded body, each to the node that the
-- rotation gives for it and with the tag of the padded body.
pub put_blob_ec-IsQuorum :
    (rs_encode : ℕ → ℕ → List Bytes → Option (List Bytes)) (xxh3 : Bytes → ℕ) (rotation k m : ℕ)
    (body : Bytes) (clock : ℕ → ℕ) (replies : Acks) (nodes : Nodes) (o : PutBlobOutcome)
    → 0 < length body
    → (put_blob_ec rs_encode xxh3 rotation k m body clock replies nodes).result ≡ ok o
    → IsQuorum (k + 1) PutBlobOutcome.stored replies o
      × ((word : List Bytes) × (encode_shards rs_encode k m (pad_body k body) ≡ some word)
          × All
              (IsSent xxh3 rotation (k + m) (pad_body k body) word)
              (put_blob_ec rs_encode xxh3 rotation k m body clock replies nodes).sent)
unfolding put_blob_ec send_shards
put_blob_ec-IsQuorum rs_encode xxh3 rotation k m [] clock replies nodes o pos h =
    absurd (omega arith)
put_blob_ec-IsQuorum rs_encode xxh3 rotation k m (b ∷ bs) clock replies nodes o pos h =
    let padded = pad_body k (b ∷ bs) in
    let positions = (available_nodes clock 0 nodes).0 in
    elim (Option-cases (encode_shards rs_encode k m padded)) [
      | inl e ↦ absurd (ground (arith, e, h))
      | inr (word, e) ↦ elim (Bool-cases (ltb (length positions) (k + 1))) [
        | inl f ↦ absurd (ground (arith, e, f, h))
        | inr f ↦
            let whole : k + 1 - 0 ≡ k + 1 = omega arith in
            let quorum =
              collect_writes-IsQuorum (k + 1) 0 PutBlobOutcome.stored replies
                (available_nodes clock 0 nodes).1 o (omega arith) (ground (arith, e, f, h)) in
            let sent =
              shard_writes_lem xxh3 rotation (k + m) padded positions 0 word word
                (λ j x g. subst (λ n. get_elem? word n ≡ some x) (omega arith) g) in
            let all_sent : (put_blob_ec rs_encode xxh3 rotation k m (b ∷ bs) clock replies
                  nodes).sent
                ≡ shard_writes rotation (k + m) (ec_cohort_tag xxh3 padded) positions 0 word =
              ground (arith, e, f) in
            (
              subst (λ n. IsQuorum n PutBlobOutcome.stored replies o) whole quorum,
              (word, e, subst (All (IsSent xxh3 rotation (k + m) padded word)) (sym all_sent) sent),
            )
      ]
    ]

-- On as many nodes as there are shards, a deletion is reported as done only if every node has
-- answered that it does not hold its shard, where each node answers at most once.
pub delete_blob_ec_exact :
    (k m : ℕ) (clock : ℕ → ℕ) (replies : Acks) (nodes : Nodes)
    → IsDistinct (all_positions replies)
    → IsBelow (k + m) (all_positions replies)
    → (delete_blob_ec k m clock replies nodes).0 ≡ ok tt
    → (i : ℕ) → i < k + m
    → mem (positions_of is_gone replies) i ≡ true
unfolding delete_blob_ec
delete_blob_ec_exact k m clock replies nodes d b h i lt =
    let after = (available_nodes clock 0 nodes).1 in
    let n : k + m ≤ length (positions_of is_gone replies) =
      ground (arith, h, collect_deletes-count 0 replies after) in
    mem_all (k + m) (positions_of is_gone replies) (IsDistinct-positions_of is_gone replies d)
      (All-positions_of is_gone (λ p. p < k + m) replies b) n i lt
