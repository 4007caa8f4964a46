-- ===== src/Proxy/Replicated/Deletes.antt =====
-- When a deletion is reported as done, every node has answered that it does not hold the block.
use fractalbits.Base.{
  ℕ, ◌+◌, ◌<◌, ◌≡◌, refl, ◌≢◌, inl, inr, Bool-cases, Bool, true, false, List, [], ◌∷◌, arith,
  length, All,
}
use fractalbits.Base.Results.{Result, ok, err}
use fractalbits.Base.Counting.{IsDistinct, IsBelow, mem, mem_all}
use fractalbits.Proxy.Volumes.{RpcError}
use fractalbits.Proxy.Replicated.{
  Nodes, Reply, node_success, node_failure, available_nodes, collect_deletes,
  delete_blob_replicated,
}
use fractalbits.Proxy.Replicated.Writes.{Acks, positions_of}

-- The node does not hold the block.
abbrev pub is_gone : Result RpcError (Unit {0}) → Bool
is_gone (ok _) = true
is_gone (err RpcError.version_skipped) = false
is_gone (err RpcError.mismatch) = false
is_gone (err RpcError.not_found) = true
is_gone (err (RpcError.other _)) = false

abbrev pub all_positions : {A : Type 0} → List (Reply A) → List ℕ
all_positions [] = []
all_positions (r ∷ rest) = r.position ∷ all_positions rest

pub All-positions_of :
    {A : Type 0} (test : Result RpcError A → Bool) (P : ℕ → Type 0) (rs : List (Reply A))
    → All P (all_positions rs)
    → All P (positions_of test rs)
All-positions_of test P [] h = tt
All-positions_of test P (r ∷ rs) h = elim (Bool-cases (test r.answer)) [
  | inl t ↦ rw t (h.0, All-positions_of test P rs h.1)
  | inr f ↦ rw f (All-positions_of test P rs h.1)
]

pub IsDistinct-positions_of :
    {A : Type 0} (test : Result RpcError A → Bool) (rs : List (Reply A))
    → IsDistinct (all_positions rs)
    → IsDistinct (positions_of test rs)
IsDistinct-positions_of test [] h = tt
IsDistinct-positions_of test (r ∷ rs) h = elim (Bool-cases (test r.answer)) [
  | inl t ↦
      rw t (All-positions_of test (λ q. q ≢ r.position) rs h.0, IsDistinct-positions_of test rs h.1)
  | inr f ↦ rw f (IsDistinct-positions_of test rs h.1)
]

pub collect_deletes-count :
    (s : ℕ) (replies : Acks) (nodes : Nodes)
    → (collect_deletes s replies nodes).0 ≡ s + length (positions_of is_gone replies)
unfolding collect_deletes
collect_deletes-count s [] nodes = omega arith
collect_deletes-count s (r ∷ rest) nodes =
    go r.answer refl (λ t ns. collect_deletes-count t rest ns)
  where
    go :
        (a : Result RpcError (Unit {0}))
        → r.answer ≡ a
        → ((t : ℕ) (ns : Nodes)
            → (collect_deletes t rest ns).0 ≡ t + length (positions_of is_gone rest))
        → (collect_deletes s (r ∷ rest) nodes).0 ≡ s + length (positions_of is_gone (r ∷ rest))
    go (ok u) e next = ground (arith, e, next (s + 1) (node_success r.position nodes))
    go (err RpcError.version_skipped) e next =
        ground (arith, e, next s (node_failure r.position r.now nodes))
    go (err RpcError.mismatch) e next =
        ground (arith, e, next s (node_failure r.position r.now nodes))
    go (err RpcError.not_found) e next =
        ground (arith, e, next (s + 1) (node_success r.position nodes))
    go (err (RpcError.other x)) e next =
        ground (arith, e, next s (node_failure r.position r.now nodes))

-- A deletion is reported as done only if every node of the volume has answered that it does not
-- hold the block, where each node answers at most once.
pub delete_blob_replicated_exact :
    (clock : ℕ → ℕ) (replies : Acks) (nodes : Nodes)
    → IsDistinct (all_positions replies)
    → IsBelow (length nodes) (all_positions replies)
    → (delete_blob_replicated clock replies nodes).0 ≡ ok tt
    → (i : ℕ) → i < length nodes
    → mem (positions_of is_gone replies) i ≡ true
unfolding delete_blob_replicated
delete_blob_replicated_exact clock replies nodes d b h i lt =
    let total = collect_deletes-count 0 replies (available_nodes clock 0 nodes).1 in
    mem_all (length nodes) (positions_of is_gone replies)
      (IsDistinct-positions_of is_gone replies d)
      (All-positions_of is_gone (λ p. p < length nodes) replies b) (ground (arith, h, total)) i lt

-- A deletion is done if every node may be asked and as many answers as there are nodes say that
-- the block is gone.
pub delete_blob_replicated_total :
    (clock : ℕ → ℕ) (replies : Acks) (nodes : Nodes)
    → length (available_nodes clock 0 nodes).0 ≡ length nodes
    → length (positions_of is_gone replies) ≡ length nodes
    → (delete_blob_replicated clock replies nodes).0 ≡ ok tt
unfolding delete_blob_replicated
delete_blob_replicated_total clock replies nodes asked h =
    let total = collect_deletes-count 0 replies (available_nodes clock 0 nodes).1 in
    ground (arith, asked, h, total)
