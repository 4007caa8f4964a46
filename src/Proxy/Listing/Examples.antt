-- ===== src/Proxy/Listing/Examples.antt =====
-- The theorem about listings at a concrete input: three nodes, and a block that two of them hold.
use fractalbits.Base.{subst, true, arith, ℕ, ◌≡◌, refl, Bool, false, List, [], ◌∷◌, ltb, All}
use fractalbits.Base.Results.{Result, ok, err}
use fractalbits.Proxy.Breaker
use fractalbits.Proxy.Breaker.{default_config, is_available}
use fractalbits.Proxy.Volumes.{RpcError, VolumeMode, BssNode}
use fractalbits.Proxy.Replicated.{Nodes, Reply}
use fractalbits.Proxy.Listing.{BlobBlockEntry, list_blob_blocks_inner, write_quorum_of}
use fractalbits.Proxy.Listing.Complete.{has_key, Lists, list_blob_blocks_inner-has_key}

abbrev node : BssNode
node = record { address = ([], 9000); circuit_breaker = Breaker.new default_config }

abbrev nodes : Nodes
nodes = node ∷ node ∷ node ∷ []

abbrev entry : ℕ → ℕ → BlobBlockEntry
entry b v = record { block_number = b; version = v; fields = [] }

-- Node 0 misses block 4.
abbrev replies : List (Reply (List BlobBlockEntry))
replies =
    record { position = 0; now = 20; answer = ok (entry 3 1 ∷ []) }
    ∷ record { position = 1; now = 20; answer = err (RpcError.other 1) }
    ∷ record { position = 2; now = 20; answer = ok (entry 3 1 ∷ entry 4 2 ∷ []) }
    ∷ []

abbrev holds : ℕ → Bool
holds p = ltb 0 p

abbrev mode : VolumeMode
mode = VolumeMode.replicated 3 2 2

abbrev listing : List BlobBlockEntry
listing = entry 3 1 ∷ entry 4 2 ∷ []

listed : (list_blob_blocks_inner false mode (λ _. 10) replies nodes).0 ≡ ok listing
unfolding list_blob_blocks_inner is_available Breaker.new
listed = refl

abbrev answer_of : List BlobBlockEntry → Result RpcError (List BlobBlockEntry)
answer_of es = ok es

honest : All (Lists holds 4 2) replies
honest = ((λ es e h. cc), ((λ es e h. cc), ((λ es e h. shown es e), tt)))
  where
    same : (es : List BlobBlockEntry) → answer_of listing ≡ answer_of es → listing ≡ es
    same es e = cc

    shown : (es : List BlobBlockEntry) → answer_of listing ≡ answer_of es → has_key 4 2 es ≡ true
    shown es e = subst (λ l. has_key 4 2 l ≡ true) (same es e) refl

list_blob_blocks_inner-has_key_example : has_key 4 2 listing ≡ true
unfolding write_quorum_of
list_blob_blocks_inner-has_key_example =
    list_blob_blocks_inner-has_key false mode (λ _. 10) replies nodes listing 4 2 holds (1 ∷ 2 ∷ [])
      (omega arith) (omega arith) (omega arith) (omega arith) (omega arith) (omega arith)
      (refl, (refl, tt)) (omega arith) honest listed
