-- ===== src/Proxy/Replicated/Quorums.antt =====
-- What the loop over the answers to a read makes of absence and of bodies.
use fractalbits.Base.{
  ℕ, zero, suc, ◌+◌, ◌-◌, ◌≤◌, ◌<◌, ◌≡◌, refl, ◌⊎◌, inl, inr, Bool-cases, Bool, true, false, List,
  [], ◌∷◌, arith, ◌==◌, length,
}
use fractalbits.Base.Results.{Result, ok, err}
use fractalbits.Proxy.Breaker.{CircuitBreaker, record_success, record_failure}
use fractalbits.Proxy.Volumes.{RpcError, DataVgError}
use fractalbits.Proxy.Replicated.{
  Nodes, Reply, update_node, node_success, node_failure, available_nodes, collect_reads,
  get_blob_fallback, get_blob_replicated,
}
use fractalbits.Proxy.Replicated.Writes.{positions_of}

abbrev pub is_absent : {A : Type 0} → Result RpcError A → Bool
is_absent (ok _) = false
is_absent (err RpcError.version_skipped) = false
is_absent (err RpcError.mismatch) = false
is_absent (err RpcError.not_found) = true
is_absent (err (RpcError.other _)) = false

pub length-update_node :
    (i : ℕ) (f : CircuitBreaker → CircuitBreaker) (ns : Nodes)
    → length (update_node i f ns) ≡ length ns
unfolding update_node
length-update_node i f [] = refl
length-update_node zero f (n ∷ ns) = refl
length-update_node (suc i) f (n ∷ ns) = omega (arith, length-update_node i f ns)

length-available_nodes :
    (clock : ℕ → ℕ) (i : ℕ) (ns : Nodes) → length (available_nodes clock i ns).1 ≡ length ns
unfolding available_nodes
length-available_nodes clock i [] = refl
length-available_nodes clock i (n ∷ ns) = omega (arith, length-available_nodes clock (i + 1) ns)

module _ {A : Type 0} where
  -- The body is one that a node answered.
  abbrev pub IsAnswer : A → List (Reply A) → Type 0
  IsAnswer b [] = ⊥
  IsAnswer b (r ∷ rest) = (r.answer ≡ ok b) ⊎ IsAnswer b rest

  -- Absence is only reported after a quorum of distinct answers for it.
  collect_reads-absent :
      (q s : ℕ) (replies : List (Reply A)) (nodes : Nodes)
      → (collect_reads q s replies nodes).0 ≡ err DataVgError.block_not_found
      → q ≤ s + length (positions_of is_absent replies)
  unfolding collect_reads
  collect_reads-absent q s [] nodes h = ground arith
  collect_reads-absent q s (r ∷ rest) nodes h =
      go r.answer refl (λ t ns. collect_reads-absent q t rest ns)
    where
      go :
          (a : Result RpcError A)
          → r.answer ≡ a
          → ((t : ℕ) (ns : Nodes)
              → (collect_reads q t rest ns).0 ≡ err DataVgError.block_not_found
              → q ≤ t + length (positions_of is_absent rest))
          → q ≤ s + length (positions_of is_absent (r ∷ rest))
      go (ok u) e next = absurd (ground (arith, e, h))
      go (err RpcError.not_found) e next =
          ground (arith, e, h, next (s + 1) (node_success r.position nodes))
      go (err RpcError.version_skipped) e next =
          ground (arith, e, next s (node_failure r.position r.now nodes) (ground (arith, e, h)))
      go (err RpcError.mismatch) e next =
          ground (arith, e, next s (node_failure r.position r.now nodes) (ground (arith, e, h)))
      go (err (RpcError.other x)) e next =
          ground (arith, e, next s (node_failure r.position r.now nodes) (ground (arith, e, h)))

  later_answer :
      (r : Reply A) (rest : List (Reply A)) (b : A) (x : RpcError)
      → r.answer ≡ err x
      → IsAnswer b (r ∷ rest)
      → IsAnswer b rest
  later_answer r rest b x e (inl k) = cc
  later_answer r rest b x e (inr k) = k

  pub collect_reads_total :
      (q s : ℕ) (replies : List (Reply A)) (nodes : Nodes) (b : A)
      → IsAnswer b replies
      → s + length (positions_of is_absent replies) < q
      → (c : A) × ((collect_reads q s replies nodes).0 ≡ ok c) × IsAnswer c replies
  unfolding collect_reads
  collect_reads_total q s [] nodes b h lt = absurd h
  collect_reads_total q s (r ∷ rest) nodes b h lt =
      go r.answer refl (λ t ns k. collect_reads_total q t rest ns b k)
    where
      go :
          (a : Result RpcError A)
          → r.answer ≡ a
          → ((t : ℕ) (ns : Nodes)
              → IsAnswer b rest
              → t + length (positions_of is_absent rest) < q
              → (c : A) × ((collect_reads q t rest ns).0 ≡ ok c) × IsAnswer c rest)
          → (c : A) × ((collect_reads q s (r ∷ rest) nodes).0 ≡ ok c) × IsAnswer c (r ∷ rest)
      go (ok u) e next = (u, ground (arith, e), inl e)
      go (err RpcError.not_found) e next =
          let (c, k, source) =
            next (s + 1) (node_success r.position nodes) (later_answer r rest b _ e h)
              (ground (arith, e, lt)) in
          (c, ground (arith, e, lt, k), inr source)
      go (err RpcError.version_skipped) e next =
          let (c, k, source) =
            next s (node_failure r.position r.now nodes) (later_answer r rest b _ e h)
              (ground (arith, e, lt)) in
          (c, ground (arith, e, k), inr source)
      go (err RpcError.mismatch) e next =
          let (c, k, source) =
            next s (node_failure r.position r.now nodes) (later_answer r rest b _ e h)
              (ground (arith, e, lt)) in
          (c, ground (arith, e, k), inr source)
      go (err (RpcError.other x)) e next =
          let (c, k, source) =
            next s (node_failure r.position r.now nodes) (later_answer r rest b _ e h)
              (ground (arith, e, lt)) in
          (c, ground (arith, e, k), inr source)

  pub get_blob_fallback-absent :
      (w : ℕ) (clock : ℕ → ℕ) (replies : List (Reply A)) (nodes : Nodes)
      → (get_blob_fallback w clock replies nodes).0 ≡ err DataVgError.block_not_found
      → length nodes - w + 1 ≤ length (positions_of is_absent replies)
  unfolding get_blob_fallback
  get_blob_fallback-absent w clock replies nodes h =
      let after = (available_nodes clock 0 nodes).1 in
      ground (arith, h, collect_reads-absent (length nodes - w + 1) 0 replies after)

  pub get_blob_replicated-absent :
      (w : ℕ) (clock later : ℕ → ℕ) (fast : Reply A) (replies : List (Reply A)) (nodes : Nodes)
      → (get_blob_replicated w clock fast later replies nodes).0 ≡ err DataVgError.block_not_found
      → length nodes - w + 1 ≤ length (positions_of is_absent replies)
  unfolding get_blob_replicated
  get_blob_replicated-absent w clock later fast replies nodes h =
      go fast.answer refl (Bool-cases (length (available_nodes clock 0 nodes).0 == 0))
    where
      asked : Nodes
      asked = (available_nodes clock 0 nodes).1

      fall :
          (ns : Nodes)
          → length ns ≡ length nodes
          → (get_blob_fallback w later replies ns).0 ≡ err DataVgError.block_not_found
          → length nodes - w + 1 ≤ length (positions_of is_absent replies)
      fall ns e k = omega (arith, get_blob_fallback-absent w later replies ns k, e)

      same : length asked ≡ length nodes
      same = length-available_nodes clock 0 nodes

      succeeded : length (node_success fast.position asked) ≡ length nodes
      succeeded =
          unfold node_success in
          omega (arith, length-update_node fast.position record_success asked, same)

      failed : length (node_failure fast.position fast.now asked) ≡ length nodes
      failed =
          unfold node_failure in
          omega (arith, length-update_node fast.position (record_failure fast.now) asked, same)

      go :
          (a : Result RpcError A)
          → fast.answer ≡ a
          → (length (available_nodes clock 0 nodes).0 == 0 ≡ true)
            ⊎ (length (available_nodes clock 0 nodes).0 == 0 ≡ false)
          → length nodes - w + 1 ≤ length (positions_of is_absent replies)
      go a e (inl no_node) = fall asked same (ground (arith, no_node, h))
      go (ok b) e (inr c) = absurd (ground (arith, e, c, h))
      go (err RpcError.not_found) e (inr c) =
          fall (node_success fast.position asked) succeeded (ground (arith, e, c, h))
      go (err RpcError.version_skipped) e (inr c) =
          fall (node_failure fast.position fast.now asked) failed (ground (arith, e, c, h))
      go (err RpcError.mismatch) e (inr c) =
          fall (node_failure fast.position fast.now asked) failed (ground (arith, e, c, h))
      go (err (RpcError.other x)) e (inr c) =
          fall (node_failure fast.position fast.now asked) failed (ground (arith, e, c, h))
