-- ===== src/Proxy/Listing/Complete.antt =====
-- The keys of a listing and the nodes that hold a block.
use fractalbits.Base.Counting.{IsBelow, two_sides, IsDistinct}
use fractalbits.Base.{
  ◌-◌, ◌<◌, ◌≢◌, ℕ, ◌+◌, ◌≤◌, ◌≡◌, refl, inl, inr, Bool, true, false, not, ◌&&◌, ◌||◌, List, [],
  ◌∷◌, arith, leb, ◌==◌, Bool-cases, length, All,
}
use fractalbits.Base.Results.{Result, ok, err}
use fractalbits.Proxy.Volumes.{RpcError, VolumeMode}
use fractalbits.Proxy.Replicated.{Nodes, Reply, node_success, node_failure, available_nodes}
use fractalbits.Proxy.Replicated.Deletes.{all_positions}
use fractalbits.Proxy.Listing.{
  BlobBlockEntry, same_key, or_insert, insert_all, collect_listings, write_quorum_of, required_of,
  list_blob_blocks_inner,
}

-- Whether an entry of the list has the key.
abbrev pub has_key : ℕ → ℕ → List BlobBlockEntry → Bool
has_key b v [] = false
has_key b v (x ∷ xs) = ((x.block_number == b) && (x.version == v)) || has_key b v xs

-- A node that holds the block lists it.
abbrev pub Lists : (ℕ → Bool) → ℕ → ℕ → Reply (List BlobBlockEntry) → Type 0
Lists holds b v r =
    (es : List BlobBlockEntry) → r.answer ≡ ok es → holds r.position ≡ true → has_key b v es ≡ true

module _ (b v : ℕ) where
  or_insert-has_key :
      (e : BlobBlockEntry) (xs : List BlobBlockEntry)
      → (has_key b v (e ∷ []) || has_key b v xs) ≡ true
      → has_key b v (or_insert e xs) ≡ true
  unfolding or_insert same_key
  or_insert-has_key e [] h = ground (arith, h)
  or_insert-has_key e (x ∷ xs) h = ground (arith, h, or_insert-has_key e xs)

  insert_all-has_key :
      (es xs : List BlobBlockEntry)
      → (has_key b v es || has_key b v xs) ≡ true
      → has_key b v (insert_all es xs) ≡ true
  unfolding insert_all
  insert_all-has_key [] xs h = h
  insert_all-has_key (e ∷ es) xs h =
      insert_all-has_key es (or_insert e xs) (ground (arith, h, or_insert-has_key e xs))

  collect_listings-has_key :
      (q s : ℕ) (entries : List BlobBlockEntry) (replies : List (Reply (List BlobBlockEntry)))
      (nodes : Nodes) (out : List BlobBlockEntry)
      → (collect_listings q s entries replies nodes).0 ≡ ok out
      → has_key b v entries ≡ true
      → has_key b v out ≡ true
  unfolding collect_listings
  collect_listings-has_key q s entries [] nodes out h k = ground (arith, h, k)
  collect_listings-has_key q s entries (r ∷ rest) nodes out h k =
      go r.answer refl (λ t xs ns. collect_listings-has_key q t xs rest ns out)
    where
      go :
          (a : Result RpcError (List BlobBlockEntry))
          → r.answer ≡ a
          → ((t : ℕ) (xs : List BlobBlockEntry) (ns : Nodes)
              → (collect_listings q t xs rest ns).0 ≡ ok out
              → has_key b v xs ≡ true
              → has_key b v out ≡ true)
          → has_key b v out ≡ true
      go (err x) e next =
          next s entries (node_failure r.position r.now nodes) (ground (arith, e, h)) k
      go (ok es) e next =
          let kept = insert_all-has_key es entries (ground (arith, k)) in
          elim (Bool-cases (leb q (s + 1))) [
            | inl full ↦ ground (arith, e, full, h, kept)
            | inr more ↦
                next (s + 1) (insert_all es entries) (node_success r.position nodes)
                  (ground (arith, e, more, h)) kept
          ]

  -- If the listing does not show the block, enough distinct nodes answered that do not hold it.
  abbrev Silent : (ℕ → Bool) → ℕ → ℕ → List ℕ → Type 1
  Silent holds q s positions =
      (ps : List ℕ) × ((P : ℕ → Type 0) → All P positions → All P ps)
      × (IsDistinct positions → IsDistinct ps)
      × All (λ p. not (holds p) ≡ true) ps
      × (q ≤ s + length ps)

  collect_listings-Silent :
      (holds : ℕ → Bool) (q s : ℕ) (entries : List BlobBlockEntry)
      (replies : List (Reply (List BlobBlockEntry))) (nodes : Nodes) (out : List BlobBlockEntry)
      → All (Lists holds b v) replies
      → (collect_listings q s entries replies nodes).0 ≡ ok out
      → has_key b v out ≡ false
      → Silent holds q s (all_positions replies)
  unfolding collect_listings
  collect_listings-Silent holds q s entries [] nodes out honest h k =
      ([], (λ P a. tt), (λ d. tt), tt, ground (arith, h))
  collect_listings-Silent holds q s entries (r ∷ rest) nodes out honest h k =
      go r.answer refl (λ t xs ns. collect_listings-Silent holds q t xs rest ns out honest.1)
    where
      go :
          (a : Result RpcError (List BlobBlockEntry))
          → r.answer ≡ a
          → ((t : ℕ) (xs : List BlobBlockEntry) (ns : Nodes)
              → (collect_listings q t xs rest ns).0 ≡ ok out
              → has_key b v out ≡ false
              → Silent holds q t (all_positions rest))
          → Silent holds q s (all_positions (r ∷ rest))
      go (err x) e next =
          let (ps, sub, distinct, silent, n) =
            next s entries (node_failure r.position r.now nodes) (ground (arith, e, h)) k in
          (ps, (λ P a. sub P a.1), (λ d. distinct d.1), silent, n)
      go (ok es) e next =
          let merged = insert_all es entries in
          let answered = node_success r.position nodes in
          elim (Bool-cases (leb q (s + 1))) [
            | inl full ↦
                let quiet : not (holds r.position) ≡ true = elim (Bool-cases (holds r.position)) [
                  | inr n ↦ ground (arith, n)
                  | inl y ↦
                      let listed = honest.0 es e y in
                      let here = insert_all-has_key es entries (ground (arith, listed)) in
                      absurd (ground (arith, e, full, h, here, k))
                ] in
                (
                  r.position ∷ [],
                  (λ P a. (a.0, tt)),
                  (λ d. (tt, tt)),
                  (quiet, tt),
                  ground (arith, full),
                )
            | inr more ↦
                let after : (collect_listings q (s + 1) merged rest answered).0 ≡ ok out =
                  ground (arith, e, more, h) in
                let (ps, sub, distinct, silent, n) = next (s + 1) merged answered after k in
                let quiet : not (holds r.position) ≡ true = elim (Bool-cases (holds r.position)) [
                  | inr f ↦ ground (arith, f)
                  | inl y ↦
                      let listed = honest.0 es e y in
                      let here = insert_all-has_key es entries (ground (arith, listed)) in
                      let kept =
                        collect_listings-has_key q (s + 1) merged rest answered out after here in
                      absurd (ground (arith, kept, k))
                ] in
                (
                  r.position ∷ ps,
                  (λ P a. (a.0, sub P a.1)),
                  (λ d. (sub (λ p. p ≢ r.position) d.0, distinct d.1)),
                  (quiet, silent),
                  omega (arith, n),
                )
          ]

-- For a volume with at least as many nodes as its write quorum, which is not 0: a listing that
-- succeeds shows every block that a write quorum of distinct nodes holds, whichever nodes answer
-- and in whatever order; provided that each node answers at most once and that a node which holds
-- the block lists it.
pub list_blob_blocks_inner-has_key :
    (require_all : Bool) (mode : VolumeMode) (clock : ℕ → ℕ)
    (replies : List (Reply (List BlobBlockEntry))) (nodes : Nodes) (out : List BlobBlockEntry)
    (b v : ℕ) (holds : ℕ → Bool) (holders : List ℕ)
    → 0 < write_quorum_of mode
    → write_quorum_of mode ≤ length nodes
    → IsDistinct (all_positions replies)
    → IsBelow (length nodes) (all_positions replies)
    → IsDistinct holders
    → IsBelow (length nodes) holders
    → All (λ p. holds p ≡ true) holders
    → write_quorum_of mode ≤ length holders
    → All (Lists holds b v) replies
    → (list_blob_blocks_inner require_all mode clock replies nodes).0 ≡ ok out
    → has_key b v out ≡ true
unfolding list_blob_blocks_inner required_of
list_blob_blocks_inner-has_key require_all mode clock replies nodes out b v holds holders pos fits
      dr br dh bh held enough honest h =
    elim (Bool-cases (has_key b v out)) [
      | inl y ↦ y
      | inr n ↦
          let w = write_quorum_of mode in
          let q = required_of require_all (length nodes) w in
          let asked = (available_nodes clock 0 nodes).1 in
          let (ps, sub, distinct, silent, many) =
            collect_listings-Silent b v holds q 0 [] replies asked out honest (ground (arith, h))
              n in
          let few =
            two_sides holds (length nodes) holders ps dh (distinct dr) bh
              (sub (λ p. p < length nodes) br) held silent in
          let least : length nodes - w + 1 ≤ q = ground (arith, pos) in
          absurd (omega (arith, many, few, least, enough, fits))
    ]
