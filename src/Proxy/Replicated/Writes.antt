-- ===== src/Proxy/Replicated/Writes.antt =====
-- When a write or a deletion is reported as done, and what its nodes have answered then.
use fractalbits.Base.{
  subst, ℕ, suc, ◌+◌, ◌-◌, ◌≤◌, ◌<◌, ◌≡◌, refl, ◌⊎◌, inl, inr, Bool-cases, Bool, true, false, ◌||◌,
  List, [], ◌∷◌, ◌++◌, arith, leb, if◌then◌else◌, length, All, ap,
}
use fractalbits.Base.Results.{Result, ok, err}
use fractalbits.Proxy.Volumes.{RpcError}
use fractalbits.Proxy.Replicated.{
  Nodes, Reply, PutBlobOutcome, node_success, node_failure, available_nodes, collect_writes,
  put_blob_replicated,
}

abbrev pub Acks : Type 0
Acks = List (Reply (Unit {0}))

-- The node holds the caller's bytes.
abbrev pub is_ack : Result RpcError (Unit {0}) → Bool
is_ack (ok _) = true
is_ack (err RpcError.version_skipped) = true
is_ack (err RpcError.mismatch) = false
is_ack (err RpcError.not_found) = false
is_ack (err (RpcError.other _)) = false

abbrev pub is_skip : Result RpcError (Unit {0}) → Bool
is_skip (ok _) = false
is_skip (err RpcError.version_skipped) = true
is_skip (err RpcError.mismatch) = false
is_skip (err RpcError.not_found) = false
is_skip (err (RpcError.other _)) = false

abbrev pub is_mismatch : Result RpcError (Unit {0}) → Bool
is_mismatch (ok _) = false
is_mismatch (err RpcError.version_skipped) = false
is_mismatch (err RpcError.mismatch) = true
is_mismatch (err RpcError.not_found) = false
is_mismatch (err (RpcError.other _)) = false

-- The positions whose answer passes a test, in order of completion.
abbrev pub positions_of : {A : Type 0} → (Result RpcError A → Bool) → List (Reply A) → List ℕ
positions_of test [] = []
positions_of test (r ∷ rest) =
    let more = positions_of test rest in if test r.answer then r.position ∷ more else more

abbrev pub any_skip : Acks → Bool
any_skip [] = false
any_skip (r ∷ rest) = is_skip r.answer || any_skip rest

-- The answers up to the one that completes the quorum, and what the write reports for them.
abbrev pub IsQuorum : ℕ → PutBlobOutcome → Acks → PutBlobOutcome → Type 0
IsQuorum missing outcome replies result =
    (before : Acks) × (after : Acks) × (replies ≡ before ++ after)
    × (length (positions_of is_ack before) ≡ missing)
    × All (λ (r : Reply (Unit {0})). is_mismatch r.answer ≡ false) before
    × (result ≡ (if any_skip before then PutBlobOutcome.already_present else outcome))

-- One more answer before those of a quorum.
IsQuorum-next :
    (r : Reply (Unit {0})) (missing missing' : ℕ) (o p : PutBlobOutcome) (rest : Acks)
    (o' : PutBlobOutcome)
    → is_mismatch r.answer ≡ false
    → missing ≡ (if is_ack r.answer then suc missing' else missing')
    → p ≡ (if is_skip r.answer then PutBlobOutcome.already_present else o)
    → IsQuorum missing' p rest o'
    → IsQuorum missing o (r ∷ rest) o'
IsQuorum-next r missing missing' o p rest o' clean m e (before, after, split, n, all, result) = (
  r ∷ before,
  after,
  ap (◌∷◌ r) split,
  ground (arith, m, n),
  (clean, all),
  ground (arith, e, result),
)

-- The answer that completes the quorum.
IsQuorum-last :
    (r : Reply (Unit {0})) (missing : ℕ) (o : PutBlobOutcome) (rest : Acks) (o' : PutBlobOutcome)
    → is_mismatch r.answer ≡ false
    → is_ack r.answer ≡ true
    → missing ≡ 1
    → o' ≡ (if is_skip r.answer then PutBlobOutcome.already_present else o)
    → IsQuorum missing o (r ∷ rest) o'
IsQuorum-last r missing o rest o' clean ack m e =
    (r ∷ [], rest, refl, ground (arith, ack, m), (clean, tt), ground (arith, e))

pub collect_writes-IsQuorum :
    (w s : ℕ) (o : PutBlobOutcome) (replies : Acks) (nodes : Nodes) (o' : PutBlobOutcome)
    → s < w
    → (collect_writes w s o replies nodes).0 ≡ ok o'
    → IsQuorum (w - s) o replies o'
unfolding collect_writes
collect_writes-IsQuorum w s o [] nodes o' lt h = cc
collect_writes-IsQuorum w s o (r ∷ rest) nodes o' lt h =
    go r.answer refl (λ s' p ns. collect_writes-IsQuorum w s' p rest ns o')
      (Bool-cases (leb w (s + 1)))
  where
    go :
        (a : Result RpcError (Unit {0}))
        → r.answer ≡ a
        → ((s' : ℕ) (p : PutBlobOutcome) (ns : Nodes)
            → s' < w
            → (collect_writes w s' p rest ns).0 ≡ ok o'
            → IsQuorum (w - s') p rest o')
        → (leb w (s + 1) ≡ true) ⊎ (leb w (s + 1) ≡ false)
        → IsQuorum (w - s) o (r ∷ rest) o'
    go (ok u) e next (inl full) =
        IsQuorum-last r (w - s) o rest o' (ground (arith, e)) (ground (arith, e)) (ground arith)
          (ground (arith, e, full, h))
    go (ok u) e next (inr more) =
        IsQuorum-next r (w - s) (w - (s + 1)) o o rest o' (ground (arith, e)) (ground (arith, e))
          (ground (arith, e))
          (next (s + 1) o (node_success r.position nodes) (ground arith)
            (ground (arith, e, more, h)))
    go (err RpcError.version_skipped) e next (inl full) =
        IsQuorum-last r (w - s) o rest o' (ground (arith, e)) (ground (arith, e)) (ground arith)
          (ground (arith, e, full, h))
    go (err RpcError.version_skipped) e next (inr more) =
        IsQuorum-next r (w - s) (w - (s + 1)) o PutBlobOutcome.already_present rest o'
          (ground (arith, e)) (ground (arith, e)) (ground (arith, e))
          (next (s + 1) PutBlobOutcome.already_present (node_success r.position nodes)
            (ground arith) (ground (arith, e, more, h)))
    go (err RpcError.mismatch) e next c = absurd (ground (arith, e, h))
    go (err RpcError.not_found) e next c =
        IsQuorum-next r (w - s) (w - s) o o rest o' (ground (arith, e)) (ground (arith, e))
          (ground (arith, e))
          (next s o (node_failure r.position r.now nodes) lt (ground (arith, e, h)))
    go (err (RpcError.other x)) e next c =
        IsQuorum-next r (w - s) (w - s) o o rest o' (ground (arith, e)) (ground (arith, e))
          (ground (arith, e))
          (next s o (node_failure r.position r.now nodes) lt (ground (arith, e, h)))

-- For a positive write quorum: a write is reported as done only after exactly a quorum of its
-- answers acknowledged it and none of those answers up to then was a mismatch; it is reported as
-- stored if each of them stored the block now, and as already present if one of them skipped it.
pub put_blob_replicated-IsQuorum :
    (w : ℕ) (clock : ℕ → ℕ) (replies : Acks) (nodes : Nodes) (o : PutBlobOutcome)
    → 0 < w
    → (put_blob_replicated w clock replies nodes).0 ≡ ok o
    → IsQuorum w PutBlobOutcome.stored replies o
unfolding put_blob_replicated
put_blob_replicated-IsQuorum w clock replies nodes o pos h =
    let whole : w - 0 ≡ w = omega arith in
    subst (λ k. IsQuorum k PutBlobOutcome.stored replies o) whole
      (collect_writes-IsQuorum w 0 PutBlobOutcome.stored replies (available_nodes clock 0 nodes).1 o
        pos (ground (arith, h)))

collect_writes_total :
    (w s : ℕ) (o : PutBlobOutcome) (replies : Acks) (nodes : Nodes)
    → s < w
    → All (λ (r : Reply (Unit {0})). is_mismatch r.answer ≡ false) replies
    → w ≤ s + length (positions_of is_ack replies)
    → (o' : PutBlobOutcome) × ((collect_writes w s o replies nodes).0 ≡ ok o')
unfolding collect_writes
collect_writes_total w s o [] nodes lt clean h = absurd (omega arith)
collect_writes_total w s o (r ∷ rest) nodes lt clean h =
    go r.answer refl (λ s' p ns l. collect_writes_total w s' p rest ns l clean.1)
      (Bool-cases (leb w (s + 1)))
  where
    Done : ℕ → PutBlobOutcome → Acks → Nodes → Type 0
    Done s' p rs ns = (o' : PutBlobOutcome) × ((collect_writes w s' p rs ns).0 ≡ ok o')

    go :
        (a : Result RpcError (Unit {0}))
        → r.answer ≡ a
        → ((s' : ℕ) (p : PutBlobOutcome) (ns : Nodes)
            → s' < w
            → w ≤ s' + length (positions_of is_ack rest)
            → Done s' p rest ns)
        → (leb w (s + 1) ≡ true) ⊎ (leb w (s + 1) ≡ false)
        → Done s o (r ∷ rest) nodes
    go (ok u) e next (inl full) = (o, ground (arith, e, full))
    go (ok u) e next (inr more) =
        let (o', k) =
          next (s + 1) o (node_success r.position nodes) (ground arith) (ground (arith, e, h)) in
        (o', ground (arith, e, more, k))
    go (err RpcError.version_skipped) e next (inl full) =
        (PutBlobOutcome.already_present, ground (arith, e, full))
    go (err RpcError.version_skipped) e next (inr more) =
        let (o', k) =
          next (s + 1) PutBlobOutcome.already_present (node_success r.position nodes) (ground arith)
            (ground (arith, e, h)) in
        (o', ground (arith, e, more, k))
    go (err RpcError.mismatch) e next c = absurd (ground (arith, e, clean))
    go (err RpcError.not_found) e next c =
        let (o', k) = next s o (node_failure r.position r.now nodes) lt (ground (arith, e, h)) in
        (o', ground (arith, e, lt, k))
    go (err (RpcError.other x)) e next c =
        let (o', k) = next s o (node_failure r.position r.now nodes) lt (ground (arith, e, h)) in
        (o', ground (arith, e, lt, k))

-- A write is done if its quorum is positive, at least a quorum of nodes may be asked, at least a
-- quorum of the answers acknowledges, and none of the answers is a mismatch.
pub put_blob_replicated_total :
    (w : ℕ) (clock : ℕ → ℕ) (replies : Acks) (nodes : Nodes)
    → 0 < w
    → w ≤ length (available_nodes clock 0 nodes).0
    → All (λ (r : Reply (Unit {0})). is_mismatch r.answer ≡ false) replies
    → w ≤ length (positions_of is_ack replies)
    → (o : PutBlobOutcome) × ((put_blob_replicated w clock replies nodes).0 ≡ ok o)
unfolding put_blob_replicated
put_blob_replicated_total w clock replies nodes pos asked clean h =
    let (o, e) =
      collect_writes_total w 0 PutBlobOutcome.stored replies (available_nodes clock 0 nodes).1 pos
        clean (omega arith) in
    (o, ground (arith, e))
