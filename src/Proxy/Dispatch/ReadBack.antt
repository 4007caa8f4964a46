-- ===== src/Proxy/Dispatch/ReadBack.antt =====
-- A block that was written and is read through the proxy, on a volume of either mode.
use fractalbits.Base.{
  ℕ, ◌+◌, ◌≤◌, ◌<◌, ◌≡◌, ap, subst, ◌≢◌, inl, inr, Bool, some, List, [], ◌∷◌, ◌++◌, arith, ◌==◌,
  Bool-cases, length,
}
use native.Mathlib.Nat.{mod-lt}
use fractalbits.Base.Results.{ok, err}
use fractalbits.Proxy.Volumes.{DataVgError, VolumeMode, VolumeWithNodes, DataVgProxy}
use fractalbits.Proxy.Volumes.Selection.{find_volume}
use fractalbits.Proxy.Replicated.{Nodes, PutBlobOutcome}
use fractalbits.Proxy.Replicated.Writes.{Acks}
use fractalbits.Proxy.Replicated.ReadAfterWrite
use fractalbits.Proxy.Replicated.ReadAfterWrite.{AreReplies, read_after_write}
use fractalbits.Proxy.Erasure.{Bytes, ec_rotation}
use fractalbits.Proxy.Erasure.Reads.{Arrivals, Code}
use fractalbits.Proxy.Erasure.Loops.{heard}
use fractalbits.Proxy.Erasure.Absence
use fractalbits.Proxy.Erasure.Absence.{ec_read_after_write}
use fractalbits.Proxy.Dispatch.{
  dispatch, Externals, ReplicatedArrivals, on_volume, or_not_found, put_on, put_blob, get_on,
  get_blob,
}

-- What the answers to a write and to a later read are like, by the mode of the volume: each node
-- answers at most once, it holds what it acknowledged, and it reports nothing absent that it holds.
abbrev pub AreHonestOn :
    Externals → Bytes → (ℕ → Bool) → Acks → ReplicatedArrivals → Arrivals → ℕ → VolumeMode → Type 0
AreHonestOn x blob_id holds writes a b n (VolumeMode.replicated _ r w) =
    (0 < w)
    × (w ≤ n)
    × AreReplies n writes
    × AreReplies n a.replies
    × ReadAfterWrite.AreHonest holds writes a.replies
AreHonestOn x blob_id holds writes a b n (VolumeMode.erasure_coded k m) =
    (0 < k + m)
    × Absence.AreHonest (ec_rotation x.crc32 blob_id (k + m)) (k + m) holds writes
        (heard k 0 b.events ++ b.replies)

on_volume_found :
    {A : Type 0} (volume_id : ℕ) (f : VolumeWithNodes → A × Nodes) (vs : List VolumeWithNodes)
    (v : VolumeWithNodes)
    → find_volume vs volume_id ≡ some v
    → (on_volume volume_id f vs).0 ≡ some (f v).0
unfolding on_volume find_volume
on_volume_found volume_id f [] v h = absurd (ground (arith, h))
on_volume_found volume_id f (u ∷ vs) v h = elim (Bool-cases (u.volume_id == volume_id)) [
  | inl e ↦ let same : u ≡ v = ground (arith, e, h) in rw e (ap (λ w. some (f w).0) same)
  | inr e ↦ rw e (on_volume_found volume_id f vs v (ground (arith, e, h)))
]

put_on-get_on :
    (x : Externals) (blob_id body : Bytes) (len : ℕ) (holds : ℕ → Bool) (clock : ℕ → ℕ)
    (writes : Acks) (a : ReplicatedArrivals) (b : Arrivals) (mode : VolumeMode)
    (nodes nodes_later : Nodes) (o : PutBlobOutcome)
    → length nodes_later ≡ length nodes
    → 0 < length body
    → AreHonestOn x blob_id holds writes a b (length nodes) mode
    → (put_on x blob_id body clock writes mode nodes).0 ≡ ok o
    → (get_on x blob_id len a b mode nodes_later).0 ≢ some (err DataVgError.block_not_found)
unfolding put_on get_on
put_on-get_on x blob_id body len holds clock writes a b (VolumeMode.replicated n r w) nodes
      nodes_later o same some_ (pos, le, dw, dr, honest) put gone =
    read_after_write w holds clock writes nodes o a.clock a.later_clock a.fast a.replies nodes_later
      pos le same dw dr honest put (ground (arith, gone))
put_on-get_on x blob_id body len holds clock writes a b (VolumeMode.erasure_coded k m) nodes
      nodes_later o same some_ (pos, honest) put gone =
    let code : Code = record {
      rs_encode = x.rs_encode;
      rs_decode = x.rs_decode;
      xxh3 = x.xxh3;
      data_shards = k;
      parity_shards = m;
    } in
    let ro = ec_rotation x.crc32 blob_id (k + m) in
    let below : ro < k + m = unfold ec_rotation in mod-lt (x.crc32 blob_id) pos in
    ec_read_after_write code ro len body holds clock writes nodes nodes_later o b below some_ honest
      put gone

-- After the proxy reported a write of a body that is not empty as done, no read of the block through
-- the proxy, in any later state of it in which the volume has the same mode and as many nodes,
-- reports the block as absent, whether the volume is replicated or erasure-coded, whichever nodes
-- answer and in whatever order; provided that each node answers at most once, that it holds what it
-- acknowledged, and that no node which holds the block or its shard answers that it is absent.
pub put_blob-get_blob :
    (x : Externals) (volume_id : ℕ) (blob_id body : Bytes) (len : ℕ) (holds : ℕ → Bool)
    (clock : ℕ → ℕ) (writes : Acks) (a : ReplicatedArrivals) (b : Arrivals)
    (p p_later : DataVgProxy) (v v_later : VolumeWithNodes) (o : PutBlobOutcome)
    → find_volume p.volumes volume_id ≡ some v
    → find_volume p_later.volumes volume_id ≡ some v_later
    → v_later.mode ≡ v.mode
    → length v_later.bss_nodes ≡ length v.bss_nodes
    → 0 < length body
    → AreHonestOn x blob_id holds writes a b (length v.bss_nodes) v.mode
    → (put_blob x volume_id blob_id body clock writes p).0 ≡ ok o
    → (get_blob x volume_id blob_id len a b p_later).0 ≢ some (err DataVgError.block_not_found)
unfolding put_blob get_blob dispatch or_not_found
put_blob-get_blob x volume_id blob_id body len holds clock writes a b p p_later v v_later o found
      found_later mode same some_ honest put gone =
    let wrote =
      on_volume_found volume_id (λ u. put_on x blob_id body clock writes u.mode u.bss_nodes)
        p.volumes v found in
    let read =
      on_volume_found volume_id (λ u. get_on x blob_id len a b u.mode u.bss_nodes) p_later.volumes
        v_later found_later in
    put_on-get_on x blob_id body len holds clock writes a b v.mode v.bss_nodes v_later.bss_nodes o
      same some_ honest (ground (arith, wrote, put))
      (subst
        (λ m.
          (get_on x blob_id len a b m v_later.bss_nodes).0 ≡ some (err DataVgError.block_not_found))
        mode (ground (arith, read, gone)))
