-- ===== src/Proxy/Dispatch.antt =====
-- data_vg_proxy.rs, the operations of the proxy on blocks: the volume of a blob is looked up, and its
-- mode decides between the replicated and the erasure-coded operation.
pub mod ReadBack
mod Examples
use fractalbits.Base.{ℕ, ◌+◌, Option, none, some, List, [], ◌∷◌, ◌++◌, ◌==◌, if◌then◌else◌}
use fractalbits.Base.Results.{Result, ok, err}
use fractalbits.Proxy.Volumes.{DataVgError, VolumeMode, VolumeWithNodes, DataVgProxy}
use fractalbits.Proxy.Replicated.{
  Nodes, Reply, PutBlobOutcome, put_blob_replicated, get_blob_replicated, delete_blob_replicated,
}
use fractalbits.Proxy.Erasure.{Bytes, ec_rotation, put_blob_ec, delete_blob_ec}
use fractalbits.Proxy.Erasure.Reads.{Decoder, Code, Arrivals, get_blob_ec}

-- The hashes and the Reed-Solomon code.
pub record Externals : Type 0 where
  pub rs_encode : ℕ → ℕ → List Bytes → Option (List Bytes)
  pub rs_decode : Decoder
  pub xxh3 : Bytes → ℕ
  pub crc32 : Bytes → ℕ

-- An operation on the first volume with the id; `none` where there is no such volume.
unfoldable pub on_volume :
    {A : Type 0}
    → ℕ
    → (VolumeWithNodes → A × Nodes)
    → List VolumeWithNodes
    → Option A × List VolumeWithNodes
on_volume volume_id f [] = (none, [])
on_volume volume_id f (v ∷ vs) =
    let (result, nodes) = f v in
    let (found, rest) = on_volume volume_id f vs in
    if v.volume_id == volume_id
    then (some result, record v { bss_nodes = nodes } ∷ vs)
    else (found, v ∷ rest)

unfoldable pub or_not_found : {A : Type 0} → Option (Result DataVgError A) → Result DataVgError A
or_not_found none = err DataVgError.initialization_error
or_not_found (some r) = r

-- An operation of the proxy on the volume of a blob.
unfoldable pub dispatch :
    {A : Type 0}
    → ℕ
    → (VolumeWithNodes → Result DataVgError A × Nodes)
    → DataVgProxy
    → Result DataVgError A × DataVgProxy
unfolding on_volume or_not_found
dispatch volume_id f p =
    let (found, volumes) = on_volume volume_id f p.volumes in
    (or_not_found found, record p { volumes = volumes })

unfoldable pub put_on :
    Externals
    → Bytes
    → Bytes
    → (ℕ → ℕ)
    → List (Reply (Unit {0}))
    → VolumeMode
    → Nodes
    → Result DataVgError PutBlobOutcome × Nodes
unfolding put_blob_replicated put_blob_ec ec_rotation
put_on x blob_id body clock replies (VolumeMode.replicated n r w) nodes =
    put_blob_replicated w clock replies nodes
put_on x blob_id body clock replies (VolumeMode.erasure_coded k m) nodes =
    let put =
      put_blob_ec x.rs_encode x.xxh3 (ec_rotation x.crc32 blob_id (k + m)) k m body clock replies
        nodes in
    (put.result, put.nodes)

unfoldable pub put_blob :
    Externals
    → ℕ
    → Bytes
    → Bytes
    → (ℕ → ℕ)
    → List (Reply (Unit {0}))
    → DataVgProxy
    → Result DataVgError PutBlobOutcome × DataVgProxy
unfolding dispatch put_on
put_blob x volume_id blob_id body clock replies p =
    dispatch volume_id (λ v. put_on x blob_id body clock replies v.mode v.bss_nodes) p

unfoldable pub forget_outcome :
    Result DataVgError PutBlobOutcome × Nodes → Result DataVgError (Unit {0}) × Nodes
forget_outcome (ok _, nodes) = (ok tt, nodes)
forget_outcome (err e, nodes) = (err e, nodes)

unfoldable pub combined : List Bytes → Bytes
combined [] = []
combined (c ∷ chunks) = c ++ combined chunks

unfoldable pub put_blob_vectored :
    Externals
    → ℕ
    → Bytes
    → List Bytes
    → (ℕ → ℕ)
    → List (Reply (Unit {0}))
    → DataVgProxy
    → Result DataVgError (Unit {0}) × DataVgProxy
unfolding dispatch put_on forget_outcome combined
put_blob_vectored x volume_id blob_id chunks clock replies p =
    dispatch volume_id
      (λ v. forget_outcome (put_on x blob_id (combined chunks) clock replies v.mode v.bss_nodes)) p

-- What arrives at a read of a replicated volume.
pub record ReplicatedArrivals : Type 0 where
  pub clock : ℕ → ℕ
  pub fast : Reply Bytes
  pub later_clock : ℕ → ℕ
  pub replies : List (Reply Bytes)

-- A panic of the erasure-coded read is `none`.
unfoldable pub get_on :
    Externals
    → Bytes
    → ℕ
    → ReplicatedArrivals
    → Arrivals
    → VolumeMode
    → Nodes
    → Option (Result DataVgError Bytes) × Nodes
unfolding get_blob_replicated get_blob_ec ec_rotation
get_on x blob_id content_len a b (VolumeMode.replicated n r w) nodes =
    let (result, after) = get_blob_replicated w a.clock a.fast a.later_clock a.replies nodes in
    (some result, after)
get_on x blob_id content_len a b (VolumeMode.erasure_coded k m) nodes =
    let code : Code = record {
      rs_encode = x.rs_encode;
      rs_decode = x.rs_decode;
      xxh3 = x.xxh3;
      data_shards = k;
      parity_shards = m;
    } in
    let get = get_blob_ec code (ec_rotation x.crc32 blob_id (k + m)) content_len b nodes in
    (get.result, get.nodes)

unfoldable pub get_blob :
    Externals
    → ℕ
    → Bytes
    → ℕ
    → ReplicatedArrivals
    → Arrivals
    → DataVgProxy
    → Option (Result DataVgError Bytes) × DataVgProxy
unfolding on_volume get_on
get_blob x volume_id blob_id content_len a b p =
    let (found, volumes) =
      on_volume volume_id (λ v. get_on x blob_id content_len a b v.mode v.bss_nodes) p.volumes in
    (
      elim found [ none ↦ some (err DataVgError.initialization_error) | some r ↦ r ],
      record p { volumes = volumes },
    )

unfoldable pub delete_on :
    (ℕ → ℕ) → List (Reply (Unit {0})) → VolumeMode → Nodes → Result DataVgError (Unit {0}) × Nodes
unfolding delete_blob_replicated delete_blob_ec
delete_on clock replies (VolumeMode.replicated n r w) nodes =
    delete_blob_replicated clock replies nodes
delete_on clock replies (VolumeMode.erasure_coded k m) nodes =
    delete_blob_ec k m clock replies nodes

unfoldable pub delete_blob :
    ℕ
    → (ℕ → ℕ)
    → List (Reply (Unit {0}))
    → DataVgProxy
    → Result DataVgError (Unit {0}) × DataVgProxy
unfolding dispatch delete_on
delete_blob volume_id clock replies p =
    dispatch volume_id (λ v. delete_on clock replies v.mode v.bss_nodes) p
