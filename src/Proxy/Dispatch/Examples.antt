-- ===== src/Proxy/Dispatch/Examples.antt =====
-- A write to two of three nodes, and a read behind it.
use fractalbits.Base.{ℕ, ◌≡◌, refl, ◌≢◌, none, some, [], ◌∷◌, arith, ltb, length}
use fractalbits.Base.Results.{Result, ok, err}
use fractalbits.Proxy.Breaker
use fractalbits.Proxy.Breaker.{default_config, is_available}
use fractalbits.Proxy.Volumes.{
  RpcError, DataVgError, VolumeMode, BssNode, VolumeWithNodes, VolumeSelectionPolicy, DataVgProxy,
}
use fractalbits.Proxy.Volumes.Selection.{find_volume}
use fractalbits.Proxy.Replicated.{Reply, PutBlobOutcome}
use fractalbits.Proxy.Replicated.Writes.{Acks}
use fractalbits.Proxy.Erasure.Reads.{Arrivals}
use fractalbits.Proxy.Dispatch.{Externals, ReplicatedArrivals, put_blob, get_blob}
use fractalbits.Proxy.Dispatch.ReadBack.{put_blob-get_blob}

abbrev node : BssNode
node = record { address = ([], 9000); circuit_breaker = Breaker.new default_config }

abbrev volume : VolumeWithNodes
volume = record {
  volume_id = 1;
  bss_nodes = node ∷ node ∷ node ∷ [];
  mode = VolumeMode.replicated 3 2 2;
  inflight = 0;
}

abbrev proxy : DataVgProxy
proxy = record {
  volumes = volume ∷ [];
  round_robin_counter = 0;
  policy = VolumeSelectionPolicy.least_qd;
}

abbrev externals : Externals
externals = record {
  rs_encode = λ k m shards. none;
  rs_decode = λ k m data_ parity. none;
  xxh3 = λ b. length b;
  crc32 = λ b. length b;
}

abbrev clock : ℕ → ℕ
clock _ = 10

abbrev reply : {A : Type 0} → ℕ → Result RpcError A → Reply A
reply i a = record { position = i; now = 20; answer = a }

abbrev writes : Acks
writes =
    reply 1 (ok tt) ∷ reply 0 (err (RpcError.other 1)) ∷ reply 2 (err RpcError.version_skipped) ∷ []

abbrev fetched : ReplicatedArrivals
fetched = record {
  clock = clock;
  fast = reply 0 (err RpcError.not_found);
  later_clock = clock;
  replies = reply 0 (err RpcError.not_found) ∷ reply 2 (ok (7 ∷ [])) ∷ [];
}

abbrev shards : Arrivals
shards = record {
  clock = clock;
  parity_clock = clock;
  repair_clock = clock;
  events = [];
  replies = [];
  repaired = [];
}

written :
    (put_blob externals 1 [] (7 ∷ []) clock writes proxy).0 ≡ ok PutBlobOutcome.already_present
unfolding put_blob is_available Breaker.new
written = refl

found : find_volume proxy.volumes 1 ≡ some volume
unfolding find_volume
found = refl

put_blob-get_blob_example :
    (get_blob externals 1 [] 1 fetched shards proxy).0 ≢ some (err DataVgError.block_not_found)
put_blob-get_blob_example =
    put_blob-get_blob externals 1 [] (7 ∷ []) 1 (λ i. ltb 0 i) clock writes fetched shards proxy
      proxy volume volume PutBlobOutcome.already_present found found refl refl (omega arith)
      (
        omega arith,
        omega arith,
        (omega arith, omega arith),
        (omega arith, omega arith),
        ((refl, (refl, tt)), (refl, tt)),
      )
      written
