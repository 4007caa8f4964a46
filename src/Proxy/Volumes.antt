-- ===== src/Proxy/Volumes.antt =====
-- volume.rs, the configured volumes, and data_vg_proxy.rs, the checks that a new proxy makes of
-- them. The RPC clients, the timeouts and the text of the errors are not modelled.
pub mod Accepted
pub mod Selection
use fractalbits.Base.{
  ℕ, zero, suc, ◌+◌, ◌%◌, ◌^◌, ◌≤◌, ◌<◌, ◌≡◌, Bool, true, false, not, ◌&&◌, ◌||◌, List, [], ◌∷◌,
  map, ltb, leb, ◌==◌, if◌then◌else◌, length,
}
use fractalbits.Base.Results.{Result, ok, err, ◌>>=◌}
use fractalbits.Proxy.Breaker
use fractalbits.Proxy.Breaker.{CircuitBreaker, CircuitBreakerConfig, default_config}

pub data VolumeMode : Type 0 where
  replicated : ℕ → ℕ → ℕ → VolumeMode
  erasure_coded : ℕ → ℕ → VolumeMode

-- A configured storage node.
pub record NodeInfo : Type 0 where
  pub node_id : List ℕ
  pub ip : List ℕ
  pub port : ℕ

pub record Volume : Type 0 where
  pub volume_id : ℕ
  pub uuid : List ℕ
  pub bss_nodes : List NodeInfo
  pub mode : VolumeMode

abbrev pub ec_volume_id_base : ℕ
ec_volume_id_base = 32768

unfoldable pub is_ec_volume_id : ℕ → Bool
is_ec_volume_id volume_id = leb ec_volume_id_base volume_id && not (volume_id == 65535)

unfoldable pub is_ec : VolumeMode → Bool
is_ec (VolumeMode.replicated n r w) = false
is_ec (VolumeMode.erasure_coded data_shards parity_shards) = true

-- The errors of the storage nodes that the proxy tells apart; any other one is `other`.
pub data RpcError : Type 0 where
  not_found version_skipped mismatch : RpcError
  other : ℕ → RpcError

-- The errors that the modelled operations return.
pub data DataVgError : Type 0 where
  bss_rpc : RpcError → DataVgError
  initialization_error quorum_failure block_not_found internal : DataVgError

pub record BssNode : Type 0 where
  pub address : List ℕ × ℕ
  pub circuit_breaker : CircuitBreaker

pub record VolumeWithNodes : Type 0 where
  pub volume_id : ℕ
  pub bss_nodes : List BssNode
  pub mode : VolumeMode
  pub inflight : ℕ

pub data VolumeSelectionPolicy : Type 0 where
  round_robin least_qd : VolumeSelectionPolicy

pub record DataVgProxy : Type 0 where
  pub volumes : List VolumeWithNodes
  pub round_robin_counter : ℕ
  pub policy : VolumeSelectionPolicy

-- The guards of a volume, in the order of the code. The sum of the shards is one of 32 bits.
unfoldable pub accepts_mode : ℕ → ℕ → VolumeMode → Bool
unfolding is_ec_volume_id
accepts_mode volume_id nodes (VolumeMode.replicated n r w) =
    if r == 0 then false else if w == 0 then false else if ltb nodes w then false else true
accepts_mode volume_id nodes (VolumeMode.erasure_coded data_shards parity_shards) =
    if not (is_ec_volume_id volume_id)
    then false
    else if data_shards == 0
    then false
    else if parity_shards == 0
    then false
    else if leb data_shards parity_shards
    then false
    else if not (nodes == (data_shards + parity_shards) % 2 ^ 32)
    then false
    else true

unfoldable pub new_node : CircuitBreakerConfig → NodeInfo → BssNode
new_node cb_config node = record {
  address = (node.ip, node.port);
  circuit_breaker = Breaker.new cb_config;
}

unfoldable pub open_nodes : CircuitBreakerConfig → List NodeInfo → List BssNode
unfolding new_node
open_nodes cb_config [] = []
open_nodes cb_config (node ∷ rest) = new_node cb_config node ∷ open_nodes cb_config rest

unfoldable pub open_volume : CircuitBreakerConfig → Volume → VolumeWithNodes
unfolding open_nodes
open_volume cb_config v = record {
  volume_id = v.volume_id;
  bss_nodes = open_nodes cb_config v.bss_nodes;
  mode = v.mode;
  inflight = 0;
}

-- The loop over the configured volumes.
unfoldable pub open_volumes :
    CircuitBreakerConfig → List Volume → Result DataVgError (List VolumeWithNodes)
unfolding accepts_mode open_volume
open_volumes cb_config [] = ok []
open_volumes cb_config (v ∷ rest) =
    let more = open_volumes cb_config rest in
    if accepts_mode v.volume_id (length v.bss_nodes) v.mode
    then (more >>= λ vs. ok (open_volume cb_config v ∷ vs))
    else err DataVgError.initialization_error

unfoldable pub new_with_circuit_breaker :
    List Volume → CircuitBreakerConfig → Result DataVgError DataVgProxy
unfolding open_volumes
new_with_circuit_breaker [] cb_config = err DataVgError.initialization_error
new_with_circuit_breaker (v ∷ rest) cb_config = open_volumes cb_config (v ∷ rest) >>= λ volumes.
    ok (record {
      volumes = volumes;
      round_robin_counter = 0;
      policy = VolumeSelectionPolicy.least_qd;
    })

unfoldable pub new : List Volume → Result DataVgError DataVgProxy
unfolding new_with_circuit_breaker
new volumes = new_with_circuit_breaker volumes default_config
