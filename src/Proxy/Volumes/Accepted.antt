-- ===== src/Proxy/Volumes/Accepted.antt =====
-- What holds of the volumes of a proxy that was opened.
use fractalbits.Base.{
  ℕ, ◌+◌, ◌%◌, ◌^◌, ◌≤◌, ◌<◌, ◌≡◌, ◌≢◌, refl, subst, true, List, [], ◌∷◌, arith, length, All,
  Bool-cases, inl, inr,
}
use fractalbits.Base.Results.{Result-cases, ok}
use fractalbits.Proxy.Breaker
use fractalbits.Proxy.Breaker.{CircuitBreakerConfig}
use fractalbits.Proxy.Volumes.{
  VolumeSelectionPolicy, VolumeMode, NodeInfo, Volume, BssNode, VolumeWithNodes, DataVgProxy,
  accepts_mode, is_ec_volume_id, new_node, open_nodes, open_volume, open_volumes,
  new_with_circuit_breaker,
}

-- The shape of a volume that the quorum arithmetic of reads and writes relies on.
abbrev pub IsMode : ℕ → ℕ → VolumeMode → Type 0
IsMode volume_id nodes (VolumeMode.replicated n r w) = (0 < r) × (0 < w) × (w ≤ nodes)
IsMode volume_id nodes (VolumeMode.erasure_coded data_shards parity_shards) =
    (32768 ≤ volume_id)
    × (volume_id ≢ 65535)
    × (0 < parity_shards)
    × (parity_shards < data_shards)
    × (nodes ≡ (data_shards + parity_shards) % 2 ^ 32)

pub record IsOpened (cb_config : CircuitBreakerConfig) (v : VolumeWithNodes) : Type 0 where
  pub mode : IsMode v.volume_id (length v.bss_nodes) v.mode
  pub idle : v.inflight ≡ 0
  pub closed : All (λ (n : BssNode). n.circuit_breaker ≡ Breaker.new cb_config) v.bss_nodes

accepts_mode→IsMode :
    (volume_id nodes : ℕ) (m : VolumeMode)
    → accepts_mode volume_id nodes m ≡ true
    → IsMode volume_id nodes m
unfolding accepts_mode is_ec_volume_id
accepts_mode→IsMode volume_id nodes (VolumeMode.replicated n r w) h = ground arith
accepts_mode→IsMode volume_id nodes (VolumeMode.erasure_coded k m) h = ground arith

length-open_nodes :
    (cb_config : CircuitBreakerConfig) (nodes : List NodeInfo)
    → length (open_nodes cb_config nodes) ≡ length nodes
unfolding open_nodes
length-open_nodes cb_config [] = refl
length-open_nodes cb_config (n ∷ rest) = omega (arith, length-open_nodes cb_config rest)

open_nodes-closed :
    (cb_config : CircuitBreakerConfig) (nodes : List NodeInfo)
    → All (λ (n : BssNode). n.circuit_breaker ≡ Breaker.new cb_config) (open_nodes cb_config nodes)
unfolding open_nodes new_node
open_nodes-closed cb_config [] = tt
open_nodes-closed cb_config (n ∷ rest) = (refl, open_nodes-closed cb_config rest)

open_volume-IsOpened :
    (cb_config : CircuitBreakerConfig) (v : Volume)
    → accepts_mode v.volume_id (length v.bss_nodes) v.mode ≡ true
    → IsOpened cb_config (open_volume cb_config v)
unfolding open_volume
open_volume-IsOpened cb_config v h = record {
  mode =
      rw (length-open_nodes cb_config v.bss_nodes)
        (accepts_mode→IsMode v.volume_id (length v.bss_nodes) v.mode h);
  idle = refl;
  closed = open_nodes-closed cb_config v.bss_nodes;
}

-- A node for each configured node, in order and with its address.
abbrev pub SameNodes : List NodeInfo → List BssNode → Type 0
SameNodes [] [] = Unit {0}
SameNodes [] (n ∷ ns) = ⊥
SameNodes (info ∷ infos) [] = ⊥
SameNodes (info ∷ infos) (n ∷ ns) = (n.address ≡ (info.ip, info.port)) × SameNodes infos ns

open_nodes-SameNodes :
    (cb_config : CircuitBreakerConfig) (nodes : List NodeInfo)
    → SameNodes nodes (open_nodes cb_config nodes)
unfolding open_nodes new_node
open_nodes-SameNodes cb_config [] = tt
open_nodes-SameNodes cb_config (n ∷ rest) = (refl, open_nodes-SameNodes cb_config rest)

-- A volume for each configured volume, in order, with its id, its mode and its nodes.
abbrev pub SameVolumes : List Volume → List VolumeWithNodes → Type 0
SameVolumes [] [] = Unit {0}
SameVolumes [] (v ∷ vs) = ⊥
SameVolumes (info ∷ infos) [] = ⊥
SameVolumes (info ∷ infos) (v ∷ vs) =
    (info.volume_id ≡ v.volume_id)
    × (info.mode ≡ v.mode)
    × SameNodes info.bss_nodes v.bss_nodes
    × SameVolumes infos vs

open_volumes-IsOpened :
    (cb_config : CircuitBreakerConfig) (infos : List Volume) (vs : List VolumeWithNodes)
    → open_volumes cb_config infos ≡ ok vs
    → All (IsOpened cb_config) vs × SameVolumes infos vs
unfolding open_volumes
open_volumes-IsOpened cb_config [] [] h = (tt, tt)
open_volumes-IsOpened cb_config [] (v ∷ vs) h = cc
open_volumes-IsOpened cb_config (info ∷ infos) vs h =
    elim (Bool-cases (accepts_mode info.volume_id (length info.bss_nodes) info.mode)) [
      | inl t ↦ elim (Result-cases (open_volumes cb_config infos)) [
        | inl (e, f) ↦ absurd (ground (arith, t, f, h))
        | inr (rest, f) ↦
            let (opened, same) = open_volumes-IsOpened cb_config infos rest f in
            let all : open_volume cb_config info ∷ rest ≡ vs = ground (arith, t, f, h) in
            let same_nodes = open_nodes-SameNodes cb_config info.bss_nodes in
            subst (λ ws. All (IsOpened cb_config) ws × SameVolumes (info ∷ infos) ws) all
              (
                (open_volume-IsOpened cb_config info t, opened),
                unfold open_volume in (refl, refl, same_nodes, same),
              )
      ]
      | inr f ↦ absurd (ground (arith, f, h))
    ]

-- A proxy that was opened has at least one volume; each volume has the shape that its quorums
-- rely on, no write in flight and closed breakers, and it has the id, the mode and the addresses of
-- the nodes, in order, of the volume configured at its place.
pub new_with_circuit_breaker-IsOpened :
    (infos : List Volume) (cb_config : CircuitBreakerConfig) (p : DataVgProxy)
    → new_with_circuit_breaker infos cb_config ≡ ok p
    → (p.volumes ≢ []) × All (IsOpened cb_config) p.volumes × SameVolumes infos p.volumes
unfolding new_with_circuit_breaker
new_with_circuit_breaker-IsOpened [] cb_config p h = cc
new_with_circuit_breaker-IsOpened (info ∷ infos) cb_config p h =
    elim (Result-cases (open_volumes cb_config (info ∷ infos))) [
      | inl (e, f) ↦ absurd (ground (arith, f, h))
      | inr (vs, f) ↦
          let (opened, same) = open_volumes-IsOpened cb_config (info ∷ infos) vs f in
          let volumes : p.volumes ≡ vs = ground (arith, f, h) in
          rw volumes (not_empty vs same, opened, same)
    ]
  where
    not_empty : (vs : List VolumeWithNodes) → SameVolumes (info ∷ infos) vs → vs ≢ []
    not_empty [] s e = absurd s
    not_empty (v ∷ vs) s e = cc

IsMode→accepts_mode :
    (volume_id nodes : ℕ) (m : VolumeMode)
    → IsMode volume_id nodes m
    → accepts_mode volume_id nodes m ≡ true
unfolding accepts_mode is_ec_volume_id
IsMode→accepts_mode volume_id nodes (VolumeMode.replicated n r w) h = ground arith
IsMode→accepts_mode volume_id nodes (VolumeMode.erasure_coded k m) h = ground arith

open_volumes_total :
    (cb_config : CircuitBreakerConfig) (infos : List Volume)
    → All (λ (v : Volume). IsMode v.volume_id (length v.bss_nodes) v.mode) infos
    → (vs : List VolumeWithNodes) × (open_volumes cb_config infos ≡ ok vs)
unfolding open_volumes
open_volumes_total cb_config [] h = ([], refl)
open_volumes_total cb_config (info ∷ infos) h =
    let (vs, e) = open_volumes_total cb_config infos h.1 in
    let accepted = IsMode→accepts_mode info.volume_id (length info.bss_nodes) info.mode h.0 in
    (open_volume cb_config info ∷ vs, ground (arith, e, accepted))

-- Every list of volumes that is not empty and has that shape is accepted.
pub new_with_circuit_breaker_total :
    (infos : List Volume) (cb_config : CircuitBreakerConfig)
    → infos ≢ []
    → All (λ (v : Volume). IsMode v.volume_id (length v.bss_nodes) v.mode) infos
    → (p : DataVgProxy) × (new_with_circuit_breaker infos cb_config ≡ ok p)
unfolding new_with_circuit_breaker
new_with_circuit_breaker_total [] cb_config some_volume h = absurd (some_volume refl)
new_with_circuit_breaker_total (info ∷ infos) cb_config some_volume h =
    let (vs, e) = open_volumes_total cb_config (info ∷ infos) h in
    (
      record { volumes = vs; round_robin_counter = 0; policy = VolumeSelectionPolicy.least_qd },
      ground (arith, e),
    )
