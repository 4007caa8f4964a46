-- ===== src/Proxy/Examples.antt =====
-- Each theorem about breakers and volumes at a concrete input.
use fractalbits.Base.{Option, ℕ, ◌≡◌, ◌≢◌, ◌↔◌, true, some, List, [], ◌∷◌, arith, All}
use fractalbits.Base.Results.{ok}
use fractalbits.Proxy.Breaker
use fractalbits.Proxy.Breaker.{
  CircuitBreaker, CircuitState, default_config, is_available, record_success, record_failure,
  IsValid,
}
use fractalbits.Proxy.Breaker.Streaks.{Report, run, HoldsStreak, run-new-opened_iff}
use fractalbits.Proxy.Cohorts.{NodeBlob}
use fractalbits.Proxy.Volumes.{
  VolumeMode, Volume, NodeInfo, DataVgProxy, VolumeWithNodes, VolumeSelectionPolicy,
  new_with_circuit_breaker,
}
use fractalbits.Proxy.Volumes.Accepted.{
  IsOpened, SameVolumes, new_with_circuit_breaker-IsOpened, new_with_circuit_breaker_total,
}
use fractalbits.Proxy.Volumes.Selection.{Draws}

abbrev open_breaker : CircuitBreaker
open_breaker = record {
  state = CircuitState.opened;
  failure_count = 3;
  opened_at = 100;
  config = default_config;
}

open_breaker-IsValid : IsValid open_breaker
open_breaker-IsValid = record {
  threshold_positive = omega arith;
  threshold_word = omega arith;
  below = λ h. cc;
}

abbrev reports : List Report
reports =
    Report.failure 1 ∷ Report.success ∷ Report.failure 2 ∷ Report.failure 3 ∷ Report.failure 4 ∷ []

run-new-opened_iff_example :
    ((run reports (Breaker.new default_config)).state ≡ CircuitState.opened) ↔ HoldsStreak 3 reports
run-new-opened_iff_example = run-new-opened_iff default_config reports (omega arith) (omega arith)

abbrev info : NodeInfo
info = record { node_id = []; ip = []; port = 9000 }

abbrev infos : List Volume
infos =
    record {
      volume_id = 1;
      uuid = [];
      bss_nodes = info ∷ info ∷ info ∷ [];
      mode = VolumeMode.replicated 3 2 2;
    }
    ∷ record {
      volume_id = 32768;
      uuid = [];
      bss_nodes = info ∷ info ∷ info ∷ [];
      mode = VolumeMode.erasure_coded 2 1;
    }
    ∷ []

accepted : (p : DataVgProxy) × (new_with_circuit_breaker infos default_config ≡ ok p)
accepted = new_with_circuit_breaker_total infos default_config (λ e. cc) (omega arith)

abbrev opened_proxy : DataVgProxy
opened_proxy = accepted.0

new_with_circuit_breaker-IsOpened_example :
    (opened_proxy.volumes ≢ [])
    × All (IsOpened default_config) opened_proxy.volumes
    × SameVolumes infos opened_proxy.volumes
new_with_circuit_breaker-IsOpened_example =
    new_with_circuit_breaker-IsOpened infos default_config opened_proxy accepted.1

abbrev volume_at : ℕ → VolumeMode → ℕ → VolumeWithNodes
volume_at id mode inflight = record {
  volume_id = id;
  bss_nodes = [];
  mode = mode;
  inflight = inflight;
}

abbrev proxy : DataVgProxy
proxy = record {
  volumes =
      volume_at 1 (VolumeMode.replicated 3 2 2) 4
      ∷ volume_at 2 (VolumeMode.replicated 3 2 2) 1
      ∷ volume_at 32768 (VolumeMode.erasure_coded 2 1) 0
      ∷ [];
  round_robin_counter = 0;
  policy = VolumeSelectionPolicy.least_qd;
}

abbrev draws : Draws
draws = record { i = 0; j = 0; coin = true }

abbrev shard : ℕ → Option NodeBlob
shard tag = some (record { body = []; cohort_tag = tag })

-- Two data shards and one parity shard, one of them of an older cohort.
abbrev shards : List (Option NodeBlob)
shards = shard 9 ∷ shard 5 ∷ shard 9 ∷ []
