-- ===== src/Proxy/Breaker.antt =====
-- data_vg_proxy.rs, the circuit breaker of a storage node. Its atomic cells are its fields, and a
-- clock reading in nanoseconds is an argument of each operation that takes one. Operations run one
-- at a time, so the `compare_exchange` of `is_available` succeeds.
pub mod Streaks
pub mod Probes
use fractalbits.Base.{
  ℕ, ◌+◌, ◌-◌, ◌%◌, ◌^◌, ◌≤◌, ◌<◌, ◌≡◌, Bool, true, false, leb, if◌then◌else◌, List, [], ◌∷◌,
}

pub record CircuitBreakerConfig : Type 0 where
  pub failure_threshold : ℕ
  pub open_duration : ℕ

abbrev pub default_config : CircuitBreakerConfig
default_config = record { failure_threshold = 3; open_duration = 30000000000 }

pub data CircuitState : Type 0 where
  closed opened half_open : CircuitState

pub record CircuitBreaker : Type 0 where
  pub state : CircuitState
  pub failure_count : ℕ
  pub opened_at : ℕ
  pub config : CircuitBreakerConfig

unfoldable pub new : CircuitBreakerConfig → CircuitBreaker
new config = record {
  state = CircuitState.closed;
  failure_count = 0;
  opened_at = 0;
  config = config;
}

-- Whether a request may go to the node, and the breaker after the check.
unfoldable pub is_available : ℕ → CircuitBreaker → Bool × CircuitBreaker
is_available now cb = elim cb.state [
  | CircuitState.closed ↦ (true, cb)
  | CircuitState.opened ↦
      if leb cb.config.open_duration (now - cb.opened_at)
      then (true, record cb { state = CircuitState.half_open })
      else (false, cb)
  | CircuitState.half_open ↦ (true, cb)
]

unfoldable pub record_success : CircuitBreaker → CircuitBreaker
record_success cb = elim cb.state [
  | CircuitState.half_open ↦ record cb { state = CircuitState.closed; failure_count = 0 }
  | CircuitState.closed ↦ record cb { failure_count = 0 }
  | CircuitState.opened ↦ cb
]

-- `fetch_add` on the 32-bit counter wraps around.
unfoldable pub record_failure : ℕ → CircuitBreaker → CircuitBreaker
record_failure now cb = elim cb.state [
  | CircuitState.closed ↦
      let count = (cb.failure_count + 1) % 2 ^ 32 in
      if leb cb.config.failure_threshold count
      then record cb { failure_count = count; state = CircuitState.opened; opened_at = now }
      else record cb { failure_count = count }
  | CircuitState.half_open ↦ record cb { state = CircuitState.opened; opened_at = now }
  | CircuitState.opened ↦ record cb { opened_at = now }
]

-- A closed breaker has not yet counted up to its threshold.
pub record IsValid (cb : CircuitBreaker) : Type 0 where
  pub threshold_positive : 0 < cb.config.failure_threshold
  pub threshold_word : cb.config.failure_threshold < 2 ^ 32
  pub below : cb.state ≡ CircuitState.closed → cb.failure_count < cb.config.failure_threshold
