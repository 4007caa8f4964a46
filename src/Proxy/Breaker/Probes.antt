-- ===== src/Proxy/Breaker/Probes.antt =====
-- The breaker keeps requests away while it is open, and lets one failed probe reopen it.
use fractalbits.Base.{ℕ, ◌-◌, ◌≤◌, ◌<◌, ◌≡◌, refl, true, false, arith}
use fractalbits.Proxy.Breaker.{
  CircuitBreaker, CircuitState, is_available, record_success, record_failure, IsValid,
}

-- Every operation keeps the breaker valid: its threshold is positive and fits in 32 bits, and
-- while it is closed its count is below the threshold.
pub operations-IsValid :
    (cb : CircuitBreaker) (now : ℕ)
    → IsValid cb
    → IsValid (is_available now cb).1
      × IsValid (record_success cb)
      × IsValid (record_failure now cb)
unfolding is_available record_success record_failure
operations-IsValid cb now v = go cb.state refl
  where
    go :
        (s : CircuitState)
        → cb.state ≡ s
        → IsValid (is_available now cb).1
          × IsValid (record_success cb)
          × IsValid (record_failure now cb)
    go CircuitState.closed e = ground (arith, v.below)
    go CircuitState.opened e = ground (arith, v.below)
    go CircuitState.half_open e = ground (arith, v.below)

-- An open breaker refuses a request until its time is over and stays as it is; from then on it lets
-- a probe through, whose success closes the breaker with a fresh count and whose failure opens it
-- again from the time of that failure.
pub probe_cycle :
    (cb : CircuitBreaker) (now later : ℕ)
    → cb.state ≡ CircuitState.opened
    → (now - cb.opened_at < cb.config.open_duration → is_available now cb ≡ (false, cb))
      × (cb.config.open_duration ≤ now - cb.opened_at
          → ((is_available now cb).0 ≡ true)
            × (record_success (is_available now cb).1
                ≡ record cb { state = CircuitState.closed; failure_count = 0 })
            × (record_failure later (is_available now cb).1 ≡ record cb { opened_at = later }))
unfolding is_available record_success record_failure
probe_cycle cb now later e =
    (λ h. ground (arith, e), λ h. (ground (arith, e), ground (arith, e), ground (arith, e)))
