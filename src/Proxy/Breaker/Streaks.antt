-- ===== src/Proxy/Breaker/Streaks.antt =====
-- The breaker opens exactly on a streak of failures.
use fractalbits.Base.{
  ap, ◌∙◌, ◌+◌, ◌^◌, ◌≤◌, ◌<◌, ◌↔◌, ◌⊎◌, inl, inr, ◌++◌, if◌then◌else◌, length, ℕ, zero, suc, ◌≡◌,
  refl, Bool, true, false, List, [], ◌∷◌, arith,
}
use fractalbits.Proxy.Breaker.{
  new, CircuitBreakerConfig, CircuitBreaker, CircuitState, record_success, record_failure, IsValid,
}

-- What a request tells of its node.
pub data Report : Type 0 where
  success : Report
  failure : ℕ → Report

unfoldable pub note : Report → CircuitBreaker → CircuitBreaker
unfolding record_success record_failure
note Report.success cb = record_success cb
note (Report.failure now) cb = record_failure now cb

unfoldable pub run : List Report → CircuitBreaker → CircuitBreaker
unfolding note
run [] cb = cb
run (r ∷ rs) cb = run rs (note r cb)

-- `n` failures in a row stand at the head of the reports, or `t` of them further on.
abbrev pub has_streak : ℕ → ℕ → List Report → Bool
has_streak t zero rs = true
has_streak t (suc n) [] = false
has_streak t (suc n) (Report.success ∷ rs) = has_streak t t rs
has_streak t (suc n) (Report.failure _ ∷ rs) = has_streak t n rs

run_opened :
    (rs : List Report) (cb : CircuitBreaker)
    → cb.state ≡ CircuitState.opened
    → (run rs cb).state ≡ CircuitState.opened
unfolding run
run_opened [] cb e = e
run_opened (r ∷ rs) cb e = run_opened rs (note r cb) (still r)
  where
    still : (r : Report) → (note r cb).state ≡ CircuitState.opened
    still Report.success = unfold note record_success in ground (arith, e)
    still (Report.failure now) = unfold note record_failure in ground (arith, e)

-- A closed breaker that lacks `n` failures opens exactly if they come, or a whole streak later.
run-closed :
    (rs : List Report) (cb : CircuitBreaker) (n : ℕ)
    → IsValid cb
    → cb.state ≡ CircuitState.closed
    → 0 < n
    → n + cb.failure_count ≡ cb.config.failure_threshold
    → (run rs cb).state ≡ (
        if has_streak cb.config.failure_threshold n rs
        then CircuitState.opened
        else CircuitState.closed)
unfolding run note
run-closed [] cb (suc n) v e pos h = e
run-closed rs cb zero v e pos h = absurd (omega arith)
run-closed (Report.success ∷ rs) cb (suc n) v e pos h =
    let next : record_success cb ≡ record cb { failure_count = 0 } =
      unfold record_success in ground (arith, e) in
    ap (λ (c : CircuitBreaker). (run rs c).state) next
    ∙ (run-closed rs (record cb { failure_count = 0 }) cb.config.failure_threshold
        (record {
          threshold_positive = v.threshold_positive;
          threshold_word = v.threshold_word;
          below = λ _. v.threshold_positive;
        })
        e v.threshold_positive (omega arith))
run-closed (Report.failure now ∷ rs) cb (suc zero) v e pos h =
    let next : (record_failure now cb).state ≡ CircuitState.opened =
      unfold record_failure in ground (arith, e, v.threshold_word) in
    run_opened rs (record_failure now cb) next
run-closed (Report.failure now ∷ rs) cb (suc (suc n)) v e pos h =
    let next : record_failure now cb ≡ record cb { failure_count = cb.failure_count + 1 } =
      unfold record_failure in ground (arith, e, v.threshold_word) in
    ap (λ (c : CircuitBreaker). (run rs c).state) next
    ∙ (run-closed rs (record cb { failure_count = cb.failure_count + 1 }) (suc n)
        (record {
          threshold_positive = v.threshold_positive;
          threshold_word = v.threshold_word;
          below = λ _. omega arith;
        })
        e (omega arith) (omega arith))

abbrev pub failures : List ℕ → List Report
failures [] = []
failures (t ∷ ts) = Report.failure t ∷ failures ts

-- `t` failures in a row, somewhere.
abbrev pub HoldsStreak : ℕ → List Report → Type 0
HoldsStreak t rs =
    (before : List Report) × (times : List ℕ) × (after : List Report) × (rs
      ≡ before ++ (failures times ++ after))
    × (length times ≡ t)

abbrev StartsStreak : ℕ → List Report → Type 0
StartsStreak n rs =
    (times : List ℕ) × (after : List Report) × (rs ≡ failures times ++ after) × (length times ≡ n)

has_streak_sound :
    (t n : ℕ) (rs : List Report) → has_streak t n rs ≡ true → StartsStreak n rs ⊎ HoldsStreak t rs
has_streak_sound t zero rs h = inl ([], rs, refl, refl)
has_streak_sound t (suc n) [] h = cc
has_streak_sound t (suc n) (Report.success ∷ rs) h = elim (has_streak_sound t t rs h) [
  | inl (times, after, e, l) ↦ inr (Report.success ∷ [], times, after, rw e refl, l)
  | inr (before, times, after, e, l) ↦ inr (Report.success ∷ before, times, after, rw e refl, l)
]
has_streak_sound t (suc n) (Report.failure now ∷ rs) h = elim (has_streak_sound t n rs h) [
  | inl (times, after, e, l) ↦ inl (now ∷ times, after, rw e refl, rw l refl)
  | inr (before, times, after, e, l) ↦ inr (Report.failure now ∷ before, times, after, rw e refl, l)
]

has_streak_mono :
    (t m n : ℕ) (rs : List Report) → m ≤ n → has_streak t n rs ≡ true → has_streak t m rs ≡ true
has_streak_mono t zero n rs le h = refl
has_streak_mono t (suc m) zero rs le h = absurd (omega arith)
has_streak_mono t (suc m) (suc n) [] le h = h
has_streak_mono t (suc m) (suc n) (Report.success ∷ rs) le h = h
has_streak_mono t (suc m) (suc n) (Report.failure now ∷ rs) le h =
    has_streak_mono t m n rs (omega arith) h

has_streak-failures :
    (t : ℕ) (times : List ℕ) (after : List Report)
    → has_streak t (length times) (failures times ++ after) ≡ true
has_streak-failures t [] after = refl
has_streak-failures t (now ∷ times) after = has_streak-failures t times after

has_streak-append :
    (t n : ℕ) (before rs : List Report)
    → n ≤ t
    → has_streak t t rs ≡ true
    → has_streak t n (before ++ rs) ≡ true
has_streak-append t n [] rs le h = has_streak_mono t n t rs le h
has_streak-append t zero (r ∷ before) rs le h = refl
has_streak-append t (suc n) (Report.success ∷ before) rs le h =
    has_streak-append t t before rs (omega arith) h
has_streak-append t (suc n) (Report.failure now ∷ before) rs le h =
    has_streak-append t n before rs (omega arith) h

-- For a positive 32-bit threshold: a new breaker that is not probed in between opens exactly if
-- the reports hold as many failures in a row as the threshold says; a success in between starts
-- the count again.
pub run-new-opened_iff :
    (config : CircuitBreakerConfig) (rs : List Report)
    → 0 < config.failure_threshold
    → config.failure_threshold < 2 ^ 32
    → ((run rs (new config)).state ≡ CircuitState.opened) ↔ HoldsStreak config.failure_threshold rs
run-new-opened_iff config rs pos word = (there, back)
  where
    t : ℕ
    t = config.failure_threshold

    valid : IsValid (new config)
    valid =
        unfold new in record { threshold_positive = pos; threshold_word = word; below = λ _. pos }

    state : (run rs (new config)).state ≡ (
        if has_streak config.failure_threshold config.failure_threshold rs
        then CircuitState.opened
        else CircuitState.closed)
    state =
        unfold new in
        run-closed rs (new config) config.failure_threshold valid refl pos (omega arith)

    there :
        (run rs (new config)).state ≡ CircuitState.opened → HoldsStreak config.failure_threshold rs
    there h =
        elim (has_streak_sound config.failure_threshold config.failure_threshold rs
          (ground (arith, h, state))) [
            | inl (times, after, e, l) ↦ ([], times, after, e, l)
            | inr found ↦ found
          ]

    back :
        HoldsStreak config.failure_threshold rs → (run rs (new config)).state ≡ CircuitState.opened
    back (before, times, after, e, l) =
        let first = has_streak-failures config.failure_threshold times after in
        let here = rw l at first in
        let all =
          has_streak-append config.failure_threshold config.failure_threshold before
            (failures times ++ after) (omega arith) here in
        ground (arith, state, e, all)
