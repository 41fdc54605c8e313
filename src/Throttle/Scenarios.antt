-- ===== src/Throttle/Scenarios.antt =====
-- Runs of the login throttle.
use mentis_eterna.Prelude.{
  ℕ, ◌+◌, ◌-◌, ◌*◌, List, [], ◌∷◌, true, false, ◌≡◌, ◌≢◌, refl, arith, replicate, String, ==→ne,
  string_key,
}
use mentis_eterna.Prelude.Maps.{lookup, insert, sweep, delete}
use mentis_eterna.Throttle.{
  LoginThrottle, new_login_throttle, second, int64_half, is_stale, prune, allow, record_failure,
  next_throttle_state, delay_of, cap_delay, add_time, remaining_delay, retry_after_seconds,
}
use mentis_eterna.Throttle.Isolation.{allow-record_failure_ne}
use mentis_eterna.Throttle.Series.{record_failures, allow-record_failures, allow-wraps}

abbrev amd64 : ℕ → ℕ
amd64 e = int64_half

abbrev start : ℕ
start = 1000 * second

eve-ne-ann : ◌≢◌ {A = String} "eve" "ann"
eve-ne-ann = ==→ne "eve" "ann" refl

addr-ne : ◌≢◌ {A = String} "10.0.0.9" "10.0.0.1"
addr-ne = ==→ne "10.0.0.9" "10.0.0.1" refl

-- Five failures of one user in five seconds.
abbrev four : List ℕ
four = start ∷ (start + second) ∷ (start + 2 * second) ∷ (start + 3 * second) ∷ []

abbrev fifth : ℕ
fifth = start + 4 * second

abbrev five_failed : LoginThrottle
five_failed =
    record_failure amd64 "eve" "10.0.0.9" fifth
      (record_failures amd64 "eve" "10.0.0.9" four new_login_throttle)

five_failed_blocks : (allow "eve" "10.0.0.7" (fifth + 1) five_failed).0 ≡ (2 * second - 1, false)
unfolding allow record_failure prune is_stale next_throttle_state delay_of cap_delay add_time
    remaining_delay lookup insert sweep delete
five_failed_blocks = refl

retry_header : retry_after_seconds (2 * second - 1) ≡ 2
unfolding retry_after_seconds
retry_header = refl

allow-record_failures_example :
    (allow "eve" "10.0.0.9" (fifth + second) five_failed).0 ≡ (second, false)
allow-record_failures_example =
    allow-record_failures amd64 "eve" "10.0.0.9" start four fifth second (omega arith) (omega arith)
      (omega arith)

allow-wraps_example :
    (allow "eve" "10.0.0.9" (start + 1) (
      record_failure amd64 "eve" "10.0.0.9" start
        (record_failures amd64 "eve" "10.0.0.9" (replicate 58 start) new_login_throttle))).0
    ≡ (0, true)
allow-wraps_example =
    allow-wraps amd64 "eve" "10.0.0.9" start (replicate 58 start) start 1 (omega arith) refl
      (λ h. refl) (omega arith)

allow-record_failure_ne_example :
    (allow "ann" "10.0.0.1" fifth (record_failure amd64 "eve" "10.0.0.9" start five_failed)).0
    ≡ (allow "ann" "10.0.0.1" fifth five_failed).0
allow-record_failure_ne_example =
    allow-record_failure_ne amd64 "eve" "10.0.0.9" "ann" "10.0.0.1" start fifth five_failed
      eve-ne-ann addr-ne (omega arith)
