-- ===== src/Gate/Scenarios.antt =====
-- A request that is answered at the second attempt.
use mentis_eterna.Prelude.{ℕ, zero, suc, ◌≤◌, Option, none, String, ◌⊎◌, ◌≡◌, refl}
use mentis_eterna.Prelude.Integers.{pos}
use mentis_eterna.Gate.{
  Knobs, Gate, Answer, responded, response, gave_up, http_error, attempt_loop, acquire, release,
  round_trip,
}
use mentis_eterna.Gate.Attempts.{Explains, round_trip-Explains}

abbrev knobs : Knobs
knobs = record {
  max_concurrency = 1;
  request_cooldown = 50;
  retry_attempts = pos 2;
  retry_delay = 10;
}

abbrev gate : Gate
gate = record { in_use = 0; last_finish = 100 }

abbrev busy_once : ℕ → Answer
busy_once zero = responded 503
busy_once (suc k) = responded 404

abbrev never_ready : ℕ → Answer
never_ready k = responded 429

abbrev five : ℕ → ℕ
five k = 5

abbrev rewinds : ℕ → Option String
rewinds k = none

second_answer :
    round_trip busy_once five rewinds none knobs 120 gate
    ≡ (response 404, record { in_use = 0; last_finish = 170 })
unfolding round_trip attempt_loop acquire release
second_answer = refl

three_tries :
    (round_trip never_ready five rewinds none knobs 120 gate).0 ≡ gave_up 3 (http_error 429)
unfolding round_trip attempt_loop
three_tries = refl

round_trip-Explains_example :
    let r = round_trip busy_once five rewinds none knobs 120 gate in
    Explains busy_once five rewinds 3 0 r.0
    × (r.1.in_use ≡ 0)
    × (120 ≤ r.1.last_finish)
    × (knobs.request_cooldown ≡ 0 ⊎ 150 ≤ r.1.last_finish)
round_trip-Explains_example = round_trip-Explains busy_once five rewinds knobs 120 gate
