-- ===== src/Gate.antt =====
-- internal/llm/gate.go: one request to a language model behind the gate of its host. Times are
-- milliseconds. The mutex makes each access to the gate one step.
pub mod Attempts
mod Scenarios
use mentis_eterna.Prelude.{
  ℕ, zero, suc, ◌+◌, ◌-◌, Bool, true, false, ◌||◌, Option, none, some, String, max, ltb, leb,
  nat_beq, if◌then◌else◌,
}
use mentis_eterna.Prelude.{string_key}
use mentis_eterna.Prelude.Maps.{Map, lookup, insert}
use mentis_eterna.Prelude.Integers.{ℤ, pos, negsuc}

-- `[llm]`: a number that is not positive switches its knob off.
pub record Knobs : Type 0 where
  pub max_concurrency : ℕ
  pub request_cooldown : ℕ
  pub retry_attempts : ℤ
  pub retry_delay : ℕ

-- The slots in use and the end of the most recent request.
pub record Gate : Type 0 where
  pub in_use : ℕ
  pub last_finish : ℕ

abbrev pub idle : Gate
idle = record { in_use = 0; last_finish = 0 }

abbrev pub or_idle : Option Gate → Gate
or_idle none = idle
or_idle (some g) = g

-- The gate of a host, created on first use.
unfoldable pub gate_for : String → Map String Gate → Gate × Map String Gate
gate_for host gates = (or_idle (lookup host gates), insert host (or_idle (lookup host gates)) gates)

-- What the base transport gives: an error, or a response with its status.
pub data Answer : Type 0 where
  failed : String → Answer
  responded : ℕ → Answer

pub data Failure : Type 0 where
  transport_error rewind_error read_error : String → Failure
  http_error : ℕ → Failure
  request_failed : Failure

pub data Outcome : Type 0 where
  response : ℕ → Outcome
  gave_up : ℕ → Failure → Outcome
  unread : String → Outcome

-- 429 and 5xx.
abbrev pub is_retryable : ℕ → Bool
is_retryable code = nat_beq code 429 || leb 500 code

-- `attempt <= cfg.RetryAttempts`.
abbrev pub tries : ℤ → ℕ
tries (pos n) = suc n
tries (negsuc n) = 0

abbrev pub cause_or : Option Failure → Failure
cause_or none = request_failed
cause_or (some f) = f

-- The first attempt sends the body as it is.
abbrev pub rewind_at : (ℕ → Option String) → ℕ → Option String
rewind_at rewind zero = none
rewind_at rewind (suc k) = rewind (suc k)

abbrev pub pause_at : ℕ → ℕ → ℕ
pause_at delay zero = 0
pause_at delay (suc k) = delay

-- One round: what follows the answer of attempt `k`, where `again` is the rest of the loop.
abbrev pub after_answer : Answer → ℕ → (Failure → Outcome × ℕ) → Outcome × ℕ
after_answer (failed e) now again = again (transport_error e)
after_answer (responded code) now again =
    let rest = again (http_error code) in if is_retryable code then rest else (response code, now)

abbrev pub after_rewind : Option String → ℕ → ℕ → Outcome × ℕ → Outcome × ℕ
after_rewind none k now next = next
after_rewind (some e) k now next = (gave_up (suc k) (rewind_error e), now)

-- The start of a request: the slot, then the wait for the cooldown.
abbrev pub start_time : Knobs → Gate → ℕ → ℕ
start_time cfg g now =
    if ltb 0 cfg.request_cooldown then max now (g.last_finish + cfg.request_cooldown) else now

-- The gate while the request is under way. With all slots in use it waits, until another request ends.
unfoldable pub acquire : Knobs → Gate → Gate
acquire cfg g = if ltb 0 cfg.max_concurrency then record g { in_use = suc g.in_use } else g

-- The deferred function.
unfoldable pub release : Knobs → ℕ → Gate → Gate
release cfg now g = record {
  in_use = if ltb 0 cfg.max_concurrency then g.in_use - 1 else g.in_use;
  last_finish = now;
}

abbrev pub finish : Knobs → Gate → Outcome × ℕ → Outcome × Gate
finish cfg g (outcome, now) = (outcome, release cfg now g)

-- `base` is the transport: what it answers to each attempt, and how long it takes. `rewind` is the
-- error of `GetBody` at an attempt, if there is one.
module _ (base : ℕ → Answer) (takes : ℕ → ℕ) (rewind : ℕ → Option String) where
  -- The attempt loop with so many attempts left, before attempt `k`.
  unfoldable pub attempt_loop : ℕ → ℕ → ℕ → ℕ → Option Failure → Outcome × ℕ
  attempt_loop delay zero k now last = (gave_up k (cause_or last), now)
  attempt_loop delay (suc n) k now last =
      let started = now + pause_at delay k in
      let ended = started + takes k in
      let next = after_answer (base k) ended (λ f. attempt_loop delay n (suc k) ended (some f)) in
      after_rewind (rewind_at rewind k) k started next

  -- `read` is the error of reading a body that cannot be read twice.
  unfoldable pub round_trip : Option String → Knobs → ℕ → Gate → Outcome × Gate
  unfolding attempt_loop acquire release
  round_trip (some e) cfg now g = (unread e, g)
  round_trip none cfg now g =
      finish cfg (acquire cfg g)
        (attempt_loop cfg.retry_delay (tries cfg.retry_attempts) 0 (start_time cfg g now) none)
