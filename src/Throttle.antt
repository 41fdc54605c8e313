-- ===== src/Throttle.antt =====
-- internal/server/login_throttle.go: the back-off of failed logins, by user name and by address.
-- A `time.Time` is its distance from Go's zero time in nanoseconds, so `IsZero` is a test for 0.
-- A `time.Duration` is the bit pattern of its int64, whose upper half stands for negative values.
-- The mutex makes each operation one step; the clock's reading `l.now()` is an argument.
pub mod Delay
pub mod Isolation
pub mod Series
mod Scenarios
use mentis_eterna.Prelude.{
  ℕ, zero, suc, ◌+◌, ◌-◌, ◌*◌, ◌/◌, ◌%◌, ◌^◌, String, Bool, true, false, not, ◌&&◌, ◌||◌, Option,
  none, some, ltb, leb, nat_beq, ◌==◌, string_key, if◌then◌else◌, [],
}
use mentis_eterna.Prelude.Maps.{Map, or_zero, lookup, insert, delete, sweep}

abbrev pub second : ℕ
second = 1_000_000_000

abbrev pub free_failures : ℕ
free_failures = 3

abbrev pub max_delay : ℕ
max_delay = 30 * second

abbrev pub state_ttl : ℕ
state_ttl = 15 * 60 * second

pub record ThrottleState : Type 0 where
  pub failures : ℕ
  pub blocked_until : ℕ
  pub last_seen : ℕ

-- The zero value, which a read of a missing key gives.
abbrev pub zero_state : ThrottleState
zero_state = record { failures = 0; blocked_until = 0; last_seen = 0 }

pub record LoginThrottle : Type 0 where
  pub username : Map String ThrottleState
  pub ip : Map String ThrottleState

abbrev pub new_login_throttle : LoginThrottle
new_login_throttle = record { username = []; ip = [] }

abbrev pub int64_mod : ℕ
int64_mod = 2 ^ 64

abbrev pub int64_half : ℕ
int64_half = 2 ^ 63

-- `delay > loginThrottleMaxDelay` on bit patterns: a negative delay is not above the cap.
unfoldable pub cap_delay : ℕ → ℕ
cap_delay w = if ltb w int64_half && ltb max_delay w then max_delay else w

-- `t.Add(d)`. A negative duration goes back.
unfoldable pub add_time : ℕ → ℕ → ℕ
add_time t w = if ltb w int64_half then t + w else t - (int64_mod - w)

-- `now.Sub(state.LastSeen) > loginThrottleStateTTL`. The difference saturates at the ends of
-- int64, which lie on the same side of the limit as the exact value.
unfoldable pub is_stale : ℕ → ThrottleState → Bool
is_stale now s = ltb state_ttl (now - s.last_seen)

-- The wait that is left at `now`, and whether there is one.
unfoldable pub remaining_delay : ThrottleState → ℕ → ℕ × Bool
remaining_delay s now =
    if nat_beq s.blocked_until 0 || not (ltb now s.blocked_until)
    then (0, false)
    else (s.blocked_until - now, true)

unfoldable pub prune : ℕ → LoginThrottle → LoginThrottle
prune now l = record { username = sweep (is_stale now) l.username; ip = sweep (is_stale now) l.ip }

abbrev pub entry : String → Map String ThrottleState → ThrottleState
entry key m = or_zero zero_state (lookup key m)

abbrev pub first_block : ℕ × Bool → ℕ × Bool → ℕ × Bool
first_block (wait, true) other = (wait, false)
first_block (_, false) (wait, true) = (wait, false)
first_block (_, false) (_, false) = (0, true)

-- The state is pruned, and the verdict is a wait and whether the login may go on.
unfoldable pub allow : String → String → ℕ → LoginThrottle → (ℕ × Bool) × LoginThrottle
allow user addr now l =
    let l' = prune now l in
    (
      first_block (remaining_delay (entry user l'.username) now)
          (remaining_delay (entry addr l'.ip) now),
      l',
    )

unfoldable pub record_success : String → String → LoginThrottle → LoginThrottle
record_success user addr l = record { username = delete user l.username; ip = delete addr l.ip }

unfoldable pub throttle_key_username : String → String
throttle_key_username name = if name == "" then "<empty>" else name

unfoldable pub throttle_key_ip : String → String
throttle_key_ip addr = if addr == "" then "<unknown>" else addr

-- The number that `formatRetryAfter` prints, for a wait of `wait` nanoseconds that is not negative.
unfoldable pub retry_after_seconds : ℕ → ℕ
retry_after_seconds wait =
    let seconds = (wait + second - 1) / second in if ltb seconds 1 then 1 else seconds

-- `time.Duration(f)` for a float64 that int64 does not hold is left to the platform: the section's
-- parameter gives its bit pattern for the power of two with that exponent.
module _ (convert_large : ℕ → ℕ) where
  -- `time.Duration(math.Pow(2, exponent)) * time.Second`, a product modulo 2^64.
  unfoldable pub delay_of : ℕ → ℕ
  delay_of exponent =
      let whole = if ltb exponent 63 then 2 ^ exponent else convert_large exponent in
      (whole * second) % int64_mod

  unfoldable pub next_throttle_state : ThrottleState → ℕ → ThrottleState
  next_throttle_state s now =
      let n = s.failures + 1 in
      if ltb free_failures n
      then record {
        failures = n;
        blocked_until = add_time now (cap_delay (delay_of (n - free_failures - 1)));
        last_seen = now;
      }
      else record s { failures = n; last_seen = now }

  unfoldable pub record_failure : String → String → ℕ → LoginThrottle → LoginThrottle
  record_failure user addr now l =
      let l' = prune now l in
      record {
        username = insert user (next_throttle_state (entry user l'.username) now) l'.username;
        ip = insert addr (next_throttle_state (entry addr l'.ip) now) l'.ip;
      }
