-- ===== src/Throttle/Isolation.antt =====
-- What a recorded login attempt leaves alone, and what a success clears.
use mentis_eterna.Prelude.{
  ℕ, ◌≤◌, String, true, Option, none, some, ◌≡◌, ◌≢◌, refl, ==_refl, ==_ne, string_key, arith,
}
use mentis_eterna.Prelude.Maps.{
  Map, lookup, insert, delete, sweep, unless, lookup-insert, lookup-delete, lookup-sweep,
}
use mentis_eterna.Throttle.{
  ThrottleState, LoginThrottle, zero_state, entry, is_stale, remaining_delay, prune, allow,
  record_failure, record_success,
}

-- An entry that is stale at one time is stale at any later time.
is_stale_mono :
    (now t : ℕ) (s : ThrottleState) → now ≤ t → is_stale now s ≡ true → is_stale t s ≡ true
unfolding is_stale
is_stale_mono now t s le h = ground arith

unless-unless :
    (now t : ℕ) (o : Option ThrottleState)
    → now ≤ t
    → unless (is_stale t) (unless (is_stale now) o) ≡ unless (is_stale t) o
unless-unless now t none le = refl
unless-unless now t (some s) le = ground (arith, is_stale_mono now t s le)

module _ (key other : String) (t : ℕ) (m : Map String ThrottleState) where
  entry_other :
      (s : ThrottleState) (now : ℕ)
      → key ≢ other
      → now ≤ t
      → entry other (sweep (is_stale t) (insert key s (sweep (is_stale now) m)))
        ≡ entry other (sweep (is_stale t) m)
  entry_other s now ne le =
      simp
        (lookup-sweep, lookup-insert, ==_ne key other ne, unless-unless now t (lookup other m) le)

  entry-delete_ne :
      key ≢ other
      → entry other (sweep (is_stale t) (delete key m)) ≡ entry other (sweep (is_stale t) m)
  entry-delete_ne ne = simp (lookup-sweep, lookup-delete, ==_ne key other ne)

entry-delete_self :
    (key : String) (t : ℕ) (m : Map String ThrottleState)
    → entry key (sweep (is_stale t) (delete key m)) ≡ zero_state
entry-delete_self key t m = simp (lookup-sweep, lookup-delete, ==_refl key)

-- A failed login of one user from one address changes no verdict on another user at another address,
-- at any later time.
pub allow-record_failure_ne :
    (convert_large : ℕ → ℕ) (user addr user' addr' : String) (now t : ℕ) (l : LoginThrottle)
    → user ≢ user'
    → addr ≢ addr'
    → now ≤ t
    → (allow user' addr' t (record_failure convert_large user addr now l)).0
      ≡ (allow user' addr' t l).0
unfolding allow record_failure prune
allow-record_failure_ne c user addr user' addr' now t l nu na le =
    simp
      (entry_other user user' t l.username _ now nu le, entry_other addr addr' t l.ip _ now na le)

-- After a success the user may log in from that address at once, whatever failed before, and the
-- verdict on another user at another address is what it was.
allow-record_success :
    (user addr user' addr' : String) (t : ℕ) (l : LoginThrottle)
    → user ≢ user'
    → addr ≢ addr'
    → ((allow user addr t (record_success user addr l)).0 ≡ (0, true))
      × ((allow user' addr' t (record_success user addr l)).0 ≡ (allow user' addr' t l).0)
unfolding allow record_success prune remaining_delay
allow-record_success user addr user' addr' t l nu na = (
  simp (entry-delete_self user t l.username, entry-delete_self addr t l.ip),
  simp (entry-delete_ne user user' t l.username nu, entry-delete_ne addr addr' t l.ip na),
)
