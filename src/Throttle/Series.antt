-- ===== src/Throttle/Series.antt =====
-- A series of failed logins of one user from one address, each within the time to live of the one
-- before it.
use native.Mathlib.Nat.{zero-add, add-zero}
use mentis_eterna.Prelude.{
  ℕ, suc, ◌+◌, ◌-◌, ◌≤◌, String, Bool, true, false, Option, none, some, List, [], ◌∷◌, ◌≡◌, refl,
  ◌∙◌, subst, ltb, leb, ltb→lt, ltb→ge, Bool-cases, inl, inr, length, ==_refl, string_key, arith,
  if◌then◌else◌,
}
use mentis_eterna.Prelude.Maps.{
  Map, lookup, insert, sweep, unless, or_zero, lookup-insert, lookup-sweep,
}
use mentis_eterna.Throttle.{
  ThrottleState, LoginThrottle, zero_state, new_login_throttle, entry, is_stale, remaining_delay,
  first_block, prune, allow, record_failure, next_throttle_state, state_ttl, free_failures,
  int64_half,
}
use mentis_eterna.Throttle.Delay.{
  backoff, wraps, remaining_delay-next_throttle_state, remaining_delay-wraps,
}

-- The stored state after `n` failures, the last of them at `last`.
abbrev pub After : ℕ → ℕ → Option ThrottleState → Type 0
After n last none = n ≡ 0
After n last (some s) =
    (s.failures ≡ n) × (s.last_seen ≡ last) × (n ≤ free_failures → s.blocked_until ≡ 0)

-- The verdict at a distance of `d` from the last of `n` failures.
abbrev pub verdict : ℕ → ℕ → ℕ × Bool
verdict n d =
    if leb n 3
    then (0, true)
    else (if ltb d (backoff (n - 4)) then (backoff (n - 4) - d, false) else (0, true))

-- The times never go back, and no two in a row lie more than the time to live apart.
abbrev pub IsPaced : ℕ → List ℕ → ℕ → Type 0
IsPaced last [] now = (last ≤ now) × (now ≤ last + state_ttl)
IsPaced last (t ∷ ts) now = (last ≤ t) × (t ≤ last + state_ttl) × IsPaced t ts now

abbrev wait : ℕ → ℕ → ℕ × Bool
wait n d =
    if leb n 3
    then (0, false)
    else (if ltb d (backoff (n - 4)) then (backoff (n - 4) - d, true) else (0, false))

first_block-wait : (n d : ℕ) → first_block (wait n d) (wait n d) ≡ verdict n d
first_block-wait n d = ground arith

After-unless :
    (n last now : ℕ) (o : Option ThrottleState)
    → After n last o
    → now ≤ last + state_ttl
    → ((or_zero zero_state (unless (is_stale now) o)).failures ≡ n)
      × (n ≤ free_failures → (or_zero zero_state (unless (is_stale now) o)).blocked_until ≡ 0)
unfolding is_stale
After-unless n last now none h hi = ground arith
After-unless n last now (some s) h hi = ground arith

After-entry :
    (key : String) (n last now : ℕ) (m : Map String ThrottleState)
    → After n last (lookup key m)
    → now ≤ last + state_ttl
    → ((entry key (sweep (is_stale now) m)).failures ≡ n)
      × (n ≤ free_failures → (entry key (sweep (is_stale now) m)).blocked_until ≡ 0)
After-entry key n last now m h hi = rw lookup-sweep (After-unless n last now (lookup key m) h hi)

-- A state that was written at `now` is not swept within its time to live.
unless_fresh :
    (now d : ℕ) (s : ThrottleState)
    → s.last_seen ≡ now
    → d ≤ state_ttl
    → unless (is_stale (now + d)) (some s) ≡ some s
unfolding is_stale
unless_fresh now d s seen near = ground arith

entry_fresh :
    (key : String) (now d : ℕ) (s : ThrottleState) (m : Map String ThrottleState)
    → s.last_seen ≡ now
    → d ≤ state_ttl
    → entry key (sweep (is_stale (now + d)) (insert key s (sweep (is_stale now) m))) ≡ s
entry_fresh key now d s m seen near =
    simp (lookup-sweep, lookup-insert, ==_refl key) (rw (unless_fresh now d s seen near))

module _ (convert_large : ℕ → ℕ) where
  last_seen-next_throttle_state :
      (s : ThrottleState) (now : ℕ) → (next_throttle_state convert_large s now).last_seen ≡ now
  unfolding next_throttle_state
  last_seen-next_throttle_state s now = ground arith

  remaining_delay_free :
      (n now d : ℕ) (s : ThrottleState)
      → s.failures ≡ n
      → s.blocked_until ≡ 0
      → ltb n 3 ≡ true
      → remaining_delay (next_throttle_state convert_large s now) (now + d) ≡ wait (suc n) d
  unfolding remaining_delay next_throttle_state
  remaining_delay_free n now d s f z h = ground arith

  After-next :
      (n last now : ℕ) (o : Option ThrottleState)
      → After n last o
      → last ≤ now
      → now ≤ last + state_ttl
      → After (suc n) now (
          some
            (next_throttle_state convert_large (or_zero zero_state (unless (is_stale now) o)) now))
  unfolding next_throttle_state is_stale
  After-next n last now none h lo hi = ground arith
  After-next n last now (some s) h lo hi = ground arith

  -- What is left at a distance of `d` of the delay that a failure starts.
  remaining_delay_after :
      (n now d : ℕ) (s : ThrottleState)
      → s.failures ≡ n
      → (n ≤ free_failures → s.blocked_until ≡ 0)
      → n ≤ 36
      → remaining_delay (next_throttle_state convert_large s now) (now + d) ≡ wait (suc n) d
  remaining_delay_after n now d s f z hi = elim (Bool-cases (ltb n 3)) [
    | inl few ↦ remaining_delay_free n now d s f (z (omega (arith, ltb→lt n 3 few))) few
    | inr many ↦
        let p =
          remaining_delay-next_throttle_state convert_large s now d (omega (arith, ltb→ge n 3 many))
            (omega arith) in
        ground (arith, p)
  ]

  -- What a further failure at `now` leaves of a delay at a distance of `d`, for every state that
  -- `n` failures can have left.
  abbrev Leaves : ℕ → ℕ → ℕ → ℕ × Bool → Type 0
  Leaves n now d w =
      (s : ThrottleState)
      → s.failures ≡ n
      → (n ≤ free_failures → s.blocked_until ≡ 0)
      → remaining_delay (next_throttle_state convert_large s now) (now + d) ≡ w

  entry-After :
      (key : String) (n last now d : ℕ) (m : Map String ThrottleState) (w : ℕ × Bool)
      → After n last (lookup key m)
      → now ≤ last + state_ttl
      → d ≤ state_ttl
      → Leaves n now d w
      → remaining_delay
          (entry key (
            sweep (is_stale (now + d)) (
              insert key
                (next_throttle_state convert_large (entry key (sweep (is_stale now) m)) now)
                (sweep (is_stale now) m))))
          (now + d)
        ≡ w
  entry-After key n last now d m w h hi near leaves =
      let s = entry key (sweep (is_stale now) m) in
      let (f, z) = After-entry key n last now m h hi in
      rw
        (entry_fresh key now d (next_throttle_state convert_large s now) m
          (last_seen-next_throttle_state s now) near)
        (leaves s f z)

  allow-After :
      (user addr : String) (n last now d : ℕ) (l : LoginThrottle) (w : ℕ × Bool)
      → After n last (lookup user l.username) × After n last (lookup addr l.ip)
      → now ≤ last + state_ttl
      → d ≤ state_ttl
      → Leaves n now d w
      → (allow user addr (now + d) (record_failure convert_large user addr now l)).0
        ≡ first_block w w
  unfolding allow record_failure prune
  allow-After user addr n last now d l w h hi near leaves =
      rw
        (
          entry-After user n last now d l.username w h.0 hi near leaves,
          entry-After addr n last now d l.ip w h.1 hi near leaves,
        )
        refl

  -- A failure of the user from the address at each of the times, in order.
  abbrev pub record_failures : String → String → List ℕ → LoginThrottle → LoginThrottle
  record_failures user addr [] l = l
  record_failures user addr (now ∷ later) l =
      record_failures user addr later (record_failure convert_large user addr now l)

  After-record_failure :
      (user addr : String) (n last now : ℕ) (l : LoginThrottle)
      → After n last (lookup user l.username) × After n last (lookup addr l.ip)
      → last ≤ now
      → now ≤ last + state_ttl
      → After (suc n) now (lookup user (record_failure convert_large user addr now l).username)
        × After (suc n) now (lookup addr (record_failure convert_large user addr now l).ip)
  unfolding record_failure prune
  After-record_failure user addr n last now l h lo hi = (
    simp (lookup-insert, ==_refl user, lookup-sweep)
        (After-next n last now (lookup user l.username) h.0 lo hi),
    simp (lookup-insert, ==_refl addr, lookup-sweep)
        (After-next n last now (lookup addr l.ip) h.1 lo hi),
  )

  allow-After_series :
      (user addr : String) (n last : ℕ) (earlier : List ℕ) (now d : ℕ) (l : LoginThrottle)
      (w : ℕ × Bool)
      → After n last (lookup user l.username) × After n last (lookup addr l.ip)
      → IsPaced last earlier now
      → d ≤ state_ttl
      → Leaves (length earlier + n) now d w
      → (allow user addr
          (now + d)
          (record_failure convert_large user addr now (record_failures user addr earlier l))).0
        ≡ first_block w w
  allow-After_series user addr n last [] now d l w h paced near leaves =
      allow-After user addr n last now d l w h paced.1 near (rw zero-add at leaves)
  allow-After_series user addr n last (t ∷ earlier) now d l w h (lo, hi, paced) near leaves =
      allow-After_series user addr (suc n) t earlier now d
        (record_failure convert_large user addr t l) w
        (After-record_failure user addr n last t l h lo hi) paced near
        (subst (λ k. Leaves k now d w)
          (let e : suc (length earlier) + n ≡ length earlier + suc n = omega arith in e) leaves)

  -- After up to 37 failures of one user from one address, none more than 15 minutes behind the one
  -- before it, a check within 15 minutes of the last one gives the verdict of the policy: the first
  -- three are free, and failure number n blocks for 2^(n - 4) seconds, at most 30.
  pub allow-record_failures :
      (user addr : String) (start : ℕ) (earlier : List ℕ) (now d : ℕ)
      → IsPaced start earlier now
      → length earlier ≤ 36
      → d ≤ state_ttl
      → (allow user addr (now + d) (
          record_failure convert_large user addr now
            (record_failures user addr earlier new_login_throttle))).0
        ≡ verdict (suc (length earlier)) d
  unfolding lookup
  allow-record_failures user addr start earlier now d paced few near =
      allow-After_series user addr 0 start earlier now d new_login_throttle
        (wait (suc (length earlier)) d) (refl, refl) paced near
        (rw add-zero (λ s f z. remaining_delay_after (length earlier) now d s f z few))
      ∙ first_block-wait (suc (length earlier)) d

  -- The doubling overflows int64. After 38, 39, or any number of failures from 59 on, a check at any
  -- time within 15 minutes of the last failure lets the login through, where the conversion of a
  -- float64 that is too large gives the lowest int64 (as on amd64).
  pub allow-wraps :
      (user addr : String) (start : ℕ) (earlier : List ℕ) (now d : ℕ)
      → IsPaced start earlier now
      → wraps (length earlier - 3) ≡ true
      → (63 ≤ length earlier - 3 → convert_large (length earlier - 3) ≡ int64_half)
      → d ≤ state_ttl
      → (allow user addr (now + d) (
          record_failure convert_large user addr now
            (record_failures user addr earlier new_login_throttle))).0
        ≡ (0, true)
  unfolding lookup
  allow-wraps user addr start earlier now d paced over conv near =
      allow-After_series user addr 0 start earlier now d new_login_throttle (0, false) (refl, refl)
        paced near
        (rw add-zero (λ s f z.
          remaining_delay-wraps convert_large s now (now + d) (rw f over) (rw f conv)
            (omega arith)))
