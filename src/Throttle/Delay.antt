-- ===== src/Throttle/Delay.antt =====
-- The delay that a failure starts, in the arithmetic of int64 nanoseconds.
use native.Mathlib.Nat.{pow-suc}
use mentis_eterna.Prelude.{
  ℕ, zero, suc, ◌+◌, ◌-◌, ◌*◌, ◌%◌, ◌^◌, ◌≤◌, ◌<◌, min, Bool, true, false, not, ◌||◌, ◌≡◌, refl, ap,
  ◌∙◌, Bool-cases, inl, inr, ltb, leb, ltb→lt, ltb→ge, nat_beq, nat_beq_iff, passes, passes_at,
  arith, if◌then◌else◌,
}
use mentis_eterna.Throttle.{
  ThrottleState, second, max_delay, int64_mod, int64_half, cap_delay, add_time, remaining_delay,
  delay_of, next_throttle_state,
}

-- The back-off that is meant: it doubles with each failure, up to the cap.
abbrev pub backoff : ℕ → ℕ
backoff e = min (2 ^ e * second) max_delay

-- Exponents whose product is negative or zero in int64.
abbrev pub wraps : ℕ → Bool
wraps e = nat_beq e 34 || nat_beq e 35 || leb 55 e

abbrev not_positive : ℕ → Bool
not_positive w = nat_beq w 0 || leb int64_half w

ge→ltb : (a b : ℕ) → b ≤ a → ltb a b ≡ false
ge→ltb a b h = ground arith

or_lem : (a b : Bool) → a ≡ true → (not a || b) ≡ true → b ≡ true
or_lem a b h k = ground arith

wraps_ge : (s : ThrottleState) → wraps (s.failures - 3) ≡ true → 3 ≤ s.failures
wraps_ge s h = ground arith

pow_pos : (e : ℕ) → 0 < 2 ^ e
pow_pos zero = omega arith
pow_pos (suc e) = rw (pow-suc 2 e) (omega (arith, pow_pos e))

module _ (convert_large : ℕ → ℕ) where
  exact_table : passes (λ e. nat_beq (cap_delay (delay_of convert_large e)) (backoff e)) 0 34 ≡ true
  unfolding passes cap_delay delay_of
  exact_table = refl

  pub cap_delay-delay_of : (e : ℕ) → e ≤ 33 → cap_delay (delay_of convert_large e) ≡ backoff e
  cap_delay-delay_of e h =
      (nat_beq_iff _ _).0 (passes_at _ 0 34 e exact_table (omega arith) (omega arith))

  wrap_table : passes (λ e. not (wraps e) || not_positive (delay_of convert_large e)) 0 63 ≡ true
  unfolding passes delay_of
  wrap_table = refl

  -- Past int64 the conversion on amd64 gives its lowest value, and the product vanishes.
  delay_of_large : (e : ℕ) → 63 ≤ e → convert_large e ≡ int64_half → delay_of convert_large e ≡ 0
  unfolding delay_of
  delay_of_large e h c = rw (ge→ltb e 63 h) (ap (λ (w : ℕ). (w * second) % int64_mod) c)

  delay_of-wraps :
      (e : ℕ)
      → wraps e ≡ true
      → (63 ≤ e → convert_large e ≡ int64_half)
      → not_positive (delay_of convert_large e) ≡ true
  delay_of-wraps e h c = elim (Bool-cases (ltb e 63)) [
    | inl small ↦
        or_lem (wraps e) _ h
          (passes_at _ 0 63 e wrap_table (omega arith) (omega (arith, ltb→lt e 63 small)))
    | inr large ↦ rw (delay_of_large e (ltb→ge e 63 large) (c (ltb→ge e 63 large))) refl
  ]

-- A delay that is not positive blocks nobody, at any later time.
remaining_delay_none :
    (now t w : ℕ) (s : ThrottleState)
    → not_positive w ≡ true
    → now ≤ t
    → s.blocked_until ≡ add_time now (cap_delay w)
    → remaining_delay s t ≡ (0, false)
unfolding remaining_delay add_time cap_delay
remaining_delay_none now t w s h le b = ground arith

backoff_pos : (e : ℕ) → 0 < backoff e
backoff_pos e = omega (arith, pow_pos e)

-- A positive delay blocks until it has passed.
remaining_delay_some :
    (now d b : ℕ) (s : ThrottleState)
    → 0 < b
    → s.blocked_until ≡ now + b
    → remaining_delay s (now + d) ≡ (if ltb d b then (b - d, true) else (0, false))
unfolding remaining_delay
remaining_delay_some now d b s pos e = ground arith

add_time_pos : (now b : ℕ) → b < int64_half → add_time now b ≡ now + b
unfolding add_time
add_time_pos now b h = ground arith

module _ (convert_large : ℕ → ℕ) where
  pub blocked_until-next_throttle_state :
      (s : ThrottleState) (now : ℕ)
      → 3 ≤ s.failures
      → (next_throttle_state convert_large s now).blocked_until
        ≡ add_time now (cap_delay (delay_of convert_large (s.failures - 3)))
  unfolding next_throttle_state
  blocked_until-next_throttle_state s now h =
      let e : s.failures + 1 - 3 - 1 ≡ s.failures - 3 = omega arith in
      let t : ltb 3 (s.failures + 1) ≡ true = ground arith in rw (t, e) refl

  -- A failure with 3 to 36 failures before it blocks its key for the back-off of its number, exactly.
  pub remaining_delay-next_throttle_state :
      (s : ThrottleState) (now d : ℕ)
      → 3 ≤ s.failures
      → s.failures ≤ 36
      → remaining_delay (next_throttle_state convert_large s now) (now + d) ≡ (
          if ltb d (backoff (s.failures - 3))
          then (backoff (s.failures - 3) - d, true)
          else (0, false))
  remaining_delay-next_throttle_state s now d lo hi =
      let e = s.failures - 3 in
      remaining_delay_some now d (backoff e) (next_throttle_state convert_large s now)
        (backoff_pos e)
        (blocked_until-next_throttle_state s now lo
          ∙ ap (add_time now) (cap_delay-delay_of convert_large e (omega arith))
          ∙ add_time_pos now (backoff e) (omega arith))

  -- After 38, 39 or at least 59 failures the delay is not positive, so the key is never blocked.
  pub remaining_delay-wraps :
      (s : ThrottleState) (now t : ℕ)
      → wraps (s.failures - 3) ≡ true
      → (63 ≤ s.failures - 3 → convert_large (s.failures - 3) ≡ int64_half)
      → now ≤ t
      → remaining_delay (next_throttle_state convert_large s now) t ≡ (0, false)
  remaining_delay-wraps s now t w c le =
      let e = s.failures - 3 in
      remaining_delay_none now t (delay_of convert_large e)
        (next_throttle_state convert_large s now) (delay_of-wraps convert_large e w c) le
        (blocked_until-next_throttle_state s now (wraps_ge s w))
