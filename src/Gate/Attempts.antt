-- ===== src/Gate/Attempts.antt =====
-- Which attempt answers a request, and how the gate is left.
use mentis_eterna.Prelude.{
  ℕ, zero, suc, ◌+◌, ◌≤◌, ◌<◌, Bool, true, false, Option, none, some, String, ltb, nat_beq,
  Bool-cases, Option-cases, inl, inr, ◌⊎◌, ◌≡◌, refl, ap, ◌∙◌, subst, arith,
}
use mentis_eterna.Gate.{
  Knobs, Gate, Answer, failed, responded, Failure, transport_error, http_error, Outcome, response,
  gave_up, unread, is_retryable, tries, rewind_at, pause_at, after_answer, attempt_loop, start_time,
  acquire, release, round_trip,
}

-- An answer after which the loop goes on.
abbrev pub is_retried : Answer → Bool
is_retried (failed e) = true
is_retried (responded code) = is_retryable code

module _ (base : ℕ → Answer) (takes : ℕ → ℕ) (rewind : ℕ → Option String) where
  -- What an outcome says of the attempts from `k` on, of which there were at most `n`: a response is that
  -- of the first attempt with a final answer; the loop gives up only when all attempts have been made or
  -- the body cannot be sent again, and no attempt made had a final answer.
  abbrev pub Explains : ℕ → ℕ → Outcome → Type 0
  Explains n k (response code) =
      (j : ℕ) × (k ≤ j)
      × (j < k + n)
      × (base j ≡ responded code)
      × (is_retryable code ≡ false)
      × ((i : ℕ) → k ≤ i → i < j → is_retried (base i) ≡ true)
  Explains n k (gave_up m f) =
      (made : ℕ) × (m ≤ k + n)
      × ((i : ℕ) → k ≤ i → i < made → is_retried (base i) ≡ true)
      × (((made ≡ m) × (m ≡ k + n))
          ⊎ ((suc made ≡ m) × ((e : String) × (rewind_at rewind made ≡ some e))))
  Explains n k (unread e) = ⊥

  retried_from :
      (k j : ℕ)
      → is_retried (base k) ≡ true
      → ((i : ℕ) → suc k ≤ i → i < j → is_retried (base i) ≡ true)
      → (i : ℕ) → k ≤ i
      → i < j
      → is_retried (base i) ≡ true
  retried_from k j h later i lo hi = elim (Bool-cases (nat_beq i k)) [
    | inl e ↦ let same : k ≡ i = ground arith in subst (λ x. is_retried (base x) ≡ true) same h
    | inr n ↦ later i (ground arith) hi
  ]

  Explains-suc :
      (n k : ℕ) (o : Outcome)
      → is_retried (base k) ≡ true
      → Explains n (suc k) o
      → Explains (suc n) k o
  Explains-suc n k (response code) h (j, lo, hi, b, r, later) =
      (j, omega arith, omega arith, b, r, retried_from k j h later)
  Explains-suc n k (gave_up m f) h (made, le, later, why) = (
    made,
    omega arith,
    retried_from k made h later,
    elim why [ inl (e, a) ↦ inl (e, omega arith) | inr x ↦ inr x ],
  )
  Explains-suc n k (unread e) h x = x

  after_answer-Explains :
      (n k ended : ℕ) (a : Answer) (again : Failure → Outcome × ℕ)
      → base k ≡ a
      → ((f : Failure) → Explains n (suc k) (again f).0)
      → Explains (suc n) k (after_answer a ended again).0
  after_answer-Explains n k ended (failed e) again b h =
      Explains-suc n k (again (transport_error e)).0 (ap is_retried b) (h (transport_error e))
  after_answer-Explains n k ended (responded code) again b h =
      elim (Bool-cases (is_retryable code)) [
        | inl r ↦ rw r (
            Explains-suc n k (again (http_error code)).0 (ap is_retried b ∙ r)
              (h (http_error code)))
        | inr r ↦ rw r (k, omega arith, omega arith, b, r, λ i lo hi. absurd (omega arith))
      ]

  attempt_loop-Explains :
      (delay n k now : ℕ) (last : Option Failure)
      → Explains n k (attempt_loop base takes rewind delay n k now last).0
  unfolding attempt_loop
  attempt_loop-Explains delay zero k now last =
      (k, omega arith, λ i lo hi. absurd (omega arith), inl (refl, omega arith))
  attempt_loop-Explains delay (suc n) k now last = elim (Option-cases (rewind_at rewind k)) [
    | inr (e, r) ↦ rw r (k, omega arith, λ i lo hi. absurd (omega arith), inr (refl, (e, r)))
    | inl r ↦
        let ended = now + pause_at delay k + takes k in
        rw r (
          after_answer-Explains n k ended (base k)
            (λ f. attempt_loop base takes rewind delay n (suc k) ended (some f)) refl
            (λ f. attempt_loop-Explains delay n (suc k) ended (some f)))
  ]

  answered_later :
      (a : Answer) (now ended : ℕ) (again : Failure → Outcome × ℕ)
      → now ≤ ended
      → ((f : Failure) → ended ≤ (again f).1)
      → now ≤ (after_answer a ended again).1
  answered_later (failed e) now ended again le h = omega (arith, h (transport_error e))
  answered_later (responded code) now ended again le h = ground (arith, h (http_error code))

  attempt_loop-later :
      (delay n k now : ℕ) (last : Option Failure)
      → now ≤ (attempt_loop base takes rewind delay n k now last).1
  unfolding attempt_loop
  attempt_loop-later delay zero k now last = omega arith
  attempt_loop-later delay (suc n) k now last =
      let ended = now + pause_at delay k + takes k in
      let later = λ (f : Failure). attempt_loop-later delay n (suc k) ended (some f) in
      elim (Option-cases (rewind_at rewind k)) [
        | inr (e, r) ↦ rw r (omega arith)
        | inl r ↦ rw r (
            answered_later (base k) now ended
              (λ f. attempt_loop base takes rewind delay n (suc k) ended (some f)) (omega arith)
              later)
      ]

  -- A request is answered by the first attempt with a final answer, an error 4xx other than 429 among
  -- them; it gives up only when the configured attempts are made or the body cannot be sent again. On
  -- every path the slot is given back, and the end of the request is noted, which comes at least the
  -- cooldown behind the end of the one before.
  pub round_trip-Explains :
      (cfg : Knobs) (now : ℕ) (g : Gate)
      → let r = round_trip base takes rewind none cfg now g in
        Explains (tries cfg.retry_attempts) 0 r.0
        × (r.1.in_use ≡ g.in_use)
        × (now ≤ r.1.last_finish)
        × (cfg.request_cooldown ≡ 0 ⊎ g.last_finish + cfg.request_cooldown ≤ r.1.last_finish)
  unfolding round_trip acquire release
  round_trip-Explains cfg now g =
      let start = start_time cfg g now in
      let late = attempt_loop-later cfg.retry_delay (tries cfg.retry_attempts) 0 start none in
      (
        attempt_loop-Explains cfg.retry_delay (tries cfg.retry_attempts) 0 start none,
        ground arith,
        ground (arith, late),
        elim (Bool-cases (ltb 0 cfg.request_cooldown)) [
          | inl on ↦ inr (ground (arith, late))
          | inr off ↦ inl (ground arith)
        ],
      )
