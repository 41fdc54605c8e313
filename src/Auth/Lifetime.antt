-- ===== src/Auth/Lifetime.antt =====
-- Who is let in: every history of logins, logouts and requests.
use mathlib.Core.Bool.{false≢true}
use mathlib.Core.Option.{some-injective}
use mentis_eterna.Prelude.{
  ==→eq, Bool, Bool-cases, List, Option, Option-cases, String, [], ap, arith, false, if◌then◌else◌,
  inl, inr, ltb, none, refl, some, string_key, subst, sym, true, ℕ, ◌&&◌, ◌+◌, ◌==◌, ◌||◌, ◌∙◌, ◌∷◌,
  ◌≡◌, ◌≤◌, ◌⊎◌, nat_key,
}
use mentis_eterna.Prelude.Maps.{Map, lookup, insert, delete, lookup-insert, lookup-delete}
use mentis_eterna.Throttle.{
  LoginThrottle, allow, new_login_throttle, record_success, throttle_key_ip, throttle_key_username,
}
use mentis_eterna.Auth.Sessions.{
  AuthState, Credentials, LoginForm, SessionRow, after_allow, after_check, after_session, check_row,
  create_session, day_ns, delete_session, handle_login, handle_logout, insert_session, require_auth,
  session_token_from_request, session_username, to_second, with_sessions, with_throttle,
}

pub data AuthEvent : Type 0 where
  login_event : Bool → LoginForm → String → String → ℕ → AuthEvent
  logout_event : Bool → Credentials → AuthEvent
  request_event : Credentials → ℕ → AuthEvent

abbrev pub no_sessions : AuthState
no_sessions = record { sessions = []; throttle = new_login_throttle }

at_most_a_day : (t n : ℕ) → n ≤ to_second (t + day_ns) → n ≤ t + day_ns
at_most_a_day t n h = omega arith

-- What is left of a deletion was there, under another token.
left_over :
    (token other : String) (row : SessionRow) (s : AuthState)
    → lookup other (delete token s.sessions) ≡ some row
    → ((token == other) ≡ false) × (lookup other s.sessions ≡ some row)
left_over token other row s found = elim (Bool-cases (token == other)) [
  | inl e ↦ absurd (cc (rw e at (sym (lookup-delete token other s.sessions) ∙ found)))
  | inr e ↦ (e, rw e at (sym (lookup-delete token other s.sessions) ∙ found))
]

module _ (convert_large : ℕ → ℕ) (check_password : String → String → Option Bool)
    (trim_space to_lower : String → String) where
  unfoldable pub apply_event : AuthEvent → AuthState → AuthState
  unfolding handle_login handle_logout require_auth
  apply_event (login_event is_post form addr token now) s =
      (handle_login convert_large check_password trim_space to_lower is_post form addr token now
        s).1
  apply_event (logout_event is_post c) s = with_sessions (handle_logout is_post c s.sessions).1 s
  apply_event (request_event c now) s = with_sessions (require_auth c now s.sessions).1 s

  -- The last event comes first.
  unfoldable pub history : List AuthEvent → AuthState
  unfolding apply_event
  history [] = no_sessions
  history (e ∷ earlier) = apply_event e (history earlier)

  -- A login of the user with the right password got this token, is at most a day old, and no logout with the
  -- token followed it.
  abbrev pub IsEntitled : String → String → ℕ → List AuthEvent → Type 0
  IsEntitled token user now [] = ⊥
  IsEntitled token user now (login_event is_post form addr issued t ∷ earlier) =
      ((issued ≡ token)
        × (trim_space form.username ≡ user)
        × (check_password user form.password ≡ some true)
        × (now ≤ t + day_ns))
      ⊎ IsEntitled token user now earlier
  IsEntitled token user now (logout_event is_post c ∷ earlier) =
      ((is_post && session_token_from_request c == token) ≡ false)
      × IsEntitled token user now earlier
  IsEntitled token user now (request_event c t ∷ earlier) = IsEntitled token user now earlier

  -- Each row stands for a login.
  abbrev IsBacked : List AuthEvent → AuthState → Type 0
  IsBacked events s =
      (token : String) (row : SessionRow) (now : ℕ)
      → (token == "") ≡ false
      → lookup token s.sessions ≡ some row
      → now ≤ row.expires_at
      → IsEntitled token row.username now events

  -- A login leaves the table, or adds a row for the right password.
  abbrev Grows : LoginForm → String → ℕ → AuthState → AuthState → Type 0
  Grows form token now s t =
      (t.sessions ≡ s.sessions)
      ⊎ ((check_password (trim_space form.username) form.password ≡ some true)
          × (t.sessions
              ≡ insert token
                  (record {
                    username = trim_space form.username;
                    expires_at = to_second (now + day_ns);
                  })
                  s.sessions))

  create-Grows :
      (o : Option SessionRow) (form : LoginForm) (token : String) (now : ℕ) (s t : AuthState)
      → t.sessions ≡ s.sessions
      → check_password (trim_space form.username) form.password ≡ some true
      → Grows form token now s
          (after_session token now t (
            insert_session o token
              (record {
                username = trim_space form.username;
                expires_at = to_second (now + day_ns);
              })
              t.sessions)).1
  create-Grows none form token now s t same right = inr (
    right,
    ap
        (insert token
          (record { username = trim_space form.username; expires_at = to_second (now + day_ns) }))
        same,
  )
  create-Grows (some old) form token now s t same right = inl same

  check-Grows :
      (o : Option Bool) (form : LoginForm) (user_key ip_key token : String) (now : ℕ)
      (s t : AuthState)
      → t.sessions ≡ s.sessions
      → check_password (trim_space form.username) form.password ≡ o
      → Grows form token now s
          (after_check convert_large check_password trim_space to_lower o
            (trim_space form.username)
            user_key
            ip_key
            token
            now
            t).1
  unfolding create_session
  check-Grows none form user_key ip_key token now s t same right = inl same
  check-Grows (some false) form user_key ip_key token now s t same right = inl same
  check-Grows (some true) form user_key ip_key token now s t same right =
      create-Grows (lookup token t.sessions) form token now s
        (with_throttle (record_success user_key ip_key t.throttle) t) same right

  allow-Grows :
      (r : (ℕ × Bool) × LoginThrottle) (form : LoginForm) (user_key ip_key token : String) (now : ℕ)
      (s : AuthState)
      → Grows form token now s
          (after_allow convert_large check_password trim_space to_lower r
            (trim_space form.username)
            form.password
            user_key
            ip_key
            token
            now
            s).1
  allow-Grows ((wait, false), throttle) form user_key ip_key token now s = inl refl
  allow-Grows ((wait, true), throttle) form user_key ip_key token now s =
      check-Grows (check_password (trim_space form.username) form.password) form user_key ip_key
        token now s (with_throttle throttle s) refl refl

  handle_login-Grows :
      (is_post : Bool) (form : LoginForm) (addr token : String) (now : ℕ) (s : AuthState)
      → Grows form token now s
          (handle_login convert_large check_password trim_space to_lower is_post form addr token now
            s).1
  unfolding handle_login
  handle_login-Grows false form addr token now s = inl refl
  handle_login-Grows true form addr token now s =
      elim (Bool-cases (trim_space form.username == "" || form.password == "")) [
        | inl e ↦ rw e (inl refl)
        | inr e ↦ rw e (
            allow-Grows
              (allow (throttle_key_username (to_lower (trim_space form.username)))
                (throttle_key_ip addr) now s.throttle)
              form (throttle_key_username (to_lower (trim_space form.username)))
              (throttle_key_ip addr) token now s)
      ]

  IsBacked-login :
      (is_post : Bool) (form : LoginForm) (addr token : String) (now : ℕ) (events : List AuthEvent)
      (s t : AuthState)
      → IsBacked events s
      → Grows form token now s t
      → IsBacked (login_event is_post form addr token now ∷ events) t
  IsBacked-login is_post form addr token now events s t backed (inl same) other row n named found
        intime =
      inr (backed other row n named (ap (lookup other) (sym same) ∙ found) intime)
  IsBacked-login is_post form addr token now events s t backed (inr (right, grown)) other row n
        named found intime =
      let new : SessionRow = record {
        username = trim_space form.username;
        expires_at = to_second (now + day_ns);
      } in
      let at : (if token == other then some new else lookup other s.sessions) ≡ some row =
        sym (lookup-insert token other new s.sessions) ∙ ap (lookup other) (sym grown) ∙ found in
      elim (Bool-cases (token == other)) [
        | inl e ↦
            let same : new ≡ row = some-injective new row (rw e at at) in
            inl (
              ==→eq token other e,
              ap (λ r. r.username) same,
              subst (λ r. check_password r.username form.password ≡ some true) same right,
              at_most_a_day now n (subst (λ r. n ≤ r.expires_at) (sym same) intime),
            )
        | inr e ↦ inr (backed other row n named (rw e at at) intime)
      ]

  IsBacked-delete :
      (token : String) (events : List AuthEvent) (s : AuthState)
      → IsBacked events s
      → IsBacked events (with_sessions (delete token s.sessions) s)
  IsBacked-delete token events s backed other row n named found intime =
      backed other row n named (left_over token other row s found).1 intime

  IsBacked-logout :
      (is_post : Bool) (c : Credentials) (events : List AuthEvent) (s : AuthState)
      → IsBacked events s
      → IsBacked
          (logout_event is_post c ∷ events)
          (with_sessions (handle_logout is_post c s.sessions).1 s)
  unfolding handle_logout delete_session
  IsBacked-logout false c events s backed other row n named found intime =
      (refl, backed other row n named found intime)
  IsBacked-logout true c events s backed other row n named found intime =
      elim (Bool-cases (session_token_from_request c == "")) [
        | inl e ↦
            let apart : (session_token_from_request c == other) ≡ false =
              rw (==→eq (session_token_from_request c) "" e) (
                ground
                  (arith, named, string_key.same_iff "" other, string_key.same_iff other "")) in
            (apart, backed other row n named (rw e at found) intime)
        | inr e ↦
            let (apart, there) =
              left_over (session_token_from_request c) other row s (rw e at found) in
            (apart, backed other row n named there intime)
      ]

  check_row-sessions :
      (o : Option SessionRow) (token : String) (now : ℕ) (m : Map String SessionRow)
      → ((check_row o token now m).1 ≡ m) ⊎ ((check_row o token now m).1 ≡ delete token m)
  check_row-sessions none token now m = inl refl
  check_row-sessions (some row) token now m = elim (Bool-cases (ltb row.expires_at now)) [
    | inl e ↦ inr (rw e refl)
    | inr e ↦ inl (rw e refl)
  ]

  IsBacked-request :
      (c : Credentials) (now : ℕ) (events : List AuthEvent) (s : AuthState)
      → IsBacked events s
      → IsBacked events (with_sessions (require_auth c now s.sessions).1 s)
  unfolding require_auth
  IsBacked-request c now events s backed other row n named found intime =
      elim (Bool-cases (session_token_from_request c == "")) [
        | inl e ↦ backed other row n named (rw e at found) intime
        | inr e ↦
            let token = session_token_from_request c in
            elim (check_row-sessions (lookup token s.sessions) token now s.sessions) [
              | inl same ↦
                  backed other row n named (ap (lookup other) (sym same) ∙ (rw e at found)) intime
              | inr gone ↦
                  backed other row n named
                    (left_over token other row s (ap (lookup other) (sym gone) ∙ (rw e at found))).1
                    intime
            ]
      ]

  history-IsBacked : (events : List AuthEvent) → IsBacked events (history events)
  unfolding history lookup
  history-IsBacked [] = λ token row now named found intime. absurd (cc found)
  history-IsBacked (login_event is_post form addr token now ∷ events) =
      IsBacked-login is_post form addr token now events (history events)
        (handle_login convert_large check_password trim_space to_lower is_post form addr token now
          (history events)).1
        (history-IsBacked events) (handle_login-Grows is_post form addr token now (history events))
  history-IsBacked (logout_event is_post c ∷ events) =
      IsBacked-logout is_post c events (history events) (history-IsBacked events)
  history-IsBacked (request_event c now ∷ events) =
      IsBacked-request c now events (history events) (history-IsBacked events)

  -- After any history of password logins, logouts and requests, a request is let through only if a login with the
  -- right password got its token at most a day ago, and no logout with the token followed.
  pub require_auth-IsEntitled :
      (events : List AuthEvent) (c : Credentials) (now : ℕ)
      → (require_auth c now (history events).sessions).0 ≡ true
      → (user : String) × ((session_username c now (history events).sessions).0 ≡ some user)
        × IsEntitled (session_token_from_request c) user now events
  unfolding require_auth
  require_auth-IsEntitled events c now h =
      let token = session_token_from_request c in
      let sessions = (history events).sessions in
      elim (Bool-cases (token == "")) [
        | inl e ↦ absurd (false≢true (rw e at h))
        | inr e ↦ elim (Option-cases (lookup token sessions)) [
          | inl k ↦ absurd (false≢true (rw k at (rw e at h)))
          | inr (row, k) ↦ elim (Bool-cases (ltb row.expires_at now)) [
            | inl late ↦ absurd (false≢true (rw late at (rw k at (rw e at h))))
            | inr intime ↦ (
              row.username,
              rw e (rw k (rw intime refl)),
              history-IsBacked events token row now e k (ground (arith, intime)),
            )
          ]
        ]
      ]
