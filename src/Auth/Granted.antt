-- ===== src/Auth/Granted.antt =====
-- What a login gives: a token that lets its user in until it expires.
use mentis_eterna.Prelude.{
  ==_refl, Bool, Bool-cases, Option, String, ap, arith, false, inl, inr, ltb, none, refl, some, sym,
  true, ℕ, ◌+◌, ◌==◌, ◌||◌, ◌∙◌, ◌≡◌, ◌≤◌, nat_key, string_key,
}
use mentis_eterna.Prelude.Maps.{Map, lookup, insert, lookup-insert}
use mentis_eterna.Throttle.{
  LoginThrottle, allow, record_success, throttle_key_username, throttle_key_ip,
}
use mentis_eterna.Auth.Sessions.{
  AuthReply, AuthState, LoginForm, SessionRow, after_allow, after_check, after_session,
  create_session, day_ns, handle_login, insert_session, logged_in, session_username, to_second,
  validate_session, with_throttle,
}

module _ (convert_large : ℕ → ℕ) (check_password : String → String → Option Bool)
    (trim_space to_lower : String → String) where
  -- If the reply is a token, its row has been added.
  abbrev IsGranted : String → String → ℕ → String → ℕ → AuthReply × AuthState → Type 0
  IsGranted user token now given until (reply, t) =
      reply ≡ logged_in given until
      → (given ≡ token)
        × (until ≡ to_second (now + day_ns))
        × ((m : Map String SessionRow) × (t.sessions
              ≡ insert token (record { username = user; expires_at = to_second (now + day_ns) }) m))

  create-IsGranted :
      (o : Option SessionRow) (user token : String) (now : ℕ) (given : String) (until : ℕ)
      (t : AuthState)
      → IsGranted user token now given until (
          after_session token now t (
            insert_session o token
              (record { username = user; expires_at = to_second (now + day_ns) })
              t.sessions))
  create-IsGranted none user token now given until t h = (cc h, cc h, (t.sessions, refl))
  create-IsGranted (some old) user token now given until t h = absurd (cc h)

  check-IsGranted :
      (o : Option Bool) (user user_key ip_key token : String) (now : ℕ) (given : String) (until : ℕ)
      (t : AuthState)
      → IsGranted user token now given until (
          after_check convert_large check_password trim_space to_lower o user user_key ip_key token
            now t)
  unfolding create_session
  check-IsGranted none user user_key ip_key token now given until t h = absurd (cc h)
  check-IsGranted (some false) user user_key ip_key token now given until t h = absurd (cc h)
  check-IsGranted (some true) user user_key ip_key token now given until t h =
      create-IsGranted (lookup token t.sessions) user token now given until
        (with_throttle (record_success user_key ip_key t.throttle) t) h

  allow-IsGranted :
      (r : (ℕ × Bool) × LoginThrottle) (user password user_key ip_key token : String) (now : ℕ)
      (given : String) (until : ℕ) (s : AuthState)
      → IsGranted user token now given until (
          after_allow convert_large check_password trim_space to_lower r user password user_key
            ip_key token now s)
  allow-IsGranted ((wait, false), throttle) user password user_key ip_key token now given until s
        h =
      absurd (cc h)
  allow-IsGranted ((wait, true), throttle) user password user_key ip_key token now given until s h =
      check-IsGranted (check_password user password) user user_key ip_key token now given until
        (with_throttle throttle s) h

  handle_login-IsGranted :
      (is_post : Bool) (form : LoginForm) (addr token : String) (now : ℕ) (given : String)
      (until : ℕ) (s : AuthState)
      → IsGranted (trim_space form.username) token now given until (
          handle_login convert_large check_password trim_space to_lower is_post form addr token now
            s)
  unfolding handle_login
  handle_login-IsGranted false form addr token now given until s = λ h. absurd (cc h)
  handle_login-IsGranted true form addr token now given until s =
      elim (Bool-cases (trim_space form.username == "" || form.password == "")) [
        | inl e ↦ λ h. absurd (cc (rw e at h))
        | inr e ↦ λ h.
            let user_key = throttle_key_username (to_lower (trim_space form.username)) in
            rw e (
              allow-IsGranted (allow user_key (throttle_key_ip addr) now s.throttle)
                (trim_space form.username) form.password user_key (throttle_key_ip addr) token now
                given until s (rw e at h))
      ]

  -- If a login answers with a token that is not empty, a request with this token as its bearer is let in as the
  -- user of the login until the time in the answer.
  pub session_username-handle_login :
      (is_post : Bool) (form : LoginForm) (addr token given : String) (now until later : ℕ)
      (s : AuthState)
      → let end =
          handle_login convert_large check_password trim_space to_lower is_post form addr token now
            s in
        end.0 ≡ logged_in given until
        → (given == "") ≡ false
        → later ≤ until
        → (session_username (record { bearer = given; cookie = none }) later end.1.sessions).0
          ≡ some (trim_space form.username)
  unfolding session_username validate_session
  session_username-handle_login is_post form addr token given now until later s answer named
        intime =
      let end =
        handle_login convert_large check_password trim_space to_lower is_post form addr token now
          s in
      let (same, ends, (m, grown)) =
        handle_login-IsGranted is_post form addr token now given until s answer in
      let new : SessionRow = record {
        username = trim_space form.username;
        expires_at = to_second (now + day_ns);
      } in
      let row : lookup given end.1.sessions ≡ some new =
        ap (lookup given) grown
        ∙ lookup-insert token given new m
        ∙ rw (sym same) (rw (==_refl given) refl) in
      let current : ltb (to_second (now + day_ns)) later ≡ false = ground (arith, intime, ends) in
      rw named (rw named (rw row (rw current refl)))
