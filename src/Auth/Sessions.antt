-- ===== src/Auth/Sessions.antt =====
-- Logins and sessions of internal/server/auth.go on the table of internal/db/auth.go. A time is a number of
-- nanoseconds, as in the throttle.
use mentis_eterna.Prelude.{
  ◌/◌, Bool, Option, String, false, if◌then◌else◌, ltb, none, not, some, true, ℕ, ◌*◌, ◌+◌, ◌==◌,
  ◌||◌, nat_key, string_key,
}
use mentis_eterna.Prelude.Maps.{Map, lookup, insert, delete}
use mentis_eterna.Throttle.{
  LoginThrottle, allow, record_failure, record_success, throttle_key_username, throttle_key_ip,
}

-- A row of `sessions` without its token, which is the key.
pub record SessionRow : Type 0 where
  pub username : String
  pub expires_at : ℕ

pub record AuthState : Type 0 where
  pub sessions : Map String SessionRow
  pub throttle : LoginThrottle

pub record LoginForm : Type 0 where
  pub username : String
  pub password : String

pub data AuthReply : Type 0 where
  status : ℕ → AuthReply
  retry_after : ℕ → AuthReply
  logged_in : String → ℕ → AuthReply
  session_of : String → AuthReply

-- The header of a request: the bearer token, and the cookie if there is one.
pub record Credentials : Type 0 where
  pub bearer : String
  pub cookie : Option String

abbrev pub day_ns : ℕ
day_ns = 24 * 60 * 60 * 1_000_000_000

-- The table and the reply keep a time to the second.
abbrev pub second_ns : ℕ
second_ns = 1_000_000_000

abbrev pub to_second : ℕ → ℕ
to_second t = t / second_ns * second_ns

abbrev pub with_sessions : Map String SessionRow → AuthState → AuthState
with_sessions sessions s = record s { sessions = sessions }

abbrev pub with_throttle : LoginThrottle → AuthState → AuthState
with_throttle throttle s = record s { throttle = throttle }

-- `CreateSession` with a random token: the key refuses one that is there.
abbrev pub insert_session :
    Option SessionRow → String → SessionRow → Map String SessionRow → Option (Map String SessionRow)
insert_session none token row sessions = some (insert token row sessions)
insert_session (some old) token row sessions = none

unfoldable pub create_session :
    String → String → ℕ → Map String SessionRow → Option (Map String SessionRow)
create_session token user now sessions =
    insert_session (lookup token sessions) token
      (record { username = user; expires_at = to_second (now + day_ns) }) sessions

-- `DeleteSession`: whether there was one.
abbrev pub is_there : Option SessionRow → Bool
is_there none = false
is_there (some row) = true

unfoldable pub delete_session : String → Map String SessionRow → Bool × Map String SessionRow
delete_session token sessions = (is_there (lookup token sessions), delete token sessions)

abbrev pub check_row :
    Option SessionRow → String → ℕ → Map String SessionRow → Option String × Map String SessionRow
check_row none token now sessions = (none, sessions)
check_row (some row) token now sessions =
    if ltb row.expires_at now then (none, delete token sessions) else (some row.username, sessions)

-- `ValidateSession`, which deletes an expired session.
unfoldable pub validate_session :
    String → ℕ → Map String SessionRow → Option String × Map String SessionRow
validate_session token now sessions = check_row (lookup token sessions) token now sessions

abbrev pub or_no_cookie : Option String → String
or_no_cookie none = ""
or_no_cookie (some value) = value

abbrev pub session_token_from_request : Credentials → String
session_token_from_request c = if c.bearer == "" then or_no_cookie c.cookie else c.bearer

-- `sessionUsername`: the user, if the session is valid.
unfoldable pub session_username :
    Credentials → ℕ → Map String SessionRow → Option String × Map String SessionRow
unfolding validate_session
session_username c now sessions =
    let token = session_token_from_request c in
    if token == "" then (none, sessions) else validate_session token now sessions

-- `requireAuth`: whether the wrapped handler runs, and the table that it finds.
abbrev pub is_some_user : Option String → Bool
is_some_user none = false
is_some_user (some user) = true

unfoldable pub require_auth : Credentials → ℕ → Map String SessionRow → Bool × Map String SessionRow
unfolding session_username
require_auth c now sessions =
    let found = session_username c now sessions in (is_some_user found.0, found.1)

abbrev pub session_reply : Option String → AuthReply
session_reply none = status 401
session_reply (some user) = session_of user

unfoldable pub handle_session :
    Bool → Credentials → ℕ → Map String SessionRow → AuthReply × Map String SessionRow
unfolding session_username
handle_session is_get c now sessions =
    let found = session_username c now sessions in
    if not is_get then (status 405, sessions) else (session_reply found.0, found.1)

unfoldable pub handle_logout :
    Bool → Credentials → Map String SessionRow → AuthReply × Map String SessionRow
unfolding delete_session
handle_logout is_post c sessions =
    let token = session_token_from_request c in
    if not is_post
    then (status 405, sessions)
    else if token == ""
    then (status 204, sessions)
    else (status 204, (delete_session token sessions).1)

abbrev pub after_session :
    String → ℕ → AuthState → Option (Map String SessionRow) → AuthReply × AuthState
after_session token now s none = (status 500, s)
after_session token now s (some sessions) =
    (logged_in token (to_second (now + day_ns)), with_sessions sessions s)

-- `check_password` compares with the stored hash, or fails; `trimmed` and `lower` are the library's, and
-- `convert_large` is that of the throttle.
module _ (convert_large : ℕ → ℕ) (check_password : String → String → Option Bool)
    (trim_space to_lower : String → String) where
  abbrev pub after_check :
      Option Bool → String → String → String → String → ℕ → AuthState → AuthReply × AuthState
  after_check none user user_key ip_key token now s = (status 500, s)
  after_check (some false) user user_key ip_key token now s =
      (status 401, with_throttle (record_failure convert_large user_key ip_key now s.throttle) s)
  after_check (some true) user user_key ip_key token now s =
      let cleared = with_throttle (record_success user_key ip_key s.throttle) s in
      after_session token now cleared (create_session token user now s.sessions)

  abbrev pub after_allow :
      (ℕ × Bool) × LoginThrottle
      → String
      → String
      → String
      → String
      → String
      → ℕ
      → AuthState
      → AuthReply × AuthState
  after_allow ((wait, false), throttle) user password user_key ip_key token now s =
      (retry_after wait, with_throttle throttle s)
  after_allow ((wait, true), throttle) user password user_key ip_key token now s =
      after_check (check_password user password) user user_key ip_key token now
        (with_throttle throttle s)

  -- `handleLogin`; no form is one that is no JSON.
  abbrev pub login : LoginForm → String → String → ℕ → AuthState → AuthReply × AuthState
  login form addr token now s =
      let user = trim_space form.username in
      let user_key = throttle_key_username (to_lower user) in
      let ip_key = throttle_key_ip addr in
      if user == "" || form.password == ""
      then (status 400, s)
      else after_allow (allow user_key ip_key now s.throttle) user form.password user_key ip_key
          token now s

  unfoldable pub handle_login :
      Bool → LoginForm → String → String → ℕ → AuthState → AuthReply × AuthState
  unfolding create_session allow record_failure record_success throttle_key_username throttle_key_ip
  handle_login is_post form addr token now s =
      if not is_post then (status 405, s) else login form addr token now s
