-- ===== src/Auth/Scenarios.antt =====
-- A user who logs in, uses the session and logs out.
use mentis_eterna.Prelude.{
  Bool, List, Option, String, [], arith, false, none, refl, some, true, ℕ, ◌&&◌, ◌==◌, ◌∷◌, ◌≡◌,
  nat_key, string_key,
}
use mentis_eterna.Prelude.Maps.{sweep, lookup, insert, delete}
use mentis_eterna.Throttle.{remaining_delay, prune}
use mentis_eterna.Auth.Sessions.{
  Credentials, LoginForm, handle_login, logged_in, require_auth, session_username,
}
use mentis_eterna.Auth.Lifetime.{
  AuthEvent, IsEntitled, history, login_event, logout_event, no_sessions, require_auth-IsEntitled,
}
use mentis_eterna.Auth.Granted.{session_username-handle_login}

-- One account; the library's functions leave these texts as they are.
abbrev knows : String → String → Option Bool
knows user password = some (user == "admin" && password == "secret")

abbrev as_it_is : String → String
as_it_is text = text

abbrev no_conversion : ℕ → ℕ
no_conversion n = 0

abbrev form : LoginForm
form = record { username = "admin"; password = "secret" }

abbrev logged : List AuthEvent
logged = login_event true form "10.0.0.1" "t1" 5_000_000_000 ∷ []

abbrev bearer : Credentials
bearer = record { bearer = "t1"; cookie = none }

logged_in_passes :
    (require_auth bearer 6_000_000_000
      (history no_conversion knows as_it_is as_it_is logged).sessions).0
    ≡ true
unfolding require_auth history lookup insert delete sweep remaining_delay prune
logged_in_passes = refl

logged_out_fails :
    (require_auth bearer 6_000_000_000
      (history no_conversion knows as_it_is as_it_is
        (logout_event true bearer ∷ logged)).sessions).0
    ≡ false
unfolding require_auth history lookup insert delete sweep remaining_delay prune
logged_out_fails = refl

require_auth-IsEntitled_example :
    (user : String) × ((session_username bearer 6_000_000_000
        (history no_conversion knows as_it_is as_it_is logged).sessions).0
      ≡ some user)
    × IsEntitled no_conversion knows as_it_is as_it_is "t1" user 6_000_000_000 logged
require_auth-IsEntitled_example =
    require_auth-IsEntitled no_conversion knows as_it_is as_it_is logged bearer 6_000_000_000
      logged_in_passes

answered :
    (handle_login no_conversion knows as_it_is as_it_is true form "10.0.0.1" "t1" 5_000_000_000
      no_sessions).0
    ≡ logged_in "t1" 86_405_000_000_000
unfolding handle_login lookup delete sweep remaining_delay prune
answered = refl

session_username-handle_login_example :
    (session_username
      (record { bearer = "t1"; cookie = none })
      6_000_000_000
      (handle_login no_conversion knows as_it_is as_it_is true form "10.0.0.1" "t1" 5_000_000_000
        no_sessions).1.sessions).0
    ≡ some "admin"
session_username-handle_login_example =
    session_username-handle_login no_conversion knows as_it_is as_it_is true form "10.0.0.1" "t1"
      "t1" 5_000_000_000 86_405_000_000_000 6_000_000_000 no_sessions answered refl (omega arith)
