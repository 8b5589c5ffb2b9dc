-- ===== src/Auth/Tests/Cookies.antt =====
-- The theorems on cookie_value at concrete headers.
use esp32_web_terminal.Prelude.{
  ℕ, zero, suc, ◌+◌, ◌<◌, ◌≡◌, ◌≢◌, refl, true, false, some, List, [], ◌∷◌, ◌++◌, arith, Bytes,
  codes, All, drop, length, length-drop,
}
use esp32_web_terminal.Auth.Cookie.{
  starts_with, byte_is, at_boundary, value, overread, exhausted, cookie_value, session_name,
  Headers,
}
use esp32_web_terminal.Auth.Sessions.{Session, validate_session}
use esp32_web_terminal.Auth.Sessions.Lookup.{find_session, live}
use esp32_web_terminal.Auth.Request.{session_cookie, check_request, check_request-live}
use esp32_web_terminal.Auth.Cookie.Scan.{starts_with-length, NamedAt, value_at}
use esp32_web_terminal.Auth.Cookie.Find.{cookie_value_ends, cookie_value_sound}
use esp32_web_terminal.Auth.Cookie.Complete.{cookie_value_complete, cookie_value_overread}

abbrev header : Bytes
header = codes "a=1; session=x"

named_pos : 0 < length session_name
named_pos = omega arith

cookie_value_ends_example : cookie_value header session_name ≢ exhausted
cookie_value_ends_example = cookie_value_ends header session_name named_pos

found : cookie_value header session_name ≡ value (codes "x")
unfolding cookie_value
found = refl

cookie_value_sound_example :
    (q : ℕ) × NamedAt header session_name q × (value_at header session_name q ≡ codes "x")
cookie_value_sound_example = cookie_value_sound header session_name (codes "x") named_pos found

abbrev short_header : Bytes
short_header = codes "a; session=x"

session_at_3 : NamedAt short_header session_name 3
session_at_3 = record { boundary = refl; named = unfold starts_with in refl; equals = refl }

name_plain : All (λ c. c ≢ b' ') session_name
name_plain = ground arith

no_bare :
    (q : ℕ)
    → at_boundary short_header q ≡ true
    → starts_with session_name (drop q short_header) ≡ true
    → byte_is short_header (q + length session_name) b'=' ≡ true
unfolding starts_with
no_bare zero b e = absurd cc
no_bare (suc zero) b e = absurd cc
no_bare (suc (suc zero)) b e = absurd cc
no_bare (suc (suc (suc zero))) b e = refl
no_bare (suc (suc (suc (suc zero)))) b e = absurd cc
no_bare (suc (suc (suc (suc (suc zero))))) b e = absurd cc
no_bare (suc (suc (suc (suc (suc (suc q)))))) b e = absurd (
    omega (
      arith,
      starts_with-length session_name (drop (suc (suc (suc (suc (suc (suc q)))))) short_header) e,
      length-drop {0} (suc (suc (suc (suc (suc (suc q)))))) short_header,
    ))

cookie_value_complete_example : (v : Bytes) × (cookie_value short_header session_name ≡ value v)
cookie_value_complete_example =
    cookie_value_complete short_header session_name named_pos name_plain no_bare 3 session_at_3

cookie_value_overread_example : cookie_value (session_name ++ codes ";") session_name ≡ overread
cookie_value_overread_example =
    cookie_value_overread session_name (codes ";") named_pos (omega arith) refl

abbrev browser : Headers
browser = record {
  cookie = session_cookie (codes "x");
  cookie_read = true;
  token_allocated = true;
  authorization = [];
  authorization_read = false;
  copy_allocated = true;
}

x-ne-nil : codes "x" ≢ []
x-ne-nil e = ground arith

x-plain : All (λ b. b ≢ b';') (codes "x")
x-plain = ground arith

abbrev x_session : List Session
x_session = record { token = codes "x"; last_activity = 5; active = true } ∷ []

check_request-live_example :
    check_request 9 browser x_session
    ≡ some (
      live 9 (find_session (codes "x") x_session),
      (validate_session 9 (some (codes "x")) x_session).1,
    )
check_request-live_example =
    check_request-live 9 (codes "x") browser x_session x-ne-nil x-plain refl refl
