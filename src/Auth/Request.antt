-- ===== src/Auth/Request.antt =====
-- main/auth.c: auth_check_request, from the headers of a request to the session that it uses.
use esp32_web_terminal.Prelude.{
  ℕ, suc, ◌+◌, ◌≡◌, ◌≢◌, refl, sym, ◌∙◌, ◌⊎◌, inl, inr, Bool, true, false, Option, none, some, List,
  [], ◌∷◌, Bytes, ltb, length, ◌&&◌, All, ◌++◌, arith, ap, ◌==◌,
}
use esp32_web_terminal.Auth.Sessions.{Session, validate_session}
use esp32_web_terminal.Auth.Sessions.Lookup.{
  find_session, live, validate_session-live, validate_session_others,
}
use esp32_web_terminal.Auth.Cookie.{
  CookieScan, value, absent, overread, exhausted, Headers, token_from_request, session_name, until,
  cookie_value, cookie_loop,
}

-- auth_validate_session of the token found, a token being NULL where none is; no result where the
-- search read past a header.
unfoldable pub check_token : ℕ → CookieScan → List Session → Option (Bool × List Session)
check_token now (value token) ss = some (validate_session now (some token) ss)
check_token now absent ss = some (validate_session now none ss)
check_token now overread ss = none
check_token now exhausted ss = none

unfoldable pub check_request : ℕ → Headers → List Session → Option (Bool × List Session)
unfolding check_token
check_request now r ss = check_token now (token_from_request r) ss

-- The sessions of all tokens but the one that was found are as before.
abbrev pub OthersKept : CookieScan → List Session → List Session → Type 0
OthersKept scan ss ss' =
    (other : Bytes) → scan ≢ value other → find_session other ss' ≡ find_session other ss

-- A request is not answered only where its header is read past the end.
abbrev pub Checked : CookieScan → List Session → Option (Bool × List Session) → Type 0
Checked scan ss none = (scan ≡ overread) ⊎ (scan ≡ exhausted)
Checked scan ss (some (authed, ss')) = OthersKept scan ss ss'

check_token-Checked :
    (now : ℕ) (scan : CookieScan) (ss : List Session) → Checked scan ss (check_token now scan ss)
unfolding check_token
check_token-Checked now (value token) ss =
    λ other ne. validate_session_others now token other ss (λ e. ne (ap value (sym e)))
check_token-Checked now absent ss = λ other ne. unfold validate_session in refl
check_token-Checked now overread ss = inl refl
check_token-Checked now exhausted ss = inr refl

-- A check of a request touches no session but that of its token.
pub check_request-Checked :
    (now : ℕ) (r : Headers) (ss : List Session)
    → Checked (token_from_request r) ss (check_request now r ss)
unfolding check_request
check_request-Checked now r ss = check_token-Checked now (token_from_request r) ss

until-All : (c : ℕ) (t : Bytes) → All (λ b. b ≢ c) t → until c t ≡ t
unfolding until
until-All c [] a = refl
until-All c (b ∷ bs) (ne, a) =
    let other : (b == c) ≡ false = ground (arith, ne) in rw (other) (ap (◌∷◌ b) (until-All c bs a))

-- The header that a browser sends with the cookie of auth_login alone.
abbrev pub session_cookie : Bytes → Bytes
session_cookie token = session_name ++ (b'=' ∷ token)

first_round :
    (fuel : ℕ) (token : Bytes)
    → All (λ b. b ≢ b';') token
    → cookie_loop (suc fuel) (session_cookie token) session_name 0 ≡ value token
unfolding cookie_loop
first_round fuel token plain =
    let inside : ltb (length (session_cookie token)) 0 ≡ false = ground arith in
    rw (inside, cookie_loop) (ap value (until-All b';' token plain))

cookie_value-session_cookie :
    (token : Bytes)
    → All (λ b. b ≢ b';') token
    → cookie_value (session_cookie token) session_name ≡ value token
unfolding cookie_value
cookie_value-session_cookie token plain =
    let fuel : 2 + length (session_cookie token) ≡ suc (suc (length (session_cookie token))) =
      omega arith in
    ap (λ f. cookie_loop f (session_cookie token) session_name 0) fuel
    ∙ first_round (suc (length (session_cookie token))) token plain

some_bytes : (token : Bytes) → token ≢ [] → ltb 0 (length token) ≡ true
some_bytes [] ne = absurd (ne refl)
some_bytes (b ∷ bs) ne = ground arith

-- A request whose Cookie header is "session=" and a token, not empty and without ';', is accepted
-- exactly if the session of the token is live, and uses that session, if the header's buffers can
-- be allocated and filled.
pub check_request-live :
    (now : ℕ) (token : Bytes) (r : Headers) (ss : List Session)
    → token ≢ []
    → All (λ b. b ≢ b';') token
    → r.cookie ≡ session_cookie token
    → (r.cookie_read && r.token_allocated) ≡ true
    → check_request now r ss
      ≡ some (live now (find_session token ss), (validate_session now (some token) ss).1)
unfolding check_request check_token token_from_request
check_request-live now token r ss some_token plain e ok =
    let read : r.cookie_read ≡ true = ground arith in
    let allocated : r.token_allocated ≡ true = ground arith in
    let long : ltb 0 (length (session_cookie token)) ≡ true = ground arith in
    let full : ltb 0 (length token) ≡ true = some_bytes token some_token in
    let accepted = validate_session-live now token ss some_token in
    rw (e, read, long, cookie_value-session_cookie token plain, full, allocated)
      (ap (λ b. some (b, (validate_session now (some token) ss).1)) accepted)
