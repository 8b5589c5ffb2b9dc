-- ===== src/Http/SignIn.antt =====
-- From handle_login of main/web_server.c to the requests that carry its cookie.
use esp32_web_terminal.Prelude.{
  ℕ, suc, ◌+◌, ◌-◌, ◌*◌, ◌/◌, ◌%◌, ◌≡◌, ◌≢◌, refl, sym, ap, subst, ◌∙◌, Bool, true, false, ◌&&◌,
  Option, none, some, List, [], ◌∷◌, ◌++◌, arith, Bytes, codes, ltb, leb, length, length-append,
  take_all, All, Bool-cases, inl, inr,
}
use esp32_web_terminal.Auth.Token.{
  token_bytes, hex_digit, token_loop, generate_token, length-token_loop,
}
use esp32_web_terminal.Auth.Sessions.{Session, session_timeout_s, validate_session}
use esp32_web_terminal.Auth.Sessions.Lookup.{find_session, validate_session-live}
use esp32_web_terminal.Auth.Sessions.Opening.{SessionsInv}
use esp32_web_terminal.Auth.Login.{Auth, login}
use esp32_web_terminal.Auth.Login.Access.{login_lasts, login_made}
use esp32_web_terminal.Auth.Request.{session_cookie, check_request-live}
use esp32_web_terminal.Config.Setters.{check_password}
use esp32_web_terminal.Http.{Server, Effect, set_cookie, json, Request}
use esp32_web_terminal.Http.Login.{LoginDraws, attempt_of, login_cookie, login_answer, login_with}
use esp32_web_terminal.Http.Routes.{authenticated}

hex_digit_plain : (d : ℕ) → hex_digit d ≢ b';'
unfolding hex_digit
hex_digit_plain d e = ground arith

token_loop_plain : (size i : ℕ) (bs : Bytes) → All (λ b. b ≢ b';') (token_loop size i bs)
unfolding token_loop
token_loop_plain size i [] = tt
token_loop_plain size i (b ∷ bs) = elim (Bool-cases (ltb (i * 2 + 2) size)) [
  | inl room ↦
      rw (room)
        (hex_digit_plain (b / 16), (hex_digit_plain (b % 16), token_loop_plain size (suc i) bs))
  | inr full ↦ rw (full) tt
]

length-generate_token :
    (random : Bytes) → length random ≡ token_bytes → length (generate_token random) ≡ 64
unfolding generate_token
length-generate_token random l = omega (arith, length-token_loop 65 0 random (omega arith))

abbrev pub attributes : Bytes
attributes = codes "; Path=/; HttpOnly; Secure; SameSite=Strict"

login_cookie_whole :
    (token : Bytes) → length token ≡ 64 → login_cookie token ≡ session_cookie token ++ attributes
login_cookie_whole token l =
    take_all 127 (session_cookie token ++ attributes)
      (omega (arith, length-append {0} token attributes))

nonempty : (token : Bytes) → length token ≡ 64 → token ≢ []
nonempty [] l e = absurd (omega arith)
nonempty (b ∷ bs) l e = cc

abbrev authed_of : Option (Bool × List Session) → Bool
authed_of o = elim o [ none ↦ false | some (authed, ss) ↦ authed ]

module _ (sha256 : Bytes → Bytes) {S : Type 0} where
  signed_in :
      (x : LoginDraws) (username password token : Bytes) (s s' : Server S)
      → SessionsInv s.auth.sessions
      → length x.random ≡ token_bytes
      → find_session (generate_token x.random) s.auth.sessions ≡ none
      → (login s.config.auth_user
          (λ p. check_password sha256 x.allocated x.junk p s.config)
          (attempt_of x username password)
          s.auth).0
        ≡ some token
      → s'.auth
        ≡ (login s.config.auth_user
            (λ p. check_password sha256 x.allocated x.junk p s.config)
            (attempt_of x username password)
            s.auth).1
      → (r : Request) → r.headers.cookie ≡ session_cookie token
      → (r.headers.cookie_read && r.headers.token_allocated) ≡ true
      → authenticated r s' ≡ leb (r.now - x.decided_at) session_timeout_s
  signed_in x username password token s s' v l fresh e at r sent read =
      let user = s.config.auth_user in
      let check = λ (p : Bytes). check_password sha256 x.allocated x.junk p s.config in
      let t = attempt_of x username password in
      let made = login_made user check t s.auth token e in
      let long : length token ≡ 64 =
        ap (λ (b : Bytes). length b) (sym made) ∙ length-generate_token x.random l in
      let plain =
        subst (λ (b : Bytes). All (λ c. c ≢ b';') b) made
          (unfold generate_token in token_loop_plain 65 0 x.random) in
      let lasts =
        login_lasts user check t s.auth token r.now v l e
          (subst (λ (b : Bytes). find_session b s.auth.sessions ≡ none) made fresh) in
      let ne = nonempty token long in
      let checked = check_request-live r.now token r.headers s'.auth.sessions ne plain sent read in
      ap authed_of checked
      ∙ sym (validate_session-live r.now token s'.auth.sessions ne)
      ∙ ap (λ (a : Auth). (validate_session r.now (some token) a.sessions).0) at
      ∙ lasts

  accepted_answer :
      (o : Option Bytes) (a : Auth) (s s' : Server S) (text : Bytes) (es : List Effect)
      → login_answer sha256 o a s ≡ some (s', json text, es)
      → (token : Bytes) × (o ≡ some token)
        × (s'.auth ≡ a)
        × (es ≡ set_cookie (login_cookie token) ∷ [])
  unfolding login_answer
  accepted_answer none a s s' text es e = absurd (cc e)
  accepted_answer (some token) a s s' text es e = (token, refl, cc, cc)

  -- From a table that fulfils SessionsInv, with 32 random bytes whose token no session carries: when
  -- handle_login answers an accepted login, it sets the cookie of this token whole, and a request
  -- that sends the cookie back, and whose buffers can be read and allocated, is let in exactly if it
  -- comes within AUTH_SESSION_TIMEOUT_S of the login.
  pub login_with-authenticated :
      (x : LoginDraws) (username password : Bytes) (s s' : Server S) (text : Bytes)
      (es : List Effect) (r : Request)
      → SessionsInv s.auth.sessions
      → length x.random ≡ token_bytes
      → find_session (generate_token x.random) s.auth.sessions ≡ none
      → login_with sha256 x username password s ≡ some (s', json text, es)
      → r.headers.cookie ≡ session_cookie (generate_token x.random)
      → (r.headers.cookie_read && r.headers.token_allocated) ≡ true
      → (es ≡ set_cookie (session_cookie (generate_token x.random) ++ attributes) ∷ [])
        × (authenticated r s' ≡ leb (r.now - x.decided_at) session_timeout_s)
  unfolding login_with
  login_with-authenticated x username password s s' text es r v l fresh e sent read =
      let user = s.config.auth_user in
      let check = λ (p : Bytes). check_password sha256 x.allocated x.junk p s.config in
      let r' = login user check (attempt_of x username password) s.auth in
      let (token, accepted, at, cookie) = accepted_answer r'.0 r'.1 s s' text es e in
      let made = login_made user check (attempt_of x username password) s.auth token accepted in
      let whole = login_cookie_whole (generate_token x.random) (length-generate_token x.random l) in
      (
        cookie
            ∙ ap (λ (t : Bytes). set_cookie (login_cookie t) ∷ []) (sym made)
            ∙ ap (λ (c : Bytes). set_cookie c ∷ []) whole,
        signed_in x username password token s s' v l fresh accepted at r
            (sent ∙ ap (λ (t : Bytes). session_cookie t) made) read,
      )
