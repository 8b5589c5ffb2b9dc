-- ===== src/Http/Socket/Handshake.antt =====
-- Which WebSocket handshakes main/web_server.c accepts.
use esp32_web_terminal.Prelude.{
  ℕ, ◌≡◌, refl, sym, subst, ◌⊎◌, inl, inr, Bool, true, false, not, ◌||◌, Option, none, some, List,
  arith, Bytes, Bool-cases, Option-cases,
}
use esp32_web_terminal.Auth.Sessions.{Session, validate_session}
use esp32_web_terminal.Auth.Cookie.{
  CookieScan, value, absent, overread, exhausted, token_from_request,
}
use esp32_web_terminal.Auth.Token.{token_size}
use esp32_web_terminal.Ws.Clients.{Client, copy_token, add_client}
use esp32_web_terminal.Http.{Server, Effect, Request}
use esp32_web_terminal.Http.Socket.{
  Reply, ok, fail, Outcome, Query, Authed, header_auth, query_auth, port_of, read_query, register,
  handshake,
}

-- The sessions after the check of the token that the headers carry, if they carry one.
abbrev pub after_scan : ℕ → CookieScan → List Session → List Session
after_scan now (value token) ss = (validate_session now (some token) ss).1
after_scan now absent ss = ss
after_scan now overread ss = ss
after_scan now exhausted ss = ss

-- A token of the request that is accepted: that of the headers, by the sessions of the server, or
-- that of the query, by the sessions that the check of the headers left.
pub record Accepted (now : ℕ) (scan : CookieScan) (query : Option Bytes) (before : List Session)
    (kept : Bytes) : Type 0 where
  pub token : Bytes
  pub sent :
      ((scan ≡ value token) × ((validate_session now (some token) before).0 ≡ true))
      ⊎ ((query ≡ some token)
          × ((validate_session now (some token) (after_scan now scan before)).0 ≡ true))
  pub copied : kept ≡ copy_token token_size token

-- What the flag of the handshake stands for.
abbrev Means : ℕ → CookieScan → Option Bytes → List Session → Authed → Type 0
Means now scan query before a = (a.authed ≡ false) ⊎ Accepted now scan query before a.token

abbrev MeansSome : ℕ → CookieScan → Option Bytes → List Session → Option Authed → Type 0
MeansSome now scan query before none = (scan ≡ overread) ⊎ (scan ≡ exhausted)
MeansSome now scan query before (some a) =
    Means now scan query before a × (a.sessions ≡ after_scan now scan before)

header_auth-Means :
    (now : ℕ) (scan : CookieScan) (query : Option Bytes) (ss : List Session)
    → MeansSome now scan query ss (header_auth now scan ss)
unfolding header_auth
header_auth-Means now (value token) query ss =
    elim (Bool-cases (validate_session now (some token) ss).0) [
      | inl accepted ↦ (
        inr (record { token = token; sent = inl (refl, accepted); copied = rw (accepted) refl }),
        refl,
      )
      | inr refused ↦ (inl refused, refl)
    ]
header_auth-Means now absent query ss = (inl refl, refl)
header_auth-Means now overread query ss = inl refl
header_auth-Means now exhausted query ss = inr refl

module _ (now : ℕ) where
  already : (qtok : Bytes) (a : Authed) → a.authed ≡ true → query_auth now (some qtok) a ≡ a
  unfolding query_auth
  already qtok a done = ground arith

query_auth-Means :
    (now : ℕ) (scan : CookieScan) (query : Option Bytes) (ss : List Session) (a : Authed)
    → Means now scan query ss a
    → a.sessions ≡ after_scan now scan ss
    → Means now scan query ss (query_auth now query a)
unfolding query_auth
query_auth-Means now scan none ss a m from = m
query_auth-Means now scan (some qtok) ss a m from = elim (Bool-cases a.authed) [
  | inl done ↦ subst (λ b. Means now scan (some qtok) ss b) (sym (already now qtok a done)) m
  | inr open_still ↦ elim (Bool-cases (validate_session now (some qtok) a.sessions).0) [
    | inl accepted ↦
        rw (open_still, accepted)
          (inr (record {
            token = qtok;
            sent =
                inr
                  (refl, subst (λ x. (validate_session now (some qtok) x).0 ≡ true) from accepted);
            copied = refl;
          }))
    | inr refused ↦ rw (open_still, refused) (inl refl)
  ]
]

-- A handshake that is accepted registers one client, after the password was changed, with the copy of
-- a token of a live session; any other changes no client.
abbrev pub Registered :
    {S : Type 0}
    → ℕ
    → ℕ
    → ℕ
    → CookieScan
    → Query
    → ℕ
    → Server S
    → Server S × Reply × List Effect
    → Type 0
Registered now now_us fd scan query port s (s', reply, es) =
    ((reply ≡ fail) × (s'.clients ≡ s.clients))
    ⊎ ((reply ≡ ok)
        × (s.config.auth_initialized ≡ true)
        × ((kept : Bytes) × Accepted now scan query.token s.auth.sessions kept
            × (add_client now_us fd port kept s.clients ≡ (true, s'.clients))))

abbrev pub RegisteredSome :
    {S : Type 0} → ℕ → ℕ → ℕ → CookieScan → Query → ℕ → Server S → Outcome S → Type 0
RegisteredSome now now_us fd scan query port s none = (scan ≡ overread) ⊎ (scan ≡ exhausted)
RegisteredSome now now_us fd scan query port s (some out) =
    Registered now now_us fd scan query port s out

pair_eta : (p : Bool × List Client) → p.0 ≡ true → p ≡ (true, p.1)
pair_eta (true, cs) e = refl
pair_eta (false, cs) e = cc

register-Registered :
    {S : Type 0} (now now_us fd : ℕ) (scan : CookieScan) (query : Query) (port : ℕ) (a : Authed)
    (s : Server S)
    → Means now scan query.token s.auth.sessions a
    → Registered now now_us fd scan query port s (register now_us fd port a s)
unfolding register
register-Registered now now_us fd scan query port a s (inl refused) =
    let shut : (not a.authed || not s.config.auth_initialized) ≡ true = ground arith in
    rw (shut) (inl (refl, refl))
register-Registered now now_us fd scan query port a s (inr accepted) =
    elim (Bool-cases (not a.authed || not s.config.auth_initialized)) [
      | inl shut ↦ rw (shut) (inl (refl, refl))
      | inr let_in ↦ elim (Bool-cases (add_client now_us fd port a.token s.clients).0) [
        | inl added ↦
            rw (let_in, added)
              (inr (refl, ground (arith, let_in), (a.token, accepted, pair_eta _ added)))
        | inr full ↦ rw (let_in, full) (inl (refl, refl))
      ]
    ]

-- A handshake of a WebSocket is accepted only after the password was changed, and only if it sends a
-- token that auth_validate_session accepts, in a header, or in the query after the token of the
-- headers was checked; its client is then registered with a copy of that token. Any other handshake is
-- refused and changes no client, unless the header is read past its end.
pub handshake-Registered :
    {S : Type 0} (count now_us fd : ℕ) (query : Option Query) (r : Request) (s : Server S)
    → RegisteredSome r.now now_us fd
        (token_from_request r.headers)
        (read_query query)
        (port_of count (read_query query).port)
        s
        (handshake count now_us fd query r s)
unfolding handshake
handshake-Registered count now_us fd query r s =
    let scan = token_from_request r.headers in
    let q = read_query query in
    let m = header_auth-Means r.now scan q.token s.auth.sessions in
    elim (Option-cases (header_auth r.now scan s.auth.sessions)) [
      | inl e ↦ rw (e, handshake) (subst (λ o. MeansSome r.now scan q.token s.auth.sessions o) e m)
      | inr (a, e) ↦
          let known = subst (λ o. MeansSome r.now scan q.token s.auth.sessions o) e m in
          rw (e, handshake)
            (register-Registered r.now now_us fd scan q (port_of count q.port) _ s
              (query_auth-Means r.now scan q.token s.auth.sessions a known.0 known.1))
    ]
