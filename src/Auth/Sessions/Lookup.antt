-- ===== src/Auth/Sessions/Lookup.antt =====
-- Validation, logout and revocation of sessions, seen through the lookup of a token.
use esp32_web_terminal.Prelude.{
  ℕ, ◌-◌, ◌≡◌, ◌≢◌, refl, Bool, true, false, Option, none, some, List, [], ◌∷◌, arith, Bytes, leb,
  eq_of_str_eq, if◌then◌else◌,
}
use esp32_web_terminal.Auth.Sessions.{
  Session, session_timeout_s, carries, validate_slots, validate_session, logout_slots, logout,
  invalidate_all_sessions,
}

-- The session that a token stands for: the first active slot that carries it.
unfoldable pub find_session : Bytes → List Session → Option Session
find_session token [] = none
find_session token (s ∷ ss) = if carries token s then some s else find_session token ss

-- A session that has not been idle for longer than the timeout.
unfoldable pub live : ℕ → Option Session → Bool
live now none = false
live now (some s) = leb (now - s.last_activity) session_timeout_s

-- What a validation leaves of a session: a live one is moved forward, an idle one ended.
unfoldable pub touched : ℕ → Option Session → Option Session
touched now none = none
touched now (some s) =
    if leb (now - s.last_activity) session_timeout_s
    then some (record s { last_activity = now })
    else none

-- No token stands in two active slots.
abbrev pub TokensDistinct : List Session → Type 0
TokensDistinct [] = Unit {0}
TokensDistinct (s ∷ ss) = (s.active ≡ true → find_session s.token ss ≡ none) × TokensDistinct ss

validate_slots-live :
    (now : ℕ) (token : Bytes) (ss : List Session)
    → (validate_slots now token ss).0 ≡ live now (find_session token ss)
unfolding validate_slots find_session live
validate_slots-live now token [] = refl
validate_slots-live now token (s ∷ ss) = ground (arith, validate_slots-live now token ss)

-- auth_validate_session accepts exactly the non-empty tokens whose session is live.
pub validate_session-live :
    (now : ℕ) (token : Bytes) (ss : List Session)
    → token ≢ []
    → (validate_session now (some token) ss).0 ≡ live now (find_session token ss)
unfolding validate_session
validate_session-live now [] ss h = absurd (h refl)
validate_session-live now (c ∷ cs) ss h = validate_slots-live now (c ∷ cs) ss

find_session-carries :
    (token : Bytes) (s : Session) (ss : List Session)
    → TokensDistinct (s ∷ ss)
    → carries token s ≡ true
    → find_session token ss ≡ none
find_session-carries token s ss d e = ground (arith, d.0, eq_of_str_eq s.token token)

find_session-validate_slots :
    (now : ℕ) (token : Bytes) (ss : List Session)
    → TokensDistinct ss
    → find_session token (validate_slots now token ss).1 ≡ touched now (find_session token ss)
unfolding validate_slots find_session touched
find_session-validate_slots now token [] d = refl
find_session-validate_slots now token (s ∷ ss) d =
    ground (arith, find_session-carries token s ss d, find_session-validate_slots now token ss d.1)

find_session-validate_slots_ne :
    (now : ℕ) (token other : Bytes) (ss : List Session)
    → other ≢ token
    → find_session other (validate_slots now token ss).1 ≡ find_session other ss
unfolding validate_slots find_session
find_session-validate_slots_ne now token other [] ne = refl
find_session-validate_slots_ne now token other (s ∷ ss) ne = ground (
  arith,
  ne,
  eq_of_str_eq s.token token,
  eq_of_str_eq s.token other,
  find_session-validate_slots_ne now token other ss ne,
)

-- A validation moves the token's own session forward, or ends it, and touches no other.
pub find_session-validate_session :
    (now : ℕ) (token : Bytes) (ss : List Session)
    → token ≢ []
    → TokensDistinct ss
    → (find_session token (validate_session now (some token) ss).1
        ≡ touched now (find_session token ss))
      × ((other : Bytes)
          → other ≢ token
          → find_session other (validate_session now (some token) ss).1 ≡ find_session other ss)
unfolding validate_session
find_session-validate_session now [] ss h d = absurd (h refl)
find_session-validate_session now (c ∷ cs) ss h d = (
  find_session-validate_slots now (c ∷ cs) ss d,
  λ other ne. find_session-validate_slots_ne now (c ∷ cs) other ss ne,
)

-- Whatever the token, a validation touches the session of no other one.
pub validate_session_others :
    (now : ℕ) (token other : Bytes) (ss : List Session)
    → other ≢ token
    → find_session other (validate_session now (some token) ss).1 ≡ find_session other ss
unfolding validate_session
validate_session_others now [] other ss ne = refl
validate_session_others now (c ∷ cs) other ss ne =
    find_session-validate_slots_ne now (c ∷ cs) other ss ne

find_session-logout_self :
    (token : Bytes) (ss : List Session)
    → TokensDistinct ss
    → find_session token (logout_slots token ss) ≡ none
unfolding logout_slots find_session
find_session-logout_self token [] d = refl
find_session-logout_self token (s ∷ ss) d =
    ground (arith, find_session-carries token s ss d, find_session-logout_self token ss d.1)

find_session-logout_ne :
    (token other : Bytes) (ss : List Session)
    → other ≢ token
    → find_session other (logout_slots token ss) ≡ find_session other ss
unfolding logout_slots find_session
find_session-logout_ne token other [] ne = refl
find_session-logout_ne token other (s ∷ ss) ne = ground (
  arith,
  ne,
  eq_of_str_eq s.token token,
  eq_of_str_eq s.token other,
  find_session-logout_ne token other ss ne,
)

-- auth_logout ends the session of its token and no other.
pub find_session-logout :
    (token : Bytes) (ss : List Session)
    → TokensDistinct ss
    → (find_session token (logout (some token) ss) ≡ none)
      × ((other : Bytes)
          → other ≢ token
          → find_session other (logout (some token) ss) ≡ find_session other ss)
unfolding logout
find_session-logout token ss d =
    (find_session-logout_self token ss d, λ other ne. find_session-logout_ne token other ss ne)

-- After auth_invalidate_all_sessions no token has a session.
pub find_session-invalidate_all :
    (token : Bytes) (ss : List Session) → find_session token (invalidate_all_sessions ss) ≡ none
unfolding invalidate_all_sessions find_session
find_session-invalidate_all token [] = refl
find_session-invalidate_all token (s ∷ ss) = find_session-invalidate_all token ss
