-- ===== src/Auth/Sessions/Lifetime.antt =====
-- How long a session lasts: kept alive by use, ended by idleness, logout and revocation.
use esp32_web_terminal.Prelude.{
  ℕ, ◌+◌, ◌-◌, ◌≤◌, ◌<◌, ◌≡◌, ◌≢◌, refl, ap, ◌∙◌, Bool, true, false, ◌&&◌, Option, none, some, List,
  [], ◌∷◌, arith, Bytes, leb, length,
}
use esp32_web_terminal.Auth.Sessions.{
  Session, session_timeout_s, validate_session, validate_slots, logout, invalidate_all_sessions,
}
use esp32_web_terminal.Auth.Sessions.Lookup.{
  find_session, live, touched, TokensDistinct, validate_session-live, find_session-validate_session,
  find_session-logout, find_session-invalidate_all,
}
use esp32_web_terminal.Auth.Sessions.Opening.{SessionsInv}

-- Slots only end or move forward in time: what an operation that opens no session does to them.
abbrev Kept : List Session → List Session → Type 0
Kept [] [] = Unit {0}
Kept [] (s ∷ ss) = ⊥
Kept (s' ∷ ss') [] = ⊥
Kept (s' ∷ ss') (s ∷ ss) = (s'.token ≡ s.token) × (s'.active ≡ true → s.active ≡ true) × Kept ss' ss

Kept-refl : (ss : List Session) → Kept ss ss
Kept-refl [] = tt
Kept-refl (s ∷ ss) = (refl, (λ e. e), Kept-refl ss)

find_session-Kept :
    (token : Bytes) (ss' ss : List Session)
    → Kept ss' ss
    → find_session token ss ≡ none
    → find_session token ss' ≡ none
unfolding find_session
find_session-Kept token [] [] k e = refl
find_session-Kept token [] (s ∷ ss) k e = absurd k
find_session-Kept token (s' ∷ ss') [] k e = absurd k
find_session-Kept token (s' ∷ ss') (s ∷ ss) (t, a, k) e =
    ground (arith, find_session-Kept token ss' ss k)

TokensDistinct-Kept : (ss' ss : List Session) → Kept ss' ss → TokensDistinct ss → TokensDistinct ss'
TokensDistinct-Kept [] [] k d = tt
TokensDistinct-Kept [] (s ∷ ss) k d = absurd k
TokensDistinct-Kept (s' ∷ ss') [] k d = absurd k
TokensDistinct-Kept (s' ∷ ss') (s ∷ ss) (t, a, k) d =
    (λ u. rw t (find_session-Kept s.token ss' ss k (d.0 (a u))), TokensDistinct-Kept ss' ss k d.1)

length-Kept : (ss' ss : List Session) → Kept ss' ss → length ss' ≡ length ss
length-Kept [] [] k = refl
length-Kept [] (s ∷ ss) k = absurd k
length-Kept (s' ∷ ss') [] k = absurd k
length-Kept (s' ∷ ss') (s ∷ ss) (t, a, k) = omega (arith, length-Kept ss' ss k)

SessionsInv-Kept : (ss' ss : List Session) → Kept ss' ss → SessionsInv ss → SessionsInv ss'
SessionsInv-Kept ss' ss k v = record {
  slots = length-Kept ss' ss k ∙ v.slots;
  distinct = TokensDistinct-Kept ss' ss k v.distinct;
}

validate_slots-Kept :
    (now : ℕ) (token : Bytes) (ss : List Session) → Kept (validate_slots now token ss).1 ss
unfolding validate_slots
validate_slots-Kept now token [] = tt
validate_slots-Kept now token (s ∷ ss) =
    ground (arith, validate_slots-Kept now token ss, Kept-refl ss)

validate_session-Kept :
    (now : ℕ) (token : Option Bytes) (ss : List Session) → Kept (validate_session now token ss).1 ss
unfolding validate_session
validate_session-Kept now none ss = Kept-refl ss
validate_session-Kept now (some []) ss = Kept-refl ss
validate_session-Kept now (some (c ∷ cs)) ss = validate_slots-Kept now (c ∷ cs) ss

-- auth_validate_session keeps the tokens of the table apart.
pub validate_session-SessionsInv :
    (now : ℕ) (token : Option Bytes) (ss : List Session)
    → SessionsInv ss
    → SessionsInv (validate_session now token ss).1
validate_session-SessionsInv now token ss v =
    SessionsInv-Kept _ ss (validate_session-Kept now token ss) v

-- Each use of the session at one of the times is accepted.
unfoldable pub uses_accepted : Bytes → List ℕ → List Session → Bool
unfolding validate_session
uses_accepted token [] ss = true
uses_accepted token (now ∷ later) ss =
    let r = validate_session now (some token) ss in r.0 && uses_accepted token later r.1

-- Each time comes at most AUTH_SESSION_TIMEOUT_S after the one before.
abbrev pub Spaced : ℕ → List ℕ → Type 0
Spaced last [] = Unit {0}
Spaced last (now ∷ later) = (now ≤ last + session_timeout_s) × Spaced now later

-- From a table that fulfils SessionsInv, the session of a token that is not empty never expires
-- if it is used at least once an hour.
pub uses_accepted-Spaced :
    (token : Bytes) (times : List ℕ) (ss : List Session) (s : Session)
    → token ≢ []
    → SessionsInv ss
    → find_session token ss ≡ some s
    → Spaced s.last_activity times
    → uses_accepted token times ss ≡ true
unfolding uses_accepted live touched
uses_accepted-Spaced token [] ss s ne v e sp = refl
uses_accepted-Spaced token (now ∷ later) ss s ne v e (le, sp) =
    let ok = validate_session-live now token ss ne in
    let moved = (find_session-validate_session now token ss ne v.distinct).0 in
    let still : leb (now - s.last_activity) session_timeout_s ≡ true = ground arith in
    let s' : Session = record s { last_activity = now } in
    let rest =
      uses_accepted-Spaced token later (validate_session now (some token) ss).1 s' ne
        (validate_session-SessionsInv now (some token) ss v) in
    rw (ok, e, still) (rest (moved ∙ rw (e, still)) sp)

-- From a table that fulfils SessionsInv, a session idle for longer than the timeout, of a token
-- that is not empty, is refused at its next use, and then once more at any time.
pub idle_session_ends :
    (token : Bytes) (now later : ℕ) (ss : List Session) (s : Session)
    → token ≢ []
    → SessionsInv ss
    → find_session token ss ≡ some s
    → s.last_activity + session_timeout_s < now
    → let r = validate_session now (some token) ss in
      (r.0 ≡ false) × ((validate_session later (some token) r.1).0 ≡ false)
unfolding live touched
idle_session_ends token now later ss s ne v e idle =
    let over : leb (now - s.last_activity) session_timeout_s ≡ false = ground arith in
    let gone = (find_session-validate_session now token ss ne v.distinct).0 in
    (
      validate_session-live now token ss ne ∙ rw (e, over),
      validate_session-live later token _ ne ∙ rw (gone, e, over),
    )

-- From a table that fulfils SessionsInv: after a logout its token is refused, and every other
-- token is judged as before. Both tokens are not empty.
pub logout_ends :
    (token other : Bytes) (now : ℕ) (ss : List Session)
    → token ≢ []
    → other ≢ []
    → other ≢ token
    → SessionsInv ss
    → let ss' = logout (some token) ss in
      ((validate_session now (some token) ss').0 ≡ false)
      × ((validate_session now (some other) ss').0 ≡ (validate_session now (some other) ss).0)
unfolding live
logout_ends token other now ss ne ne' apart v =
    let gone = find_session-logout token ss v.distinct in
    (
      validate_session-live now token _ ne ∙ rw gone.0,
      rw (validate_session-live now other ss ne', validate_session-live now other _ ne')
          (ap (live now) (gone.1 other apart)),
    )

invalidate_all-live :
    (token : Bytes) (now : ℕ) (ss : List Session)
    → token ≢ []
    → (validate_session now (some token) (invalidate_all_sessions ss)).0 ≡ false
unfolding live
invalidate_all-live token now ss ne =
    validate_session-live now token _ ne ∙ rw (find_session-invalidate_all token ss)

-- After auth_invalidate_all_sessions, at any time, no token is accepted.
pub invalidate_all_ends :
    (token : Option Bytes) (now : ℕ) (ss : List Session)
    → (validate_session now token (invalidate_all_sessions ss)).0 ≡ false
unfolding validate_session
invalidate_all_ends none now ss = refl
invalidate_all_ends (some []) now ss = refl
invalidate_all_ends (some (c ∷ cs)) now ss = invalidate_all-live (c ∷ cs) now ss (λ e. cc)
