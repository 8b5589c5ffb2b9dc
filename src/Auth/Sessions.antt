-- ===== src/Auth/Sessions.antt =====
-- main/auth.c: the session table (session_t, auth_validate_session, auth_logout,
-- auth_invalidate_all_sessions, and the choice of a slot in auth_login).
pub mod Lookup
pub mod Slots
pub mod Opening
pub mod Eviction
pub mod Lifetime
use esp32_web_terminal.Prelude.{
  ℕ, suc, ◌-◌, Bool, true, false, ◌&&◌, ◌||◌, Option, none, some, List, [], ◌∷◌, Bytes, ltb, ◌==◌,
  if◌then◌else◌, str_eq, replicate, map, set,
}

abbrev pub max_sessions : ℕ
max_sessions = 4

abbrev pub session_timeout_s : ℕ
session_timeout_s = 3600

pub record Session : Type 0 where
  pub token : Bytes
  pub last_activity : ℕ
  pub active : Bool

abbrev pub blank_session : Session
blank_session = record { token = []; last_activity = 0; active = false }

-- The table after auth_init.
abbrev pub init_sessions : List Session
init_sessions = replicate max_sessions blank_session

-- `(now - last_activity) > AUTH_SESSION_TIMEOUT_S`. The difference is signed in C; where it is
-- negative both tests fail.
abbrev pub expired : ℕ → Session → Bool
expired now s = ltb session_timeout_s (now - s.last_activity)

-- `active && strcmp(token, …) == 0`
abbrev pub carries : Bytes → Session → Bool
carries token s = s.active && str_eq s.token token

-- The loop of auth_validate_session: the first slot with the token decides.
unfoldable pub validate_slots : ℕ → Bytes → List Session → Bool × List Session
validate_slots now token [] = (false, [])
validate_slots now token (s ∷ ss) =
    let rest = validate_slots now token ss in
    if carries token s
    then (if expired now s
        then (false, record s { active = false } ∷ ss)
        else (true, record s { last_activity = now } ∷ ss))
    else (rest.0, s ∷ rest.1)

unfoldable pub validate_session : ℕ → Option Bytes → List Session → Bool × List Session
unfolding validate_slots
validate_session now none ss = (false, ss)
validate_session now (some []) ss = (false, ss)
validate_session now (some (c ∷ cs)) ss = validate_slots now (c ∷ cs) ss

logout_slots : Bytes → List Session → List Session
logout_slots token [] = []
logout_slots token (s ∷ ss) =
    let rest = logout_slots token ss in
    if carries token s then record s { active = false } ∷ ss else s ∷ rest

unfoldable pub logout : Option Bytes → List Session → List Session
unfolding logout_slots
logout none ss = ss
logout (some token) ss = logout_slots token ss

unfoldable pub invalidate_all_sessions : List Session → List Session
invalidate_all_sessions ss = map (λ (s : Session). record s { active = false }) ss

-- `if (s_sessions[i].active && expired) s_sessions[i].active = false;`
abbrev pub expire : ℕ → Session → Session
expire now s = if s.active && expired now s then record s { active = false } else s

-- The loop of auth_login that looks for a slot: it stops at the first slot that is free or has
-- just expired. The second part is that slot, or the slot that the loop found least recently used.
unfoldable pub find_slot : ℕ → List Session → ℕ → ℕ → ℕ → List Session × ℕ
find_slot now [] i oldest_time oldest_slot = ([], oldest_slot)
find_slot now (s ∷ ss) i oldest_time oldest_slot =
    let s' = expire now s in
    let older = oldest_time == 0 || ltb s'.last_activity oldest_time in
    let rest =
      find_slot now ss (suc i) (if older then s'.last_activity else oldest_time)
        (if older then i else oldest_slot) in
    if s'.active then (s' ∷ rest.0, rest.1) else (s' ∷ ss, i)

-- The session that a login writes into its slot.
abbrev pub new_session : ℕ → Bytes → Session
new_session now token = record { token = token; last_activity = now; active = true }

-- The rest of a successful auth_login, with the token that generate_token wrote.
unfoldable pub open_session : ℕ → Bytes → List Session → List Session
unfolding find_slot
open_session now token ss = let r = find_slot now ss 0 0 0 in set r.0 r.1 (new_session now token)
