-- ===== src/Auth/Sessions/Opening.antt =====
-- What opening a session does to the table: the invariant, the other sessions, and the choice of
-- the least recently used slot.
use esp32_web_terminal.Prelude.{
  ℕ, zero, suc, ◌<◌, ◌≡◌, inl, inr, false, none, some, List, [], ◌∷◌, arith, Bytes, eq_of_str_eq,
  str_eq_refl, length, set, length-set,
}
use esp32_web_terminal.Auth.Sessions.{
  Session, max_sessions, carries, find_slot, new_session, open_session,
}
use esp32_web_terminal.Auth.Sessions.Lookup.{find_session, TokensDistinct}
use esp32_web_terminal.Auth.Sessions.Slots.{
  Picked, find_slot-Picked, find_slot-Ended, find_session-Ended, TokensDistinct-Ended,
}

pub record SessionsInv (ss : List Session) : Type 0 where
  pub slots : length ss ≡ max_sessions
  pub distinct : TokensDistinct ss

find_session-set_self :
    (now : ℕ) (token : Bytes) (ss : List Session) (k : ℕ)
    → find_session token ss ≡ none
    → k < length ss
    → find_session token (set ss k (new_session now token)) ≡ some (new_session now token)
unfolding find_session
find_session-set_self now token [] k e h = absurd (omega arith)
find_session-set_self now token (s ∷ ss) zero e h = rw (str_eq_refl token)
find_session-set_self now token (s ∷ ss) (suc k) e h =
    ground (arith, find_session-set_self now token ss k (ground arith) (omega arith))

find_session-set-none :
    (key : Bytes) (ss : List Session) (k : ℕ) (s : Session)
    → find_session key ss ≡ none
    → carries key s ≡ false
    → find_session key (set ss k s) ≡ none
unfolding find_session
find_session-set-none key [] k s e n = e
find_session-set-none key (x ∷ xs) zero s e n = ground arith
find_session-set-none key (x ∷ xs) (suc k) s e n = ground (arith, find_session-set-none key xs k s)

TokensDistinct-set :
    (ss : List Session) (k : ℕ) (s : Session)
    → find_session s.token ss ≡ none
    → TokensDistinct ss
    → TokensDistinct (set ss k s)
unfolding find_session
TokensDistinct-set [] k s e d = tt
TokensDistinct-set (x ∷ xs) zero s e d = (λ _. ground arith, d.1)
TokensDistinct-set (x ∷ xs) (suc k) s e d = (
  λ u.
      find_session-set-none x.token xs k s (d.0 u)
        (ground (arith, eq_of_str_eq s.token x.token, str_eq_refl x.token)),
  TokensDistinct-set xs k s (ground arith) d.1,
)

slot_in_range : (now n : ℕ) (r : List Session × ℕ) → 0 < n → Picked now 0 n 0 r → r.1 < length r.0
slot_in_range now n r pos (l, inl (m, e, h, p)) = omega arith
slot_in_range now n r pos (l, inr (e, a)) = omega arith

-- A token that no active session carries gets a session of its own, begun now.
pub find_session-open_session :
    (now : ℕ) (token : Bytes) (ss : List Session)
    → 0 < length ss
    → find_session token ss ≡ none
    → find_session token (open_session now token ss) ≡ some (new_session now token)
unfolding open_session
find_session-open_session now token ss pos e =
    find_session-set_self now token _ _
      (find_session-Ended token _ ss (find_slot-Ended now ss 0 0 0) e)
      (slot_in_range now (length ss) _ pos (find_slot-Picked now ss 0 0 0))

-- A login under a fresh token keeps the tokens of the table apart.
pub open_session-SessionsInv :
    (now : ℕ) (token : Bytes) (ss : List Session)
    → find_session token ss ≡ none
    → SessionsInv ss
    → SessionsInv (open_session now token ss)
unfolding open_session
open_session-SessionsInv now token ss e v =
    let ended = find_slot-Ended now ss 0 0 0 in
    let r = find_slot now ss 0 0 0 in
    record {
      slots = omega (
        arith,
        length-set r.0 r.1 (new_session now token),
        (find_slot-Picked now ss 0 0 0).0,
        v.slots,
      );
      distinct =
          TokensDistinct-set r.0 r.1 (new_session now token)
            (find_session-Ended token r.0 ss ended e)
            (TokensDistinct-Ended r.0 ss ended v.distinct);
    }
