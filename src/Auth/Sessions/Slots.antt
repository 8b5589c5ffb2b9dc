-- ===== src/Auth/Sessions/Slots.antt =====
-- The slot that a login takes, and what it does to the other sessions.
use esp32_web_terminal.Prelude.{
  ℕ, zero, suc, ◌+◌, ◌<◌, ◌≡◌, refl, sym, subst, ◌⊎◌, inl, inr, Bool, true, false, ◌&&◌, ◌||◌, none,
  List, [], ◌∷◌, arith, Bytes, ltb, ◌==◌, str_eq_refl, Bool-cases, if◌then◌else◌, length, set, All,
}
use esp32_web_terminal.Auth.Sessions.{
  Session, expired, expire, find_slot, new_session, open_session,
}
use esp32_web_terminal.Auth.Sessions.Lookup.{find_session, live, TokensDistinct}

-- An active slot is not idle beyond the timeout.
abbrev pub Fresh : ℕ → Session → Type 0
Fresh now s = s.active ≡ true → expired now s ≡ false

-- The slots before index `k` are fresh.
abbrev pub FreshBefore : ℕ → List Session → ℕ → Type 0
FreshBefore now [] k = Unit {0}
FreshBefore now (s ∷ ss) zero = Unit {0}
FreshBefore now (s ∷ ss) (suc k) = Fresh now s × FreshBefore now ss k

All-FreshBefore : (now : ℕ) (ss : List Session) (k : ℕ) → All (Fresh now) ss → FreshBefore now ss k
All-FreshBefore now [] k a = tt
All-FreshBefore now (s ∷ ss) zero a = tt
All-FreshBefore now (s ∷ ss) (suc k) a = (a.0, All-FreshBefore now ss k a.1)

expire-Fresh : (now : ℕ) (s : Session) → Fresh now (expire now s)
expire-Fresh now s = ground arith

-- What find_slot returns from index `i` on: a slot of the rest, with those before it fresh; or,
-- if all the rest is fresh, a slot of the rest or the one found before.
abbrev pub Picked : ℕ → ℕ → ℕ → ℕ → List Session × ℕ → Type 0
Picked now i n oldest r =
    (length r.0 ≡ n)
    × (((m : ℕ) × (r.1 ≡ i + m) × (m < n) × FreshBefore now r.0 m)
        ⊎ ((r.1 ≡ oldest) × All (Fresh now) r.0))

Picked-cons :
    (now i n oldest : ℕ) (b : Bool) (s : Session) (r : List Session × ℕ)
    → Fresh now s
    → Picked now (suc i) n (if b then i else oldest) r
    → Picked now i (suc n) oldest (s ∷ r.0, r.1)
Picked-cons now i n oldest b s r f (l, inl (m, e, h, p)) =
    (omega arith, inl (suc m, omega arith, omega arith, (f, p)))
Picked-cons now i n oldest true s r f (l, inr (e, a)) =
    (omega arith, inl (zero, omega arith, omega arith, tt))
Picked-cons now i n oldest false s r f (l, inr (e, a)) = (omega arith, inr (e, (f, a)))

pub find_slot-Picked :
    (now : ℕ) (ss : List Session) (i oldest_time oldest : ℕ)
    → Picked now i (length ss) oldest (find_slot now ss i oldest_time oldest)
unfolding find_slot
find_slot-Picked now [] i oldest_time oldest = (refl, inr (refl, tt))
find_slot-Picked now (s ∷ ss) i oldest_time oldest = elim (Bool-cases (expire now s).active) [
  | inl e ↦
      let older = oldest_time == 0 || ltb (expire now s).last_activity oldest_time in
      rw e (
        Picked-cons now i (length ss) oldest older (expire now s) _ (expire-Fresh now s)
          (find_slot-Picked now ss (suc i) _ _))
  | inr e ↦ rw e (refl, inl (zero, omega arith, omega arith, tt))
]

set-live :
    (now : ℕ) (token : Bytes) (ss : List Session) (k : ℕ)
    → k < length ss
    → FreshBefore now ss k
    → live now (find_session token (set ss k (new_session now token))) ≡ true
unfolding find_session live
set-live now token [] k h f = absurd (omega arith)
set-live now token (s ∷ ss) zero h f = rw (str_eq_refl token) (ground arith)
set-live now token (s ∷ ss) (suc k) h f =
    ground (arith, f.0, set-live now token ss k (omega arith) f.1)

-- A token validates at the time of its own login, whatever else the table holds.
pub open_session-live :
    (now : ℕ) (token : Bytes) (ss : List Session)
    → 0 < length ss
    → live now (find_session token (open_session now token ss)) ≡ true
unfolding open_session
open_session-live now token ss pos = from (find_slot-Picked now ss 0 0 0)
  where
    r : List Session × ℕ
    r = find_slot now ss 0 0 0

    from :
        Picked now 0 (length ss) 0 r
        → live now (find_session token (set r.0 r.1 (new_session now token))) ≡ true
    from (l, inl (m, e, h, p)) =
        let at : r.1 ≡ m = omega (arith, e) in
        set-live now token r.0 r.1 (omega arith) (subst (FreshBefore now r.0) (sym at) p)
    from (l, inr (e, a)) = set-live now token r.0 r.1 (omega arith) (All-FreshBefore now r.0 r.1 a)

-- The same slots, some of them ended.
abbrev pub Ended : List Session → List Session → Type 0
Ended [] [] = Unit {0}
Ended [] (s ∷ ss) = ⊥
Ended (s' ∷ ss') [] = ⊥
Ended (s' ∷ ss') (s ∷ ss) = ((s' ≡ s) ⊎ (s' ≡ record s { active = false })) × Ended ss' ss

Ended-refl : (ss : List Session) → Ended ss ss
Ended-refl [] = tt
Ended-refl (s ∷ ss) = (inl refl, Ended-refl ss)

expire-Ended :
    (now : ℕ) (s : Session) → (expire now s ≡ s) ⊎ (expire now s ≡ record s { active = false })
expire-Ended now s = elim (Bool-cases (s.active && expired now s)) [
  | inl e ↦ inr (rw e)
  | inr e ↦ inl (rw e)
]

pub find_slot-Ended :
    (now : ℕ) (ss : List Session) (i oldest_time oldest : ℕ)
    → Ended (find_slot now ss i oldest_time oldest).0 ss
unfolding find_slot
find_slot-Ended now [] i oldest_time oldest = tt
find_slot-Ended now (s ∷ ss) i oldest_time oldest = elim (Bool-cases (expire now s).active) [
  | inl e ↦ rw e (expire-Ended now s, find_slot-Ended now ss (suc i) _ _)
  | inr e ↦ rw e (expire-Ended now s, Ended-refl ss)
]

pub find_session-Ended :
    (token : Bytes) (ss' ss : List Session)
    → Ended ss' ss
    → find_session token ss ≡ none
    → find_session token ss' ≡ none
unfolding find_session
find_session-Ended token [] [] w e = refl
find_session-Ended token [] (s ∷ ss) w e = absurd w
find_session-Ended token (s' ∷ ss') [] w e = absurd w
find_session-Ended token (s' ∷ ss') (s ∷ ss) w e =
    ground (arith, w.0, find_session-Ended token ss' ss w.1)

pub TokensDistinct-Ended :
    (ss' ss : List Session) → Ended ss' ss → TokensDistinct ss → TokensDistinct ss'
TokensDistinct-Ended [] [] w d = tt
TokensDistinct-Ended [] (s ∷ ss) w d = absurd w
TokensDistinct-Ended (s' ∷ ss') [] w d = absurd w
TokensDistinct-Ended (s' ∷ ss') (s ∷ ss) (inl e, w) d = (
  λ u. find_session-Ended s'.token ss' ss w (rw e (d.0 (rw e at u))),
  TokensDistinct-Ended ss' ss w d.1,
)
TokensDistinct-Ended (s' ∷ ss') (s ∷ ss) (inr e, w) d =
    (λ u. absurd (ground arith), TokensDistinct-Ended ss' ss w d.1)
