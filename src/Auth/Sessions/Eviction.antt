-- ===== src/Auth/Sessions/Eviction.antt =====
-- When every slot is in use, a login ends the least recently used session.
use esp32_web_terminal.Prelude.{
  ℕ, zero, suc, ◌+◌, ◌≤◌, ◌<◌, ◌≡◌, refl, ap, ap₂, ◌⊎◌, inl, inr, Bool, true, false, ◌||◌, some,
  List, [], ◌∷◌, arith, Bytes, ltb, ◌==◌, if◌then◌else◌, length, set, get_elem?, All, All-get_elem?,
}
use esp32_web_terminal.Auth.Sessions.{
  Session, expired, expire, find_slot, new_session, open_session,
}

-- A table with no free slot: every session is in use, and none began in the first second.
abbrev pub InUse : ℕ → Session → Type 0
InUse now s = (s.active ≡ true) × (expired now s ≡ false) × (0 < s.last_activity)

abbrev OldestAt : List Session → ℕ → ℕ → ℕ → ℕ → Type 0
OldestAt ss i oldest_time oldest k =
    ((k ≡ oldest) × (0 < oldest_time) × All (λ s. oldest_time ≤ s.last_activity) ss)
    ⊎ ((m : ℕ) × (s : Session) × (k ≡ i + m)
        × (get_elem? ss m ≡ some s)
        × All (λ x. s.last_activity ≤ x.last_activity) ss
        × ((oldest_time ≡ 0) ⊎ (s.last_activity < oldest_time)))

abbrev older : ℕ → Session → Bool
older oldest_time s = oldest_time == 0 || ltb s.last_activity oldest_time

-- One round of the loop at a slot in use.
find_slot-InUse :
    (now : ℕ) (s : Session) (ss : List Session) (i oldest_time oldest : ℕ)
    → InUse now s
    → let rest =
        find_slot now ss
          (suc i)
          (if older oldest_time s then s.last_activity else oldest_time)
          (if older oldest_time s then i else oldest) in
      find_slot now (s ∷ ss) i oldest_time oldest ≡ (s ∷ rest.0, rest.1)
unfolding find_slot
find_slot-InUse now s ss i oldest_time oldest u =
    let kept : expire now s ≡ s = ground (arith, u.0, u.1) in rw (kept, u.0)

OldestAt-cons :
    (s : Session) (ss : List Session) (i oldest_time oldest k : ℕ) (b : Bool)
    → older oldest_time s ≡ b
    → 0 < s.last_activity
    → OldestAt ss (suc i) (if b then s.last_activity else oldest_time) (if b then i else oldest) k
    → OldestAt (s ∷ ss) i oldest_time oldest k
OldestAt-cons s ss i ot os k true e p (inl (q, pos, a)) =
    inr (zero, s, omega arith, refl, (omega arith, a), ground arith)
OldestAt-cons s ss i ot os k true e p (inr (m, x, q, g, a, o)) =
    inr (suc m, x, omega arith, g, (ground arith, a), ground arith)
OldestAt-cons s ss i ot os k false e p (inl (q, pos, a)) = inl (q, pos, (ground arith, a))
OldestAt-cons s ss i ot os k false e p (inr (m, x, q, g, a, o)) =
    inr (suc m, x, omega arith, g, (ground arith, a), ground arith)

find_slot-OldestAt :
    (now : ℕ) (ss : List Session) (i oldest_time oldest : ℕ)
    → (0 < oldest_time) ⊎ (0 < length ss)
    → All (InUse now) ss
    → let r = find_slot now ss i oldest_time oldest in
      (r.0 ≡ ss) × OldestAt ss i oldest_time oldest r.1
unfolding find_slot
find_slot-OldestAt now [] i oldest_time oldest (inl p) a = (refl, inl (refl, p, tt))
find_slot-OldestAt now [] i oldest_time oldest (inr p) a = absurd (omega arith)
find_slot-OldestAt now (s ∷ ss) i oldest_time oldest p (u, a) =
    let b = older oldest_time s in
    let rest =
      find_slot-OldestAt now ss (suc i) (if b then s.last_activity else oldest_time)
        (if b then i else oldest) (inl (ground (arith, u.2))) a in
    rw (find_slot-InUse now s ss i oldest_time oldest u)
      (ap (◌∷◌ s) rest.0, OldestAt-cons s ss i oldest_time oldest _ b refl u.2 rest.1)

-- When all slots hold sessions that are not idle beyond the timeout and were used after the first
-- second, a login replaces exactly one of them, and none was used before it.
pub open_session_evicts_oldest :
    (now : ℕ) (token : Bytes) (ss : List Session)
    → 0 < length ss
    → All (InUse now) ss
    → (k : ℕ) × (s : Session) × (get_elem? ss k ≡ some s)
      × All (λ x. s.last_activity ≤ x.last_activity) ss
      × (open_session now token ss ≡ set ss k (new_session now token))
unfolding open_session
open_session_evicts_oldest now token ss pos a = from (find_slot-OldestAt now ss 0 0 0 (inr pos) a)
  where
    from :
        let r = find_slot now ss 0 0 0 in
        (r.0 ≡ ss) × OldestAt ss 0 0 0 r.1
        → (k : ℕ) × (s : Session) × (get_elem? ss k ≡ some s)
          × All (λ x. s.last_activity ≤ x.last_activity) ss
          × (set r.0 r.1 (new_session now token) ≡ set ss k (new_session now token))
    from (e, inl (q, p, b)) = absurd (omega arith)
    from (e, inr (m, s, q, g, b, o)) =
        (m, s, g, b, ap₂ (λ x y. set x y (new_session now token)) e (omega (arith, q)))

-- In a full table whose slot 0 holds a session last used in the first second after boot, and
-- whose other sessions were used later, a login keeps the session of slot 0 and replaces one that
-- was used after it.
pub open_session_spares_boot_session :
    (now : ℕ) (token : Bytes) (s : Session) (ss : List Session)
    → s.active ≡ true
    → expired now s ≡ false
    → s.last_activity ≡ 0
    → 0 < length ss
    → All (InUse now) ss
    → (k : ℕ) × (x : Session) × (get_elem? ss k ≡ some x)
      × (s.last_activity < x.last_activity)
      × (open_session now token (s ∷ ss) ≡ s ∷ set ss k (new_session now token))
unfolding open_session find_slot
open_session_spares_boot_session now token s ss on live zero_time pos a =
    from (find_slot-OldestAt now ss 1 0 0 (inr pos) a)
  where
    kept : expire now s ≡ s
    kept = ground (arith, on, live)

    from :
        let r = find_slot now ss 1 0 0 in
        (r.0 ≡ ss) × OldestAt ss 1 0 0 r.1
        → (k : ℕ) × (x : Session) × (get_elem? ss k ≡ some x)
          × (s.last_activity < x.last_activity)
          × (open_session now token (s ∷ ss) ≡ s ∷ set ss k (new_session now token))
    from (e, inl (q, p, b)) = absurd (omega arith)
    from (e, inr (m, x, q, g, b, o)) =
        let later = All-get_elem? (InUse now) ss m x a g in
        let at : (find_slot now ss 1 0 0).1 ≡ suc m = omega (arith, q) in
        (m, x, g, omega (arith, later.2), rw (kept, on, zero_time, e, at))
