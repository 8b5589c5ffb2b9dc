-- ===== src/Ws/Clients/Revoked.antt =====
-- What a WebSocket client still gets once its session is gone, or once all clients were closed.
use esp32_web_terminal.Prelude.{
  ℕ, zero, suc, ◌<◌, ◌≡◌, refl, ap, ◌∙◌, Bool, true, false, none, some, List, [], ◌∷◌, arith, Bytes,
  if◌then◌else◌, length, get_or, take, ◌==◌, ◌||◌,
}
use esp32_web_terminal.Auth.Sessions.{Session, validate_slots, validate_session}
use esp32_web_terminal.Auth.Sessions.Lookup.{find_session}
use esp32_web_terminal.Ws.Ring.{Frame, Ring}
use esp32_web_terminal.Ws.Ring.Queue.{contents, RingInv}
use esp32_web_terminal.Ws.Clients.{Client, blank_client, due, revalidate, close_all, flush}
use esp32_web_terminal.Ws.Clients.Delivery.{received}
use esp32_web_terminal.Ws.Clients.Flush.{meant_for, checked, delivered}

-- A token without a session gets none from the validation of any token, and is refused.
validate_slots-gone :
    (now : ℕ) (token other : Bytes) (ss : List Session)
    → find_session token ss ≡ none
    → find_session token (validate_slots now other ss).1 ≡ none
unfolding validate_slots find_session
validate_slots-gone now token other [] e = refl
validate_slots-gone now token other (s ∷ ss) e =
    ground (arith, validate_slots-gone now token other ss)

validate_session-gone :
    (now : ℕ) (token other : Bytes) (ss : List Session)
    → find_session token ss ≡ none
    → find_session token (validate_session now (some other) ss).1 ≡ none
unfolding validate_session
validate_session-gone now token [] ss e = e
validate_session-gone now token (b ∷ bs) ss e = validate_slots-gone now token (b ∷ bs) ss e

validate_slots-refused :
    (now : ℕ) (token : Bytes) (ss : List Session)
    → find_session token ss ≡ none
    → (validate_slots now token ss).0 ≡ false
unfolding validate_slots find_session
validate_slots-refused now token [] e = refl
validate_slots-refused now token (s ∷ ss) e = ground (arith, validate_slots-refused now token ss)

refused :
    (now : ℕ) (token : Bytes) (ss : List Session)
    → find_session token ss ≡ none
    → (validate_session now (some token) ss).0 ≡ false
unfolding validate_session
refused now [] ss e = refl
refused now (b ∷ bs) ss e = validate_slots-refused now (b ∷ bs) ss e

-- Whether a socket is in a list.
unfoldable pub is_among : ℕ → List ℕ → Bool
is_among fd [] = false
is_among fd (g ∷ gs) = fd == g || is_among fd gs

module _ (now : ℕ) (seconds : ℕ → ℕ) where
  -- The sessions that the pass hands to the next slot.
  abbrev handed_on : ℕ → Client → List Session → List Session
  handed_on k c ss = if due now c then (validate_session (seconds k) (some c.token) ss).1 else ss

  handed_on-gone :
      (k : ℕ) (c : Client) (token : Bytes) (ss : List Session)
      → find_session token ss ≡ none
      → find_session token (handed_on k c ss) ≡ none
  handed_on-gone k c token ss e =
      ground (arith, validate_session-gone (seconds k) token c.token ss e)

  revalidate-rest :
      (k i : ℕ) (c : Client) (cs : List Client) (ss : List Session)
      → get_or (revalidate now seconds k (c ∷ cs) ss).clients (suc i) blank_client
        ≡ get_or (revalidate now seconds (suc k) cs (handed_on k c ss)).clients i blank_client
  unfolding revalidate
  revalidate-rest k i c cs ss = ground arith

  revalidate-drops :
      (k i : ℕ) (cs : List Client) (ss : List Session)
      → i < length cs
      → due now (get_or cs i blank_client) ≡ true
      → find_session (get_or cs i blank_client).token ss ≡ none
      → (get_or (revalidate now seconds k cs ss).clients i blank_client).active ≡ false
  unfolding revalidate
  revalidate-drops k i [] ss lt d e = absurd (omega arith)
  revalidate-drops k zero (c ∷ cs) ss lt d e = rw (d, refused (seconds k) c.token ss e) refl
  revalidate-drops k (suc i) (c ∷ cs) ss lt d e = rw (revalidate-rest k i c cs ss) (
      revalidate-drops (suc k) i cs (handed_on k c ss) (omega arith) d
        (handed_on-gone k c (get_or cs i blank_client).token ss e))

  -- The slot of a client whose session is gone is among those that are closed.
  revalidate-closes :
      (k i : ℕ) (cs : List Client) (ss : List Session)
      → i < length cs
      → due now (get_or cs i blank_client) ≡ true
      → find_session (get_or cs i blank_client).token ss ≡ none
      → is_among (get_or cs i blank_client).fd (revalidate now seconds k cs ss).closed ≡ true
  unfolding revalidate is_among
  revalidate-closes k i [] ss lt d e = absurd (omega arith)
  revalidate-closes k zero (c ∷ cs) ss lt d e =
      let same : (c.fd == c.fd) ≡ true = ground arith in
      rw (d, refused (seconds k) c.token ss e, is_among, same) refl
  revalidate-closes k (suc i) (c ∷ cs) ss lt d e =
      let ih =
        revalidate-closes (suc k) i cs (handed_on k c ss) (omega arith) d
          (handed_on-gone k c (get_or cs i blank_client).token ss e) in
      ground (arith, ih)

none_meant : (c : Client) (fs : List Frame) → c.active ≡ false → meant_for c fs ≡ []
unfolding meant_for
none_meant c [] e = refl
none_meant c (f ∷ fs) e = ground (arith, none_meant c fs e)

take_none : (n : ℕ) → take {A = Frame} n [] ≡ []
take_none zero = refl
take_none (suc n) = refl

module _ (now : ℕ) (seconds : ℕ → ℕ) (works : ℕ → ℕ → Bool) (r : Ring) (cs : List Client)
    (ss : List Session) (v : RingInv r) (i : ℕ) (lt : i < length cs) where
  silent :
      (checked now seconds works r cs ss v i lt).active ≡ false
      → received i (flush now seconds works r cs ss).0.sends ≡ []
  silent e =
      let d = delivered now seconds works r cs ss v i lt in
      d.in_order ∙ ap (take d.count) (none_meant _ (contents r) e) ∙ take_none d.count

  -- With a ring that fulfils RingInv: a client whose token has no session, and whose last check
  -- is at least WS_AUTH_RECHECK_US ago, is sent no frame of the ring by a flush; its socket is sent a
  -- close frame.
  pub flush_revoked :
      due now (get_or cs i blank_client) ≡ true
      → find_session (get_or cs i blank_client).token ss ≡ none
      → (received i (flush now seconds works r cs ss).0.sends ≡ [])
        × (is_among (get_or cs i blank_client).fd (flush now seconds works r cs ss).0.closes ≡ true)
  unfolding flush
  flush_revoked d e = (
    silent (revalidate-drops now seconds 0 i cs ss lt d e),
    revalidate-closes now seconds 0 i cs ss lt d e,
  )

close_all-inactive :
    (cs : List Client) (i : ℕ) → (get_or (close_all cs).0 i blank_client).active ≡ false
unfolding close_all
close_all-inactive [] i = refl
close_all-inactive (c ∷ cs) zero = ground arith
close_all-inactive (c ∷ cs) (suc i) = ground (arith, close_all-inactive cs i)

-- A closed client stays closed.
revalidate-inactive :
    (now : ℕ) (seconds : ℕ → ℕ) (k i : ℕ) (cs : List Client) (ss : List Session)
    → (get_or cs i blank_client).active ≡ false
    → (get_or (revalidate now seconds k cs ss).clients i blank_client).active ≡ false
unfolding revalidate
revalidate-inactive now seconds k i [] ss e = refl
revalidate-inactive now seconds k zero (c ∷ cs) ss e = ground arith
revalidate-inactive now seconds k (suc i) (c ∷ cs) ss e =
    rw (revalidate-rest now seconds k i c cs ss)
      (revalidate-inactive now seconds (suc k) i cs (handed_on now seconds k c ss) e)

length-close_all : (cs : List Client) → length (close_all cs).0 ≡ length cs
unfolding close_all
length-close_all [] = refl
length-close_all (c ∷ cs) = ground (arith, length-close_all cs)

-- After web_server_ws_close_all, a flush of a ring that fulfils RingInv sends no frame of the
-- ring to any slot.
pub close_all_silences :
    (now : ℕ) (seconds : ℕ → ℕ) (works : ℕ → ℕ → Bool) (r : Ring) (cs : List Client)
    (ss : List Session) (i : ℕ)
    → RingInv r
    → i < length cs
    → received i (flush now seconds works r (close_all cs).0 ss).0.sends ≡ []
close_all_silences now seconds works r cs ss i v lt =
    silent now seconds works r (close_all cs).0 ss v i (omega (arith, length-close_all cs))
      (revalidate-inactive now seconds 0 i (close_all cs).0 ss (close_all-inactive cs i))
