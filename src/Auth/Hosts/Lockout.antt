-- ===== src/Auth/Hosts/Lockout.antt =====
-- auth_is_locked_out and the clearing of a counter, seen through the lookup of an address.
use esp32_web_terminal.Prelude.{
  ℕ, ◌<◌, ◌≡◌, ◌≢◌, refl, Bool, false, Option, none, some, List, arith, Bytes, length, ltb, leb,
  ◌==◌, if◌then◌else◌,
}
use esp32_web_terminal.Auth.Hosts.{
  Host, host_key, locked_at, locked_entry, is_locked_out, clear_counter, clear_entry, trust_host,
}
use esp32_web_terminal.Auth.Hosts.Lookup.{
  find_host, FirstAt, get_elem?-FirstAt, find_host-FirstAt, find_host-modify_self,
  find_host-modify_ne,
}
use esp32_web_terminal.Auth.Hosts.Claims.{Entered, at, fresh, nowhere, host_entry-Entered}

-- What a lookup says of a lockout at a time.
unfoldable pub blocked : ℕ → Option Host → Bool
blocked now none = false
blocked now (some h) = ltb now h.lockout_until

-- The entry of an address after its lockout was looked at.
unfoldable pub refreshed : ℕ → Option Host → Option Host
refreshed now none = none
refreshed now (some h) =
    if h.lockout_until == 0
    then some h
    else if leb h.lockout_until now
    then some (clear_counter h)
    else some h

pub clear_counter_keeps :
    (h : Host) → ((clear_counter h).used ≡ h.used) × ((clear_counter h).ip ≡ h.ip)
clear_counter_keeps h = (refl, refl)

abbrev pub LockedAs : ℕ → Bytes → List Host → Bool × List Host → Type 0
LockedAs now key hs r =
    (r.0 ≡ blocked now (find_host key hs))
    × (find_host key r.1 ≡ refreshed now (find_host key hs))
    × ((other : Bytes) → other ≢ key → find_host other r.1 ≡ find_host other hs)

module _ (now : ℕ) (key : Bytes) (hs : List Host) (m : ℕ) (h : Host) (a : FirstAt key hs m h) where
  locked_at-LockedAs : LockedAs now key hs (locked_at now hs m (some h))
  unfolding locked_at blocked refreshed
  locked_at-LockedAs = rw (find_host-FirstAt key hs m h a) (
    ground arith,
    ground (
      arith,
      find_host-FirstAt key hs m h a,
      find_host-modify_self clear_counter clear_counter_keeps key hs m h a,
    ),
    λ other ne.
        ground (arith, find_host-modify_ne clear_counter clear_counter_keeps key other hs m h ne a),
  )

locked_entry-LockedAs :
    (now : ℕ) (ip : Option Bytes) (hs : List Host) (r : Option ℕ × List Host)
    → Entered ip false hs r
    → LockedAs now (host_key ip) hs (locked_entry now r)
unfolding locked_entry blocked refreshed
locked_entry-LockedAs now ip hs r (at m h a) =
    rw (get_elem?-FirstAt (host_key ip) hs m h a) (locked_at-LockedAs now (host_key ip) hs m h a)
locked_entry-LockedAs now ip hs r (fresh j c b e) = absurd (ground arith)
locked_entry-LockedAs now ip hs r (nowhere c e) = (rw e, rw e, λ other ne. refl)

-- auth_is_locked_out tells whether the address's lockout runs, clears a lapsed one, and touches
-- no other address.
pub is_locked_out-LockedAs :
    (now : ℕ) (ip : Option Bytes) (hs : List Host)
    → 0 < length hs
    → LockedAs now (host_key ip) hs (is_locked_out now ip hs)
unfolding is_locked_out
is_locked_out-LockedAs now ip hs pos =
    locked_entry-LockedAs now ip hs _ (host_entry-Entered ip false hs pos)

abbrev pub cleared : Option Host → Option Host
cleared none = none
cleared (some h) = some (clear_counter h)

abbrev pub TrustedAs : Bytes → List Host → List Host → Type 0
TrustedAs key hs hs' =
    (find_host key hs' ≡ cleared (find_host key hs))
    × ((other : Bytes) → other ≢ key → find_host other hs' ≡ find_host other hs)

clear_entry-TrustedAs :
    (ip : Option Bytes) (hs : List Host) (r : Option ℕ × List Host)
    → Entered ip false hs r
    → TrustedAs (host_key ip) hs (clear_entry r)
unfolding clear_entry
clear_entry-TrustedAs ip hs r (at m h a) = (
  rw (find_host-FirstAt (host_key ip) hs m h a)
      (find_host-modify_self clear_counter clear_counter_keeps (host_key ip) hs m h a),
  λ other ne. find_host-modify_ne clear_counter clear_counter_keeps (host_key ip) other hs m h ne a,
)
clear_entry-TrustedAs ip hs r (fresh j c b e) = absurd (ground arith)
clear_entry-TrustedAs ip hs r (nowhere c e) = (rw e, λ other ne. refl)

-- A successful login clears the counter of its address and touches no other.
pub trust_host-TrustedAs :
    (ip : Option Bytes) (hs : List Host)
    → 0 < length hs
    → TrustedAs (host_key ip) hs (trust_host ip hs)
unfolding trust_host
trust_host-TrustedAs ip hs pos = clear_entry-TrustedAs ip hs _ (host_entry-Entered ip false hs pos)
