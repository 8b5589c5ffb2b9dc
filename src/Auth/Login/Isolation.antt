-- ===== src/Auth/Login/Isolation.antt =====
-- One address cannot lock out another, and a lockout refuses the right password too.
use esp32_web_terminal.Prelude.{
  ℕ, ◌+◌, ◌<◌, ◌≡◌, ◌≢◌, refl, ◌∙◌, ◌⊎◌, inl, inr, Bool, true, false, Option, none, some, List,
  arith, Bytes, Bool-cases,
}
use esp32_web_terminal.Auth.Hosts.{
  Host, host_key, is_locked_out, count_failure, max_failed, lockout_s,
}
use esp32_web_terminal.Auth.Hosts.Lookup.{find_host}
use esp32_web_terminal.Auth.Hosts.Claims.{Fits, find_host-record_failure}
use esp32_web_terminal.Auth.Hosts.Lockout.{
  blocked, refreshed, is_locked_out-LockedAs, trust_host-TrustedAs,
}
use esp32_web_terminal.Auth.Hosts.Invariant.{IsSound, HostsInv}
use esp32_web_terminal.Auth.Hosts.Preserve.{is_locked_out-HostsInv, record_failure_other}
use esp32_web_terminal.Auth.Login.{Auth, Attempt, rejected, login}
use esp32_web_terminal.Auth.Login.Attempts.{pos_slots, find_host-IsSound, login-HostsInv}
use esp32_web_terminal.Auth.Login.Guessing.{hosts_after_wrong}

blocked-dropped :
    (now : ℕ) (o p : Option Host)
    → (o ≡ p) ⊎ (o ≡ none)
    → blocked now o ≡ true
    → blocked now p ≡ true
unfolding blocked
blocked-dropped now o p (inl e) h = rw (← e) h
blocked-dropped now o p (inr e) h = ground (arith, e)

unlocked_below :
    (now : ℕ) (h : Host)
    → IsSound h
    → h.failed_attempts + 1 ≡ max_failed
    → (blocked now (some h) ≡ false) × (refreshed now (some h) ≡ some h)
unfolding blocked refreshed
unlocked_below now h s e = (ground arith, ground arith)

blocked_fifth :
    (now decided : ℕ) (h : Host)
    → h.failed_attempts + 1 ≡ max_failed
    → now < decided + lockout_s
    → blocked now (some (count_failure decided h)) ≡ true
unfolding blocked
blocked_fifth now decided h e lt = ground arith

module _ (auth_user : Bytes) (check_password : Bytes → Bool) where
  -- From tables that fulfil HostsInv: whatever an address of fewer than AUTH_IP_LEN bytes sends
  -- to auth_login, another address that was not locked out at a time is not locked out at it
  -- afterwards.
  pub login_isolates :
      (t : Attempt) (a : Auth) (other : Bytes) (now : ℕ)
      → Fits t.client_ip
      → HostsInv a.hosts
      → other ≢ host_key t.client_ip
      → blocked now (find_host other a.hosts) ≡ false
      → blocked now (find_host other (login auth_user check_password t a).1.hosts) ≡ false
  unfolding login
  login_isolates t a other now fits v ne free = elim (Bool-cases locked.0) [
    | inl e ↦ rw (e, seen) free
    | inr e ↦ rw e (
        ground (
          arith,
          seen,
          (trust_host-TrustedAs t.client_ip locked.1 (pos_slots kept)).1 other ne,
          blocked-dropped now _ _
              (record_failure_other t.decided_at t.client_ip other locked.1 fits ne kept),
        ))
  ]
    where
      locked : Bool × List Host
      locked = is_locked_out t.checked_at t.client_ip a.hosts

      kept : HostsInv locked.1
      kept = is_locked_out-HostsInv t.checked_at t.client_ip a.hosts v

      seen : find_host other locked.1 ≡ find_host other a.hosts
      seen = (is_locked_out-LockedAs t.checked_at t.client_ip a.hosts (pos_slots v)).2 other ne

  -- With tables that fulfil HostsInv: while the lockout of an address runs, auth_login refuses
  -- it, the right password included, and opens no session.
  pub login_locked :
      (t : Attempt) (a : Auth)
      → HostsInv a.hosts
      → blocked t.checked_at (find_host (host_key t.client_ip) a.hosts) ≡ true
      → ((login auth_user check_password t a).0 ≡ none)
        × ((login auth_user check_password t a).1.sessions ≡ a.sessions)
  unfolding login
  login_locked t a v b =
      let l = is_locked_out-LockedAs t.checked_at t.client_ip a.hosts (pos_slots v) in
      rw (l.0, b) (refl, refl)

  -- From tables that fulfil HostsInv: the fifth counted failure locks its address (of fewer than
  -- AUTH_IP_LEN bytes). The next attempt from there gets no token, whatever its credentials, if
  -- it is checked before AUTH_LOCKOUT_S seconds after that failure.
  pub login_fifth_failure :
      (t u : Attempt) (a : Auth) (h : Host)
      → Fits t.client_ip
      → HostsInv a.hosts
      → find_host (host_key t.client_ip) a.hosts ≡ some h
      → h.failed_attempts + 1 ≡ max_failed
      → rejected auth_user check_password t ≡ true
      → u.client_ip ≡ t.client_ip
      → u.checked_at < t.decided_at + lockout_s
      → (login auth_user check_password u (login auth_user check_password t a).1).0 ≡ none
  login_fifth_failure t u a h fits v found four wrong same before =
      (login_locked u a' (login-HostsInv auth_user check_password t a fits v)
        (rw (same, after) (ground (arith, counted)))).0
    where
      a' : Auth
      a' = (login auth_user check_password t a).1

      key : Bytes
      key = host_key t.client_ip

      locked : Bool × List Host
      locked = is_locked_out t.checked_at t.client_ip a.hosts

      free :
          (blocked t.checked_at (find_host key a.hosts) ≡ false)
          × (refreshed t.checked_at (find_host key a.hosts) ≡ some h)
      free =
          rw found
            (unlocked_below t.checked_at h (find_host-IsSound key a.hosts v.sound found) four)

      after : find_host key a'.hosts ≡ some (count_failure t.decided_at h)
      after =
          let l = is_locked_out-LockedAs t.checked_at t.client_ip a.hosts (pos_slots v) in
          let kept = is_locked_out-HostsInv t.checked_at t.client_ip a.hosts v in
          rw (
            hosts_after_wrong auth_user check_password t a wrong (l.0 ∙ free.0),
            find_host-record_failure t.decided_at t.client_ip locked.1 (pos_slots kept) fits,
            l.1,
            free.1,
          )

      counted : blocked u.checked_at (some (count_failure t.decided_at h)) ≡ true
      counted = blocked_fifth u.checked_at t.decided_at h four before
