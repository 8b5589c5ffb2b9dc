-- ===== src/Auth/Login/Attempts.antt =====
-- Login attempts and the counters: the invariant, isolation of addresses, and how many passwords
-- one address can try.
use esp32_web_terminal.Prelude.{
  ℕ, suc, ◌+◌, ◌-◌, ◌≤◌, ◌<◌, ◌≡◌, ◌≢◌, refl, sym, subst, ◌∙◌, ◌⊎◌, inl, inr, Bool, true, false,
  Option, none, some, List, [], ◌∷◌, arith, Bytes, All, ltb, leb, ◌==◌, if◌then◌else◌, Bool-cases,
}
use esp32_web_terminal.Auth.Hosts.{Host, host_key, is_locked_out}
use esp32_web_terminal.Auth.Hosts.Lookup.{find_host, holds}
use esp32_web_terminal.Auth.Hosts.Claims.{Fits}
use esp32_web_terminal.Auth.Hosts.Lockout.{blocked, refreshed, is_locked_out-LockedAs}
use esp32_web_terminal.Auth.Hosts.Invariant.{IsSound, HostsInv}
use esp32_web_terminal.Auth.Hosts.Preserve.{
  Counting, record_failure-HostsInv, is_locked_out-HostsInv, trust_host-HostsInv,
}
use esp32_web_terminal.Auth.Login.{Auth, Attempt, login}

pub find_host-IsSound :
    (key : Bytes) (hs : List Host) {h : Host}
    → All IsSound hs
    → find_host key hs ≡ some h
    → IsSound h
unfolding find_host
find_host-IsSound key [] a e = cc
find_host-IsSound key (x ∷ xs) {h} a e = elim (Bool-cases (holds key x)) [
  | inl y ↦ let p : x ≡ h = ground arith in subst IsSound p a.0
  | inr n ↦ find_host-IsSound key xs a.1 (ground arith)
]

refreshed-Counting :
    (now : ℕ) (o : Option Host)
    → ((h : Host) → o ≡ some h → IsSound h)
    → blocked now o ≡ false
    → Counting (refreshed now o)
unfolding blocked refreshed
refreshed-Counting now none s e = tt
refreshed-Counting now (some h) s e = ground (arith, s h refl)

pub pos_slots : {hs : List Host} → HostsInv hs → 0 < esp32_web_terminal.Prelude.length hs
pos_slots v = omega (arith, v.slots)

-- An address that is not locked out is left with a counter below its limit.
pub is_locked_out-Counting :
    (now : ℕ) (ip : Option Bytes) (hs : List Host)
    → HostsInv hs
    → (is_locked_out now ip hs).0 ≡ false
    → Counting (find_host (host_key ip) (is_locked_out now ip hs).1)
is_locked_out-Counting now ip hs v e =
    let l = is_locked_out-LockedAs now ip hs (pos_slots v) in
    subst Counting (sym l.1)
      (refreshed-Counting now _ (λ h p. find_host-IsSound (host_key ip) hs v.sound p) (sym l.0 ∙ e))

module _ (auth_user : Bytes) (check_password : Bytes → Bool) where
  -- For an address of fewer than AUTH_IP_LEN bytes, auth_login preserves HostsInv: eight entries,
  -- each counter within bounds, a lockout set exactly at AUTH_MAX_FAILED failures, and at most
  -- one entry for an address.
  pub login-HostsInv :
      (t : Attempt) (a : Auth)
      → Fits t.client_ip
      → HostsInv a.hosts
      → HostsInv (login auth_user check_password t a).1.hosts
  unfolding login
  login-HostsInv t a fits v = elim (Bool-cases (is_locked_out t.checked_at t.client_ip a.hosts).0) [
    | inl e ↦ rw e (is_locked_out-HostsInv t.checked_at t.client_ip a.hosts v)
    | inr e ↦
        let kept = is_locked_out-HostsInv t.checked_at t.client_ip a.hosts v in
        let counting = is_locked_out-Counting t.checked_at t.client_ip a.hosts v e in
        rw e (
          ground (
            arith,
            record_failure-HostsInv t.decided_at t.client_ip _ fits counting kept,
            trust_host-HostsInv t.client_ip _ kept,
          ))
  ]
