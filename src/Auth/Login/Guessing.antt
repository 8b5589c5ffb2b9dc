-- ===== src/Auth/Login/Guessing.antt =====
-- What the counters are for: one address cannot lock out another, and can try few passwords.
use esp32_web_terminal.Prelude.{
  ℕ, suc, ◌+◌, ◌-◌, ◌≤◌, ◌<◌, ◌≡◌, refl, sym, ap, subst, ◌∙◌, inl, inr, Bool, true, false, Option,
  none, some, List, [], ◌∷◌, arith, Bytes, All, leb, not, ◌==◌, if◌then◌else◌, Bool-cases, str_eq,
  str_eq_iff,
}
use esp32_web_terminal.Auth.Hosts.{
  Host, host_key, is_locked_out, record_failure, count_failure, max_failed, lockout_s,
}
use esp32_web_terminal.Auth.Hosts.Lookup.{find_host}
use esp32_web_terminal.Auth.Hosts.Claims.{Fits, entry_or_claim, find_host-record_failure}
use esp32_web_terminal.Auth.Hosts.Lockout.{blocked, refreshed, is_locked_out-LockedAs}
use esp32_web_terminal.Auth.Hosts.Invariant.{HostsInv}
use esp32_web_terminal.Auth.Hosts.Preserve.{is_locked_out-HostsInv, Counting}
use esp32_web_terminal.Auth.Login.{Auth, Attempt, rejected, login}
use esp32_web_terminal.Auth.Login.Attempts.{pos_slots, is_locked_out-Counting, login-HostsInv}

-- What can still be tried from the state of an entry before `stop`.
budget : ℕ → Option Host → ℕ
budget stop none = max_failed
budget stop (some h) =
    if h.lockout_until == 0
    then max_failed - h.failed_attempts
    else if leb stop h.lockout_until
    then 0
    else max_failed

budget-blocked : (stop now : ℕ) (o : Option Host) → blocked now o ≡ true → refreshed now o ≡ o
unfolding blocked refreshed
budget-blocked stop now none e = refl
budget-blocked stop now (some h) e = ground arith

budget-le : (stop : ℕ) (o : Option Host) → budget stop o ≤ max_failed
unfolding budget
budget-le stop none = omega arith
budget-le stop (some h) = ground arith

budget_step :
    (stop checked decided : ℕ) (key : Bytes) (o : Option Host)
    → checked < stop
    → stop ≤ decided + lockout_s
    → blocked checked o ≡ false
    → Counting (refreshed checked o)
    → suc (budget stop (some (count_failure decided (entry_or_claim key (refreshed checked o)))))
      ≤ budget stop o
unfolding budget blocked refreshed
budget_step stop checked decided key none lt le e c = ground arith
budget_step stop checked decided key (some h) lt le e c = ground arith

module _ (auth_user : Bytes) (check_password : Bytes → Bool) where
  -- Whether auth_login would let the right credentials in, in the place of an attempt.
  unfoldable pub lets_in : Attempt → Auth → Bool
  unfolding login
  lets_in t a =
      elim (login auth_user (λ p. true) (record t { username = auth_user; dup_works = true }) a).0 [
        | none ↦ false
        | some token ↦ true
      ]

  lets_in_unlocked :
      (t : Attempt) (a : Auth)
      → lets_in t a ≡ not (is_locked_out t.checked_at t.client_ip a.hosts).0
  unfolding lets_in login
  lets_in_unlocked t a =
      let right_user : str_eq auth_user auth_user ≡ true =
        (str_eq_iff auth_user auth_user).1 refl in
      elim (Bool-cases (is_locked_out t.checked_at t.client_ip a.hosts).0) [
        | inl e ↦ rw (e, lets_in, login) refl
        | inr e ↦ rw (e, right_user, lets_in, login) refl
      ]

  -- How many of the attempts come when the right credentials would be let in.
  unfoldable pub open_guesses : List Attempt → Auth → ℕ
  open_guesses [] a = 0
  open_guesses (t ∷ ts) a =
      let rest = open_guesses ts (login auth_user check_password t a).1 in
      if lets_in t a then suc rest else rest

  -- An attempt of an address with wrong credentials, made before `stop`, whose failure would lock
  -- the address until `stop` or later.
  pub record WrongGuess (ip : Option Bytes) (stop : ℕ) (t : Attempt) : Type 0 where
    pub from_ip : t.client_ip ≡ ip
    pub wrong : rejected auth_user check_password t ≡ true
    pub before : t.checked_at < stop
    pub reaches : stop ≤ t.decided_at + lockout_s

  pub hosts_after_wrong :
      (t : Attempt) (a : Auth)
      → rejected auth_user check_password t ≡ true
      → (is_locked_out t.checked_at t.client_ip a.hosts).0 ≡ false
      → (login auth_user check_password t a).1.hosts
        ≡ record_failure t.decided_at t.client_ip (is_locked_out t.checked_at t.client_ip a.hosts).1
  unfolding login
  hosts_after_wrong t a w e = rw (e, w)

  pub hosts_after_locked :
      (t : Attempt) (a : Auth)
      → (is_locked_out t.checked_at t.client_ip a.hosts).0 ≡ true
      → (login auth_user check_password t a).1.hosts
        ≡ (is_locked_out t.checked_at t.client_ip a.hosts).1
  unfolding login
  hosts_after_locked t a e = rw e

  budget-login :
      (stop : ℕ) (t : Attempt) (a : Auth)
      → Fits t.client_ip
      → HostsInv a.hosts
      → WrongGuess t.client_ip stop t
      → (if (is_locked_out t.checked_at t.client_ip a.hosts).0 then 0 else 1)
          + budget stop
              (find_host (host_key t.client_ip) (login auth_user check_password t a).1.hosts)
        ≤ budget stop (find_host (host_key t.client_ip) a.hosts)
  budget-login stop t a fits v w =
      let now = t.checked_at in
      let ip = t.client_ip in
      let key = host_key ip in
      let l = is_locked_out-LockedAs now ip a.hosts (pos_slots v) in
      elim (Bool-cases (is_locked_out now ip a.hosts).0) [
        | inl e ↦
            rw (e, hosts_after_locked t a e, l.1, budget-blocked stop now _ (sym l.0 ∙ e))
              (omega arith)
        | inr e ↦
            let counting = is_locked_out-Counting now ip a.hosts v e in
            let after = is_locked_out-HostsInv now ip a.hosts v in
            let step =
              budget_step stop now t.decided_at key (find_host key a.hosts) w.before w.reaches
                (sym l.0 ∙ e) (subst Counting l.1 counting) in
            rw
              (
                e,
                hosts_after_wrong t a w.wrong e,
                find_host-record_failure t.decided_at ip _ (pos_slots after) fits,
                l.1,
              )
              (omega (arith, step))
      ]

  open_guesses-le-budget :
      (ip : Option Bytes) (stop : ℕ) (ts : List Attempt) (a : Auth)
      → Fits ip
      → HostsInv a.hosts
      → All (WrongGuess ip stop) ts
      → open_guesses ts a ≤ budget stop (find_host (host_key ip) a.hosts)
  unfolding open_guesses
  open_guesses-le-budget ip stop [] a fits v w = omega arith
  open_guesses-le-budget ip stop (t ∷ ts) a fits v w =
      let a' = (login auth_user check_password t a).1 in
      let fits' = subst Fits (sym w.0.from_ip) fits in
      let same_ip =
        λ (i : Option Bytes) (e : t.client_ip ≡ i). subst (λ j. WrongGuess j stop t) (sym e) in
      let here = budget-login stop t a fits' v (same_ip ip w.0.from_ip w.0) in
      let v' = login-HostsInv auth_user check_password t a fits' v in
      let rest = open_guesses-le-budget ip stop ts a' fits v' w.1 in
      let at = λ (b : Auth). ap (λ i. budget stop (find_host (host_key i) b.hosts)) w.0.from_ip in
      ground (arith, lets_in_unlocked t a, here, rest, at a, at a')

  -- From tables that fulfil HostsInv: of any list of wrong guesses that one address (of fewer
  -- than AUTH_IP_LEN bytes) sends, each checked before `stop` and each decided at most
  -- AUTH_LOCKOUT_S seconds before it, at most AUTH_MAX_FAILED come when auth_login would have let
  -- the right credentials in.
  pub open_guesses-le :
      (ip : Option Bytes) (stop : ℕ) (ts : List Attempt) (a : Auth)
      → Fits ip
      → HostsInv a.hosts
      → All (WrongGuess ip stop) ts
      → open_guesses ts a ≤ max_failed
  open_guesses-le ip stop ts a fits v w = omega (
    arith,
    open_guesses-le-budget ip stop ts a fits v w,
    budget-le stop (find_host (host_key ip) a.hosts),
  )
