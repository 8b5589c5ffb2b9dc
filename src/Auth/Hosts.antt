-- ===== src/Auth/Hosts.antt =====
-- main/auth.c: the failed-login counters (host_t, host_entry, auth_is_locked_out).
-- A pointer to an entry is its index in `s_hosts`; times are monotonic seconds, from mono_now.
pub mod Lookup
pub mod Claims
pub mod Lockout
pub mod Invariant
pub mod Preserve
use esp32_web_terminal.Prelude.{
  ℕ, suc, ◌+◌, Bool, true, false, ◌&&◌, Option, none, some, List, [], ◌∷◌, Bytes, ltb, leb, ◌==◌,
  if◌then◌else◌, str_eq, set, modify, take, get_elem?, replicate, ◌-◌,
}

abbrev pub max_failed : ℕ
max_failed = 5

abbrev pub lockout_s : ℕ
lockout_s = 300

abbrev pub tracked_hosts : ℕ
tracked_hosts = 8

-- AUTH_IP_LEN, the terminator included.
abbrev pub ip_len : ℕ
ip_len = 46

pub record Host : Type 0 where
  pub used : Bool
  pub ip : Bytes
  pub failed_attempts : ℕ
  pub lockout_until : ℕ

-- A host_t after memset.
abbrev pub blank_host : Host
blank_host = record { used = false; ip = []; failed_attempts = 0; lockout_until = 0 }

-- `ip ? ip : ""`
abbrev pub host_key : Option Bytes → Bytes
host_key none = []
host_key (some ip) = ip

-- How the loop of host_entry ends: at an entry with the key, or with the first free slot and
-- the used slot of the smallest `lockout_until` (its index and that time).
pub data Scan : Type 0 where
  found : ℕ → Scan
  missing : Option ℕ → Option (ℕ × ℕ) → Scan

-- `if (!free_slot) free_slot = h;`
abbrev pub first_free : Option ℕ → ℕ → Option ℕ
first_free none i = some i
first_free (some j) i = some j

-- `if (!stalest || h->lockout_until < stalest->lockout_until) stalest = h;`
abbrev pub staler : Option (ℕ × ℕ) → ℕ → ℕ → Option (ℕ × ℕ)
staler none i until = some (i, until)
staler (some (j, oldest)) i until = if ltb until oldest then some (i, until) else some (j, oldest)

unfoldable pub scan_hosts : Bytes → List Host → ℕ → Option ℕ → Option (ℕ × ℕ) → Scan
scan_hosts key [] i free stalest = missing free stalest
scan_hosts key (h ∷ hs) i free stalest =
    if h.used && str_eq h.ip key
    then found i
    else scan_hosts key hs (suc i) (if h.used then free else first_free free i)
        (if h.used then staler stalest i h.lockout_until else stalest)

-- `free_slot ? free_slot : stalest`
abbrev pub claimed_slot : Option ℕ → Option (ℕ × ℕ) → Option ℕ
claimed_slot (some i) stalest = some i
claimed_slot none (some (j, until)) = some j
claimed_slot none none = none

-- What a claimed slot holds: strncpy keeps AUTH_IP_LEN - 1 bytes of the key.
abbrev pub claimed_host : Bytes → Host
claimed_host key = record {
  used = true;
  ip = take (ip_len - 1) key;
  failed_attempts = 0;
  lockout_until = 0;
}

claim : Bytes → List Host → Option ℕ → Option ℕ × List Host
claim key hosts none = (none, hosts)
claim key hosts (some i) = (some i, set hosts i (claimed_host key))

entry_of : Bytes → Bool → List Host → Scan → Option ℕ × List Host
unfolding claim
entry_of key create hosts (found i) = (some i, hosts)
entry_of key create hosts (missing free stalest) =
    if create then claim key hosts (claimed_slot free stalest) else (none, hosts)

-- host_entry: the index of the entry, and the table after it.
unfoldable pub host_entry : Option Bytes → Bool → List Host → Option ℕ × List Host
unfolding entry_of scan_hosts
host_entry ip create hosts =
    let key = host_key ip in entry_of key create hosts (scan_hosts key hosts 0 none none)

-- `h->lockout_until = 0; h->failed_attempts = 0;`
abbrev pub clear_counter : Host → Host
clear_counter h = record h { failed_attempts = 0; lockout_until = 0 }

locked_at : ℕ → List Host → ℕ → Option Host → Bool × List Host
locked_at now hosts i none = (false, hosts)
locked_at now hosts i (some h) =
    if h.lockout_until == 0
    then (false, hosts)
    else if leb h.lockout_until now
    then (false, modify hosts i clear_counter)
    else (true, hosts)

locked_entry : ℕ → Option ℕ × List Host → Bool × List Host
unfolding locked_at
locked_entry now (none, hosts) = (false, hosts)
locked_entry now (some i, hosts) = locked_at now hosts i (get_elem? hosts i)

-- auth_is_locked_out: a lockout that has lapsed is cleared on the way.
unfoldable pub is_locked_out : ℕ → Option Bytes → List Host → Bool × List Host
unfolding locked_entry host_entry
is_locked_out now ip hosts = locked_entry now (host_entry ip false hosts)

-- `h->failed_attempts++; if (h->failed_attempts >= AUTH_MAX_FAILED) h->lockout_until = ...;`
abbrev pub count_failure : ℕ → Host → Host
count_failure now h =
    let failed = suc h.failed_attempts in
    if leb max_failed failed
    then record h { failed_attempts = failed; lockout_until = now + lockout_s }
    else record h { failed_attempts = failed }

fail_entry : ℕ → Option ℕ × List Host → List Host
fail_entry now (none, hosts) = hosts
fail_entry now (some i, hosts) = modify hosts i (count_failure now)

-- The branch of auth_login for wrong credentials.
unfoldable pub record_failure : ℕ → Option Bytes → List Host → List Host
unfolding fail_entry host_entry
record_failure now ip hosts = fail_entry now (host_entry ip true hosts)

clear_entry : Option ℕ × List Host → List Host
clear_entry (none, hosts) = hosts
clear_entry (some i, hosts) = modify hosts i clear_counter

-- The success branch of auth_login: "this address is trustworthy again".
unfoldable pub trust_host : Option Bytes → List Host → List Host
unfolding clear_entry host_entry
trust_host ip hosts = clear_entry (host_entry ip false hosts)

-- The table after auth_init.
abbrev pub init_hosts : List Host
init_hosts = replicate tracked_hosts blank_host
