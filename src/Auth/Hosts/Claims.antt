-- ===== src/Auth/Hosts/Claims.antt =====
-- The slot that host_entry claims for a new address, and the operations built on it, seen
-- through the lookup of an address.
use esp32_web_terminal.Prelude.{
  ℕ, zero, suc, ◌+◌, ◌<◌, ◌≡◌, refl, subst, ◌⊎◌, inl, inr, Bool, true, false, Option, none, some,
  List, [], ◌∷◌, arith, Bytes, length, set, take_all, ltb, str_eq_refl, Bool-cases, if◌then◌else◌,
}
use esp32_web_terminal.Auth.Hosts.{
  Host, Scan, found, missing, scan_hosts, claimed_slot, first_free, staler, claimed_host, host_key,
  claim, entry_of, host_entry, count_failure, fail_entry, record_failure, ip_len,
}
use esp32_web_terminal.Auth.Hosts.Lookup.{
  holds, find_host, FirstAt, Scanned, scan_hosts-Scanned, find_host-FirstAt, find_host-modify_self,
}

-- An address that inet_ntop writes into a buffer of AUTH_IP_LEN bytes.
abbrev pub Fits : Option Bytes → Type 0
Fits ip = length (host_key ip) < ip_len

pub claimed_host-ip : (ip : Option Bytes) → Fits ip → (claimed_host (host_key ip)).ip ≡ host_key ip
claimed_host-ip ip h = take_all 45 (host_key ip) (omega arith)

holds-claimed_host :
    (ip : Option Bytes) → Fits ip → holds (host_key ip) (claimed_host (host_key ip)) ≡ true
holds-claimed_host ip h = rw (claimed_host-ip ip h) (str_eq_refl (host_key ip))

-- Where a claim would go, below `n`.
abbrev Claimable : ℕ → Option ℕ → Option (ℕ × ℕ) → Type 0
Claimable n f s = (j : ℕ) × (claimed_slot f s ≡ some j) × (j < n)

free_step :
    (used : Bool) (i until : ℕ) (f : Option ℕ) (s : Option (ℕ × ℕ))
    → (claimed_slot f s ≡ none) ⊎ Claimable i f s
    → Claimable (suc i) (if used then f else first_free f i) (if used then staler s i until else s)
free_step true i until (some j) s (inl e) = absurd (ground arith)
free_step true i until (some j) s (inr (k, p, q)) = (j, refl, ground arith)
free_step true i until none none w = (i, refl, omega arith)
free_step true i until none (some (j, t)) (inl e) = absurd (ground arith)
free_step true i until none (some (j, t)) (inr (k, p, q)) = elim (Bool-cases (ltb until t)) [
  | inl e ↦ (i, rw e, omega arith)
  | inr e ↦ (j, rw e, ground arith)
]
free_step false i until none s w = (i, refl, omega arith)
free_step false i until (some j) s (inl e) = absurd (ground arith)
free_step false i until (some j) s (inr (k, p, q)) = (j, refl, ground arith)

scan_hosts-Claimable :
    (key : Bytes) (hs : List Host) (i : ℕ) (f : Option ℕ) (s : Option (ℕ × ℕ)) (f' : Option ℕ)
    (s' : Option (ℕ × ℕ))
    → Claimable i f s
    → scan_hosts key hs i f s ≡ missing f' s'
    → Claimable (i + length hs) f' s'
unfolding scan_hosts
scan_hosts-Claimable key [] i f s f' s' (j, p, q) e = (j, ground arith, omega arith)
scan_hosts-Claimable key (x ∷ xs) i f s f' s' w e = elim (Bool-cases (holds key x)) [
  | inl h ↦ absurd (ground arith)
  | inr h ↦
      let rest =
        scan_hosts-Claimable key xs (suc i) _ _ f' s'
          (free_step x.used i x.lockout_until f s (inr w)) (ground arith) in
      (rest.0, rest.1, omega (arith, rest.2))
]

-- A table with at least one slot always has one to claim.
slot_of_missing :
    (key : Bytes) (hs : List Host) (f : Option ℕ) (s : Option (ℕ × ℕ))
    → 0 < length hs
    → scan_hosts key hs 0 none none ≡ missing f s
    → Claimable (length hs) f s
unfolding scan_hosts
slot_of_missing key [] f s pos e = absurd (omega arith)
slot_of_missing key (x ∷ xs) f s pos e = elim (Bool-cases (holds key x)) [
  | inl h ↦ absurd (ground arith)
  | inr h ↦
      let rest =
        scan_hosts-Claimable key xs 1 _ _ f s
          (free_step x.used 0 x.lockout_until none none (inl refl)) (ground arith) in
      (rest.0, rest.1, omega (arith, rest.2))
]

-- How host_entry ends: at the first entry of the address, or at a slot claimed for it if it
-- may create one, with no entry before.
pub data Entered (ip : Option Bytes) (create : Bool) (hs : List Host)
    : Option ℕ × List Host → Type 0 where
  at : (m : ℕ) (h : Host) → FirstAt (host_key ip) hs m h → Entered ip create hs (some m, hs)
  fresh :
      (j : ℕ)
      → create ≡ true
      → j < length hs
      → find_host (host_key ip) hs ≡ none
      → Entered ip create hs (some j, set hs j (claimed_host (host_key ip)))
  nowhere : create ≡ false → find_host (host_key ip) hs ≡ none → Entered ip create hs (none, hs)

Entered-scan :
    (ip : Option Bytes) (create : Bool) (hs : List Host)
    → 0 < length hs
    → (r : Scan) → scan_hosts (host_key ip) hs 0 none none ≡ r
    → Scanned (host_key ip) hs 0 r
    → Entered ip create hs (entry_of (host_key ip) create hs r)
unfolding entry_of claim
Entered-scan ip create hs pos (found n) e (inl (m, h, p, q)) =
    at n h (subst (λ k. FirstAt (host_key ip) hs k h) (ground arith) q)
Entered-scan ip create hs pos (missing f s) e (inl (m, h, p, q)) = cc
Entered-scan ip create hs pos (found n) e (inr (f, s, p, q)) = cc
Entered-scan ip true hs pos (missing f s) e (inr (f', s', p, q)) =
    let (j, c, b) = slot_of_missing (host_key ip) hs f s pos e in rw c (fresh j refl b q)
Entered-scan ip false hs pos (missing f s) e (inr (f', s', p, q)) = nowhere refl q

pub host_entry-Entered :
    (ip : Option Bytes) (create : Bool) (hs : List Host)
    → 0 < length hs
    → Entered ip create hs (host_entry ip create hs)
unfolding host_entry
host_entry-Entered ip create hs pos =
    Entered-scan ip create hs pos _ refl (scan_hosts-Scanned (host_key ip) hs 0 none none)

-- A claimed slot is found under its address.
find_host-set_self :
    (key : Bytes) (hs : List Host) (j : ℕ) (v : Host)
    → find_host key hs ≡ none
    → holds key v ≡ true
    → j < length hs
    → FirstAt key (set hs j v) j v
unfolding find_host
find_host-set_self key [] j v e p h = absurd (omega arith)
find_host-set_self key (x ∷ xs) zero v e p h = (p, refl)
find_host-set_self key (x ∷ xs) (suc j) v e p h = elim (Bool-cases (holds key x)) [
  | inl y ↦ absurd (ground arith)
  | inr n ↦ (n, find_host-set_self key xs j v (ground arith) p (omega arith))
]

-- The entry of an address, or the one that a failure would claim for it.
abbrev pub entry_or_claim : Bytes → Option Host → Host
entry_or_claim key none = claimed_host key
entry_or_claim key (some h) = h

pub count_failure_keeps :
    (now : ℕ) (h : Host) → ((count_failure now h).used ≡ h.used) × ((count_failure now h).ip ≡ h.ip)
count_failure_keeps now h = ground arith

record_failure-Entered :
    (now : ℕ) (ip : Option Bytes) (hs : List Host) (r : Option ℕ × List Host)
    → Fits ip
    → Entered ip true hs r
    → find_host (host_key ip) (fail_entry now r)
      ≡ some (count_failure now (entry_or_claim (host_key ip) (find_host (host_key ip) hs)))
unfolding fail_entry
record_failure-Entered now ip hs r fits (at m h a) =
    rw (find_host-FirstAt (host_key ip) hs m h a)
      (find_host-modify_self (count_failure now) (count_failure_keeps now) (host_key ip) hs m h a)
record_failure-Entered now ip hs r fits (fresh j c b e) = rw e (
    find_host-modify_self (count_failure now) (count_failure_keeps now) (host_key ip) _ j _ (
      find_host-set_self (host_key ip) hs j (claimed_host (host_key ip)) e
        (holds-claimed_host ip fits) b))
record_failure-Entered now ip hs r fits (nowhere c e) = cc

-- A failed login is counted on the entry of its address, claimed if there was none.
pub find_host-record_failure :
    (now : ℕ) (ip : Option Bytes) (hs : List Host)
    → 0 < length hs
    → Fits ip
    → find_host (host_key ip) (record_failure now ip hs)
      ≡ some (count_failure now (entry_or_claim (host_key ip) (find_host (host_key ip) hs)))
unfolding record_failure
find_host-record_failure now ip hs pos fits =
    record_failure-Entered now ip hs _ fits (host_entry-Entered ip true hs pos)
