-- ===== src/Auth/Hosts/Invariant.antt =====
-- What holds of the table of login counters between two requests.
use esp32_web_terminal.Prelude.{
  ℕ, zero, suc, ◌≤◌, ◌<◌, ◌≡◌, refl, sym, ◌∙◌, ◌⊎◌, inl, inr, true, false, none, some, List, [],
  ◌∷◌, arith, Bytes, length, set, modify, get_elem?, All, eq_of_str_eq, str_eq_refl, Bool-cases,
}
use esp32_web_terminal.Auth.Hosts.{Host, max_failed, tracked_hosts, ip_len}
use esp32_web_terminal.Auth.Hosts.Lookup.{holds, find_host}

-- A counter stays within AUTH_MAX_FAILED, and a lockout is set exactly when it is reached.
pub record IsSound (h : Host) : Type 0 where
  pub capped : h.failed_attempts ≤ max_failed
  pub armed : h.failed_attempts ≡ max_failed → 0 < h.lockout_until
  pub idle : h.failed_attempts < max_failed → h.lockout_until ≡ 0
  pub fits : length h.ip < ip_len

-- No address has two used entries.
abbrev pub Distinct : List Host → Type 0
Distinct [] = Unit {0}
Distinct (h ∷ hs) = (h.used ≡ true → find_host h.ip hs ≡ none) × Distinct hs

pub record HostsInv (hs : List Host) : Type 0 where
  pub slots : length hs ≡ tracked_hosts
  pub sound : All IsSound hs
  pub distinct : Distinct hs

module _ (g : Host → Host) (keeps : (h : Host) → ((g h).used ≡ h.used) × ((g h).ip ≡ h.ip)) where
  pub find_host-modify-none :
      (key : Bytes) (hs : List Host) (m : ℕ)
      → find_host key hs ≡ none
      → find_host key (modify hs m g) ≡ none
  unfolding find_host
  find_host-modify-none key [] m e = e
  find_host-modify-none key (x ∷ xs) zero e = ground (arith, keeps x)
  find_host-modify-none key (x ∷ xs) (suc m) e = ground (arith, find_host-modify-none key xs m)

  pub Distinct-modify : (hs : List Host) (m : ℕ) → Distinct hs → Distinct (modify hs m g)
  Distinct-modify [] m d = tt
  Distinct-modify (x ∷ xs) zero d = (λ u. rw (keeps x).1 (d.0 (sym (keeps x).0 ∙ u)), d.1)
  Distinct-modify (x ∷ xs) (suc m) d =
      (λ u. find_host-modify-none x.ip xs m (d.0 u), Distinct-modify xs m d.1)

pub find_host-set-none :
    (key : Bytes) (hs : List Host) (j : ℕ) (v : Host)
    → find_host key hs ≡ none
    → holds key v ≡ false
    → find_host key (set hs j v) ≡ none
unfolding find_host
find_host-set-none key [] j v e n = e
find_host-set-none key (x ∷ xs) zero v e n = ground arith
find_host-set-none key (x ∷ xs) (suc j) v e n = ground (arith, find_host-set-none key xs j v)

pub Distinct-set :
    (hs : List Host) (j : ℕ) (v : Host)
    → find_host v.ip hs ≡ none
    → Distinct hs
    → Distinct (set hs j v)
unfolding find_host
Distinct-set [] j v e d = tt
Distinct-set (x ∷ xs) zero v e d = (λ _. ground arith, d.1)
Distinct-set (x ∷ xs) (suc j) v e d = (
  λ u.
      find_host-set-none x.ip xs j v (d.0 u)
        (ground (arith, eq_of_str_eq v.ip x.ip, str_eq_refl x.ip)),
  Distinct-set xs j v (ground arith) d.1,
)

-- Overwriting a slot of another address keeps or drops the entry of an address.
pub find_host-set_ne :
    (other : Bytes) (hs : List Host) (j : ℕ) (v : Host)
    → Distinct hs
    → holds other v ≡ false
    → (find_host other (set hs j v) ≡ find_host other hs) ⊎ (find_host other (set hs j v) ≡ none)
unfolding find_host
find_host-set_ne other [] j v d n = inl refl
find_host-set_ne other (x ∷ xs) zero v d n = elim (Bool-cases (holds other x)) [
  | inl y ↦ inr (ground (arith, eq_of_str_eq x.ip other, d.0))
  | inr y ↦ inl (ground arith)
]
find_host-set_ne other (x ∷ xs) (suc j) v d n = elim (Bool-cases (holds other x)) [
  | inl y ↦ inl (ground arith)
  | inr y ↦ rw y (find_host-set_ne other xs j v d.1 n)
]

pub All-modify_at {ℓ} :
    {A : Type ℓ} (P : A → Type ℓ) (xs : List A) (i : ℕ) (f : A → A)
    → ((x : A) → get_elem? xs i ≡ some x → P x → P (f x))
    → All P xs
    → All P (modify xs i f)
All-modify_at P [] i f h a = a
All-modify_at P (x ∷ xs) zero f h a = (h x refl a.0, a.1)
All-modify_at P (x ∷ xs) (suc i) f h a = (a.0, All-modify_at P xs i f h a.1)
