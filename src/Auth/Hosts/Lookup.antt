-- ===== src/Auth/Hosts/Lookup.antt =====
-- What host_entry does to the table, read through the lookup of an address.
use esp32_web_terminal.Prelude.{
  ℕ, zero, suc, ◌+◌, ◌≡◌, ◌≢◌, refl, ap, ◌∙◌, ◌⊎◌, inl, inr, Bool, true, false, ◌&&◌, Option, none,
  some, List, [], ◌∷◌, arith, Bytes, modify, get_elem?, str_eq, eq_of_str_eq, Bool-cases,
  if◌then◌else◌,
}
use esp32_web_terminal.Auth.Hosts.{Host, Scan, found, missing, scan_hosts}

abbrev pub holds : Bytes → Host → Bool
holds key h = h.used && str_eq h.ip key

-- The entry of an address.
unfoldable pub find_host : Bytes → List Host → Option Host
find_host key [] = none
find_host key (h ∷ hs) = if holds key h then some h else find_host key hs

-- `h` is the first entry with the key, and stands at index `m`.
abbrev pub FirstAt : Bytes → List Host → ℕ → Host → Type 0
FirstAt key [] m h = ⊥
FirstAt key (x ∷ xs) zero h = (holds key x ≡ true) × (x ≡ h)
FirstAt key (x ∷ xs) (suc m) h = (holds key x ≡ false) × FirstAt key xs m h

abbrev pub Scanned : Bytes → List Host → ℕ → Scan → Type 0
Scanned key hs i r =
    ((m : ℕ) × (h : Host) × (r ≡ found (i + m)) × FirstAt key hs m h)
    ⊎ ((f : Option ℕ) × (s : Option (ℕ × ℕ)) × (r ≡ missing f s) × (find_host key hs ≡ none))

Scanned-cons :
    (key : Bytes) (x : Host) (xs : List Host) (i : ℕ) (r : Scan)
    → holds key x ≡ false
    → Scanned key xs (suc i) r
    → Scanned key (x ∷ xs) i r
unfolding find_host
Scanned-cons key x xs i r e (inl (m, h, p, q)) = inl (suc m, h, p ∙ ap found (omega arith), (e, q))
Scanned-cons key x xs i r e (inr (f, s, p, q)) = inr (f, s, p, rw e q)

find_host-nil : (key : Bytes) → find_host key [] ≡ none
unfolding find_host
find_host-nil key = refl

pub scan_hosts-Scanned :
    (key : Bytes) (hs : List Host) (i : ℕ) (f : Option ℕ) (s : Option (ℕ × ℕ))
    → Scanned key hs i (scan_hosts key hs i f s)
unfolding scan_hosts
scan_hosts-Scanned key [] i f s = inr (f, s, refl, find_host-nil key)
scan_hosts-Scanned key (x ∷ xs) i f s = elim (Bool-cases (holds key x)) [
  | inl e ↦ inl (zero, x, rw e (ap found (omega arith)), (e, refl))
  | inr e ↦ rw e (Scanned-cons key x xs i _ e (scan_hosts-Scanned key xs (suc i) _ _))
]

pub get_elem?-FirstAt :
    (key : Bytes) (hs : List Host) (m : ℕ) (h : Host) → FirstAt key hs m h → get_elem? hs m ≡ some h
get_elem?-FirstAt key [] m h a = absurd a
get_elem?-FirstAt key (x ∷ xs) zero h a = ap some a.1
get_elem?-FirstAt key (x ∷ xs) (suc m) h a = get_elem?-FirstAt key xs m h a.1

pub find_host-FirstAt :
    (key : Bytes) (hs : List Host) (m : ℕ) (h : Host)
    → FirstAt key hs m h
    → find_host key hs ≡ some h
unfolding find_host
find_host-FirstAt key [] m h a = absurd a
find_host-FirstAt key (x ∷ xs) zero h a = rw a.0 (ap some a.1)
find_host-FirstAt key (x ∷ xs) (suc m) h a = rw a.0 (find_host-FirstAt key xs m h a.1)

-- An assignment to the entry of one address that keeps the address.
module _ (g : Host → Host) (keeps : (h : Host) → ((g h).used ≡ h.used) × ((g h).ip ≡ h.ip)) where
  holds-keeps : (key : Bytes) (h : Host) → holds key (g h) ≡ holds key h
  holds-keeps key h = ground (arith, keeps h)

  pub find_host-modify_self :
      (key : Bytes) (hs : List Host) (m : ℕ) (h : Host)
      → FirstAt key hs m h
      → find_host key (modify hs m g) ≡ some (g h)
  unfolding find_host
  find_host-modify_self key [] m h a = absurd a
  find_host-modify_self key (x ∷ xs) zero h a =
      rw (holds-keeps key x, a.0) (ap (λ y. some (g y)) a.1)
  find_host-modify_self key (x ∷ xs) (suc m) h a = rw a.0 (find_host-modify_self key xs m h a.1)

  pub find_host-modify_ne :
      (key other : Bytes) (hs : List Host) (m : ℕ) (h : Host)
      → other ≢ key
      → FirstAt key hs m h
      → find_host other (modify hs m g) ≡ find_host other hs
  unfolding find_host
  find_host-modify_ne key other [] m h ne a = refl
  find_host-modify_ne key other (x ∷ xs) zero h ne a =
      ground (arith, holds-keeps other x, eq_of_str_eq x.ip key, eq_of_str_eq x.ip other, ne)
  find_host-modify_ne key other (x ∷ xs) (suc m) h ne a =
      ground (arith, find_host-modify_ne key other xs m h ne a.1)
