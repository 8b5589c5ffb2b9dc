-- ===== src/Wifi/Scan/Unique.antt =====
-- The results of wifi_manager_scan: one for each network, at its strongest signal.
use esp32_web_terminal.Prelude.{
  ℕ, zero, suc, ◌+◌, ◌≤◌, ◌≡◌, ◌≢◌, refl, sym, ap, ◌∙◌, Bool, true, false, Option, none, some, List,
  [], ◌∷◌, arith, Bytes, ◌==◌, if◌then◌else◌, length, take, take_all, length-take, str_eq,
  str_eq_iff, All, ℤ, max_ℤ, max_ℤ_assoc, Bool-cases, inl, inr,
}
use esp32_web_terminal.Wifi.Scan.{ApRecord, ScanResult, stronger, merge, dedupe, max_results}

-- The strength that the results give for a network.
unfoldable pub strength : Bytes → List ScanResult → Option ℤ
strength s [] = none
strength s (e ∷ es) = let rest = strength s es in if str_eq e.ssid s then some e.rssi else rest

-- The stronger of two signals, where there are any.
abbrev pub strongest : Option ℤ → Option ℤ → Option ℤ
strongest none b = b
strongest (some a) none = some a
strongest (some a) (some b) = some (max_ℤ a b)

-- The strongest signal among the records of a network.
unfoldable pub best : Bytes → List ApRecord → Option ℤ
best s [] = none
best s (r ∷ rs) =
    let rest = best s rs in if str_eq r.ssid s then strongest (some r.rssi) rest else rest

strongest_assoc : (a b c : Option ℤ) → strongest (strongest a b) c ≡ strongest a (strongest b c)
strongest_assoc none b c = refl
strongest_assoc (some a) none c = refl
strongest_assoc (some a) (some b) none = refl
strongest_assoc (some a) (some b) (some c) = ap some (max_ℤ_assoc a b c)

strongest-none : (a : Option ℤ) → strongest a none ≡ a
strongest-none none = refl
strongest-none (some a) = refl

-- A record whose SSID fits the buffer of a result.
abbrev pub Fits : ApRecord → Type 0
Fits r = length r.ssid ≤ 32

strength-merge :
    (s : Bytes) (r : ApRecord) (es : List ScanResult)
    → Fits r
    → strength s (merge r es)
      ≡ (if str_eq r.ssid s then strongest (strength s es) (some r.rssi) else strength s es)
unfolding strength merge max_ℤ
strength-merge s r [] fits = rw (take_all 32 r.ssid fits) refl
strength-merge s r (e ∷ es) fits = elim (Bool-cases (str_eq e.ssid r.ssid)) [
  | inl same ↦ rw (same) (at_match s r e es ((str_eq_iff e.ssid r.ssid).0 same))
  | inr other ↦ rw (other) (elim (Bool-cases (str_eq e.ssid s)) [
    | inl here ↦
        let elsewhere : str_eq r.ssid s ≡ false =
          ground (arith, str_eq_iff e.ssid s, str_eq_iff r.ssid s, str_eq_iff e.ssid r.ssid) in
        rw (here, elsewhere) refl
    | inr later ↦ rw (later) (strength-merge s r es fits)
  ])
]
  where
    at_match :
        (s : Bytes) (r : ApRecord) (e : ScanResult) (es : List ScanResult)
        → e.ssid ≡ r.ssid
        → strength s (stronger r e ∷ es) ≡ (
            if str_eq r.ssid s
            then strongest (strength s (e ∷ es)) (some r.rssi)
            else strength s (e ∷ es))
    at_match s r e es same = ground arith

strength-dedupe :
    (s : Bytes) (rs : List ApRecord) (es : List ScanResult)
    → s ≢ []
    → All Fits rs
    → strength s (dedupe rs es) ≡ strongest (strength s es) (best s rs)
unfolding dedupe best
strength-dedupe s [] es ne a = sym (strongest-none (strength s es))
strength-dedupe s (r ∷ rs) es ne a = elim (Bool-cases (length r.ssid == 0)) [
  | inl hidden ↦
      let other : str_eq r.ssid s ≡ false = hidden_other r.ssid s ne hidden in
      rw (hidden, other) (strength-dedupe s rs es ne a.1)
  | inr shown ↦ rw (shown) (
      strength-dedupe s rs (merge r es) ne a.1
      ∙ ap (λ o. strongest o (best s rs)) (strength-merge s r es a.0)
      ∙ step (str_eq r.ssid s) (strength s es) r.rssi (best s rs))
]
  where
    hidden_other : (name s : Bytes) → s ≢ [] → (length name == 0) ≡ true → str_eq name s ≡ false
    hidden_other [] s ne h = ground (arith, str_eq_iff [] s, ne)
    hidden_other (c ∷ cs) s ne h = absurd (ground arith)

    step :
        (b : Bool) (o : Option ℤ) (x : ℤ) (rest : Option ℤ)
        → strongest (if b then strongest o (some x) else o) rest
          ≡ strongest o (if b then strongest (some x) rest else rest)
    step true o x rest = strongest_assoc o (some x) rest
    step false o x rest = refl

-- The results of a scan in which every SSID fits its buffer give each network with a name the
-- strongest signal among its records, and no strength to a network that was not found.
pub strength-scan :
    (s : Bytes) (rs : List ApRecord) → s ≢ [] → All Fits rs → strength s (dedupe rs []) ≡ best s rs
unfolding strength
strength-scan s rs ne a = strength-dedupe s rs [] ne a

-- No network stands twice.
abbrev pub Distinct : List ScanResult → Type 0
Distinct [] = Unit {0}
Distinct (e ∷ es) = (strength e.ssid es ≡ none) × Distinct es

ssid-stronger : (r : ApRecord) (e : ScanResult) → (stronger r e).ssid ≡ e.ssid
ssid-stronger r e = ground arith

Distinct-merge :
    (r : ApRecord) (es : List ScanResult) → Fits r → Distinct es → Distinct (merge r es)
unfolding merge
Distinct-merge r [] fits d = (unfold strength in refl, tt)
Distinct-merge r (e ∷ es) fits d = elim (Bool-cases (str_eq e.ssid r.ssid)) [
  | inl same ↦ rw (same) (ap (λ n. strength n es) (ssid-stronger r e) ∙ d.0, d.1)
  | inr other ↦
      let swapped : str_eq r.ssid e.ssid ≡ false =
        ground (arith, str_eq_iff e.ssid r.ssid, str_eq_iff r.ssid e.ssid) in
      rw (other) (strength-merge e.ssid r es fits ∙ rw (swapped) d.0, Distinct-merge r es fits d.1)
]

Distinct-dedupe :
    (rs : List ApRecord) (es : List ScanResult)
    → All Fits rs
    → Distinct es
    → Distinct (dedupe rs es)
unfolding dedupe
Distinct-dedupe [] es a d = d
Distinct-dedupe (r ∷ rs) es a d = elim (Bool-cases (length r.ssid == 0)) [
  | inl hidden ↦ rw (hidden) (Distinct-dedupe rs es a.1 d)
  | inr shown ↦ rw (shown) (Distinct-dedupe rs (merge r es) a.1 (Distinct-merge r es a.0 d))
]

length-merge : (r : ApRecord) (es : List ScanResult) → length (merge r es) ≤ length es + 1
unfolding merge
length-merge r [] = omega arith
length-merge r (e ∷ es) = ground (arith, length-merge r es)

length-dedupe :
    (rs : List ApRecord) (es : List ScanResult) → length (dedupe rs es) ≤ length es + length rs
unfolding dedupe
length-dedupe [] es = omega arith
length-dedupe (r ∷ rs) es =
    ground (arith, length-dedupe rs es, length-dedupe rs (merge r es), length-merge r es)

All-take : (n : ℕ) (rs : List ApRecord) → All Fits rs → All Fits (take n rs)
All-take zero rs a = tt
All-take (suc n) [] a = tt
All-take (suc n) (r ∷ rs) a = (a.0, All-take n rs a.1)

-- The results of a scan in which every SSID fits its buffer name no network twice, and fill at
-- most the 20 entries that are allocated for them.
pub scan-Distinct :
    (rs : List ApRecord)
    → All Fits rs
    → Distinct (dedupe (take max_results rs) [])
      × (length (dedupe (take max_results rs) []) ≤ max_results)
scan-Distinct rs a = (
  Distinct-dedupe (take max_results rs) [] (All-take max_results rs a) tt,
  omega (arith, length-dedupe (take max_results rs) [], length-take max_results rs),
)
