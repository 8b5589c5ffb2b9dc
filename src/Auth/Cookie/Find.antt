-- ===== src/Auth/Cookie/Find.antt =====
-- What cookie_value finds in a Cookie header, and the reads past its end.
use esp32_web_terminal.Prelude.{
  ℕ, zero, suc, ◌+◌, ◌≤◌, ◌<◌, ◌≡◌, ◌≢◌, true, false, arith, Bytes, length, drop,
}
use esp32_web_terminal.Auth.Cookie.{
  starts_with, byte_is, at_boundary, CookieScan, value, absent, overread, exhausted, cookie_loop,
  cookie_value,
}
use esp32_web_terminal.Auth.Cookie.Scan.{
  NamedAt, value_at, FirstFrom, Round, past, nothing, hit, bare, inside, cookie_loop-Round,
}

-- A run of the loop of cookie_value from a pointer to its result.
pub data Scans (header name : Bytes) : ℕ → CookieScan → Type 0 where
  ends_past : {p : ℕ} → length header < p → Scans header name p overread
  ends_nothing :
      {p : ℕ}
      → p ≤ length header
      → ((e : ℕ) → p ≤ e → e ≤ length header → starts_with name (drop e header) ≡ false)
      → Scans header name p absent
  ends_hit :
      {p : ℕ} (q : ℕ)
      → FirstFrom header name p q
      → NamedAt header name q
      → Scans header name p (value (value_at header name q))
  skips_bare :
      {p : ℕ} {r : CookieScan} (q : ℕ)
      → FirstFrom header name p q
      → at_boundary header q ≡ true
      → byte_is header (q + length name) b'=' ≡ false
      → Scans header name (q + length name + length name) r
      → Scans header name p r
  skips_inside :
      {p : ℕ} {r : CookieScan} (q : ℕ)
      → FirstFrom header name p q
      → at_boundary header q ≡ false
      → Scans header name (q + length name) r
      → Scans header name p r

Scans-Round :
    (header name : Bytes) (fuel p : ℕ) (r : CookieScan)
    → ((q : ℕ)
        → p ≤ length header
        → p + length name ≤ q
        → Scans header name q (cookie_loop fuel header name q))
    → Round fuel header name p r
    → Scans header name p r
Scans-Round header name fuel p r next (past lt e) = rw e (ends_past lt)
Scans-Round header name fuel p r next (nothing le n e) = rw e (ends_nothing le n)
Scans-Round header name fuel p r next (hit q f n e) = rw e (ends_hit q f n)
Scans-Round header name fuel p r next (bare q f b n e) =
    rw e (skips_bare q f b n (next _ (omega (arith, f.from, f.within)) (omega (arith, f.from))))
Scans-Round header name fuel p r next (inside q f b e) =
    rw e (skips_inside q f b (next _ (omega (arith, f.from, f.within)) (omega (arith, f.from))))

-- With fuel for every position up to the end of the header, the loop ends by itself.
cookie_loop-Scans :
    (fuel : ℕ) (header name : Bytes) (p : ℕ)
    → 0 < length name
    → 0 < fuel
    → length header + 2 ≤ fuel + p
    → Scans header name p (cookie_loop fuel header name p)
cookie_loop-Scans zero header name p pos lt le = absurd (omega arith)
cookie_loop-Scans (suc fuel) header name p pos lt le =
    Scans-Round header name fuel p _
      (λ q w far. cookie_loop-Scans fuel header name q pos (omega arith) (omega arith))
      (cookie_loop-Round fuel header name p)

pub cookie_value-Scans :
    (header name : Bytes) → 0 < length name → Scans header name 0 (cookie_value header name)
unfolding cookie_value
cookie_value-Scans header name pos =
    cookie_loop-Scans (2 + length header) header name 0 pos (omega arith) (omega arith)

Scans-ne-exhausted :
    {header name : Bytes} {p : ℕ} {r : CookieScan} → Scans header name p r → r ≢ exhausted
Scans-ne-exhausted (ends_past lt) e = absurd (ground arith)
Scans-ne-exhausted (ends_nothing le n) e = absurd (ground arith)
Scans-ne-exhausted (ends_hit q f n) e = absurd (ground arith)
Scans-ne-exhausted (skips_bare q f b n rest) e = Scans-ne-exhausted rest e
Scans-ne-exhausted (skips_inside q f b rest) e = Scans-ne-exhausted rest e

Scans-NamedAt :
    {header name : Bytes} {p : ℕ} {r : CookieScan} {v : Bytes}
    → Scans header name p r
    → r ≡ value v
    → (q : ℕ) × NamedAt header name q × (value_at header name q ≡ v)
Scans-NamedAt (ends_past lt) e = absurd (ground arith)
Scans-NamedAt (ends_nothing le n) e = absurd (ground arith)
Scans-NamedAt (ends_hit q f n) e = (q, n, cc)
Scans-NamedAt (skips_bare q f b n rest) e = Scans-NamedAt rest e
Scans-NamedAt (skips_inside q f b rest) e = Scans-NamedAt rest e

-- For a name that is not empty, the loop of cookie_value ends within the fuel.
pub cookie_value_ends :
    (header name : Bytes) → 0 < length name → cookie_value header name ≢ exhausted
cookie_value_ends header name pos = Scans-ne-exhausted (cookie_value-Scans header name pos)

-- For a name that is not empty, a value that cookie_value returns is that of "name=" at the start
-- of the header or after "; ", up to the next ';'.
pub cookie_value_sound :
    (header name v : Bytes)
    → 0 < length name
    → cookie_value header name ≡ value v
    → (q : ℕ) × NamedAt header name q × (value_at header name q ≡ v)
cookie_value_sound header name v pos e = Scans-NamedAt (cookie_value-Scans header name pos) e
