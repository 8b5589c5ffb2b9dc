-- ===== src/Auth/Cookie/Complete.antt =====
-- When cookie_value finds a cookie that is there, and when it reads past the header instead.
use esp32_web_terminal.Prelude.{
  ℕ, zero, suc, ◌+◌, ◌-◌, ◌≤◌, ◌<◌, ◌≡◌, ◌≢◌, refl, sym, ap, ◌∙◌, true, false, Option, none, some,
  [], ◌∷◌, ◌++◌, arith, Bytes, length, length-append, length-drop, get_elem?, drop, All,
  All-get_elem?,
}
use native.Mathlib.Decide.{dec_lt, dec_le}
use mathlib.Core.Bool.{true≢false}
use esp32_web_terminal.Auth.Cookie.{
  starts_with, byte_is, at_boundary, CookieScan, value, overread, cookie_value,
}
use esp32_web_terminal.Auth.Cookie.Scan.{NamedAt, value_at, FirstFrom, starts_with-length}
use esp32_web_terminal.Auth.Cookie.Find.{
  Scans, ends_past, ends_nothing, ends_hit, skips_bare, skips_inside, cookie_value-Scans,
}

get_elem?-starts_with :
    (name s : Bytes) (i : ℕ)
    → starts_with name s ≡ true
    → i < length name
    → get_elem? s i ≡ get_elem? name i
unfolding starts_with
get_elem?-starts_with [] s i e lt = absurd (omega arith)
get_elem?-starts_with (c ∷ cs) [] i e lt = cc
get_elem?-starts_with (c ∷ cs) (d ∷ ds) zero e lt = ground arith
get_elem?-starts_with (c ∷ cs) (d ∷ ds) (suc i) e lt =
    get_elem?-starts_with cs ds i (ground arith) (omega arith)

get_elem?-drop : (n : ℕ) (s : Bytes) (i : ℕ) → get_elem? (drop n s) i ≡ get_elem? s (n + i)
get_elem?-drop zero s i = ap (get_elem? s) (omega arith)
get_elem?-drop (suc n) [] i = refl
get_elem?-drop (suc n) (c ∷ cs) i =
    get_elem?-drop n cs i ∙ ap (get_elem? (c ∷ cs)) {x = suc (n + i)} (omega arith)

-- A name with no space: no cookie begins inside an occurrence of it.
not-boundary_inside :
    (header name : Bytes) (q k : ℕ)
    → All (λ c. c ≢ b' ') name
    → starts_with name (drop q header) ≡ true
    → q < k
    → k < q + length name
    → at_boundary header k ≡ false
not-boundary_inside header name q k plain s lt gt =
    let i = k - 1 - q in
    let same = get_elem?-starts_with name (drop q header) i s (omega arith) in
    let at = get_elem?-drop q header i in
    let here : get_elem? header (k - 1) ≡ get_elem? name i =
      ap (get_elem? header) (omega arith) ∙ sym at ∙ same in
    by_byte (get_elem? name i) refl here
  where
    by_byte :
        (o : Option ℕ)
        → get_elem? name (k - 1 - q) ≡ o
        → get_elem? header (k - 1) ≡ get_elem? name (k - 1 - q)
        → at_boundary header k ≡ false
    by_byte none e h = ground (arith, e, h)
    by_byte (some c) e h =
        ground (arith, e, h, All-get_elem? (λ c. c ≢ b' ') name (k - 1 - q) c plain e)

module _ (header name : Bytes) (pos : 0 < length name) (plain : All (λ c. c ≢ b' ') name)
    (no_bare : (q : ℕ)
      → at_boundary header q ≡ true
      → starts_with name (drop q header) ≡ true
      → byte_is header (q + length name) b'=' ≡ true)
    (k : ℕ) (n : NamedAt header name k) where
  within : k < length header
  within = omega (arith, starts_with-length name (drop k header) n.named, length-drop k header)

  not_before : (p q : ℕ) → FirstFrom header name p q → p ≤ k → q ≤ k
  not_before p q f le = elim (dec_le q k) [
    | yes h ↦ h
    | no h ↦ absurd (ground (arith, n.named, f.first k le (omega arith)))
  ]

  past_occurrence :
      (q : ℕ)
      → starts_with name (drop q header) ≡ true
      → at_boundary header q ≡ false
      → q ≤ k
      → q + length name ≤ k
  past_occurrence q s b le = elim (dec_lt k (q + length name)) [
    | no y ↦ omega arith
    | yes y ↦ elim (dec_lt q k) [
      | yes lt ↦
          let inside_it = not-boundary_inside header name q k plain s lt y in
          absurd (true≢false (sym n.boundary ∙ inside_it))
      | no ge ↦
          let here : k ≡ q = omega arith in
          absurd (true≢false (sym n.boundary ∙ ap (at_boundary header) here ∙ b))
    ]
  ]

  Scans-value :
      (p : ℕ) {r : CookieScan} → Scans header name p r → p ≤ k → (v : Bytes) × (r ≡ value v)
  Scans-value p (ends_past lt) le = absurd (omega (arith, within))
  Scans-value p (ends_nothing h no_more) le =
      absurd (true≢false (sym n.named ∙ no_more k le (omega (arith, within))))
  Scans-value p (ends_hit q f h) le = (value_at header name q, refl)
  Scans-value p (skips_bare q f b e rest) le = absurd (true≢false (sym (no_bare q b f.occurs) ∙ e))
  Scans-value p (skips_inside q f b rest) le =
      Scans-value _ rest (past_occurrence q f.occurs b (not_before p q f le))

  -- A cookie of the name that stands in the header is found, if the name is not empty and has no
  -- space, and if wherever the name stands at the start of the header or after "; " a '=' follows
  -- it.
  pub cookie_value_complete : (v : Bytes) × (cookie_value header name ≡ value v)
  cookie_value_complete = Scans-value 0 (cookie_value-Scans header name pos) (omega arith)

Scans-past :
    (header name : Bytes) (p : ℕ) {r : CookieScan}
    → length header < p
    → Scans header name p r
    → r ≡ overread
Scans-past header name p lt (ends_past h) = refl
Scans-past header name p lt (ends_nothing le h) = absurd (omega arith)
Scans-past header name p lt (ends_hit q f n) = absurd (omega (arith, f.from, f.within))
Scans-past header name p lt (skips_bare q f b e s) = absurd (omega (arith, f.from, f.within))
Scans-past header name p lt (skips_inside q f b s) = absurd (omega (arith, f.from, f.within))

starts_with-append : (name rest : Bytes) → starts_with name (name ++ rest) ≡ true
unfolding starts_with
starts_with-append [] rest = refl
starts_with-append (c ∷ cs) rest = ground (arith, starts_with-append cs rest)

byte_is-append :
    (name rest : Bytes) (c : ℕ) → byte_is (name ++ rest) (length name) c ≡ byte_is rest 0 c
byte_is-append [] rest c = refl
byte_is-append (x ∷ xs) rest c = byte_is-append xs rest c

module _ (name rest : Bytes) (pos : 0 < length name) (short : length rest < length name)
    (bare_name : byte_is rest 0 b'=' ≡ false) where
  at_start : (q : ℕ) → FirstFrom (name ++ rest) name 0 q → q ≡ 0
  at_start zero f = refl
  at_start (suc q) f =
      absurd
        (true≢false (sym (starts_with-append name rest) ∙ f.first 0 (omega arith) (omega arith)))

  no_equals : (q : ℕ) → q ≡ 0 → byte_is (name ++ rest) (q + length name) b'=' ≡ false
  no_equals q e =
      ap (λ k. byte_is (name ++ rest) k b'=') (omega arith)
      ∙ byte_is-append name rest b'='
      ∙ bare_name

  Scans-bare : {r : CookieScan} → Scans (name ++ rest) name 0 r → r ≡ overread
  Scans-bare (ends_past h) = refl
  Scans-bare (ends_nothing le h) =
      absurd (true≢false (sym (starts_with-append name rest) ∙ h 0 (omega arith) (omega arith)))
  Scans-bare (ends_hit q f n) = absurd (true≢false (sym n.equals ∙ no_equals q (at_start q f)))
  Scans-bare (skips_bare q f b e s) =
      Scans-past (name ++ rest) name _ (omega (arith, length-append name rest)) s
  Scans-bare (skips_inside q f b s) =
      absurd (true≢false (sym (ap (at_boundary (name ++ rest)) (at_start q f)) ∙ b))

  -- A header of the bare name and fewer bytes than the name has, the first not '=', is read past
  -- its end: the pointer is advanced twice over one occurrence.
  pub cookie_value_overread : cookie_value (name ++ rest) name ≡ overread
  cookie_value_overread = Scans-bare (cookie_value-Scans (name ++ rest) name pos)
