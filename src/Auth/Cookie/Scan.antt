-- ===== src/Auth/Cookie/Scan.antt =====
-- strstr and the loop of cookie_value: what they find, and that the loop ends.
use esp32_web_terminal.Prelude.{
  ℕ, zero, suc, ◌+◌, ◌-◌, ◌≤◌, ◌<◌, ◌≡◌, refl, sym, subst, ap, ◌∙◌, inl, inr, true, false, Option,
  none, some, [], ◌∷◌, arith, Bytes, length, length-drop, drop, ltb, Bool-cases,
}
use mathlib.Core.Option
use esp32_web_terminal.Auth.Cookie.{
  starts_with, strstr, until, byte_is, at_boundary, CookieScan, value, absent, overread,
  cookie_loop,
}

pub starts_with-length : (name s : Bytes) → starts_with name s ≡ true → length name ≤ length s
unfolding starts_with
starts_with-length [] s e = omega arith
starts_with-length (c ∷ cs) [] e = cc
starts_with-length (c ∷ cs) (d ∷ ds) e =
    let rest = starts_with-length cs ds (ground arith) in omega (arith, rest)

drop-nil : (k : ℕ) → drop {A = ℕ} k [] ≡ []
drop-nil zero = refl
drop-nil (suc k) = refl

-- An occurrence that strstr reports is there, and is the first.
abbrev Occurs : Bytes → Bytes → Option ℕ → Type 0
Occurs name s none = (e : ℕ) → e ≤ length s → starts_with name (drop e s) ≡ false
Occurs name s (some d) =
    (starts_with name (drop d s) ≡ true)
    × (d + length name ≤ length s)
    × ((e : ℕ) → e < d → starts_with name (drop e s) ≡ false)

Occurs-cons :
    (name : Bytes) (c : ℕ) (cs : Bytes) (o : Option ℕ)
    → starts_with name (c ∷ cs) ≡ false
    → Occurs name cs o
    → Occurs name (c ∷ cs) (Option.map suc o)
Occurs-cons name c cs none n h = go
  where
    go : (e : ℕ) → e ≤ suc (length cs) → starts_with name (drop e (c ∷ cs)) ≡ false
    go zero le = n
    go (suc e) le = h e (omega arith)
Occurs-cons name c cs (some d) n (s, le, first) = (s, omega arith, go)
  where
    go : (e : ℕ) → e < suc d → starts_with name (drop e (c ∷ cs)) ≡ false
    go zero lt = n
    go (suc e) lt = first e (omega arith)

pub strstr-Occurs : (name s : Bytes) → Occurs name s (strstr name s)
unfolding strstr
strstr-Occurs name [] = elim (Bool-cases (starts_with name [])) [
  | inl e ↦ rw e (e, omega (arith, starts_with-length name [] e), λ k lt. absurd (omega arith))
  | inr e ↦ rw e (λ k le. subst (λ t. starts_with name t ≡ false) (sym (drop-nil k)) e)
]
strstr-Occurs name (c ∷ cs) = elim (Bool-cases (starts_with name (c ∷ cs))) [
  | inl e ↦
      rw e (e, omega (arith, starts_with-length name (c ∷ cs) e), λ k lt. absurd (omega arith))
  | inr e ↦ rw e (Occurs-cons name c cs _ e (strstr-Occurs name cs))
]

drop-drop : (m n : ℕ) (s : Bytes) → drop m (drop n s) ≡ drop (n + m) s
drop-drop m zero s = ap (λ k. drop k s) (omega arith)
drop-drop m (suc n) [] = drop-nil m ∙ sym (drop-nil (suc n + m))
drop-drop m (suc n) (c ∷ cs) =
    drop-drop m n cs ∙ ap (λ k. drop k (c ∷ cs)) {x = suc (n + m)} (omega arith)

-- Where a name stands with its '=' as a cookie of its own.
pub record NamedAt (header name : Bytes) (q : ℕ) : Type 0 where
  pub boundary : at_boundary header q ≡ true
  pub named : starts_with name (drop q header) ≡ true
  pub equals : byte_is header (q + length name) b'=' ≡ true

-- The value of the cookie at a position.
abbrev pub value_at : Bytes → Bytes → ℕ → Bytes
value_at header name q = until b';' (drop (suc (q + length name)) header)

-- The first occurrence of the name at or after the pointer.
pub record FirstFrom (header name : Bytes) (p q : ℕ) : Type 0 where
  pub from : p ≤ q
  pub within : q + length name ≤ length header
  pub occurs : starts_with name (drop q header) ≡ true
  pub first : (e : ℕ) → p ≤ e → e < q → starts_with name (drop e header) ≡ false

-- The ways in which one round of the loop ends.
pub data Round (fuel : ℕ) (header name : Bytes) (p : ℕ) (r : CookieScan) : Type 0 where
  past : length header < p → r ≡ overread → Round fuel header name p r
  nothing :
      p ≤ length header
      → ((e : ℕ) → p ≤ e → e ≤ length header → starts_with name (drop e header) ≡ false)
      → r ≡ absent
      → Round fuel header name p r
  hit :
      (q : ℕ)
      → FirstFrom header name p q
      → NamedAt header name q
      → r ≡ value (value_at header name q)
      → Round fuel header name p r
  bare :
      (q : ℕ)
      → FirstFrom header name p q
      → at_boundary header q ≡ true
      → byte_is header (q + length name) b'=' ≡ false
      → r ≡ cookie_loop fuel header name (q + length name + length name)
      → Round fuel header name p r
  inside :
      (q : ℕ)
      → FirstFrom header name p q
      → at_boundary header q ≡ false
      → r ≡ cookie_loop fuel header name (q + length name)
      → Round fuel header name p r

module _ (fuel : ℕ) (header name : Bytes) (p : ℕ) where
  Occurs-FirstFrom :
      (d : ℕ)
      → p ≤ length header
      → Occurs name (drop p header) (some d)
      → FirstFrom header name p (p + d)
  Occurs-FirstFrom d le (s, w, f) = record {
    from = omega arith;
    within = omega (arith, w, length-drop p header);
    occurs = subst (λ t. starts_with name t ≡ true) (drop-drop d p header) s;
    first = λ e pe eq.
        subst (λ t. starts_with name t ≡ false)
          (drop-drop (e - p) p header ∙ ap (λ k. drop k header) (omega arith))
          (f (e - p) (omega arith));
  }

  Round-at :
      (d : ℕ)
      → strstr name (drop p header) ≡ some d
      → ltb (length header) p ≡ false
      → FirstFrom header name p (p + d)
      → Round fuel header name p (cookie_loop (suc fuel) header name p)
  unfolding cookie_loop
  Round-at d g n f = elim (Bool-cases (at_boundary header (p + d))) [
    | inl b ↦ elim (Bool-cases (byte_is header (p + d + length name) b'=')) [
      | inl e ↦
          hit (p + d) f (record { boundary = b; named = f.occurs; equals = e })
            (rw (n, g, b, e, cookie_loop))
      | inr e ↦ bare (p + d) f b e (rw (n, g, b, e, cookie_loop))
    ]
    | inr b ↦ inside (p + d) f b (rw (n, g, b, cookie_loop))
  ]

  pub cookie_loop-Round : Round fuel header name p (cookie_loop (suc fuel) header name p)
  unfolding cookie_loop
  cookie_loop-Round = elim (Bool-cases (ltb (length header) p)) [
    | inl y ↦ past (ground arith) (rw (y, cookie_loop))
    | inr n ↦ by_search n (strstr name (drop p header)) refl (strstr-Occurs name (drop p header))
  ]
    where
      by_search :
          ltb (length header) p ≡ false
          → (o : Option ℕ) → strstr name (drop p header) ≡ o
          → Occurs name (drop p header) o
          → Round fuel header name p (cookie_loop (suc fuel) header name p)
      by_search n none g h =
          nothing (ground arith)
            (λ e pe el.
              subst (λ t. starts_with name t ≡ false)
                (drop-drop (e - p) p header ∙ ap (λ k. drop k header) (omega arith))
                (h (e - p) (omega (arith, length-drop p header))))
            (rw (n, g, cookie_loop))
      by_search n (some d) g h = Round-at d g n (Occurs-FirstFrom d (ground arith) h)
