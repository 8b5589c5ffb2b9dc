-- ===== src/Wifi/Hostname/Label.antt =====
-- The hostname that sanitize_hostname of main/wifi_manager.c makes of a device name.
use mathlib.Core.List.{append-nil, append_assoc}
use esp32_web_terminal.Prelude.{
  ℕ, suc, ◌+◌, ◌-◌, ◌≤◌, ◌≡◌, ◌≢◌, refl, sym, ap, ◌∙◌, ◌⊎◌, inl, inr, Bool, true, false, ◌&&◌, [],
  ◌∷◌, ◌++◌, arith, Bytes, ltb, ◌==◌, if◌then◌else◌, length, length-append, get_or, Bool-cases,
  subst,
}
use esp32_web_terminal.Wifi.Hostname.{
  hyphen, alphanumeric, separator, after_other, kept_byte, sanitize_loop, trim_hyphens,
  sanitize_hostname,
}

-- Letters, digits and hyphens, a hyphen only right behind a letter or digit; `behind` is whether
-- one stands in front.
abbrev pub Separated : Bool → Bytes → Type 0
Separated behind [] = Unit {0}
Separated behind (c ∷ cs) =
    ((alphanumeric c ≡ true) ⊎ ((c ≡ hyphen) × (behind ≡ true))) × Separated (alphanumeric c) cs

-- Whether the last byte is a letter or digit.
ends_word : Bool → Bytes → Bool
ends_word behind [] = behind
ends_word behind (c ∷ cs) = ends_word (alphanumeric c) cs

Separated-snoc :
    (behind : Bool) (out : Bytes) (c : ℕ)
    → Separated behind out
    → (alphanumeric c ≡ true) ⊎ ((c ≡ hyphen) × (ends_word behind out ≡ true))
    → Separated behind (out ++ (c ∷ []))
unfolding ends_word
Separated-snoc behind [] c s h = (h, tt)
Separated-snoc behind (b ∷ bs) c s h = (s.0, Separated-snoc (alphanumeric b) bs c s.1 h)

-- A byte that is not a hyphen ends a word.
ends_word-other :
    (behind : Bool) (c : ℕ) (cs : Bytes)
    → Separated behind (c ∷ cs)
    → (get_or (c ∷ cs) (length cs) 0 == hyphen) ≡ false
    → ends_word behind (c ∷ cs) ≡ true
unfolding ends_word
ends_word-other behind c [] (inl e, s) h = e
ends_word-other behind c [] (inr e, s) h = absurd (ground (arith, e.0))
ends_word-other behind c (d ∷ ds) s h = ends_word-other (alphanumeric c) d ds s.1 h

after_other-ends_word :
    (out : Bytes) → Separated false out → after_other out ≡ true → ends_word false out ≡ true
after_other-ends_word [] s h = absurd (ground arith)
after_other-ends_word (c ∷ cs) s h =
    let i : suc (length cs) - 1 ≡ length cs = omega arith in
    let other : (get_or (c ∷ cs) (suc (length cs) - 1) 0 == hyphen) ≡ false = ground arith in
    ends_word-other false c cs s (subst (λ k. (get_or (c ∷ cs) k 0 == hyphen) ≡ false) i other)

kept_byte-Separated :
    (c : ℕ) (out : Bytes) → Separated false out → Separated false (kept_byte c out)
unfolding kept_byte
kept_byte-Separated c out s = elim (Bool-cases (alphanumeric c)) [
  | inl word ↦ rw (word) (Separated-snoc false out c s (inl word))
  | inr other ↦ elim (Bool-cases (separator c && after_other out)) [
    | inl kept ↦
        let ended : ends_word false out ≡ true =
          after_other-ends_word out s (ground (arith, kept)) in
        rw (other, kept) (Separated-snoc false out hyphen s (inr (refl, ended)))
    | inr dropped ↦ rw (other, dropped) s
  ]
]

sanitize_loop-Separated :
    (name : Bytes) (out_len : ℕ) (out : Bytes)
    → Separated false out
    → Separated false (sanitize_loop name out_len out)
unfolding sanitize_loop
sanitize_loop-Separated [] out_len out s = s
sanitize_loop-Separated (c ∷ name) out_len out s =
    let rest =
      sanitize_loop-Separated name out_len (kept_byte c out) (kept_byte-Separated c out s) in
    elim (Bool-cases (ltb (length out) (out_len - 1))) [
      | inl room ↦ rw (room) rest
      | inr full ↦ rw (full) s
    ]

length-kept_byte : (c : ℕ) (out : Bytes) → length (kept_byte c out) ≤ length out + 1
unfolding kept_byte
length-kept_byte c out =
    ground (arith, length-append {0} out (c ∷ []), length-append {0} out (hyphen ∷ []))

length-sanitize_loop :
    (name : Bytes) (out_len : ℕ) (out : Bytes)
    → length out ≤ out_len - 1
    → length (sanitize_loop name out_len out) ≤ out_len - 1
unfolding sanitize_loop
length-sanitize_loop [] out_len out h = h
length-sanitize_loop (c ∷ name) out_len out h =
    ground (arith, length-kept_byte c out, length-sanitize_loop name out_len (kept_byte c out))

length-trim_hyphens : (out : Bytes) → length (trim_hyphens out) ≤ length out
unfolding trim_hyphens
length-trim_hyphens [] = omega arith
length-trim_hyphens (c ∷ cs) = ground (arith, length-trim_hyphens cs)

Separated-trim_hyphens :
    (behind : Bool) (out : Bytes) → Separated behind out → Separated behind (trim_hyphens out)
unfolding trim_hyphens
Separated-trim_hyphens behind [] s = tt
Separated-trim_hyphens behind (c ∷ cs) s =
    let rest = Separated-trim_hyphens (alphanumeric c) cs s.1 in
    elim (Bool-cases (c == hyphen && length (trim_hyphens cs) == 0)) [
      | inl gone ↦ rw (gone) tt
      | inr kept ↦ rw (kept) (s.0, rest)
    ]

-- No hyphen at the end.
abbrev pub EndsInWord : Bytes → Type 0
EndsInWord [] = Unit {0}
EndsInWord (c ∷ []) = c ≢ hyphen
EndsInWord (c ∷ (d ∷ ds)) = EndsInWord (d ∷ ds)

EndsInWord-cons :
    (c : ℕ) (rest : Bytes)
    → (c == hyphen && length rest == 0) ≡ false
    → EndsInWord rest
    → EndsInWord (c ∷ rest)
EndsInWord-cons c [] h e = λ is_hyphen. ground (arith, is_hyphen)
EndsInWord-cons c (d ∷ ds) h e = e

EndsInWord-trim_hyphens : (out : Bytes) → EndsInWord (trim_hyphens out)
unfolding trim_hyphens
EndsInWord-trim_hyphens [] = tt
EndsInWord-trim_hyphens (c ∷ cs) =
    elim (Bool-cases (c == hyphen && length (trim_hyphens cs) == 0)) [
      | inl gone ↦ rw (gone) tt
      | inr kept ↦ rw (kept) (EndsInWord-cons c (trim_hyphens cs) kept (EndsInWord-trim_hyphens cs))
    ]

-- The letters and digits of a text.
unfoldable pub words : Bytes → Bytes
words [] = []
words (c ∷ cs) = if alphanumeric c then c ∷ words cs else words cs

words-append : (xs ys : Bytes) → words (xs ++ ys) ≡ words xs ++ words ys
unfolding words
words-append [] ys = refl
words-append (x ∷ xs) ys = ground (arith, words-append xs ys)

words-kept_byte : (c : ℕ) (out : Bytes) → words (kept_byte c out) ≡ words out ++ words (c ∷ [])
unfolding kept_byte words
words-kept_byte c out = elim (Bool-cases (alphanumeric c)) [
  | inl word ↦ rw (word) (words-append out (c ∷ []) ∙ rw (word) refl)
  | inr other ↦ elim (Bool-cases (separator c && after_other out)) [
    | inl kept ↦ rw (other, kept) (words-append out (hyphen ∷ []))
    | inr dropped ↦ rw (other, dropped) (sym (append-nil (words out)))
  ]
]

-- While the name fits, the loop loses no letter or digit.
words-sanitize_loop :
    (name : Bytes) (out_len : ℕ) (out : Bytes)
    → length out + length name ≤ out_len - 1
    → words (sanitize_loop name out_len out) ≡ words out ++ words name
unfolding sanitize_loop words
words-sanitize_loop [] out_len out h = sym (append-nil (words out))
words-sanitize_loop (c ∷ name) out_len out h =
    let room : ltb (length out) (out_len - 1) ≡ true = ground arith in
    let fits : length (kept_byte c out) + length name ≤ out_len - 1 =
      ground (arith, length-kept_byte c out) in
    rw (room) (
      words-sanitize_loop name out_len (kept_byte c out) fits
      ∙ ap (λ ws. ws ++ words name) (words-kept_byte c out)
      ∙ append_assoc (words out) (words (c ∷ [])) (words name)
      ∙ ap (◌++◌ (words out)) (sym (words-append (c ∷ []) name)))

words-trim_hyphens : (out : Bytes) → words (trim_hyphens out) ≡ words out
unfolding trim_hyphens words
words-trim_hyphens [] = refl
words-trim_hyphens (c ∷ cs) = elim (Bool-cases (c == hyphen && length (trim_hyphens cs) == 0)) [
  | inl gone ↦
      let none_left : trim_hyphens cs ≡ [] = empty (trim_hyphens cs) (ground (arith, gone)) in
      let is_hyphen : alphanumeric c ≡ false = ground (arith, gone) in
      rw (gone, is_hyphen) (sym (ap words none_left) ∙ words-trim_hyphens cs)
  | inr kept ↦ rw (kept) (elim (Bool-cases (alphanumeric c)) [
    | inl word ↦ rw (word) (ap (◌∷◌ c) (words-trim_hyphens cs))
    | inr other ↦ rw (other) (words-trim_hyphens cs)
  ])
]
  where
    empty : (xs : Bytes) → (length xs == 0) ≡ true → xs ≡ []
    empty [] h = refl
    empty (x ∷ xs) h = absurd (ground arith)

-- A label of a host name of at most `max` bytes.
pub record IsHostLabel (max : ℕ) (label : Bytes) : Type 0 where
  pub separated : Separated false label
  pub ends : EndsInWord label
  pub fits : length label ≤ max

-- Whatever the name, sanitize_hostname makes a label of it that fits the buffer: letters, digits
-- and single hyphens, with none at either end.
pub sanitize_hostname-IsHostLabel :
    (name : Bytes) (out_len : ℕ) → IsHostLabel (out_len - 1) (sanitize_hostname name out_len)
unfolding sanitize_hostname
sanitize_hostname-IsHostLabel name out_len =
    let out = sanitize_loop name out_len [] in
    let fits : length out ≤ out_len - 1 = length-sanitize_loop name out_len [] (omega arith) in
    record {
      separated = Separated-trim_hyphens false out (sanitize_loop-Separated name out_len [] tt);
      ends = EndsInWord-trim_hyphens out;
      fits = omega (arith, length-trim_hyphens out);
    }

-- Of a name that fits the buffer, sanitize_hostname keeps every letter and digit, in order.
pub words-sanitize_hostname :
    (name : Bytes) (out_len : ℕ)
    → length name ≤ out_len - 1
    → words (sanitize_hostname name out_len) ≡ words name
unfolding sanitize_hostname words
words-sanitize_hostname name out_len h =
    words-trim_hyphens (sanitize_loop name out_len [])
    ∙ words-sanitize_loop name out_len [] (omega arith)
