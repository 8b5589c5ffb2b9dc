-- ===== src/Auth/Token.antt =====
-- main/auth.c: generate_token, the hex text of the random bytes of a session token.
use esp32_web_terminal.Prelude.{
  ℕ, suc, ◌+◌, ◌*◌, ◌/◌, ◌%◌, ◌<◌, ◌≡◌, ◌↔◌, refl, ap, ap₂, true, [], ◌∷◌, arith, Bytes, length,
  ltb, All, if◌then◌else◌,
}

-- AUTH_SESSION_TOKEN_LEN
abbrev pub token_bytes : ℕ
token_bytes = 32

-- sizeof(s_sessions[slot].token)
abbrev pub token_size : ℕ
token_size = 65

-- A digit that "%02x" prints.
unfoldable pub hex_digit : ℕ → ℕ
hex_digit d = if ltb d 10 then 48 + d else 87 + d

-- The loop from index `i` on, over the bytes left.
unfoldable pub token_loop : ℕ → ℕ → Bytes → Bytes
unfolding hex_digit
token_loop buf_len i [] = []
token_loop buf_len i (b ∷ bs) =
    let rest = token_loop buf_len (suc i) bs in
    if ltb (i * 2 + 2) buf_len then hex_digit (b / 16) ∷ hex_digit (b % 16) ∷ rest else []

unfoldable pub generate_token : Bytes → Bytes
unfolding token_loop
generate_token random = token_loop token_size 0 random

pub length-token_loop :
    (buf_len i : ℕ) (bs : Bytes)
    → (i + length bs) * 2 < buf_len
    → length (token_loop buf_len i bs) ≡ 2 * length bs
unfolding token_loop
length-token_loop buf_len i [] h = omega arith
length-token_loop buf_len i (b ∷ bs) h =
    ground (arith, length-token_loop buf_len (suc i) bs (omega arith))

hex_digit_inj : (d e : ℕ) → d < 16 → e < 16 → hex_digit d ≡ hex_digit e → d ≡ e
unfolding hex_digit
hex_digit_inj d e hd he p = ground arith

abbrev pub AreBytes : Bytes → Type 0
AreBytes = All (λ b. b < 256)

byte_inj :
    (b c : ℕ)
    → b < 256
    → c < 256
    → hex_digit (b / 16) ≡ hex_digit (c / 16)
    → hex_digit (b % 16) ≡ hex_digit (c % 16)
    → b ≡ c
byte_inj b c hb hc p q =
    let hi = hex_digit_inj (b / 16) (c / 16) (omega arith) (omega arith) p in
    let lo = hex_digit_inj (b % 16) (c % 16) (omega arith) (omega arith) q in omega arith

head_eq : (x y : ℕ) (xs ys : Bytes) → x ∷ xs ≡ y ∷ ys → (x ≡ y) × (xs ≡ ys)
head_eq x y xs ys e = (cc, cc)

token_loop_inj :
    (buf_len i : ℕ) (bs cs : Bytes)
    → AreBytes bs
    → AreBytes cs
    → length bs ≡ length cs
    → (i + length bs) * 2 < buf_len
    → token_loop buf_len i bs ≡ token_loop buf_len i cs
    → bs ≡ cs
unfolding token_loop
token_loop_inj buf_len i [] [] hb hc l h e = refl
token_loop_inj buf_len i [] (c ∷ cs) hb hc l h e = absurd (omega arith)
token_loop_inj buf_len i (b ∷ bs) [] hb hc l h e = absurd (omega arith)
token_loop_inj buf_len i (b ∷ bs) (c ∷ cs) hb hc l h e =
    let fits : ltb (i * 2 + 2) buf_len ≡ true = ground arith in
    let first = head_eq _ _ _ _ (rw fits at e) in
    let second = head_eq _ _ _ _ first.1 in
    ap₂ ◌∷◌ (byte_inj b c hb.0 hc.0 first.0 second.0)
      (token_loop_inj buf_len (suc i) bs cs hb.1 hc.1 (omega arith) (omega arith) second.1)

-- The 32 random bytes of a token give 64 hex digits, which fill the buffer and leave room for
-- the terminator, and two draws of random bytes give the same token exactly if they are the same.
pub generate_token_faithful :
    (r r' : Bytes)
    → AreBytes r
    → AreBytes r'
    → length r ≡ token_bytes
    → length r' ≡ token_bytes
    → (suc (length (generate_token r)) ≡ token_size)
      × ((generate_token r ≡ generate_token r') ↔ (r ≡ r'))
unfolding generate_token
generate_token_faithful r r' hr hr' l l' = (
  omega (arith, length-token_loop 65 0 r),
  (token_loop_inj 65 0 r r' hr hr' (omega arith) (omega arith), ap (token_loop 65 0)),
)
