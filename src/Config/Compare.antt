-- ===== src/Config/Compare.antt =====
-- constant_time_compare decides equality of buffers of one length.
use esp32_web_terminal.Prelude.{
  ℕ, zero, suc, ◌+◌, ◌*◌, ◌/◌, ◌%◌, ◌<◌, ◌≡◌, ◌↔◌, refl, ap₂, sym, subst, true, [], ◌∷◌, arith,
  Bytes, ◌==◌, if◌then◌else◌, length, All,
}
use esp32_web_terminal.Config.Hash.{xor_bits, or_bits, difference, constant_time_compare}

-- A number of `n` bits.
FitsBits : ℕ → ℕ → Type 0
FitsBits zero a = a ≡ 0
FitsBits (suc n) a = FitsBits n (a / 2)

byte-FitsBits : (a : ℕ) → a < 256 → FitsBits 8 a
unfolding FitsBits
byte-FitsBits a h = omega arith

xor_bits-nil : (n a b : ℕ) → FitsBits n a → FitsBits n b → xor_bits n a b ≡ 0 → a ≡ b
unfolding xor_bits FitsBits
xor_bits-nil zero a b ha hb e = omega arith
xor_bits-nil (suc n) a b ha hb e =
    let halves = xor_bits-nil n (a / 2) (b / 2) ha hb (omega arith) in omega arith

xor_bits_self : (n a : ℕ) → xor_bits n a a ≡ 0
unfolding xor_bits
xor_bits_self zero a = refl
xor_bits_self (suc n) a = omega (arith, xor_bits_self n (a / 2))

half : (l m : ℕ) → l < 2 → (l + 2 * m) / 2 ≡ m
half l m h = omega arith

xor_bits-FitsBits : (n a b : ℕ) → FitsBits n (xor_bits n a b)
unfolding xor_bits FitsBits
xor_bits-FitsBits zero a b = refl
xor_bits-FitsBits (suc n) a b =
    subst (FitsBits n) (sym (half ((a % 2 + b % 2) % 2) _ (omega arith)))
      (xor_bits-FitsBits n (a / 2) (b / 2))

low_bit : (a b : ℕ) → (if a % 2 == 0 then b % 2 else 1) < 2
low_bit a b = ground arith

or_bits-FitsBits : (n a b : ℕ) → FitsBits n (or_bits n a b)
unfolding or_bits FitsBits
or_bits-FitsBits zero a b = refl
or_bits-FitsBits (suc n) a b =
    subst (FitsBits n) (sym (half _ _ (low_bit a b))) (or_bits-FitsBits n (a / 2) (b / 2))

or_bits-nil : (n a b : ℕ) → FitsBits n a → FitsBits n b → or_bits n a b ≡ 0 → (a ≡ 0) × (b ≡ 0)
unfolding or_bits FitsBits
or_bits-nil zero a b ha hb e = (ha, hb)
or_bits-nil (suc n) a b ha hb e =
    let rest = or_bits-nil n (a / 2) (b / 2) ha hb (omega arith) in
    let low : (a % 2 ≡ 0) × (b % 2 ≡ 0) = ground arith in (omega arith, omega arith)

difference-nil :
    (xs ys : Bytes) (diff : ℕ)
    → FitsBits 8 diff
    → All (λ b. b < 256) xs
    → All (λ b. b < 256) ys
    → length xs ≡ length ys
    → difference xs ys diff ≡ 0
    → (diff ≡ 0) × (xs ≡ ys)
unfolding difference
difference-nil [] [] diff f hx hy l e = (e, refl)
difference-nil [] (y ∷ ys) diff f hx hy l e = absurd (omega arith)
difference-nil (x ∷ xs) [] diff f hx hy l e = absurd (omega arith)
difference-nil (x ∷ xs) (y ∷ ys) diff f hx hy l e =
    let (here, rest) =
      difference-nil xs ys (or_bits 8 diff (xor_bits 8 x y)) (or_bits-FitsBits 8 diff _) hx.1 hy.1
        (omega arith) e in
    let (none_before, equal) =
      or_bits-nil 8 diff (xor_bits 8 x y) f (xor_bits-FitsBits 8 x y) here in
    (
      none_before,
      ap₂ ◌∷◌ (xor_bits-nil 8 x y (byte-FitsBits x hx.0) (byte-FitsBits y hy.0) equal) rest,
    )

difference_self : (xs : Bytes) → difference xs xs 0 ≡ 0
unfolding difference or_bits
difference_self [] = refl
difference_self (x ∷ xs) = rw (xor_bits_self 8 x) (difference_self xs)

-- Of two buffers of bytes of one length, constant_time_compare accepts exactly equal ones.
pub constant_time_compare_iff :
    (xs ys : Bytes)
    → All (λ b. b < 256) xs
    → All (λ b. b < 256) ys
    → length xs ≡ length ys
    → (constant_time_compare xs ys ≡ true) ↔ (xs ≡ ys)
unfolding constant_time_compare
constant_time_compare_iff xs ys hx hy l = (
  λ e. (difference-nil xs ys 0 (byte-FitsBits 0 (omega arith)) hx hy l (ground arith)).1,
  λ e. rw (e, difference_self ys) refl,
)
