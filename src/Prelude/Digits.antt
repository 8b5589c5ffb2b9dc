-- ===== src/Prelude/Digits.antt =====
-- The decimal numbers that sscanf and atoi of C read, within the range of int, and how printf
-- writes one.
use Prim.Native.Nat.{ℕ, zero, suc, ◌+◌, ◌-◌, ◌*◌, ◌/◌, ◌%◌, ◌≤◌, ◌<◌}
use mathlib.Core.Path.{◌≡◌, refl, sym, ap, ◌∙◌}
use mathlib.Core.Bool.{Bool, true, false, ◌&&◌, ◌||◌}
use mathlib.Core.Option.{Option, none, some}
use mathlib.Core.List.{[], ◌∷◌}
use mathlib.Core.Logic.{inl, inr}
use native.Mathlib.Omega.{arith}
use esp32_web_terminal.Prelude.Tests.{ltb, leb, ◌==◌, if◌then◌else◌, Bool-cases}
use esp32_web_terminal.Prelude.Text.{Bytes}
use esp32_web_terminal.Prelude.Int.{ℤ, pos, negsuc}

abbrev pub is_digit : ℕ → Bool
is_digit c = leb b'0' c && leb c b'9'

-- isspace
abbrev pub is_space : ℕ → Bool
is_space c = c == 32 || (leb 9 c && leb c 13)

-- The number that the digits at the front make, behind `n`, and the rest.
unfoldable pub read_digits : Bytes → ℕ → ℕ × Bytes
read_digits [] n = (n, [])
read_digits (c ∷ cs) n =
    let rest = read_digits cs (10 * n + (c - 48)) in if is_digit c then rest else (n, c ∷ cs)

unfoldable pub skip_spaces : Bytes → Bytes
skip_spaces [] = []
skip_spaces (c ∷ cs) = let rest = skip_spaces cs in if is_space c then rest else c ∷ cs

-- INT_MAX; a longer number is cut to it, as the strtol of a 32-bit long does.
abbrev pub int_max : ℕ
int_max = 2147483647

abbrev pub clamp : ℕ → ℕ
clamp n = if ltb int_max n then int_max else n

abbrev pub negated : ℕ → ℤ
negated zero = pos 0
negated (suc n) = negsuc n

-- At least one digit, or nothing is read.
unfoldable pub read_number : Bool → Bytes → Option (ℤ × Bytes)
unfolding read_digits
read_number negative [] = none
read_number negative (c ∷ cs) =
    let r = read_digits (c ∷ cs) 0 in
    if is_digit c
    then some (if negative then negated (clamp r.0) else pos (clamp r.0), r.1)
    else none

unfoldable pub read_signed : Bytes → Option (ℤ × Bytes)
unfolding read_number
read_signed [] = none
read_signed (c ∷ cs) =
    if c == b'-'
    then read_number true cs
    else if c == b'+'
    then read_number false cs
    else read_number false (c ∷ cs)

-- A conversion "%d": white space, a sign, digits.
unfoldable pub scan_int : Bytes → Option (ℤ × Bytes)
unfolding skip_spaces read_signed
scan_int s = read_signed (skip_spaces s)

-- The digits of a number, the last ones first taken; `fuel` bounds their count.
unfoldable pub print_digits : ℕ → ℕ → Bytes → Bytes
print_digits zero n rest = rest
print_digits (suc fuel) n rest =
    let more = print_digits fuel (n / 10) ((48 + n % 10) ∷ rest) in
    if ltb n 10 then (48 + n) ∷ rest else more

-- "%d" of a number that is not negative, in front of other text.
unfoldable pub print_before : ℕ → Bytes → Bytes
unfolding print_digits
print_before n rest = print_digits (suc n) n rest

-- What does not begin with a digit.
abbrev pub Stops : Bytes → Type 0
Stops [] = Unit {0}
Stops (c ∷ cs) = is_digit c ≡ false

read_digits-Stops : (rest : Bytes) (n : ℕ) → Stops rest → read_digits rest n ≡ (n, rest)
unfolding read_digits
read_digits-Stops [] n s = refl
read_digits-Stops (c ∷ cs) n s = rw (s) refl

read_digits-step :
    (d : ℕ) (cs : Bytes) (n : ℕ)
    → d < 10
    → read_digits ((48 + d) ∷ cs) n ≡ read_digits cs (10 * n + d)
unfolding read_digits
read_digits-step d cs n h =
    let digit : is_digit (48 + d) ≡ true = ground arith in
    let value : 48 + d - 48 ≡ d = omega arith in rw (digit, value) refl

-- Reading back what was printed, in front of digits that are already there.
read-print_digits :
    (fuel n : ℕ) (rest : Bytes)
    → n < fuel
    → read_digits (print_digits fuel n rest) 0 ≡ read_digits rest n
unfolding print_digits
read-print_digits zero n rest h = absurd (omega arith)
read-print_digits (suc fuel) n rest h = elim (Bool-cases (ltb n 10)) [
  | inl small ↦
      rw (small) (read_digits-step n rest 0 (ground arith) ∙ ap (read_digits rest) (omega arith))
  | inr large ↦
      let ih = read-print_digits fuel (n / 10) ((48 + n % 10) ∷ rest) (ground arith) in
      rw (large) (
        ih
        ∙ read_digits-step (n % 10) rest (n / 10) (omega arith)
        ∙ ap (read_digits rest) (omega arith))
]

print_digits-digit :
    (fuel n : ℕ) (rest : Bytes)
    → n < fuel
    → (c : ℕ) × (cs : Bytes) × (print_digits fuel n rest ≡ c ∷ cs) × (is_digit c ≡ true)
unfolding print_digits
print_digits-digit zero n rest h = absurd (omega arith)
print_digits-digit (suc fuel) n rest h = elim (Bool-cases (ltb n 10)) [
  | inl small ↦ (48 + n, rest, rw (small) refl, ground arith)
  | inr large ↦
      let ih = print_digits-digit fuel (n / 10) ((48 + n % 10) ∷ rest) (ground arith) in
      (ih.0, ih.1, rw (large) ih.2, ih.3)
]

read_signed-digits :
    (c : ℕ) (cs : Bytes)
    → is_digit c ≡ true
    → scan_int (c ∷ cs) ≡ some (pos (clamp (read_digits (c ∷ cs) 0).0), (read_digits (c ∷ cs) 0).1)
unfolding scan_int
read_signed-digits c cs digit =
    let no_space : is_space c ≡ false = ground arith in
    let no_minus : (c == b'-') ≡ false = ground arith in
    let no_plus : (c == b'+') ≡ false = ground arith in rw (no_space, no_minus, no_plus, digit) refl

-- "%d" reads a number of type int back as printf writes it.
pub scan_int-print_before :
    (n : ℕ) (rest : Bytes)
    → n ≤ int_max
    → Stops rest
    → scan_int (print_before n rest) ≡ some (pos n, rest)
unfolding print_before
scan_int-print_before n rest fits s =
    let (c, cs, e, digit) = print_digits-digit (suc n) n rest (omega arith) in
    let value : read_digits (c ∷ cs) 0 ≡ (n, rest) =
      ap (λ t. read_digits t 0) (sym e)
      ∙ read-print_digits (suc n) n rest (omega arith)
      ∙ read_digits-Stops rest n s in
    let small : clamp n ≡ n = ground arith in
    rw (e, read_signed-digits c cs digit, value, small) refl
