-- ===== src/Prelude/Int.antt =====
-- The signed integers of C, over the native numbers.
use Prim.Native.Nat.{ℕ}
use mathlib.Core.Path.{◌≡◌}
use mathlib.Core.Bool.{Bool, true, false}
use native.Mathlib.Omega.{arith}
use esp32_web_terminal.Prelude.Tests.{ltb, if◌then◌else◌}

-- `negsuc n` is -(n + 1).
pub data ℤ : Type 0 where
  pos : ℕ → ℤ
  negsuc : ℕ → ℤ

abbrev pub ltb_ℤ : ℤ → ℤ → Bool
ltb_ℤ (pos a) (pos b) = ltb a b
ltb_ℤ (pos a) (negsuc b) = false
ltb_ℤ (negsuc a) (pos b) = true
ltb_ℤ (negsuc a) (negsuc b) = ltb b a

unfoldable pub max_ℤ : ℤ → ℤ → ℤ
max_ℤ a b = if ltb_ℤ a b then b else a

pub max_ℤ_assoc : (a b c : ℤ) → max_ℤ (max_ℤ a b) c ≡ max_ℤ a (max_ℤ b c)
unfolding max_ℤ
max_ℤ_assoc (pos a) (pos b) (pos c) = ground arith
max_ℤ_assoc (pos a) (pos b) (negsuc c) = ground arith
max_ℤ_assoc (pos a) (negsuc b) (pos c) = ground arith
max_ℤ_assoc (pos a) (negsuc b) (negsuc c) = ground arith
max_ℤ_assoc (negsuc a) (pos b) (pos c) = ground arith
max_ℤ_assoc (negsuc a) (pos b) (negsuc c) = ground arith
max_ℤ_assoc (negsuc a) (negsuc b) (pos c) = ground arith
max_ℤ_assoc (negsuc a) (negsuc b) (negsuc c) = ground arith
