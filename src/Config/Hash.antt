-- ===== src/Config/Hash.antt =====
-- main/config.c: hmac_sha256, pbkdf2_hmac_sha256, compute_hash and compute_hash_legacy over a
-- SHA-256, and constant_time_compare.
use esp32_web_terminal.Prelude.{
  ℕ, zero, suc, ◌+◌, ◌-◌, ◌*◌, ◌/◌, ◌%◌, Bool, [], ◌∷◌, ◌++◌, Bytes, ltb, ◌==◌, if◌then◌else◌,
  length, take, replicate, min,
}

abbrev pub block_size : ℕ
block_size = 64

abbrev pub hash_size : ℕ
hash_size = 32

abbrev pub pbkdf2_iterations : ℕ
pbkdf2_iterations = 10000

abbrev pub auth_hash_len : ℕ
auth_hash_len = 32

abbrev pub auth_salt_len : ℕ
auth_salt_len = 16

-- `a ^ b` and `a | b` on the low bits.
unfoldable pub xor_bits : ℕ → ℕ → ℕ → ℕ
xor_bits zero a b = 0
xor_bits (suc n) a b = (a % 2 + b % 2) % 2 + 2 * xor_bits n (a / 2) (b / 2)

unfoldable pub or_bits : ℕ → ℕ → ℕ → ℕ
or_bits zero a b = 0
or_bits (suc n) a b = (if a % 2 == 0 then b % 2 else 1) + 2 * or_bits n (a / 2) (b / 2)

-- `T[j] ^= U[j]`, while both last.
unfoldable pub xor_bytes : Bytes → Bytes → Bytes
unfolding xor_bits
xor_bytes [] ys = []
xor_bytes (a ∷ xs) [] = a ∷ xs
xor_bytes (a ∷ xs) (b ∷ ys) = xor_bits 8 a b ∷ xor_bytes xs ys

-- memset of a block to `c`, then `^=` with the key.
abbrev pub padded : ℕ → Bytes → Bytes
padded c key = xor_bytes (replicate block_size c) key

-- INT_32_BE
abbrev pub be32 : ℕ → Bytes
be32 n = n / 16777216 % 256 ∷ n / 65536 % 256 ∷ n / 256 % 256 ∷ n % 256 ∷ []

module _ (sha256 : Bytes → Bytes) where
  -- hmac_sha256: the bytes that it writes to `out`.
  unfoldable pub hmac_sha256 : Bytes → Bytes → Bytes
  hmac_sha256 key text =
      let key' = if ltb block_size (length key) then sha256 key else key in
      sha256 (padded 92 key' ++ sha256 (padded 54 key' ++ text))

  -- U2 to Uc: the bytes of T after some rounds.
  unfoldable pub pbkdf2_rounds : Bytes → ℕ → Bytes → Bytes → Bytes
  unfolding hmac_sha256 xor_bytes
  pbkdf2_rounds password zero u t = t
  pbkdf2_rounds password (suc n) u t =
      let u' = hmac_sha256 password u in pbkdf2_rounds password n u' (xor_bytes t u')

  abbrev pub pbkdf2_block : Bytes → Bytes → ℕ → ℕ → Bytes
  pbkdf2_block password salt iterations block =
      let u = hmac_sha256 password (salt ++ be32 block) in
      pbkdf2_rounds password (iterations - 1) u u

  -- The loop over blocks, with `left` bytes to write; each round writes at least one.
  unfoldable pub pbkdf2_blocks : ℕ → Bytes → Bytes → ℕ → ℕ → ℕ → Bytes
  unfolding pbkdf2_rounds
  pbkdf2_blocks zero password salt iterations block left = []
  pbkdf2_blocks (suc fuel) password salt iterations block left =
      let to_copy = min left hash_size in
      let rest = pbkdf2_blocks fuel password salt iterations (suc block) (left - to_copy) in
      if left == 0 then [] else take to_copy (pbkdf2_block password salt iterations block) ++ rest

  -- pbkdf2_hmac_sha256: the buffer keeps `out` if the salt block cannot be allocated.
  unfoldable pub pbkdf2_hmac_sha256 : Bool → Bytes → Bytes → ℕ → Bytes → Bytes
  unfolding pbkdf2_blocks
  pbkdf2_hmac_sha256 allocated password salt iterations out =
      if allocated then pbkdf2_blocks (length out) password salt iterations 1 (length out) else out

  unfoldable pub compute_hash : Bool → Bytes → Bytes → Bytes → Bytes
  unfolding pbkdf2_hmac_sha256
  compute_hash allocated password salt out =
      pbkdf2_hmac_sha256 allocated password salt pbkdf2_iterations out

  unfoldable pub compute_hash_legacy : Bytes → Bytes → Bytes
  compute_hash_legacy password salt = sha256 (salt ++ password)

-- The loop of constant_time_compare.
unfoldable pub difference : Bytes → Bytes → ℕ → ℕ
unfolding xor_bits or_bits
difference [] ys diff = diff
difference (a ∷ xs) [] diff = diff
difference (a ∷ xs) (b ∷ ys) diff = difference xs ys (or_bits 8 diff (xor_bits 8 a b))

-- constant_time_compare of two buffers of the same length.
unfoldable pub constant_time_compare : Bytes → Bytes → Bool
unfolding difference
constant_time_compare xs ys = difference xs ys 0 == 0
