-- ===== src/Config/Password.antt =====
-- A password that was set is the one that is accepted, up to collisions of the hash.
use esp32_web_terminal.Prelude.{
  ℕ, zero, suc, ◌-◌, ◌≤◌, ◌<◌, ◌≡◌, ◌↔◌, sym, ap, ◌∙◌, true, none, some, [], ◌∷◌, ◌++◌, arith,
  Bytes, All, ◌==◌, length, length-append, length-take, take, min, Bool-cases, inl, inr, subst,
}
use esp32_web_terminal.Config.Hash.{
  xor_bits, xor_bytes, hmac_sha256, pbkdf2_rounds, pbkdf2_block, pbkdf2_blocks, pbkdf2_hmac_sha256,
  compute_hash, hash_size, pbkdf2_iterations, be32, auth_hash_len,
}
use esp32_web_terminal.Config.Store.{Config, Draw}
use esp32_web_terminal.Config.Setters.{credentials, changed, check_password}
use esp32_web_terminal.Config.Compare.{constant_time_compare_iff}

-- Some bytes, as many as `n`.
abbrev pub Buffer : ℕ → Bytes → Type 0
Buffer n xs = (length xs ≡ n) × All (λ b. b < 256) xs

xor_bits-byte : (a b : ℕ) → xor_bits 8 a b < 256
unfolding xor_bits
xor_bits-byte a b = omega arith

xor_bytes-Buffer : (n : ℕ) (xs ys : Bytes) → Buffer n xs → Buffer n (xor_bytes xs ys)
unfolding xor_bytes
xor_bytes-Buffer n [] ys b = b
xor_bytes-Buffer n (x ∷ xs) [] b = b
xor_bytes-Buffer zero (x ∷ xs) (y ∷ ys) b = absurd (omega (arith, b.0))
xor_bytes-Buffer (suc n) (x ∷ xs) (y ∷ ys) b =
    let rest = xor_bytes-Buffer n xs ys (omega (arith, b.0), b.1.1) in
    (omega (arith, rest.0), (xor_bits-byte x y, rest.1))

All-append : (P : ℕ → Type 0) (xs ys : Bytes) → All P xs → All P ys → All P (xs ++ ys)
All-append P [] ys a b = b
All-append P (x ∷ xs) ys a b = (a.0, All-append P xs ys a.1 b)

All-take : (P : ℕ → Type 0) (n : ℕ) (xs : Bytes) → All P xs → All P (take n xs)
All-take P zero xs a = tt
All-take P (suc n) [] a = tt
All-take P (suc n) (x ∷ xs) a = (a.0, All-take P n xs a.1)

module _ (sha256 : Bytes → Bytes) (digests : (m : Bytes) → Buffer hash_size (sha256 m)) where
  hmac_sha256-Buffer : (key text : Bytes) → Buffer hash_size (hmac_sha256 sha256 key text)
  unfolding hmac_sha256
  hmac_sha256-Buffer key text = digests _

  pbkdf2_rounds-Buffer :
      (password : Bytes) (n : ℕ) (u t : Bytes)
      → Buffer hash_size t
      → Buffer hash_size (pbkdf2_rounds sha256 password n u t)
  unfolding pbkdf2_rounds
  pbkdf2_rounds-Buffer password zero u t b = b
  pbkdf2_rounds-Buffer password (suc n) u t b =
      pbkdf2_rounds-Buffer password n (hmac_sha256 sha256 password u) _
        (xor_bytes-Buffer 32 t (hmac_sha256 sha256 password u) b)

  pbkdf2_block-Buffer :
      (password salt : Bytes) (iterations block : ℕ)
      → Buffer hash_size (pbkdf2_block sha256 password salt iterations block)
  pbkdf2_block-Buffer password salt iterations block =
      pbkdf2_rounds-Buffer password (iterations - 1) _ _
        (hmac_sha256-Buffer password (salt ++ be32 block))

  pbkdf2_blocks-Buffer :
      (fuel : ℕ) (password salt : Bytes) (iterations block left : ℕ)
      → left ≤ fuel
      → Buffer left (pbkdf2_blocks sha256 fuel password salt iterations block left)
  unfolding pbkdf2_blocks
  pbkdf2_blocks-Buffer zero password salt iterations block left le = (omega arith, tt)
  pbkdf2_blocks-Buffer (suc fuel) password salt iterations block left le =
      elim (Bool-cases (left == 0)) [
        | inl e ↦ rw (e) (ground arith, tt)
        | inr e ↦
            let t = pbkdf2_block sha256 password salt iterations block in
            let b = pbkdf2_block-Buffer password salt iterations block in
            let rest =
              pbkdf2_blocks-Buffer fuel password salt iterations (suc block)
                (left - min left hash_size) (ground (arith, e)) in
            rw (e) (
              omega (
                arith,
                length-append (take (min left hash_size) t) _,
                length-take (min left hash_size) t,
                b.0,
                rest.0,
              ),
              All-append (λ c. c < 256) (take (min left hash_size) t) _
                  (All-take (λ c. c < 256) (min left hash_size) t b.1) rest.1,
            )
      ]

  -- The derived key fills its buffer with bytes.
  pub compute_hash-Buffer :
      (password salt out : Bytes) → Buffer (length out) (compute_hash sha256 true password salt out)
  unfolding compute_hash pbkdf2_hmac_sha256
  compute_hash-Buffer password salt out =
      pbkdf2_blocks-Buffer (length out) password salt pbkdf2_iterations 1 (length out) (omega arith)

  compute_hash-out :
      (password salt out out' : Bytes)
      → length out ≡ length out'
      → compute_hash sha256 true password salt out ≡ compute_hash sha256 true password salt out'
  unfolding compute_hash pbkdf2_hmac_sha256
  compute_hash-out password salt out out' l =
      ap (λ n. pbkdf2_blocks sha256 n password salt pbkdf2_iterations 1 n) l

  -- With a digest of 32 bytes, and where the memory of the hashes can be allocated: after
  -- config_set_auth, config_check_password accepts exactly the passwords that have the hash of
  -- the one that was set; the 32 bytes that the buffer for the hash held before do not matter.
  pub check_password-credentials :
      (port_max : ℕ) (d : Draw) (user password guess junk : Bytes) (c c' : Config)
      → d.allocated ≡ true
      → length c.auth_hash ≡ auth_hash_len
      → length junk ≡ auth_hash_len
      → changed port_max sha256 (credentials d user password) c ≡ some c'
      → (check_password sha256 true junk guess c' ≡ true) ↔ (
          compute_hash sha256 true guess d.salt junk
          ≡ compute_hash sha256 true password d.salt junk)
  unfolding check_password changed
  check_password-credentials port_max d user password guess junk c c' a l l' e =
      let same : compute_hash sha256 d.allocated password d.salt c.auth_hash
          ≡ compute_hash sha256 true password d.salt junk =
        ap (λ b. compute_hash sha256 b password d.salt c.auth_hash) a
        ∙ compute_hash-out password d.salt c.auth_hash junk (omega arith) in
      let (n, bytes) = compute_hash-Buffer guess d.salt junk in
      let (n', bytes') = compute_hash-Buffer password d.salt junk in
      subst
        (λ x. (check_password sha256 true junk guess x ≡ true) ↔ (
          compute_hash sha256 true guess d.salt junk
          ≡ compute_hash sha256 true password d.salt junk))
        (ap (λ o. elim o [ none ↦ c | some x ↦ x ]) e)
        (rw (same) (
          constant_time_compare_iff (compute_hash sha256 true guess d.salt junk)
            (compute_hash sha256 true password d.salt junk) bytes bytes' (n ∙ sym n')))
