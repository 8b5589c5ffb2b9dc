-- ===== src/Http/Pages/Redirect.antt =====
-- Where handle_404 of main/web_server.c sends a client.
use esp32_web_terminal.Prelude.{
  ℕ, ◌<◌, ◌≡◌, ◌≢◌, refl, true, false, ◌&&◌, some, [], ◌∷◌, ◌++◌, arith, Bytes, codes, ltb, ◌==◌,
  length, length-append, take_all, All,
}
use esp32_web_terminal.Auth.Cookie.{until}
use esp32_web_terminal.Http.Pages.{location, strchr, without_port}

until_found :
    (c : ℕ) (name rest : Bytes) → All (λ b. b ≢ c) name → until c (name ++ (c ∷ rest)) ≡ name
unfolding until
until_found c [] rest all = let same : (c == c) ≡ true = ground arith in rw (same)
until_found c (b ∷ name) rest all =
    let other : (b == c) ≡ false = ground (arith, all.0) in
    rw (other, until_found c name rest all.1)

strchr_found :
    (c : ℕ) (name rest : Bytes)
    → All (λ b. b ≢ c) name
    → strchr c (name ++ (c ∷ rest)) ≡ some (name, c ∷ rest)
unfolding strchr
strchr_found c [] rest all = let same : (c == c) ≡ true = ground arith in rw (same)
strchr_found c (b ∷ name) rest all =
    let other : (b == c) ≡ false = ground (arith, all.0) in
    rw (other, strchr_found c name rest all.1)

-- An IPv6 address in brackets keeps its colons, and loses its port.
pub without_port_literal :
    (address port : Bytes)
    → All (λ b. b ≢ b']') address
    → without_port (b'[' ∷ (address ++ (b']' ∷ b':' ∷ port))) ≡ b'[' ∷ (address ++ (b']' ∷ []))
unfolding without_port
without_port_literal address port all =
    let found : strchr b']' ((b'[' ∷ address) ++ (b']' ∷ b':' ∷ port))
        ≡ some (b'[' ∷ address, b']' ∷ b':' ∷ port) =
      strchr_found b']' (b'[' ∷ address) (b':' ∷ port) (omega arith, all) in
    rw (found, without_port) (unfold until in refl)

-- Another host loses its port at the first colon.
pub without_port_named :
    (c : ℕ) (name port : Bytes)
    → c ≢ b'['
    → All (λ b. b ≢ b':') (c ∷ name)
    → without_port (c ∷ (name ++ (b':' ∷ port))) ≡ c ∷ name
unfolding without_port
without_port_named c name port plain all =
    let no_bracket : (c == b'[') ≡ false = ground arith in
    rw (no_bracket, without_port) (until_found b':' (c ∷ name) port all)

-- A host whose name has no colon and is no address in brackets: a client that names it with a port
-- is sent to it without the port, and the location is not cut.
pub location_named :
    (c : ℕ) (name port : Bytes) (host_len : ℕ)
    → 0 < host_len
    → host_len < 144
    → c ≢ b'['
    → All (λ b. b ≢ b':') (c ∷ name)
    → length (c ∷ name) < 128
    → location host_len (some (c ∷ (name ++ (b':' ∷ port))))
      ≡ codes "https://" ++ ((c ∷ name) ++ codes "/")
unfolding location
location_named c name port host_len some_host fits plain all short =
    let usable : (ltb 0 host_len && ltb host_len 144) ≡ true = ground arith in
    let nonempty : ltb 0 (length (c ∷ name)) ≡ true = ground arith in
    rw (usable, without_port_named c name port plain all, nonempty)
      (take_all 159 (codes "https://" ++ ((c ∷ name) ++ codes "/"))
        (omega (arith, length-append {0} name (codes "/"))))
