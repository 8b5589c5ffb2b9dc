-- ===== src/Http/Pages.antt =====
-- main/web_server.c: handle_404, which redirects to the address that the client used, and the loop of
-- handle_xterm_js.
pub mod Redirect
pub mod Whole
use esp32_web_terminal.Prelude.{
  ℕ, zero, suc, ◌+◌, ◌-◌, ◌≤◌, ◌<◌, ◌≡◌, ◌≢◌, refl, sym, ap, ◌∙◌, Bool, true, false, not, ◌&&◌,
  Option, none, some, List, [], ◌∷◌, ◌++◌, arith, Bytes, codes, ltb, ◌==◌, if◌then◌else◌, length,
  length-append, take, drop, take_all, All, Bool-cases, inl, inr,
}
use esp32_web_terminal.Auth.Cookie.{until}

-- What strchr finds: the text before the byte, and the text from it on.
unfoldable pub strchr : ℕ → Bytes → Option (Bytes × Bytes)
strchr b [] = none
strchr b (c ∷ cs) =
    let rest = strchr b cs in
    if c == b
    then some ([], c ∷ cs)
    else elim rest [ none ↦ none | some (before, from) ↦ some (c ∷ before, from) ]

-- The port is cut off, and a ':' within the brackets of an IPv6 address is no port.
unfoldable pub without_port : Bytes → Bytes
unfolding strchr
without_port [] = []
without_port (c ∷ cs) = elim (if c == b'[' then strchr b']' (c ∷ cs) else none) [
  | none ↦ until b':' (c ∷ cs)
  | some (before, from) ↦ before ++ until b':' from
]

abbrev pub fallback_location : Bytes
fallback_location = codes "https://192.168.4.1/"

-- `char location[160]`
abbrev pub location_size : ℕ
location_size = 160

-- The location of handle_404, with what httpd says of the Host header: its length, and its text if
-- that fits a buffer of 128 bytes.
unfoldable pub location : ℕ → Option Bytes → Bytes
unfolding without_port
location host_len host =
    if ltb 0 host_len && ltb host_len (location_size - 16)
    then elim host [
      | none ↦ fallback_location
      | some text ↦
          if ltb 0 (length (without_port text))
          then take (location_size - 1) (codes "https://" ++ (without_port text ++ codes "/"))
          else fallback_location
    ]
    else fallback_location

-- `chunk_size` of handle_xterm_js
abbrev pub page_chunk : ℕ
page_chunk = 4096

-- The loop of handle_xterm_js over the bytes left, at most one round for each byte; `accepts n` is
-- whether httpd_resp_send_chunk takes the chunk of round `n`. Whether all were taken, and the chunks.
unfoldable pub send_loop : ℕ → (ℕ → Bool) → Bytes → Bool × List Bytes
send_loop zero accepts bytes = (true, [])
send_loop (suc fuel) accepts bytes =
    let rest = send_loop fuel (λ n. accepts (suc n)) (drop page_chunk bytes) in
    if length bytes == 0
    then (true, [])
    else if accepts 0
    then (rest.0, take page_chunk bytes ∷ rest.1)
    else (false, take page_chunk bytes ∷ [])

-- handle_xterm_js: the chunks, and the empty one that ends the response in any case.
unfoldable pub handle_xterm_js : (ℕ → Bool) → Bytes → Bool × List Bytes
unfolding send_loop
handle_xterm_js accepts file =
    let sent = send_loop (length file) accepts file in (sent.0, sent.1 ++ ([] ∷ []))
