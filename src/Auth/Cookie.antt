-- ===== src/Auth/Cookie.antt =====
-- main/auth.c: cookie_value and auth_get_token_from_request, which find the session token in the
-- headers of a request. A pointer into the header is an offset; a read past the terminator is a
-- result of its own.
pub mod Scan
pub mod Find
pub mod Complete
use esp32_web_terminal.Prelude.{
  ℕ, zero, suc, ◌+◌, ◌-◌, ◌≤◌, Bool, true, false, ◌&&◌, ◌||◌, Option, none, some, List, [], ◌∷◌,
  Bytes, codes, length, get_elem?, drop, ltb, leb, ◌==◌, if◌then◌else◌,
}
use mathlib.Core.Option

-- `strncmp(s, prefix, strlen(prefix)) == 0`
unfoldable pub starts_with : Bytes → Bytes → Bool
starts_with [] s = true
starts_with (c ∷ cs) [] = false
starts_with (c ∷ cs) (d ∷ ds) = c == d && starts_with cs ds

-- strstr: the offset of the first occurrence.
unfoldable pub strstr : Bytes → Bytes → Option ℕ
unfolding starts_with
strstr name [] = if starts_with name [] then some 0 else none
strstr name (c ∷ cs) =
    let rest = strstr name cs in if starts_with name (c ∷ cs) then some 0 else Option.map suc rest

-- The bytes before the first `c`: up to strchr(p, c), or all of them.
unfoldable pub until : ℕ → Bytes → Bytes
until c [] = []
until c (b ∷ bs) = if b == c then [] else b ∷ until c bs

-- `*(header + i) == c`, for a `c` that is not the terminator.
abbrev pub byte_is : Bytes → ℕ → ℕ → Bool
byte_is header i c = elim (get_elem? header i) [ none ↦ false | some b ↦ b == c ]

-- `at_start || after_sep`
abbrev pub at_boundary : Bytes → ℕ → Bool
at_boundary header p =
    p == 0 || (leb 2 p && (byte_is header (p - 1) b' ' && byte_is header (p - 2) b';'))

pub data CookieScan : Type 0 where
  value : Bytes → CookieScan
  absent : CookieScan
  -- strstr was called on a pointer past the end of the header.
  overread : CookieScan
  -- Only in the model: the fuel ran out.
  exhausted : CookieScan

-- The loop of cookie_value with the pointer at offset `p`.
unfoldable pub cookie_loop : ℕ → Bytes → Bytes → ℕ → CookieScan
unfolding strstr until
cookie_loop zero header name p = exhausted
cookie_loop (suc fuel) header name p = elim (ltb (length header) p) [
  | true ↦ overread
  | false ↦ elim (strstr name (drop p header)) [
    | none ↦ absent
    | some d ↦
        let end = p + d + length name in
        elim (at_boundary header (p + d)) [
          | true ↦ elim (byte_is header end b'=') [
            | true ↦ value (until b';' (drop (suc end) header))
            | false ↦ cookie_loop fuel header name (end + length name)
          ]
          | false ↦ cookie_loop fuel header name end
        ]
  ]
]

-- Each round moves the pointer by at least the length of the name.
unfoldable pub cookie_value : Bytes → Bytes → CookieScan
unfolding cookie_loop
cookie_value header name = cookie_loop (2 + length header) header name 0

abbrev pub session_name : Bytes
session_name = codes "session"

abbrev pub bearer : Bytes
bearer = codes "Bearer "

-- The headers of a request, empty where absent, and what its buffers did: each is allocated and,
-- for the two headers, filled.
pub record Headers : Type 0 where
  pub cookie : Bytes
  pub cookie_read : Bool
  pub token_allocated : Bool
  pub authorization : Bytes
  pub authorization_read : Bool
  pub copy_allocated : Bool

-- The second half of auth_get_token_from_request.
unfoldable pub bearer_token : Headers → CookieScan
unfolding starts_with
bearer_token r =
    if ltb 0 (length r.authorization)
      && (r.authorization_read && starts_with bearer r.authorization)
    then (if r.copy_allocated then value (drop 7 r.authorization) else absent)
    else absent

unfoldable pub cookie_or_bearer : Headers → CookieScan → CookieScan
unfolding bearer_token
cookie_or_bearer r (value token) =
    if ltb 0 (length token) && r.token_allocated then value token else bearer_token r
cookie_or_bearer r absent = bearer_token r
cookie_or_bearer r overread = overread
cookie_or_bearer r exhausted = exhausted

-- auth_get_token_from_request; `absent` is its NULL.
unfoldable pub token_from_request : Headers → CookieScan
unfolding cookie_or_bearer cookie_value
token_from_request r =
    if ltb 0 (length r.cookie) && r.cookie_read
    then cookie_or_bearer r (cookie_value r.cookie session_name)
    else bearer_token r
