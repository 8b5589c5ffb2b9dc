-- ===== src/Http/Certs.antt =====
-- main/web_server.c: the TLS certificates (load_or_save_certs and handle_tls_upload). The checks of
-- mbedtls are arguments.
pub mod Reload
use esp32_web_terminal.Prelude.{
  ℕ, ◌+◌, Bool, true, false, not, ◌&&◌, ◌||◌, Option, none, some, List, [], ◌∷◌, ◌++◌, Bytes, codes,
  ltb, leb, ◌==◌, if◌then◌else◌, length,
}
use esp32_web_terminal.Config.Store.{Nvs, Value, blob, str, u32, u8}
use esp32_web_terminal.Http.{Server, Request, Document, Outcome, json, gated, bad_request, answer}
use esp32_web_terminal.Http.Body.{Body, absent, bad, body, read_body}

abbrev pub max_cert_size : ℕ
max_cert_size = 4096

-- s_cert_pem and s_key_pem; `fallback` is the pair of null pointers, and `junk` a pair that was
-- allocated but not filled.
pub data Loaded : Type 0 where
  fallback junk : Loaded
  pair : Bytes → Bytes → Loaded

-- The bytes of a blob.
abbrev pub blob_value : Option Value → Option Bytes
blob_value none = none
blob_value (some (blob b)) = some b
blob_value (some (str b)) = none
blob_value (some (u32 n)) = none
blob_value (some (u8 n)) = none

-- nvs_get_blob into a buffer of `size` bytes.
abbrev pub get_blob : {S : Type 0} → Nvs S → Bytes → ℕ → S → Option Bytes
get_blob nvs key size s = elim (blob_value (nvs.get key s)) [
  | none ↦ none
  | some b ↦ if leb (length b) size then some b else none
]

-- Whether nvs_set_blob takes the certificate, and the key; the source ignores its errors.
pub record BlobWrites : Type 0 where
  pub cert_taken : Bool
  pub key_taken : Bool

abbrev pub set_blob : {S : Type 0} → Nvs S → Bool → Bytes → Bytes → S → S
set_blob nvs taken key value s = if taken then nvs.put key (blob value) s else s

abbrev pub put_pair : {S : Type 0} → Nvs S → BlobWrites → Bytes → Bytes → S → S
put_pair nvs w cert key s =
    set_blob nvs w.key_taken (codes "key") key (set_blob nvs w.cert_taken (codes "cert") cert s)

-- A blob that is there and not empty.
abbrev pub stored_cert : Option Bytes → Option Bytes
stored_cert none = none
stored_cert (some []) = none
stored_cert (some (b ∷ bs)) = some (b ∷ bs)

-- The branch that reads the key; the two flags are those of the allocations.
abbrev pub with_key : Bool → Bool → Bytes → Option Bytes → Loaded
with_key cert_alloc key_alloc cert none = fallback
with_key cert_alloc key_alloc cert (some key) =
    if cert_alloc && key_alloc then pair cert key else fallback

-- What the first boot leaves: with one allocation failed, the other buffer is not filled.
abbrev pub first_pair : Bool → Bool → Bytes → Bytes → Loaded
first_pair cert_alloc key_alloc cert key =
    if cert_alloc && key_alloc
    then pair cert key
    else if cert_alloc || key_alloc
    then junk
    else fallback

-- load_or_save_certs: with the embedded pair, whether NVS opens, the two allocations, and what NVS
-- says to the writes.
unfoldable pub load_or_save_certs :
    {S : Type 0} → Nvs S → Bytes → Bytes → Bool → Bool → Bool → BlobWrites → S → Loaded × S
load_or_save_certs nvs crt key opens cert_alloc key_alloc w s =
    if not opens
    then (fallback, s)
    else elim (stored_cert (blob_value (nvs.get (codes "cert") s))) [
      | none ↦ (first_pair cert_alloc key_alloc crt key, put_pair nvs w crt key s)
      | some cert ↦
          (with_key cert_alloc key_alloc cert (get_blob nvs (codes "key") max_cert_size s), s)
    ]

-- What mbedtls answers about a certificate, a key and the pair, each with its terminator.
pub record Tls : Type 0 where
  pub cert_parses : Bytes → Bool
  pub key_parses : Bytes → Bool
  pub matches : Bytes → Bytes → Bool

-- What the upload draws from outside: the allocation, whether NVS opens, and whether it commits.
pub record TlsAnswers : Type 0 where
  pub allocated : Bool
  pub opens : Bool
  pub writes : BlobWrites
  pub commits : Bool

-- A text with its terminator, as it is stored.
abbrev pub terminated : Bytes → Bytes
terminated s = s ++ (0 ∷ [])

module _ {S : Type 0} (nvs : Nvs S) (tls : Tls) where
  -- From the two strings on.
  unfoldable pub store_pair : TlsAnswers → Bytes → Bytes → Server S → Outcome S
  store_pair a cert key s =
      let s' = record s {
        certs = put_pair nvs a.writes (terminated cert) (terminated key) s.certs;
      } in
      if not (tls.cert_parses (terminated cert))
      then bad_request s (codes "Invalid certificate")
      else if not (tls.key_parses (terminated key))
      then bad_request s (codes "Invalid private key")
      else if not (tls.matches (terminated cert) (terminated key))
      then bad_request s (codes "Certificate and key do not match")
      else if ltb max_cert_size (length (terminated cert))
          || ltb max_cert_size (length (terminated key))
      then bad_request s (codes "Cert or key exceeds 4096 bytes")
      else if not a.opens
      then bad_request s (codes "NVS open failed")
      else if not a.commits
      then bad_request s' (codes "Failed to save certs")
      else answer s'
          (json (codes "{\"ok\":true,\"message\":\"TLS certs updated, reboot to apply\"}"))

  unfoldable pub post_pair : TlsAnswers → Option Bytes → Option Bytes → Server S → Outcome S
  unfolding store_pair
  post_pair a none key s = bad_request s (codes "Missing cert or key")
  post_pair a (some cert) none s = bad_request s (codes "Missing cert or key")
  post_pair a (some cert) (some key) s = store_pair a cert key s

  unfoldable pub tls_document : (Bytes → Option Document) → TlsAnswers → Body → Server S → Outcome S
  unfolding post_pair
  tls_document parse a absent s = bad_request s (codes "Failed to read body")
  tls_document parse a bad s = bad_request s (codes "Failed to read body")
  tls_document parse a (body bytes) s = elim (parse bytes) [
    | none ↦ bad_request s (codes "Invalid JSON")
    | some d ↦ post_pair a (d.string_at (codes "cert")) (d.string_at (codes "key")) s
  ]

  unfoldable pub tls_body : (Bytes → Option Document) → TlsAnswers → Request → Server S → Outcome S
  unfolding tls_document read_body
  tls_body parse a r s =
      if r.content_len == 0 || ltb 8192 r.content_len
      then bad_request s (codes "Invalid content length")
      else if not a.allocated
      then bad_request s (codes "Out of memory")
      else tls_document parse a (read_body r.content_len r.segments (r.content_len + 1)) s

  unfoldable pub handle_tls_upload :
      (Bytes → Option Document) → TlsAnswers → Request → Server S → Outcome S
  unfolding gated tls_body
  handle_tls_upload parse a r s = gated r s (tls_body parse a r)
