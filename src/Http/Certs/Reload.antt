-- ===== src/Http/Certs/Reload.antt =====
-- TLS certificates in main/web_server.c: what an upload stores, and what the next start reads.
use esp32_web_terminal.Prelude.{◌≤◌, ◌≡◌, true, Bytes, length}
use esp32_web_terminal.Config.Store.{Nvs}
use esp32_web_terminal.Http.{Server}
use esp32_web_terminal.Http.Certs.{max_cert_size, put_pair, BlobWrites, Tls, TlsAnswers, terminated}

abbrev all_taken : BlobWrites
all_taken = record { cert_taken = true; key_taken = true }

module _ {S : Type 0} (nvs : Nvs S) where
  module _ (tls : Tls) where
    -- What an accepted pair has passed.
    pub record Accepted (a : TlsAnswers) (cert key : Bytes) (s s' : Server S) : Type 0 where
      pub cert_parses : tls.cert_parses (terminated cert) ≡ true
      pub key_parses : tls.key_parses (terminated key) ≡ true
      pub matches : tls.matches (terminated cert) (terminated key) ≡ true
      pub key_fits : length (terminated key) ≤ max_cert_size
      pub stored : s'.certs ≡ put_pair nvs a.writes (terminated cert) (terminated key) s.certs
