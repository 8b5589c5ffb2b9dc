-- ===== src/Http/Tests/Transfers.antt =====
-- The theorems on bodies, uploads and certificates at concrete transfers.
use esp32_web_terminal.Prelude.{
  ◌≡◌, refl, true, some, List, [], ◌∷◌, Bytes, codes, arith, leb, length, take, if◌then◌else◌,
}
use esp32_web_terminal.Config.Tests.{Writes, writes}
use esp32_web_terminal.Http.{Server, json, ota_begin, ota_write, ota_end, ota_set_boot, restart}
use esp32_web_terminal.Http.Upload.Installs.{pieces, ota_body_installs}
use esp32_web_terminal.Http.Body.{read_body, body, bad, arrived, read_body-arrived}
use esp32_web_terminal.Http.Certs.{BlobWrites, Tls, TlsAnswers, put_pair, terminated}
use esp32_web_terminal.Http.Upload.{Recv, chunk, timeout, OtaAnswers, ota_body}
use esp32_web_terminal.Http.Upload.Complete.{Sound, ota_body-Sound}
use esp32_web_terminal.Http.Tests.{server}

abbrev segments : List Bytes
segments = codes "{\"po" ∷ codes "wer\":true}" ∷ []

read_body-arrived_example :
    read_body 14 segments 128
    ≡ (if leb 14 (length (arrived segments)) then body (take 14 (arrived segments)) else bad)
read_body-arrived_example = read_body-arrived 14 128 segments (omega arith) (omega arith)

-- The body arrives in two segments, and is read as one.
read_whole : read_body 14 segments 128 ≡ body (codes "{\"power\":true}")
unfolding read_body
read_whole = refl

abbrev all_work : OtaAnswers
all_work = record { partition = true; begins = true; ends = true; boots = true }

abbrev uploaded : List Recv
uploaded = chunk (codes "firm") true ∷ timeout ∷ chunk (codes "ware") true ∷ []

ota_body-Sound_example : Sound uploaded 8 (ota_body all_work uploaded 8 server)
ota_body-Sound_example = ota_body-Sound all_work uploaded 8 server

abbrev firmware : List Bytes
firmware = codes "firm" ∷ codes "ware" ∷ []

ota_body_installs_example :
    ota_body all_work (pieces firmware) 8 server
    ≡ some (
      server,
      json (codes "{\"ok\":true,\"message\":\"Update complete, rebooting...\"}"),
      ota_begin
          ∷ ota_write (codes "firm")
          ∷ ota_write (codes "ware")
          ∷ ota_end
          ∷ ota_set_boot
          ∷ restart
          ∷ [],
    )
ota_body_installs_example =
    ota_body_installs all_work firmware server
      ((omega arith, omega arith), ((omega arith, omega arith), tt)) refl refl refl refl

abbrev lenient : Tls
lenient = record { cert_parses = λ b. true; key_parses = λ b. true; matches = λ b c. true }

abbrev all_taken : BlobWrites
all_taken = record { cert_taken = true; key_taken = true }

abbrev works : TlsAnswers
works = record { allocated = true; opens = true; writes = all_taken; commits = true }

abbrev replaced : Server Writes
replaced = record server {
  certs =
      put_pair writes all_taken (terminated (codes "cert")) (terminated (codes "key")) server.certs;
}

abbrev updated : Bytes
updated = codes "{\"ok\":true,\"message\":\"TLS certs updated, reboot to apply\"}"
