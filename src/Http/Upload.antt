-- ===== src/Http/Upload.antt =====
-- main/web_server.c: handle_ota, the upload of a firmware.
pub mod Loop
pub mod Installs
pub mod Complete
use esp32_web_terminal.Prelude.{
  ℕ, suc, ◌+◌, Bool, true, false, not, Option, none, some, List, [], ◌∷◌, ◌++◌, Bytes, codes, ltb,
  leb, ◌==◌, if◌then◌else◌, length, take,
}
use esp32_web_terminal.Http.{
  Server, Effect, ota_begin, ota_abort, ota_end, ota_set_boot, ota_write, restart, json, error,
  Request, Outcome, gated, bad_request,
}

-- What httpd_req_recv gives: bytes, with what esp_ota_write then answers; a timeout; or an error.
pub data Recv : Type 0 where
  chunk : Bytes → Bool → Recv
  timeout recv_error : Recv

abbrev pub chunk_size : ℕ
chunk_size = 4096

abbrev pub max_timeouts : ℕ
max_timeouts = 5

-- The loop: whether it failed, and the writes. When the answers end, the connection has failed.
unfoldable pub ota_loop : List Recv → ℕ → ℕ → ℕ → Bool × List Effect
ota_loop [] content_len total_read timeouts = (not (leb content_len total_read), [])
ota_loop (chunk bytes written ∷ rs) content_len total_read timeouts =
    let got = take chunk_size bytes in
    let rest = ota_loop rs content_len (total_read + length got) 0 in
    if leb content_len total_read
    then (false, [])
    else if length got == 0
    then (true, [])
    else if written
    then (rest.0, ota_write got ∷ rest.1)
    else (true, ota_write got ∷ [])
ota_loop (timeout ∷ rs) content_len total_read timeouts =
    let rest = ota_loop rs content_len total_read (timeouts + 1) in
    if leb content_len total_read
    then (false, [])
    else if ltb (timeouts + 1) max_timeouts
    then rest
    else (true, [])
ota_loop (recv_error ∷ rs) content_len total_read timeouts = (not (leb content_len total_read), [])

-- What esp_ota_* answer: a partition, and whether the begin, the end and the boot partition work.
pub record OtaAnswers : Type 0 where
  pub partition : Bool
  pub begins : Bool
  pub ends : Bool
  pub boots : Bool

unfoldable pub ota_body : {S : Type 0} → OtaAnswers → List Recv → ℕ → Server S → Outcome S
unfolding ota_loop
ota_body a rs content_len s =
    let (failed, writes) = ota_loop rs content_len 0 0 in
    if not a.partition
    then bad_request s (codes "No OTA partition available")
    else if not a.begins
    then some (s, error 400 (codes "OTA begin failed"), ota_begin ∷ [])
    else if failed
    then some (s, error 400 (codes "OTA write failed"), ota_begin ∷ (writes ++ (ota_abort ∷ [])))
    else if not a.ends
    then some (s, error 400 (codes "OTA validation failed"), ota_begin ∷ (writes ++ (ota_end ∷ [])))
    else if not a.boots
    then some (
      s,
      error 400 (codes "Failed to set boot partition"),
      ota_begin ∷ (writes ++ (ota_end ∷ ota_set_boot ∷ [])),
    )
    else some (
      s,
      json (codes "{\"ok\":true,\"message\":\"Update complete, rebooting...\"}"),
      ota_begin ∷ (writes ++ (ota_end ∷ ota_set_boot ∷ restart ∷ [])),
    )

unfoldable pub handle_ota : {S : Type 0} → OtaAnswers → List Recv → Request → Server S → Outcome S
unfolding gated ota_body
handle_ota a rs r s = gated r s (ota_body a rs r.content_len)
