-- ===== src/Http/Upload/Installs.antt =====
-- An upload of firmware in main/web_server.c that arrives whole is installed.
use esp32_web_terminal.Prelude.{
  ℕ, ◌+◌, ◌≤◌, ◌<◌, ◌≡◌, ap, Bool, true, false, some, List, [], ◌∷◌, ◌++◌, arith, Bytes, codes, leb,
  ◌==◌, length, take_all, map, All,
}
use esp32_web_terminal.Http.{
  Effect, ota_begin, ota_end, ota_set_boot, ota_write, restart, Server, json,
}
use esp32_web_terminal.Http.Upload.{Recv, chunk, chunk_size, ota_loop, OtaAnswers, ota_body}

-- httpd_req_recv gives these pieces, and the partition takes each.
abbrev pub pieces : List Bytes → List Recv
pieces = map (λ b. chunk b true)

abbrev pub total_length : List Bytes → ℕ
total_length [] = 0
total_length (b ∷ bs) = length b + total_length bs

abbrev pub IsPiece : Bytes → Type 0
IsPiece b = (0 < length b) × (length b ≤ chunk_size)

ota_loop_whole :
    (bs : List Bytes) (content_len total timeouts : ℕ)
    → All IsPiece bs
    → total + total_length bs ≡ content_len
    → ota_loop (pieces bs) content_len total timeouts ≡ (false, map ota_write bs)
unfolding ota_loop
ota_loop_whole [] content_len total timeouts all e =
    let enough : leb content_len total ≡ true = ground arith in rw (enough)
ota_loop_whole (b ∷ bs) content_len total timeouts all e =
    let more : leb content_len total ≡ false = ground arith in
    let some_bytes : (length b == 0) ≡ false = ground arith in
    rw (take_all chunk_size b all.0.1, more, some_bytes)
      (ap (λ (p : Bool × List Effect). (p.0, ota_write b ∷ p.1))
        (ota_loop_whole bs content_len (total + length b) 0 all.1 (omega arith)))

module _ {S : Type 0} (a : OtaAnswers) (bs : List Bytes) (s : Server S) (all : All IsPiece bs)
    (partition : a.partition ≡ true) (begins : a.begins ≡ true) (ends : a.ends ≡ true)
    (boots : a.boots ≡ true) where
  -- Where esp_ota_* succeed, firmware that arrives in pieces of 1 to 4096 bytes, each written as it
  -- arrives, is installed: the pieces are written in order, the boot partition is changed, the client
  -- is told so, and the device restarts.
  pub ota_body_installs :
      ota_body a (pieces bs) (total_length bs) s
      ≡ some (
        s,
        json (codes "{\"ok\":true,\"message\":\"Update complete, rebooting...\"}"),
        ota_begin ∷ (map ota_write bs ++ (ota_end ∷ ota_set_boot ∷ restart ∷ [])),
      )
  unfolding ota_body
  ota_body_installs =
      rw (ota_loop_whole bs (total_length bs) 0 0 all (omega arith), partition, begins, ends, boots)
