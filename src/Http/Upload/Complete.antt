-- ===== src/Http/Upload/Complete.antt =====
-- An upload of firmware in main/web_server.c: the boot partition is changed only for a complete one.
use esp32_web_terminal.Prelude.{
  ℕ, ◌≤◌, ◌≡◌, refl, sym, ap, ◌∙◌, ◌⊎◌, inl, inr, Bool, true, false, none, some, List, [], ◌∷◌,
  ◌++◌, arith, length, Bool-cases, All,
}
use mathlib.Core.List.{append_assoc, append-nil}
use esp32_web_terminal.Http.{
  Effect, pin, wifi_call, serial_send, serial_baud, close_socket, set_timezone, check_release,
  apply_release, set_cookie, ota_begin, ota_abort, ota_end, ota_set_boot, ota_write, restart,
  Server, Outcome,
}
use esp32_web_terminal.Http.Upload.{Recv, ota_loop, OtaAnswers, ota_body}
use esp32_web_terminal.Http.Upload.Loop.{
  written, received, Begins, ota_loop-Begins, ota_loop_complete, IsWrite, ota_loop-writes,
}

-- Whether the boot partition is changed.
unfoldable pub boots : List Effect → Bool
boots [] = false
boots (ota_set_boot ∷ es) = true
boots (e ∷ es) = boots es

boots-writes : (ws es : List Effect) → All IsWrite ws → boots (ws ++ es) ≡ boots es
unfolding boots
boots-writes [] es a = refl
boots-writes (ota_write b ∷ ws) es a = boots-writes ws es a.1
boots-writes (pin c ∷ ws) es a = absurd a.0
boots-writes (wifi_call c ∷ ws) es a = absurd a.0
boots-writes (serial_send i b ∷ ws) es a = absurd a.0
boots-writes (serial_baud i r ∷ ws) es a = absurd a.0
boots-writes (close_socket fd ∷ ws) es a = absurd a.0
boots-writes (set_timezone b ∷ ws) es a = absurd a.0
boots-writes (ota_begin ∷ ws) es a = absurd a.0
boots-writes (ota_abort ∷ ws) es a = absurd a.0
boots-writes (ota_end ∷ ws) es a = absurd a.0
boots-writes (ota_set_boot ∷ ws) es a = absurd a.0
boots-writes (restart ∷ ws) es a = absurd a.0
boots-writes (check_release ∷ ws) es a = absurd a.0
boots-writes (apply_release b ∷ ws) es a = absurd a.0
boots-writes (set_cookie b ∷ ws) es a = absurd a.0

written-writes :
    (ws es : List Effect) → All IsWrite ws → written (ws ++ es) ≡ written ws ++ written es
unfolding written
written-writes [] es a = refl
written-writes (ota_write b ∷ ws) es a =
    ap (◌++◌ b) (written-writes ws es a.1) ∙ sym (append_assoc b (written ws) (written es))
written-writes (pin c ∷ ws) es a = absurd a.0
written-writes (wifi_call c ∷ ws) es a = absurd a.0
written-writes (serial_send i b ∷ ws) es a = absurd a.0
written-writes (serial_baud i r ∷ ws) es a = absurd a.0
written-writes (close_socket fd ∷ ws) es a = absurd a.0
written-writes (set_timezone b ∷ ws) es a = absurd a.0
written-writes (ota_begin ∷ ws) es a = absurd a.0
written-writes (ota_abort ∷ ws) es a = absurd a.0
written-writes (ota_end ∷ ws) es a = absurd a.0
written-writes (ota_set_boot ∷ ws) es a = absurd a.0
written-writes (restart ∷ ws) es a = absurd a.0
written-writes (check_release ∷ ws) es a = absurd a.0
written-writes (apply_release b ∷ ws) es a = absurd a.0
written-writes (set_cookie b ∷ ws) es a = absurd a.0

-- The boot partition stays, or the whole firmware was written: as much as was announced, and
-- nothing but what was received, in order.
abbrev pub Sound : {S : Type 0} → List Recv → ℕ → Outcome S → Type 0
Sound rs content_len none = Unit {0}
Sound rs content_len (some (s, resp, es)) =
    (boots es ≡ false) ⊎ ((content_len ≤ length (written es)) × Begins (written es) (received rs))

-- A tail without writes, behind the writes of a loop that succeeded.
Sound-whole :
    (rs : List Recv) (content_len : ℕ) (tail : List Effect)
    → written tail ≡ []
    → (ota_loop rs content_len 0 0).0 ≡ false
    → (content_len ≤ length (written (ota_begin ∷ ((ota_loop rs content_len 0 0).1 ++ tail))))
      × Begins (written (ota_begin ∷ ((ota_loop rs content_len 0 0).1 ++ tail))) (received rs)
unfolding written
Sound-whole rs content_len tail none_more done =
    let ws = (ota_loop rs content_len 0 0).1 in
    let same : written (ws ++ tail) ≡ written ws =
      written-writes ws tail (ota_loop-writes rs content_len 0 0)
      ∙ ap (◌++◌ (written ws)) none_more
      ∙ append-nil (written ws) in
    rw (same)
      (omega (arith, ota_loop_complete rs content_len 0 0 done), ota_loop-Begins rs content_len 0 0)

-- Whatever the client sends and esp_ota_* answer, an upload changes the boot partition only after
-- all bytes announced were written, and what is written is what was received, in order.
pub ota_body-Sound :
    {S : Type 0} (a : OtaAnswers) (rs : List Recv) (content_len : ℕ) (s : Server S)
    → Sound rs content_len (ota_body a rs content_len s)
unfolding ota_body boots
ota_body-Sound a rs content_len s =
    let kept = boots-writes (ota_loop rs content_len 0 0).1 in
    let only = ota_loop-writes rs content_len 0 0 in
    elim (Bool-cases a.partition) [
      | inr no_partition ↦ rw (no_partition) (inl refl)
      | inl partition ↦ elim (Bool-cases a.begins) [
        | inr no_begin ↦ rw (partition, no_begin) (inl refl)
        | inl begins ↦ elim (Bool-cases (ota_loop rs content_len 0 0).0) [
          | inl failed ↦ rw (partition, begins, failed) (inl (kept (ota_abort ∷ []) only))
          | inr whole ↦ elim (Bool-cases a.ends) [
            | inr no_end ↦ rw (partition, begins, whole, no_end) (inl (kept (ota_end ∷ []) only))
            | inl ends ↦ elim (Bool-cases a.boots) [
              | inr no_boot ↦
                  rw (partition, begins, whole, ends, no_boot)
                    (inr (
                      Sound-whole rs content_len (ota_end ∷ ota_set_boot ∷ [])
                        (unfold written in refl) whole))
              | inl boot ↦
                  rw (partition, begins, whole, ends, boot)
                    (inr (
                      Sound-whole rs content_len (ota_end ∷ ota_set_boot ∷ restart ∷ [])
                        (unfold written in refl) whole))
            ]
          ]
        ]
      ]
    ]
