-- ===== src/Ws/Tests/Sockets.antt =====
-- The theorems on the WebSocket clients at concrete tables.
use esp32_web_terminal.Prelude.{ℕ, ◌≡◌, ◌≢◌, refl, Bool, true, none, List, [], ◌∷◌, arith, get_or}
use esp32_web_terminal.Prelude.Text.{str_eq}
use esp32_web_terminal.Auth.Sessions.Lookup.{find_session}
use esp32_web_terminal.Ws.Ring.Queue.{contents}
use esp32_web_terminal.Ws.Clients.{Client, blank_client, flush, revalidate}
use esp32_web_terminal.Ws.Clients.Access.{find_client, FdsDistinct}
use esp32_web_terminal.Ws.Clients.Delivery.{received}
use esp32_web_terminal.Ws.Clients.Flush.{Delivered, meant_for, checked, dropped, flush-Delivered}
use esp32_web_terminal.Ws.Clients.Revoked.{is_among, flush_revoked}
use esp32_web_terminal.Ws.Tests.{one_frame, clients, sessions}
use esp32_web_terminal.Ws.Tests.Frames.{one_frame-RingInv}

abbrev clock : ℕ → ℕ
clock i = 2

abbrev sends_work : ℕ → ℕ → Bool
sends_work n i = true

flush-Delivered_example :
    ((flush 2000000 clock sends_work one_frame clients sessions).0.closes
      ≡ dropped clients (revalidate 2000000 clock 0 clients sessions).clients)
    × Delivered
        (received 0 (flush 2000000 clock sends_work one_frame clients sessions).0.sends)
        (meant_for
          (checked 2000000 clock sends_work one_frame clients sessions one_frame-RingInv 0
            (omega arith))
          (contents one_frame))
        (get_or
          (flush 2000000 clock sends_work one_frame clients sessions).0.clients
          0
          blank_client)
flush-Delivered_example =
    flush-Delivered 2000000 clock sends_work one_frame clients sessions one_frame-RingInv 0
      (omega arith)

second_gone : find_session (51 ∷ []) sessions ≡ none
unfolding find_session str_eq
second_gone = refl

flush_revoked_example :
    (received 1 (flush 2000000 clock sends_work one_frame clients sessions).0.sends ≡ [])
    × (is_among 51 (flush 2000000 clock sends_work one_frame clients sessions).0.closes ≡ true)
flush_revoked_example =
    flush_revoked 2000000 clock sends_work one_frame clients sessions one_frame-RingInv 1
      (omega arith) refl second_gone

abbrev with_free_slot : List Client
with_free_slot = blank_client ∷ clients

new_socket : find_client 52 with_free_slot ≡ none
unfolding find_client
new_socket = refl

old_socket : ◌≢◌ {A = ℕ} 50 52
old_socket = ground arith

clients-FdsDistinct : FdsDistinct clients
unfolding find_client
clients-FdsDistinct = (λ a. refl, (λ a. refl, tt))

other_socket : ◌≢◌ {A = ℕ} 51 50
other_socket = ground arith
