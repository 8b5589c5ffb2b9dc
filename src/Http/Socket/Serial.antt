-- ===== src/Http/Socket/Serial.antt =====
-- Who reaches the serial ports through the WebSocket of main/web_server.c.
use esp32_web_terminal.Prelude.{
  ℕ, ◌≤◌, ◌≡◌, refl, subst, ◌⊎◌, inl, inr, Option, some, List, [], ◌∷◌, arith, Bytes, ltb, ◌==◌,
  length, map, Bool-cases, Option-cases,
}
use esp32_web_terminal.Ws.Clients.{touch_client}
use esp32_web_terminal.Ws.Clients.Access.{find_client, answer, touch_client-answer}
use esp32_web_terminal.Http.{Server, Effect, serial_send, close_socket}
use esp32_web_terminal.Http.Socket.{
  FrameKind, text, binary, close, other, Incoming, max_frame, take_frame, read_frame, data_frame,
}

-- The bytes that effects send to serial ports.
unfoldable pub sent : List Effect → List (ℕ × Bytes)
sent [] = []
sent (serial_send p b ∷ es) = (p, b) ∷ sent es
sent (e ∷ es) = sent es

-- Nothing is sent, or the payload of the frame to one port.
abbrev pub SentTo : Option ℕ → Incoming → List (ℕ × Bytes) → Type 0
SentTo port f out =
    (out ≡ [])
    ⊎ ((p : ℕ) × (port ≡ some p) × (out ≡ (p, f.payload) ∷ []) × (length f.payload ≤ max_frame))

take_frame-SentTo :
    {S : Type 0} (fd p : ℕ) (f : Incoming) (kind : FrameKind) (s : Server S)
    → length f.payload ≤ max_frame
    → SentTo (some p) f (sent (take_frame fd p kind f.payload s).2)
unfolding take_frame sent
take_frame-SentTo fd p f text s h = inr (p, refl, refl, h)
take_frame-SentTo fd p f binary s h = inr (p, refl, refl, h)
take_frame-SentTo fd p f close s h = inl refl
take_frame-SentTo fd p f other s h = inl refl

read_frame-SentTo :
    {S : Type 0} (fd p : ℕ) (f : Incoming) (s : Server S)
    → SentTo (some p) f (sent (read_frame fd p f s).2)
unfolding read_frame
read_frame-SentTo fd p f s = elim (Bool-cases f.header_read) [
  | inr unread ↦ rw (unread) (inl (unfold sent in refl))
  | inl header ↦ elim (Bool-cases (length f.payload == 0)) [
    | inl empty ↦ rw (header, empty) (inl (unfold sent in refl))
    | inr some_bytes ↦ elim (Bool-cases (ltb max_frame (length f.payload))) [
      | inl long ↦ rw (header, some_bytes, long) (inl (unfold sent in refl))
      | inr fits ↦ elim (Bool-cases f.allocated) [
        | inr no_memory ↦ rw (header, some_bytes, fits, no_memory) (inl (unfold sent in refl))
        | inl allocated ↦ elim (Bool-cases f.payload_read) [
          | inr cut ↦ rw (header, some_bytes, fits, allocated, cut) (inl (unfold sent in refl))
          | inl whole ↦
              rw (header, some_bytes, fits, allocated, whole)
                (take_frame-SentTo fd p f f.kind s (ground (arith, fits)))
        ]
      ]
    ]
  ]
]

sent-close : (fds : List ℕ) → sent (map close_socket fds) ≡ []
unfolding sent
sent-close [] = refl
sent-close (fd ∷ fds) = sent-close fds

-- A data frame reaches a serial port only as a whole, of at most 8192 bytes, and only the port of the
-- client that was registered for its socket, if the session of that client is accepted then.
pub data_frame-SentTo :
    {S : Type 0} (now fd : ℕ) (f : Incoming) (s : Server S)
    → SentTo
        (answer now (find_client fd s.clients) s.auth.sessions)
        f
        (sent (data_frame now fd f s).2)
unfolding data_frame
data_frame-SentTo now fd f s =
    let port = (touch_client-answer now fd s.clients s.auth.sessions).0 in
    subst (λ o. SentTo o f (sent (data_frame now fd f s).2)) port
      (elim (Option-cases (touch_client now fd s.clients s.auth.sessions).0) [
        | inl e ↦ rw (e, data_frame) (inl (sent-close _))
        | inr (p, e) ↦ rw (e, data_frame) (read_frame-SentTo fd p f _)
      ])
