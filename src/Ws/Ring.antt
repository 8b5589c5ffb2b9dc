-- ===== src/Ws/Ring.antt =====
-- main/web_server.c: the serial-to-WebSocket ring (ws_tx_slot_t, ws_enqueue, and the part of
-- ws_flush_work that takes a slot). Each function below is one critical section of the source.
pub mod Queue
pub mod Refine
pub mod Chunks
pub mod Stream
use esp32_web_terminal.Prelude.{
  ℕ, zero, suc, ◌+◌, ◌-◌, ◌%◌, ◌^◌, Bool, true, false, not, Option, none, some, List, [], ◌∷◌, ◌++◌,
  Bytes, ltb, leb, ◌==◌, if◌then◌else◌, length, get_or, set, take, drop, replicate, ◌&&◌, min,
}

abbrev pub tx_slots : ℕ
tx_slots = 32

abbrev pub slot_max : ℕ
slot_max = 256

-- uint32_t arithmetic.
abbrev pub u32_mod : ℕ
u32_mod = 2 ^ 32

-- `port` of a slot: -1 is a text event, which goes to every client. Port numbers are small, so the
-- casts to int16_t keep them.
pub data Target : Type 0 where
  text_event : Target
  port : ℕ → Target

-- ws_tx_slot_t; `data` is the whole buffer, of which `len` bytes count.
pub record Slot : Type 0 where
  pub len : ℕ
  pub target : Target
  pub buffer : Bytes

abbrev pub blank_slot : Slot
blank_slot = record { len = 0; target = port 0; buffer = replicate slot_max 0 }

pub record Ring : Type 0 where
  pub slots : List Slot
  pub head : ℕ
  pub tail : ℕ
  pub kick_pending : Bool
  pub dropped : ℕ

abbrev pub empty_ring : Ring
empty_ring = record {
  slots = replicate tx_slots blank_slot;
  head = 0;
  tail = 0;
  kick_pending = false;
  dropped = 0;
}

-- `s_tx_head - s_tx_tail`
abbrev pub used : Ring → ℕ
used r = (r.head + u32_mod - r.tail) % u32_mod

-- memcpy over the front of a buffer.
abbrev pub memcpy : Bytes → Bytes → Bytes
memcpy dst src = src ++ drop (length src) dst

-- What a frame carries: whom it is for, and its bytes.
pub record Frame : Type 0 where
  pub target : Target
  pub payload : Bytes

abbrev pub next_index : ℕ → ℕ
next_index i = (i + 1) % u32_mod

-- How a chunk fares: dropped, or stored, and then whether a wake-up has to be posted.
pub data Stored : Type 0 where
  ring_full : Stored
  stored : Bool → Stored

-- The first critical section of ws_enqueue. `(uint16_t)chunk` keeps a length of at most a slot.
unfoldable pub push : Target → Bytes → Ring → Stored × Ring
push target chunk r =
    if leb tx_slots (used r)
    then (ring_full, record r { dropped = (r.dropped + 1) % u32_mod })
    else (
      stored (not r.kick_pending),
      record r {
        slots = set r.slots (r.head % tx_slots) (record {
          len = length chunk;
          target = target;
          buffer = memcpy (get_or r.slots (r.head % tx_slots) blank_slot).buffer chunk;
        });
        head = next_index r.head;
        kick_pending = true;
      },
    )

-- The second one: httpd_queue_work failed, so nobody will flush.
abbrev pub unkick : Ring → Ring
unkick r = record r { kick_pending = false }

-- `kick && httpd_queue_work(…) != ESP_OK`, with what httpd_queue_work answers if it is called.
abbrev pub post_wake_up : Bool → Bool → Ring → Ring
post_wake_up kick queued r = if kick && not queued then unkick r else r

-- The critical section of ws_flush_work that takes a slot.
unfoldable pub pop : Ring → Option Frame × Ring
pop r =
    if r.head == r.tail
    then (none, r)
    else let slot = get_or r.slots (r.tail % tx_slots) blank_slot in
      (
        some (record { target = slot.target; payload = take slot.len slot.buffer }),
        record r { tail = next_index r.tail },
      )

-- The loop of ws_enqueue over the bytes left, at most one round for each byte; httpd_queue_work
-- answers `queued n` in round `n`.
unfoldable pub enqueue_loop : ℕ → (ℕ → Bool) → Target → Bytes → Ring → Ring
unfolding push
enqueue_loop zero queued target bytes r = r
enqueue_loop (suc fuel) queued target bytes r = elim (length bytes == 0) [
  | true ↦ r
  | false ↦
      let (outcome, r') = push target (take slot_max bytes) r in
      elim outcome [
        | ring_full ↦ r'
        | stored kick ↦
            enqueue_loop fuel (λ n. queued (suc n)) target (drop slot_max bytes)
              (post_wake_up kick (queued 0) r')
      ]
]

-- ws_enqueue, and with it web_server_ws_broadcast and web_server_ws_broadcast_text: nothing is
-- stored before the server runs.
unfoldable pub enqueue : Bool → (ℕ → Bool) → Target → Bytes → Ring → Ring
unfolding enqueue_loop
enqueue server_running queued target bytes r =
    if server_running then enqueue_loop (length bytes) queued target bytes r else r
