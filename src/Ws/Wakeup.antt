-- ===== src/Ws/Wakeup.antt =====
-- main/web_server.c: the producers of ws_enqueue on their tasks and ws_flush_work on the httpd
-- task, interleaved one critical section or call at a time.
pub mod Reach
use esp32_web_terminal.Prelude.{
  ℕ, suc, ◌+◌, ◌-◌, ◌≤◌, ◌<◌, ◌≡◌, Bool, true, false, Option, none, some, List, [], ◌∷◌, ◌++◌,
  Bytes, length,
}
use esp32_web_terminal.Ws.Ring.{
  slot_max, Target, Frame, Ring, empty_ring, Stored, ring_full, stored, push, pop, unkick,
}

-- The ring, and where the tasks stand: `posting` producers are about to call httpd_queue_work,
-- `failed` ones have seen it fail and are about to clear the flag, httpd has `queued` work items
-- and may be inside one. The last three fields record history: whether a wake-up failed after the
-- last one begun, the frames stored so far, and those taken.
pub record World : Type 0 where
  pub ring : Ring
  pub posting : ℕ
  pub failed : ℕ
  pub queued : ℕ
  pub flushing : Bool
  pub stranded : Bool
  pub stored_frames : List Frame
  pub taken_frames : List Frame

abbrev pub booted : World
booted = record {
  ring = empty_ring;
  posting = 0;
  failed = 0;
  queued = 0;
  flushing = false;
  stranded = false;
  stored_frames = [];
  taken_frames = [];
}

-- A producer passes the first critical section of ws_enqueue.
unfoldable pub after_push : Target → Bytes → World → World
unfolding push
after_push target chunk w =
    let (outcome, ring) = push target chunk w.ring in
    let all = w.stored_frames ++ (record { target = target; payload = chunk } ∷ []) in
    elim outcome [
      | ring_full ↦ record w { ring = ring }
      | stored true ↦ record w {
        ring = ring;
        posting = suc w.posting;
        stranded = false;
        stored_frames = all;
      }
      | stored false ↦ record w { ring = ring; stored_frames = all }
    ]

-- httpd_queue_work succeeds, or fails, for one of the producers.
abbrev pub after_post : World → World
after_post w = record w { posting = w.posting - 1; queued = suc w.queued }

abbrev pub after_post_failure : World → World
after_post_failure w = record w { posting = w.posting - 1; failed = suc w.failed }

-- The second critical section of ws_enqueue.
abbrev pub after_unkick : World → World
after_unkick w = record w { ring = unkick w.ring; failed = w.failed - 1; stranded = true }

-- ws_flush_work begins: it clears the flag.
abbrev pub after_start : World → World
after_start w = record w { ring = unkick w.ring; queued = w.queued - 1; flushing = true }

-- One round of the loop of ws_flush_work: it takes a frame, or ends.
unfoldable pub after_round : World → World
unfolding pop
after_round w =
    let (front, ring) = pop w.ring in
    elim front [
      | none ↦ record w { ring = ring; flushing = false }
      | some f ↦ record w { ring = ring; taken_frames = w.taken_frames ++ (f ∷ []) }
    ]

pub data Step (w : World) : World → Type 0 where
  pushes :
      (target : Target)
      → (chunk : Bytes) → length chunk ≤ slot_max
      → Step w (after_push target chunk w)
  posts : 0 < w.posting → Step w (after_post w)
  post_fails : 0 < w.posting → Step w (after_post_failure w)
  unkicks : 0 < w.failed → Step w (after_unkick w)
  starts : 0 < w.queued → w.flushing ≡ false → Step w (after_start w)
  rounds : w.flushing ≡ true → Step w (after_round w)

-- What any interleaving reaches.
pub data Reached : World → Type 0 where
  boots : Reached booted
  steps : {w w' : World} → Reached w → Step w w' → Reached w'
