-- ===== src/Start/Receive.antt =====
-- From the UART to the queue of the WebSocket clients: uart_rx_task (main/uart_bridge.c), the
-- callback of main/main.c, ws_enqueue and the task of the HTTP server (main/web_server.c) together
-- are a queue of at most 32 frames.
use esp32_web_terminal.Prelude.{
  ℕ, ◌+◌, ◌%◌, ◌<◌, ◌≡◌, refl, sym, ap, ◌∙◌, inl, inr, Bool, true, false, Option, none, some, List,
  [], ◌∷◌, ◌++◌, arith, Bytes, ltb, leb, ◌==◌, length, length-take, take, if◌then◌else◌, Bool-cases,
}
use esp32_web_terminal.Uart.{rx_chunk, uart_rx_round}
use esp32_web_terminal.Ws.Ring.{tx_slots, u32_mod, port, Frame, Ring, pop}
use esp32_web_terminal.Ws.Ring.Queue.{contents, RingInv}
use esp32_web_terminal.Ws.Ring.Refine.{pop_empty, pop_first, pop-RingInv}
use esp32_web_terminal.Ws.Ring.Stream.{Single, enqueue_chunk}
use esp32_web_terminal.Start.{rx_callback, serial_to_ws_callback}

-- What happens to the ring of a running server: a round of uart_rx_task, with what it reads and
-- whether httpd_queue_work takes a wake-up, or the HTTP task takes a frame.
pub data Turn : Type 0 where
  reads : Bytes → Bool → Turn
  takes : Turn

abbrev cons_some : Option Frame → List Frame → List Frame
cons_some none fs = fs
cons_some (some f) fs = f ∷ fs

-- The frames that the HTTP task takes, and the ring that is left.
unfoldable pub traffic : ℕ → List Turn → Ring → List Frame × Ring
traffic i [] r = ([], r)
traffic i (reads bytes queued ∷ es) r =
    traffic i es (uart_rx_round (rx_callback true (λ n. queued)) i bytes r)
traffic i (takes ∷ es) r = let rest = traffic i es (pop r).1 in (cons_some (pop r).0 rest.0, rest.1)

-- The abstract queue: the frames taken, the frames that wait, and how many reads were lost.
pub record Queue : Type 0 where
  pub taken : List Frame
  pub waiting : List Frame
  pub lost : ℕ

-- A read of some bytes joins the queue as one frame, or is lost if 32 frames wait.
unfoldable pub queue_traffic : ℕ → List Turn → List Frame → Queue
queue_traffic i [] q = record { taken = []; waiting = q; lost = 0 }
queue_traffic i (reads bytes queued ∷ es) q =
    let got = take 256 bytes in
    let joined = queue_traffic i es (q ++ (record { target = port i; payload = got } ∷ [])) in
    let passed = queue_traffic i es q in
    if length got == 0
    then passed
    else if leb 32 (length q)
    then record passed { lost = passed.lost + 1 }
    else joined
queue_traffic i (takes ∷ es) [] = queue_traffic i es []
queue_traffic i (takes ∷ es) (f ∷ q) =
    let rest = queue_traffic i es q in record rest { taken = f ∷ rest.taken }

-- The ring's view of a run: the same frames, and as many drops, counted modulo 2^32.
pub record Implements (q : Queue) (r : Ring) (out : List Frame × Ring) : Type 0 where
  pub same_taken : out.0 ≡ q.taken
  pub same_waiting : contents out.1 ≡ q.waiting
  pub drops_counted : out.1.dropped % u32_mod ≡ (r.dropped + q.lost) % u32_mod
  pub inv : RingInv out.1

-- One round of uart_rx_task on the ring.
round_queue :
    (i : ℕ) (bytes : Bytes) (queued : Bool) (r : Ring)
    → RingInv r
    → 0 < length (take rx_chunk bytes)
    → Single
        (port i)
        (take rx_chunk bytes)
        r
        (uart_rx_round (rx_callback true (λ n. queued)) i bytes r)
unfolding uart_rx_round serial_to_ws_callback
round_queue i bytes queued r v some_bytes =
    let nonempty : ltb 0 (length (take rx_chunk bytes)) ≡ true = ground arith in
    rw (nonempty) (
      enqueue_chunk (λ n. queued) (port i) (take rx_chunk bytes) r v some_bytes
        (omega (arith, length-take {0} rx_chunk bytes)))

round_none :
    (i : ℕ) (bytes : Bytes) (queued : Bool) (r : Ring)
    → (length (take rx_chunk bytes) == 0) ≡ true
    → uart_rx_round (rx_callback true (λ n. queued)) i bytes r ≡ r
unfolding uart_rx_round
round_none i bytes queued r none_read =
    let empty : ltb 0 (length (take rx_chunk bytes)) ≡ false = ground arith in rw (empty)

count_drop :
    (dropped lost dropped' : ℕ) (out : ℕ)
    → dropped' ≡ (dropped + 1) % u32_mod
    → out % u32_mod ≡ (dropped' + lost) % u32_mod
    → out % u32_mod ≡ (dropped + (lost + 1)) % u32_mod
count_drop dropped lost dropped' out e h = omega arith

dropped-pop : (r : Ring) → (pop r).1.dropped ≡ r.dropped
unfolding pop
dropped-pop r = ground arith

same_drops :
    (q : Queue) (r r' : Ring) (out : List Frame × Ring)
    → r'.dropped ≡ r.dropped
    → Implements q r' out
    → Implements q r out
same_drops q r r' out d h = record {
  same_taken = h.same_taken;
  same_waiting = h.same_waiting;
  drops_counted = h.drops_counted ∙ ap (λ n. (n + q.lost) % u32_mod) d;
  inv = h.inv;
}

simulated :
    (i : ℕ) (es : List Turn) (r : Ring) (q : List Frame)
    → RingInv r
    → contents r ≡ q
    → Implements (queue_traffic i es q) r (traffic i es r)
unfolding traffic queue_traffic
simulated i [] r q v e = record {
  same_taken = refl;
  same_waiting = e;
  drops_counted = omega arith;
  inv = v;
}
simulated i (reads bytes queued ∷ es) r q v e =
    elim (Bool-cases (length (take rx_chunk bytes) == 0)) [
      | inl none_read ↦
          rw (none_read, round_none i bytes queued r none_read) (simulated i es r q v e)
      | inr some_read ↦
          let single = round_queue i bytes queued r v (ground arith) in
          let r' = uart_rx_round (rx_callback true (λ n. queued)) i bytes r in
          elim single.outcome [
            | inl (full, c, d) ↦
                let ih = simulated i es r' q single.inv (c ∙ e) in
                rw (some_read, (ap (λ w. leb tx_slots (length w)) (sym e) ∙ full))
                  (record {
                    same_taken = ih.same_taken;
                    same_waiting = ih.same_waiting;
                    drops_counted = count_drop _ _ _ _ d ih.drops_counted;
                    inv = ih.inv;
                  })
            | inr (free, c, d) ↦
                let ih = simulated i es r' _ single.inv (
                  c
                  ∙ ap (λ w. w ++ (record { target = port i; payload = take rx_chunk bytes } ∷ []))
                      e) in
                rw (some_read, (ap (λ w. leb tx_slots (length w)) (sym e) ∙ free))
                  (same_drops _ r r' _ d ih)
          ]
    ]
simulated i (takes ∷ es) r [] v e =
    let p = pop_empty r v e in
    let ih = simulated i es (pop r).1 [] (pop-RingInv r v) p.1 in
    rw (p.0) (same_drops _ r (pop r).1 _ (dropped-pop r) ih)
simulated i (takes ∷ es) r (f ∷ q) v e =
    let p = pop_first r f q v e in
    let ih =
      same_drops _ r (pop r).1 _ (dropped-pop r)
        (simulated i es (pop r).1 q (pop-RingInv r v) p.1) in
    rw (p.0) (record {
      same_taken = ap (◌∷◌ f) ih.same_taken;
      same_waiting = ih.same_waiting;
      drops_counted = ih.drops_counted;
      inv = ih.inv;
    })

-- For a running server and a ring that fulfils RingInv: however the rounds of uart_rx_task and the
-- HTTP task's taking of frames interleave, together they are a queue of 32 frames: each read is one
-- frame for the port, taken in order and unchanged, unless 32 frames wait, and the reads that are
-- lost are counted modulo 2^32.
pub traffic-Implements :
    (i : ℕ) (es : List Turn) (r : Ring)
    → RingInv r
    → Implements (queue_traffic i es (contents r)) r (traffic i es r)
traffic-Implements i es r v = simulated i es r (contents r) v refl
