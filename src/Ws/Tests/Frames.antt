-- ===== src/Ws/Tests/Frames.antt =====
-- The theorems on the ring at concrete rings.
use esp32_web_terminal.Prelude.{◌+◌, ◌≡◌, ◌≢◌, refl, ◌⊎◌, true, false, [], arith, Bytes, replicate}
use esp32_web_terminal.Ws.Ring.{port, empty_ring, push, enqueue}
use esp32_web_terminal.Ws.Ring.Queue.{contents, RingInv}
use esp32_web_terminal.Ws.Ring.Refine.{push-RingInv, empty_ring-RingInv}
use esp32_web_terminal.Ws.Ring.Chunks.{Enqueued}
use esp32_web_terminal.Ws.Ring.Stream.{enqueue-Enqueued}
use esp32_web_terminal.Ws.Wakeup.{World, booted, after_push, Reached, boots, steps, pushes}
use esp32_web_terminal.Ws.Wakeup.Reach.{no_lost_wake_up}
use esp32_web_terminal.Ws.Tests.{hello, one_frame}

pub one_frame-RingInv : RingInv one_frame
one_frame-RingInv = push-RingInv (port 1) hello empty_ring empty_ring-RingInv (omega arith)

abbrev paste : Bytes
paste = replicate 300 97

enqueue-Enqueued_example :
    Enqueued (port 0) paste one_frame (enqueue true (λ n. true) (port 0) paste one_frame)
enqueue-Enqueued_example = enqueue-Enqueued (λ n. true) (port 0) paste one_frame one_frame-RingInv

abbrev one_pushed : World
one_pushed = after_push (port 1) hello booted

one_pushed-Reached : Reached one_pushed
one_pushed-Reached = steps boots (pushes (port 1) hello (omega arith))

one_waits : contents one_pushed.ring ≢ []
unfolding after_push push
one_waits e = ground arith

not_stranded : one_pushed.stranded ≡ false
unfolding after_push push
not_stranded = refl

no_lost_wake_up_example :
    (one_pushed.posting + one_pushed.failed + one_pushed.queued ≡ 1) ⊎ (one_pushed.flushing ≡ true)
no_lost_wake_up_example = no_lost_wake_up one_pushed one_pushed-Reached one_waits not_stranded
