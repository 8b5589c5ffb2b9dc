-- ===== src/Ws/Ring/Stream.antt =====
-- ws_enqueue keeps the stream: the loop stores a prefix of the bytes, in order, and loses bytes
-- only to a full ring.
use esp32_web_terminal.Prelude.{
  ℕ, zero, suc, ◌+◌, ◌-◌, ◌*◌, ◌%◌, ◌≤◌, ◌<◌, ◌≡◌, refl, sym, ap, ◌∙◌, ◌⊎◌, inl, inr, Bool, true,
  false, leb, take_all, List, [], ◌∷◌, ◌++◌, arith, Bytes, ◌==◌, length, length-append, length-drop,
  take, drop, not,
}
use mathlib.Core.List.{append-nil, append_assoc}
use esp32_web_terminal.Ws.Ring.{
  tx_slots, slot_max, u32_mod, Target, Frame, Ring, used, ring_full, stored, push, post_wake_up,
  enqueue_loop, enqueue,
}
use esp32_web_terminal.Ws.Ring.Queue.{contents, RingInv, length-contents}
use esp32_web_terminal.Ws.Ring.Refine.{push-RingInv, post_wake_up-RingInv, contents-post_wake_up}
use esp32_web_terminal.Ws.Ring.Chunks.{
  stream, Enqueued, nothing_left, push-cases, chunk_le, all_lost, one_more, length-nil,
}

loop_empty :
    (fuel : ℕ) (queued : ℕ → Bool) (target : Target) (r : Ring)
    → enqueue_loop fuel queued target [] r ≡ r
unfolding enqueue_loop
loop_empty zero queued target r = refl
loop_empty (suc fuel) queued target r = refl

module _ (fuel : ℕ) (queued : ℕ → Bool) (target : Target) (bytes : Bytes) (r : Ring)
    (some_left : 0 < length bytes) where
  go_on : (length bytes == 0) ≡ false
  go_on = ground arith

  loop_full :
      (r' : Ring)
      → push target (take slot_max bytes) r ≡ (ring_full, r')
      → enqueue_loop (suc fuel) queued target bytes r ≡ r'
  unfolding enqueue_loop
  loop_full r' e =
      let outcome : (push target (take slot_max bytes) r).0 ≡ ring_full = ap (λ p. p.0) e in
      rw (go_on, outcome, enqueue_loop) (ap (λ p. p.1) e)

  loop_stored :
      (kick : Bool)
      → (push target (take slot_max bytes) r).0 ≡ stored kick
      → enqueue_loop (suc fuel) queued target bytes r
        ≡ enqueue_loop fuel
            (λ n. queued (suc n))
            target
            (drop slot_max bytes)
            (post_wake_up kick (queued 0) (push target (take slot_max bytes) r).1)
  unfolding enqueue_loop
  loop_stored kick e = rw (go_on, e, enqueue_loop)

dropped-post_wake_up :
    (kick queued : Bool) (r : Ring) → (post_wake_up kick queued r).dropped ≡ r.dropped
dropped-post_wake_up kick queued r = ground arith

enqueue_loop-Enqueued :
    (fuel : ℕ) (queued : ℕ → Bool) (target : Target) (bytes : Bytes) (r : Ring)
    → RingInv r
    → length bytes ≤ fuel
    → Enqueued target bytes r (enqueue_loop fuel queued target bytes r)
enqueue_loop-Enqueued zero queued target [] r v le =
    rw (loop_empty zero queued target r) (nothing_left target r v)
enqueue_loop-Enqueued (suc fuel) queued target [] r v le =
    rw (loop_empty (suc fuel) queued target r) (nothing_left target r v)
enqueue_loop-Enqueued zero queued target (b ∷ bs) r v le = absurd (omega arith)
enqueue_loop-Enqueued (suc fuel) queued target (b ∷ bs) r v le =
    elim (push-cases target chunk r v) [
      | inl (full, e) ↦
          rw (loop_full fuel queued target bytes r left _ e) (all_lost target bytes r v left full)
      | inr (free, e, d, c) ↦
          let kept =
            post_wake_up-RingInv (not r.kick_pending) (queued 0) (push target chunk r).1
              (push-RingInv target chunk r v (chunk_le target bytes r v left)) in
          let r₁ = post_wake_up (not r.kick_pending) (queued 0) (push target chunk r).1 in
          rw (loop_stored fuel queued target bytes r left _ e) (
            one_more target bytes r v left r₁ _
              (dropped-post_wake_up (not r.kick_pending) (queued 0) _ ∙ d)
              (contents-post_wake_up (not r.kick_pending) (queued 0) _ ∙ c)
              (enqueue_loop-Enqueued fuel (λ n. queued (suc n)) target (drop slot_max (b ∷ bs)) r₁
                kept (omega (arith, length-drop {0} slot_max (b ∷ bs)))))
    ]
  where
    bytes : Bytes
    bytes = b ∷ bs

    chunk : Bytes
    chunk = take slot_max bytes

    left : 0 < length bytes
    left = omega arith

-- For a ring that fulfils RingInv, and a running server: what ws_enqueue stores of some bytes are
-- frames for the target, of 1 to 256 bytes, that carry a prefix of the bytes in order; the rest
-- is lost only if the ring was then full, and is counted as one drop. The ring fulfils RingInv
-- again.
pub enqueue-Enqueued :
    (queued : ℕ → Bool) (target : Target) (bytes : Bytes) (r : Ring)
    → RingInv r
    → Enqueued target bytes r (enqueue true queued target bytes r)
unfolding enqueue
enqueue-Enqueued queued target bytes r v =
    enqueue_loop-Enqueued (length bytes) queued target bytes r v (omega arith)

pub stream-append : (fs gs : List Frame) → stream (fs ++ gs) ≡ stream fs ++ stream gs
stream-append [] gs = refl
stream-append (f ∷ fs) gs =
    rw (stream-append fs gs) (sym (append_assoc f.payload (stream fs) (stream gs)))

module _ (queued : ℕ → Bool) (target : Target) (bytes : Bytes) (r : Ring) (v : RingInv r)
    (room : length bytes ≤ slot_max * (tx_slots - used r)) where
  none_lost :
      (r' : Ring)
      → Enqueued target bytes r r'
      → (stream (contents r') ≡ stream (contents r) ++ bytes) × (r'.dropped ≡ r.dropped)
  none_lost r' e = by_loss e.lossless
    where
      by_loss :
          ((e.lost ≡ []) × (r'.dropped ≡ r.dropped))
            ⊎ ((0 < length e.lost)
                × (length (contents r') ≡ tx_slots)
                × (length bytes ≡ slot_max * length e.frames + length e.lost)
                × (r'.dropped ≡ (r.dropped + 1) % u32_mod))
          → (stream (contents r') ≡ stream (contents r) ++ bytes) × (r'.dropped ≡ r.dropped)
      by_loss (inl (l, d)) =
          let whole : stream e.frames ≡ bytes =
            sym (append-nil _) ∙ ap (◌++◌ (stream e.frames)) (sym l) ∙ e.in_order in
          (rw (e.appended, stream-append (contents r) e.frames, whole), d)
      by_loss (inr (l, full, n, d)) = absurd (
          omega (
            arith,
            l,
            full,
            n,
            ap length e.appended,
            length-append (contents r) e.frames,
            length-contents r,
          ))

  -- Bytes that fit into the free slots are all queued, behind what was there, and none is dropped.
  pub enqueue_fits :
      (stream (contents (enqueue true queued target bytes r)) ≡ stream (contents r) ++ bytes)
      × ((enqueue true queued target bytes r).dropped ≡ r.dropped)
  enqueue_fits = none_lost _ (enqueue-Enqueued queued target bytes r v)

-- Bytes that fit into one slot: they are the frame that is queued, or they are lost to a full ring
-- and counted as a drop.
pub record Single (target : Target) (bytes : Bytes) (r r' : Ring) : Type 0 where
  pub outcome :
      ((leb tx_slots (length (contents r)) ≡ true)
        × (contents r' ≡ contents r)
        × (r'.dropped ≡ (r.dropped + 1) % u32_mod))
      ⊎ ((leb tx_slots (length (contents r)) ≡ false)
          × (contents r' ≡ contents r ++ (record { target = target; payload = bytes } ∷ []))
          × (r'.dropped ≡ r.dropped))
  pub inv : RingInv r'

pub enqueue_chunk :
    (queued : ℕ → Bool) (target : Target) (bytes : Bytes) (r : Ring)
    → RingInv r
    → 0 < length bytes
    → length bytes ≤ slot_max
    → Single target bytes r (enqueue true queued target bytes r)
unfolding enqueue
enqueue_chunk queued target [] r v some_bytes fits = absurd (omega arith)
enqueue_chunk queued target (b ∷ bs) r v some_bytes fits = record {
  outcome = elim (push-cases target (take slot_max (b ∷ bs)) r v) [
    | inl (full, e) ↦
        rw (loop_full fuel queued target (b ∷ bs) r some_bytes _ e)
          (inl (ap (leb tx_slots) (length-contents r) ∙ full, refl, refl))
    | inr (free, e, d, c) ↦
        rw
          (
            loop_stored fuel queued target (b ∷ bs) r some_bytes _ e,
            nothing_behind,
            loop_empty fuel (λ n. queued (suc n)) target _,
          )
          (inr (
            ap (leb tx_slots) (length-contents r) ∙ free,
            contents-post_wake_up (not r.kick_pending) (queued 0) _ ∙ c ∙ whole,
            dropped-post_wake_up (not r.kick_pending) (queued 0) _ ∙ d,
          ))
  ];
  inv = (enqueue-Enqueued queued target (b ∷ bs) r v).inv;
}
  where
    fuel : ℕ
    fuel = length bs

    nothing_behind : drop slot_max (b ∷ bs) ≡ []
    nothing_behind = length-nil _ (omega (arith, length-drop {0} slot_max (b ∷ bs)))

    whole :
        contents r ++ (record { target = target; payload = take slot_max (b ∷ bs) } ∷ [])
        ≡ contents r ++ (record { target = target; payload = b ∷ bs } ∷ [])
    whole = rw (take_all slot_max (b ∷ bs) fits)
