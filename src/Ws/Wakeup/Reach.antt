-- ===== src/Ws/Wakeup/Reach.antt =====
-- Under every interleaving the ring is first-in first-out, and no wake-up is lost.
use esp32_web_terminal.Prelude.{
  ℕ, suc, ◌+◌, ◌≤◌, ◌≡◌, ◌≢◌, refl, sym, ap, ◌∙◌, ◌⊎◌, inl, inr, Bool, true, false, none, some,
  List, [], ◌∷◌, ◌++◌, arith, Bytes, leb, if◌then◌else◌, length, Bool-cases,
}
use mathlib.Core.Bool.{true≢false}
use mathlib.Core.List.{append_assoc}
use esp32_web_terminal.Ws.Ring.{
  tx_slots, slot_max, Target, Frame, Ring, used, Stored, ring_full, stored, push, pop, unkick,
}
use esp32_web_terminal.Ws.Ring.Queue.{contents, RingInv}
use esp32_web_terminal.Ws.Ring.Refine.{
  push-RingInv, pop-RingInv, empty_ring-RingInv, pop_empty, pop_first,
}
use esp32_web_terminal.Ws.Ring.Chunks.{push-cases}
use esp32_web_terminal.Ws.Wakeup.{
  World, after_push, after_round, Step, Reached, boots, steps, pushes, posts, post_fails, unkicks,
  starts, rounds,
}

-- The wake-ups that the flag stands for.
abbrev pub owed : Bool → ℕ
owed flag = if flag then 1 else 0

-- The flag is up exactly while one wake-up is outstanding; the ring holds what was stored and not
-- taken; and where it holds something, a flush is coming or running, unless a wake-up failed.
pub record WorldInv (w : World) : Type 0 where
  pub ring : RingInv w.ring
  pub outstanding : w.posting + w.failed + w.queued ≡ owed w.ring.kick_pending
  pub in_order : w.taken_frames ++ contents w.ring ≡ w.stored_frames
  pub awake :
      (contents w.ring ≡ [])
      ⊎ ((w.ring.kick_pending ≡ true) ⊎ ((w.flushing ≡ true) ⊎ (w.stranded ≡ true)))

module _ (target : Target) (chunk : Bytes) (w : World) where
  abbrev pushed : Ring
  pushed = (push target chunk w.ring).1

  abbrev with_chunk : List Frame
  with_chunk = w.stored_frames ++ (record { target = target; payload = chunk } ∷ [])

  push_full :
      (ring : Ring)
      → push target chunk w.ring ≡ (ring_full, ring)
      → after_push target chunk w ≡ record w { ring = ring }
  unfolding after_push
  push_full ring e =
      let outcome : (push target chunk w.ring).0 ≡ ring_full = ap (λ p. p.0) e in
      rw (outcome, after_push) (ap (λ (p : Stored × Ring). record w { ring = p.1 }) e)

  push_quiet :
      (push target chunk w.ring).0 ≡ stored false
      → after_push target chunk w ≡ record w { ring = pushed; stored_frames = with_chunk }
  unfolding after_push
  push_quiet e = rw (e, after_push) refl

  push_kick :
      (push target chunk w.ring).0 ≡ stored true
      → after_push target chunk w ≡ record w {
        ring = pushed;
        posting = suc w.posting;
        stranded = false;
        stored_frames = with_chunk;
      }
  unfolding after_push
  push_kick e = rw (e, after_push) refl

  flag_raised : leb tx_slots (used w.ring) ≡ false → pushed.kick_pending ≡ true
  unfolding push
  flag_raised e = rw (pushed, e) refl

  appended :
      WorldInv w
      → contents pushed ≡ contents w.ring ++ (record { target = target; payload = chunk } ∷ [])
      → w.taken_frames ++ contents pushed ≡ with_chunk
  appended v e =
      ap (◌++◌ w.taken_frames) e
      ∙ sym (append_assoc w.taken_frames (contents w.ring) _)
      ∙ ap (λ fs. fs ++ (record { target = target; payload = chunk } ∷ [])) v.in_order

  after_push-WorldInv : length chunk ≤ slot_max → WorldInv w → WorldInv (after_push target chunk w)
  after_push-WorldInv le v =
      let kept = push-RingInv target chunk w.ring v.ring le in
      elim (push-cases target chunk w.ring v.ring) [
        | inl (full, e) ↦ rw (push_full _ e) (record {
          ring = record {
            slot_count = v.ring.slot_count;
            head_word = v.ring.head_word;
            tail_word = v.ring.tail_word;
            fits = v.ring.fits;
            buffers = v.ring.buffers;
          };
          outstanding = v.outstanding;
          in_order = v.in_order;
          awake = v.awake;
        })
        | inr (free, e, d, c) ↦ elim (Bool-cases w.ring.kick_pending) [
          | inl up ↦ rw (push_quiet (e ∙ rw (up) refl)) (record {
            ring = kept;
            outstanding = v.outstanding ∙ ap owed up ∙ sym (ap owed (flag_raised free));
            in_order = appended v c;
            awake = inr (inl (flag_raised free));
          })
          | inr down ↦ rw (push_kick (e ∙ rw (down) refl)) (record {
            ring = kept;
            outstanding = omega (arith, v.outstanding ∙ ap owed down, ap owed (flag_raised free));
            in_order = appended v c;
            awake = inr (inl (flag_raised free));
          })
        ]
      ]

pop-kick_pending : (r : Ring) → (pop r).1.kick_pending ≡ r.kick_pending
unfolding pop
pop-kick_pending r = ground arith

module _ (w : World) where
  abbrev left : Ring
  left = (pop w.ring).1

  round_ends : (pop w.ring).0 ≡ none → after_round w ≡ record w { ring = left; flushing = false }
  unfolding after_round
  round_ends e = rw (e, after_round) refl

  round_takes :
      (f : Frame)
      → (pop w.ring).0 ≡ some f
      → after_round w ≡ record w { ring = left; taken_frames = w.taken_frames ++ (f ∷ []) }
  unfolding after_round
  round_takes f e = rw (e, after_round) refl

  flag_kept : WorldInv w → w.posting + w.failed + w.queued ≡ owed left.kick_pending
  flag_kept v = v.outstanding ∙ ap owed (sym (pop-kick_pending w.ring))

  after_round-WorldInv : w.flushing ≡ true → WorldInv w → WorldInv (after_round w)
  after_round-WorldInv busy v = by_contents (contents w.ring) refl
    where
      by_contents : (q : List Frame) → contents w.ring ≡ q → WorldInv (after_round w)
      by_contents [] e =
          let (nothing, empty) = pop_empty w.ring v.ring e in
          rw (round_ends nothing) (record {
            ring = pop-RingInv w.ring v.ring;
            outstanding = flag_kept v;
            in_order = ap (◌++◌ w.taken_frames) (empty ∙ sym e) ∙ v.in_order;
            awake = inl empty;
          })
      by_contents (f ∷ q) e =
          let (first, rest) = pop_first w.ring f q v.ring e in
          rw (round_takes f first) (record {
            ring = pop-RingInv w.ring v.ring;
            outstanding = flag_kept v;
            in_order =
                append_assoc w.taken_frames (f ∷ []) (contents left)
                ∙ ap (λ fs. w.taken_frames ++ (f ∷ fs)) rest
                ∙ ap (◌++◌ w.taken_frames) (sym e)
                ∙ v.in_order;
            awake = inr (inr (inl busy));
          })

unkick-RingInv : (r : Ring) → RingInv r → RingInv (unkick r)
unkick-RingInv r v = record {
  slot_count = v.slot_count;
  head_word = v.head_word;
  tail_word = v.tail_word;
  fits = v.fits;
  buffers = v.buffers;
}

Step-WorldInv : (w w' : World) → WorldInv w → Step w w' → WorldInv w'
Step-WorldInv w w' v (pushes target chunk le) = after_push-WorldInv target chunk w le v
Step-WorldInv w w' v (posts h) = record {
  ring = v.ring;
  outstanding = omega (arith, v.outstanding);
  in_order = v.in_order;
  awake = v.awake;
}
Step-WorldInv w w' v (post_fails h) = record {
  ring = v.ring;
  outstanding = omega (arith, v.outstanding);
  in_order = v.in_order;
  awake = v.awake;
}
Step-WorldInv w w' v (unkicks h) = record {
  ring = unkick-RingInv w.ring v.ring;
  outstanding = ground (arith, v.outstanding);
  in_order = v.in_order;
  awake = inr (inr (inr refl));
}
Step-WorldInv w w' v (starts h idle) = record {
  ring = unkick-RingInv w.ring v.ring;
  outstanding = ground (arith, v.outstanding);
  in_order = v.in_order;
  awake = inr (inr (inl refl));
}
Step-WorldInv w w' v (rounds busy) = after_round-WorldInv w busy v

-- From booting on, every interleaving keeps the ring intact, has exactly one wake-up outstanding
-- while the flag is up and none while it is down, and takes frames in the order they were stored.
pub Reached-WorldInv : (w : World) → Reached w → WorldInv w
Reached-WorldInv w boots = record {
  ring = empty_ring-RingInv;
  outstanding = refl;
  in_order = refl;
  awake = inl refl;
}
Reached-WorldInv w (steps {w = before} reached step) =
    Step-WorldInv before w (Reached-WorldInv before reached) step

-- No wake-up is lost: in every state that is reached, while frames wait, exactly one wake-up is
-- outstanding or a flush is running, unless a wake-up failed after the last one that was begun.
pub no_lost_wake_up :
    (w : World)
    → Reached w
    → contents w.ring ≢ []
    → w.stranded ≡ false
    → (w.posting + w.failed + w.queued ≡ 1) ⊎ (w.flushing ≡ true)
no_lost_wake_up w reached waiting up =
    let v = Reached-WorldInv w reached in
    elim v.awake [
      | inl empty ↦ absurd (waiting empty)
      | inr (inl flag) ↦ inl (v.outstanding ∙ ap owed flag)
      | inr (inr (inl busy)) ↦ inr busy
      | inr (inr (inr failed)) ↦ absurd (true≢false (sym failed ∙ up))
    ]
