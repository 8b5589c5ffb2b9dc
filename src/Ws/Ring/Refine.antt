-- ===== src/Ws/Ring/Refine.antt =====
-- The critical sections of the ring against a bounded first-in first-out queue of frames.
use esp32_web_terminal.Prelude.{
  ℕ, zero, suc, ◌+◌, ◌-◌, ◌%◌, ◌≤◌, ◌<◌, ◌≡◌, ◌≢◌, refl, ap, ◌∙◌, inl, inr, Bool, Option, none,
  some, List, [], ◌∷◌, ◌++◌, arith, Bytes, All, All-set, All-replicate, leb, ◌==◌, if◌then◌else◌,
  length, length-set, length-append, length-drop, get_or, drop, Bool-cases,
}
use esp32_web_terminal.Ws.Ring.{
  tx_slots, slot_max, u32_mod, Slot, blank_slot, Target, Frame, Ring, empty_ring, used, memcpy,
  next_index, push, pop, post_wake_up,
}
use esp32_web_terminal.Ws.Ring.Queue.{
  frame_of, window, window_of_pos, contents, RingInv, length-contents, take_front, window-set,
  used_step, head_slot,
}

-- A queue of at most `tx_slots` frames.
unfoldable pub enqueued : Target → Bytes → List Frame → List Frame
enqueued target chunk q =
    if leb tx_slots (length q) then q else q ++ (record { target = target; payload = chunk } ∷ [])

unfoldable pub dequeued : List Frame → Option Frame × List Frame
dequeued [] = (none, [])
dequeued (f ∷ q) = (some f, q)

All-get_or {ℓ κ} :
    {A : Type ℓ} (P : A → Type κ) (xs : List A) (i : ℕ) (d : A) → P d → All P xs → P (get_or xs i d)
All-get_or P [] i d pd a = pd
All-get_or P (x ∷ xs) zero d pd a = a.0
All-get_or P (x ∷ xs) (suc i) d pd a = All-get_or P xs i d pd a.1

abbrev SlotFits : Slot → Type 0
SlotFits s = (s.len ≤ slot_max) × (length s.buffer ≡ slot_max)

blank_slot_fits : SlotFits blank_slot
blank_slot_fits = omega arith

module _ (target : Target) (chunk : Bytes) (r : Ring) where
  abbrev filled : Slot
  filled = record {
    len = length chunk;
    target = target;
    buffer = memcpy (get_or r.slots (r.head % tx_slots) blank_slot).buffer chunk;
  }

  filled_fits : RingInv r → length chunk ≤ slot_max → SlotFits filled
  filled_fits v le =
      let old = get_or r.slots (r.head % tx_slots) blank_slot in
      let fits =
        All-get_or SlotFits r.slots (r.head % tx_slots) blank_slot blank_slot_fits v.buffers in
      (
        le,
        omega (
          arith,
          length-append chunk (drop (length chunk) old.buffer),
          length-drop (length chunk) old.buffer,
          fits,
        ),
      )

  -- For a ring that fulfils RingInv, a push stores the chunk behind the frames of the ring, or
  -- drops it if 32 are there.
  pub push_refines :
      RingInv r → contents (push target chunk r).1 ≡ enqueued target chunk (contents r)
  unfolding push enqueued
  push_refines v = elim (Bool-cases (leb tx_slots (used r))) [
    | inl full ↦ rw (full, length-contents r, full)
    | inr free ↦
        let room : used r < tx_slots = ground arith in
        let grown = used_step r.head r.tail v.head_word v.tail_word room in
        let at = head_slot r.head r.tail v.head_word v.tail_word in
        rw (free, length-contents r, free, grown)
          (window-set r.slots filled (used r) r.tail (r.head % tx_slots) v.slot_count v.tail_word
              room at
            ∙ ap (λ b. contents r ++ (record { target = target; payload = b } ∷ []))
                (take_front chunk _))
  ]

  -- A push keeps the indices within 32 bits, the frames within the slots, and each buffer whole.
  pub push-RingInv : RingInv r → length chunk ≤ slot_max → RingInv (push target chunk r).1
  unfolding push
  push-RingInv v le = ground (
    arith,
    length-set r.slots (r.head % tx_slots) filled,
    used_step r.head r.tail v.head_word v.tail_word,
    All-set SlotFits r.slots (r.head % tx_slots) filled (filled_fits v le) v.buffers,
  )

used_pop :
    (head tail : ℕ)
    → head < u32_mod
    → tail < u32_mod
    → head ≢ tail
    → (0 < (head + u32_mod - tail) % u32_mod)
      × ((head + u32_mod - next_index tail) % u32_mod ≡ (head + u32_mod - tail) % u32_mod - 1)
used_pop head tail hh ht ne = omega arith

-- For a ring that fulfils RingInv, a pop takes the oldest frame and leaves the rest in order, or
-- takes nothing if the ring is empty.
pub pop_refines : (r : Ring) → RingInv r → ((pop r).0, contents (pop r).1) ≡ dequeued (contents r)
unfolding pop dequeued
pop_refines r v = elim (Bool-cases (r.head == r.tail)) [
  | inl e ↦ let none_left : used r ≡ 0 = ground arith in rw (e, none_left)
  | inr n ↦
      let step = used_pop r.head r.tail v.head_word v.tail_word (ground arith) in
      rw (n, window_of_pos r.slots r.tail (used r) step.0)
        (ap
          (λ k. (
            some (frame_of (get_or r.slots (r.tail % tx_slots) blank_slot)),
            window r.slots (next_index r.tail) k,
          ))
          step.1)
]

pub pop_empty :
    (r : Ring) → RingInv r → contents r ≡ [] → ((pop r).0 ≡ none) × (contents (pop r).1 ≡ [])
unfolding dequeued
pop_empty r v e = let p = pop_refines r v ∙ ap dequeued e in (ap (λ p. p.0) p, ap (λ p. p.1) p)

pub pop_first :
    (r : Ring) (f : Frame) (q : List Frame)
    → RingInv r
    → contents r ≡ f ∷ q
    → ((pop r).0 ≡ some f) × (contents (pop r).1 ≡ q)
unfolding dequeued
pop_first r f q v e = let p = pop_refines r v ∙ ap dequeued e in (ap (λ p. p.0) p, ap (λ p. p.1) p)

-- A pop keeps the indices within 32 bits, the frames within the slots, and each buffer whole.
pub pop-RingInv : (r : Ring) → RingInv r → RingInv (pop r).1
unfolding pop
pop-RingInv r v = ground (arith, used_pop r.head r.tail v.head_word v.tail_word)

pub post_wake_up-RingInv :
    (kick queued : Bool) (r : Ring) → RingInv r → RingInv (post_wake_up kick queued r)
post_wake_up-RingInv kick queued r v = ground arith

pub contents-post_wake_up :
    (kick queued : Bool) (r : Ring) → contents (post_wake_up kick queued r) ≡ contents r
contents-post_wake_up kick queued r = ground arith

pub empty_ring-RingInv : RingInv empty_ring
empty_ring-RingInv = record {
  slot_count = refl;
  head_word = omega arith;
  tail_word = omega arith;
  fits = omega arith;
  buffers = All-replicate SlotFits 32 blank_slot blank_slot_fits;
}
