-- ===== src/Ws/Ring/Chunks.antt =====
-- ws_enqueue: a byte stream cut into frames, of which a full ring loses the end.
use esp32_web_terminal.Prelude.{
  suc, ◌+◌, ◌*◌, ◌%◌, ◌≤◌, ◌<◌, ◌≡◌, refl, sym, ◌∙◌, ◌⊎◌, inl, inr, true, false, List, [], ◌∷◌,
  ◌++◌, arith, Bytes, All, leb, length, length-take, length-drop, take, drop, take-append-drop,
  Bool-cases, not,
}
use mathlib.Core.List.{append-nil, append_assoc}
use esp32_web_terminal.Ws.Ring.{
  tx_slots, slot_max, u32_mod, Target, Frame, Ring, used, ring_full, stored, push,
}
use esp32_web_terminal.Ws.Ring.Queue.{contents, RingInv, length-contents}
use esp32_web_terminal.Ws.Ring.Refine.{enqueued, push_refines}

-- The bytes that frames carry, in order.
abbrev pub stream : List Frame → Bytes
stream [] = []
stream (f ∷ fs) = f.payload ++ stream fs

-- What ws_enqueue makes of some bytes: the frames that it stores, and the bytes that it loses.
pub record Enqueued (target : Target) (bytes : Bytes) (r r' : Ring) : Type 0 where
  pub frames : List Frame
  pub lost : Bytes
  pub appended : contents r' ≡ contents r ++ frames
  pub in_order : stream frames ++ lost ≡ bytes
  pub addressed :
      All
        (λ (f : Frame).
          (f.target ≡ target) × (0 < length f.payload) × (length f.payload ≤ slot_max))
        frames
  pub lossless :
      ((lost ≡ []) × (r'.dropped ≡ r.dropped))
      ⊎ ((0 < length lost)
          × (length (contents r') ≡ tx_slots)
          × (length bytes ≡ slot_max * length frames + length lost)
          × (r'.dropped ≡ (r.dropped + 1) % u32_mod))
  pub inv : RingInv r'

pub nothing_left : (target : Target) (r : Ring) → RingInv r → Enqueued target [] r r
nothing_left target r v = record {
  frames = [];
  lost = [];
  appended = sym (append-nil _);
  in_order = refl;
  addressed = tt;
  lossless = inl (refl, refl);
  inv = v;
}

pub length-nil : (bytes : Bytes) → length bytes ≡ 0 → bytes ≡ []
length-nil [] e = refl
length-nil (b ∷ bs) e = absurd (omega arith)

-- How a push of a chunk of at most a slot ends.
pub push-cases :
    (target : Target) (chunk : Bytes) (r : Ring)
    → RingInv r
    → ((leb tx_slots (used r) ≡ true)
        × (push target chunk r ≡ (ring_full, record r { dropped = (r.dropped + 1) % u32_mod })))
      ⊎ ((leb tx_slots (used r) ≡ false)
          × ((push target chunk r).0 ≡ stored (not r.kick_pending))
          × ((push target chunk r).1.dropped ≡ r.dropped)
          × (contents (push target chunk r).1
              ≡ contents r ++ (record { target = target; payload = chunk } ∷ [])))
unfolding push
push-cases target chunk r v = elim (Bool-cases (leb tx_slots (used r))) [
  | inl full ↦ inl (full, rw full)
  | inr free ↦ inr (free, rw free, rw free, appended free)
]
  where
    appended :
        leb tx_slots (used r) ≡ false
        → contents (push target chunk r).1
          ≡ contents r ++ (record { target = target; payload = chunk } ∷ [])
    appended free = push_refines target chunk r v ∙ unfold enqueued in rw (length-contents r, free)

module _ (target : Target) (bytes : Bytes) (r : Ring) (v : RingInv r)
    (some_left : 0 < length bytes) where
  pub chunk_le : length (take slot_max bytes) ≤ slot_max
  chunk_le = omega (arith, length-take {0} slot_max bytes)

  -- A full ring loses all that is left.
  pub all_lost :
      leb tx_slots (used r) ≡ true
      → Enqueued target bytes r (record r { dropped = (r.dropped + 1) % u32_mod })
  all_lost full = record {
    frames = [];
    lost = bytes;
    appended = sym (append-nil _);
    in_order = refl;
    addressed = tt;
    lossless = inr (some_left, length-contents r ∙ full_is, omega arith, refl);
    inv = record {
      slot_count = v.slot_count;
      head_word = v.head_word;
      tail_word = v.tail_word;
      fits = v.fits;
      buffers = v.buffers;
    };
  }
    where
      full_is : used r ≡ tx_slots
      full_is = ground (arith, v.fits)

  -- A stored chunk stands in front of what the rest of the loop stores.
  pub one_more :
      (r₁ r' : Ring)
      → r₁.dropped ≡ r.dropped
      → contents r₁ ≡ contents r ++ (record { target = target; payload = take slot_max bytes } ∷ [])
      → Enqueued target (drop slot_max bytes) r₁ r'
      → Enqueued target bytes r r'
  one_more r₁ r' d c e = record {
    frames = record { target = target; payload = take slot_max bytes } ∷ e.frames;
    lost = e.lost;
    appended = e.appended ∙ rw (c, append_assoc);
    in_order =
        append_assoc (take slot_max bytes) (stream e.frames) e.lost
        ∙ rw e.in_order (take-append-drop slot_max bytes);
    addressed = ((refl, omega (arith, length-take {0} slot_max bytes), chunk_le), e.addressed);
    lossless = counted e.lossless;
    inv = e.inv;
  }
    where
      counted :
          ((e.lost ≡ []) × (r'.dropped ≡ r₁.dropped))
            ⊎ ((0 < length e.lost)
                × (length (contents r') ≡ tx_slots)
                × (length (drop slot_max bytes) ≡ slot_max * length e.frames + length e.lost)
                × (r'.dropped ≡ (r₁.dropped + 1) % u32_mod))
          → ((e.lost ≡ []) × (r'.dropped ≡ r.dropped))
            ⊎ ((0 < length e.lost)
                × (length (contents r') ≡ tx_slots)
                × (length bytes ≡ slot_max * suc (length e.frames) + length e.lost)
                × (r'.dropped ≡ (r.dropped + 1) % u32_mod))
      counted (inl (l, q)) = inl (l, q ∙ d)
      counted (inr (l, full, n, q)) =
          inr (l, full, omega (arith, n, length-drop {0} slot_max bytes), omega (arith, q, d))
