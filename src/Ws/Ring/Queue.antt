-- ===== src/Ws/Ring/Queue.antt =====
-- The ring is a queue of at most 32 frames, also where its 32-bit indices wrap.
use esp32_web_terminal.Prelude.{
  ℕ, zero, suc, ◌+◌, ◌-◌, ◌%◌, ◌≤◌, ◌<◌, ◌≡◌, refl, ap, ap₂, List, [], ◌∷◌, ◌++◌, arith, Bytes, All,
  length, get_or, get_or-set_self, get_or-set_ne, set, take,
}
use esp32_web_terminal.Ws.Ring.{
  tx_slots, slot_max, u32_mod, Slot, blank_slot, Frame, Ring, used, next_index,
}

abbrev pub frame_of : Slot → Frame
frame_of s = record { target = s.target; payload = take s.len s.buffer }

module _ (slots : List Slot) where
  -- The frames of `n` slots from index `t` on.
  abbrev pub window : ℕ → ℕ → List Frame
  window t zero = []
  window t (suc n) = frame_of (get_or slots (t % tx_slots) blank_slot) ∷ window (next_index t) n

  length-window : (t n : ℕ) → length (window t n) ≡ n
  length-window t zero = refl
  length-window t (suc n) = ap suc (length-window (next_index t) n)

  pub window_of_pos :
      (t n : ℕ)
      → 0 < n
      → window t n
        ≡ frame_of (get_or slots (t % tx_slots) blank_slot) ∷ window (next_index t) (n - 1)
  window_of_pos t zero h = absurd (omega arith)
  window_of_pos t (suc n) h = ap (λ k. window t (suc k)) (omega arith)

-- The frames in the ring, oldest first.
abbrev pub contents : Ring → List Frame
contents r = window r.slots r.tail (used r)

pub record RingInv (r : Ring) : Type 0 where
  pub slot_count : length r.slots ≡ tx_slots
  pub head_word : r.head < u32_mod
  pub tail_word : r.tail < u32_mod
  pub fits : used r ≤ tx_slots
  pub buffers : All (λ (s : Slot). (s.len ≤ slot_max) × (length s.buffer ≡ slot_max)) r.slots

pub length-contents : (r : Ring) → length (contents r) ≡ used r
length-contents r = length-window r.slots r.tail (used r)

pub take_front : (xs ys : Bytes) → take (length xs) (xs ++ ys) ≡ xs
take_front [] ys = refl
take_front (x ∷ xs) ys = ap (◌∷◌ x) (take_front xs ys)

-- Writing the slot behind a window extends the window by that slot's frame.
pub window-set :
    (slots : List Slot) (v : Slot) (n t i : ℕ)
    → length slots ≡ tx_slots
    → t < u32_mod
    → n < tx_slots
    → i ≡ (t + n) % u32_mod % tx_slots
    → window (set slots i v) t (suc n) ≡ window slots t n ++ (frame_of v ∷ [])
window-set slots v zero t i l ht hn e =
    let here : t % tx_slots ≡ i = omega arith in
    rw (here, get_or-set_self slots i v blank_slot (omega arith))
window-set slots v (suc n) t i l ht hn e =
    ap₂ ◌∷◌ (ap frame_of (get_or-set_ne slots i (t % tx_slots) v blank_slot (λ p. omega arith)))
      (window-set slots v n (next_index t) i l (omega arith) (omega arith) (omega arith))

pub used_step :
    (head tail : ℕ)
    → head < u32_mod
    → tail < u32_mod
    → (head + u32_mod - tail) % u32_mod < tx_slots
    → (next_index head + u32_mod - tail) % u32_mod ≡ suc ((head + u32_mod - tail) % u32_mod)
used_step head tail hh ht lt = omega arith

pub head_slot :
    (head tail : ℕ)
    → head < u32_mod
    → tail < u32_mod
    → head % tx_slots ≡ (tail + (head + u32_mod - tail) % u32_mod) % u32_mod % tx_slots
head_slot head tail hh ht = omega arith
