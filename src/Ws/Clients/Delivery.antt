-- ===== src/Ws/Clients/Delivery.antt =====
-- The drain of ws_flush_work, frame by frame and client by client.
use esp32_web_terminal.Prelude.{
  ℕ, zero, suc, ◌+◌, ◌≤◌, ◌<◌, ◌≡◌, refl, sym, ap, ◌∙◌, inl, inr, Bool, true, false, none, some,
  List, [], ◌∷◌, ◌++◌, arith, ◌==◌, if◌then◌else◌, ◌&&◌, length, get_or, Bool-cases,
}
use esp32_web_terminal.Ws.Ring.{Frame, Ring, pop}
use esp32_web_terminal.Ws.Ring.Queue.{contents, RingInv}
use esp32_web_terminal.Ws.Ring.Refine.{pop_empty, pop_first, pop-RingInv}
use esp32_web_terminal.Ws.Clients.{
  Client, blank_client, evict, Send, Flushed, wants, deliver, drain,
}

-- The frames that a slot is sent, in order.
unfoldable pub received : ℕ → List Send → List Frame
received i [] = []
received i (s ∷ ss) = if s.slot == i then s.frame ∷ received i ss else received i ss

received-append :
    (i : ℕ) (ss ts : List Send) → received i (ss ++ ts) ≡ received i ss ++ received i ts
unfolding received
received-append i [] ts = refl
received-append i (s ∷ ss) ts = elim (Bool-cases (s.slot == i)) [
  | inl e ↦ rw (e, received-append i ss ts)
  | inr e ↦ rw (e, received-append i ss ts)
]

-- What one frame does to a client whose sends answer `works`.
abbrev pub after_frame : Bool → Frame → Client → Client
after_frame works f c = if c.active && wants f.target c then (if works then c else evict c) else c

-- One client alone: what it is sent of some frames, and how it stands then.
unfoldable pub outlet : (ℕ → Bool) → ℕ → List Frame → Client → Client × List Frame
outlet works n [] c = (c, [])
outlet works n (f ∷ fs) c =
    let rest = outlet works (suc n) fs (after_frame (works n) f c) in
    if c.active && wants f.target c then (rest.0, f ∷ rest.1) else rest

module _ (works : ℕ → Bool) (f : Frame) where
  length-deliver : (k : ℕ) (cs : List Client) → length (deliver works f k cs).0 ≡ length cs
  unfolding deliver
  length-deliver k [] = refl
  length-deliver k (c ∷ cs) = ground (arith, length-deliver (suc k) cs)

  deliver_client :
      (k i : ℕ) (cs : List Client)
      → i < length cs
      → get_or (deliver works f k cs).0 i blank_client
        ≡ after_frame (works (k + i)) f (get_or cs i blank_client)
  unfolding deliver
  deliver_client k i [] lt = absurd (omega arith)
  deliver_client k zero (c ∷ cs) lt =
      let here : k + 0 ≡ k = omega arith in
      elim (Bool-cases (c.active && wants f.target c)) [
        | inl e ↦ rw (here, e)
        | inr e ↦ rw (here, e)
      ]
  deliver_client k (suc i) (c ∷ cs) lt =
      let there : k + suc i ≡ suc k + i = omega arith in
      elim (Bool-cases (c.active && wants f.target c)) [
        | inl e ↦ rw (there, e) (deliver_client (suc k) i cs (omega arith))
        | inr e ↦ rw (there, e) (deliver_client (suc k) i cs (omega arith))
      ]

  none_before : (k j : ℕ) (cs : List Client) → j < k → received j (deliver works f k cs).1 ≡ []
  unfolding deliver received
  none_before k j [] lt = refl
  none_before k j (c ∷ cs) lt =
      let other : (k == j) ≡ false = ground arith in
      elim (Bool-cases (c.active && wants f.target c)) [
        | inl e ↦ rw (e, other) (none_before (suc k) j cs (omega arith))
        | inr e ↦ rw (e) (none_before (suc k) j cs (omega arith))
      ]

  received-deliver :
      (k i : ℕ) (cs : List Client)
      → i < length cs
      → received (k + i) (deliver works f k cs).1 ≡ (
          if (get_or cs i blank_client).active && wants f.target (get_or cs i blank_client)
          then f ∷ []
          else [])
  unfolding deliver received
  received-deliver k i [] lt = absurd (omega arith)
  received-deliver k zero (c ∷ cs) lt =
      let here : (k == k + 0) ≡ true = ground arith in
      let rest = none_before (suc k) (k + 0) cs (omega arith) in
      elim (Bool-cases (c.active && wants f.target c)) [
        | inl e ↦ rw (e, here, rest)
        | inr e ↦ rw (e, rest)
      ]
  received-deliver k (suc i) (c ∷ cs) lt =
      let other : (k == k + suc i) ≡ false = ground arith in
      let there : k + suc i ≡ suc k + i = omega arith in
      let rest =
        ap (λ j. received j (deliver works f (suc k) cs).1) there
        ∙ received-deliver (suc k) i cs (omega arith) in
      elim (Bool-cases (c.active && wants f.target c)) [
        | inl e ↦ rw (e, other) rest
        | inr e ↦ rw (e) rest
      ]

-- The outer loop over given frames.
unfoldable pub deliver_all : (ℕ → ℕ → Bool) → ℕ → List Frame → List Client → List Client × List Send
unfolding deliver
deliver_all works n [] cs = (cs, [])
deliver_all works n (f ∷ fs) cs =
    let (cs', sent) = deliver (works n) f 0 cs in
    let later = deliver_all works (suc n) fs cs' in (later.0, sent ++ later.1)

abbrev pub Drained : Flushed → List Client × List Send → Type 0
Drained d spec = (contents (d.ring) ≡ []) × (d.clients ≡ spec.0) × (d.sends ≡ spec.1)

module _ (works : ℕ → ℕ → Bool) where
  drain-none :
      (fuel n : ℕ) (r : Ring) (cs : List Client)
      → (pop r).0 ≡ none
      → drain (suc fuel) works n r cs
        ≡ record { ring = (pop r).1; closes = []; clients = cs; sends = [] }
  unfolding drain
  drain-none fuel n r cs e = rw (e, drain)

  drain-some :
      (fuel n : ℕ) (r : Ring) (cs : List Client) (f : Frame)
      → (pop r).0 ≡ some f
      → drain (suc fuel) works n r cs
        ≡ record (drain fuel works (suc n) (pop r).1 (deliver (works n) f 0 cs).0) {
          sends =
              (deliver (works n) f 0 cs).1
              ++ (drain fuel works (suc n) (pop r).1 (deliver (works n) f 0 cs).0).sends;
        }
  unfolding drain
  drain-some fuel n r cs f e = rw (e, drain)

  pub drain-deliver_all :
      (fuel n : ℕ) (r : Ring) (cs : List Client) (q : List Frame)
      → RingInv r
      → contents r ≡ q
      → length q ≤ fuel
      → Drained (drain fuel works n r cs) (deliver_all works n q cs)
  unfolding drain deliver_all
  drain-deliver_all zero n r cs [] v e le = (e, refl, refl)
  drain-deliver_all zero n r cs (f ∷ q) v e le = absurd (omega arith)
  drain-deliver_all (suc fuel) n r cs [] v e le =
      let (nothing, left) = pop_empty r v e in
      rw (drain-none fuel n r cs nothing) (left, refl, refl)
  drain-deliver_all (suc fuel) n r cs (f ∷ q) v e le =
      let (first, left) = pop_first r f q v e in
      let (empty, stand, sent) =
        drain-deliver_all fuel (suc n) (pop r).1 (deliver (works n) f 0 cs).0 q (pop-RingInv r v)
          left (omega arith) in
      rw (drain-some fuel n r cs f first)
        (empty, stand, ap (◌++◌ (deliver (works n) f 0 cs).1) sent)

  branch_of :
      (b : Bool) (f : Frame) (x : Client) (later : List Frame) (o : Client × List Frame)
      → (x, later) ≡ o
      → (x, (if b then f ∷ [] else []) ++ later) ≡ (if b then (o.0, f ∷ o.1) else o)
  branch_of true f x later o e = ap (λ p. (p.0, f ∷ p.1)) e
  branch_of false f x later o e = e

  module _ (i : ℕ) where
    pub deliver_all-outlet :
        (n : ℕ) (fs : List Frame) (cs : List Client)
        → i < length cs
        → (
          get_or (deliver_all works n fs cs).0 i blank_client,
          received i (deliver_all works n fs cs).1,
        )
          ≡ outlet (λ m. works m i) n fs (get_or cs i blank_client)
    unfolding deliver_all received outlet
    deliver_all-outlet n [] cs lt = refl
    deliver_all-outlet n (f ∷ fs) cs lt =
        let c = get_or cs i blank_client in
        let start : 0 + i ≡ i = omega arith in
        let moved : get_or (deliver (works n) f 0 cs).0 i blank_client
            ≡ after_frame (works n i) f c =
          deliver_client (works n) f 0 i cs lt ∙ ap (λ j. after_frame (works n j) f c) start in
        let sent : received i (deliver (works n) f 0 cs).1
            ≡ (if c.active && wants f.target c then f ∷ [] else []) =
          ap (λ j. received j (deliver (works n) f 0 cs).1) (sym start)
          ∙ received-deliver (works n) f 0 i cs lt in
        let later =
          deliver_all-outlet (suc n) fs (deliver (works n) f 0 cs).0
            (omega (arith, length-deliver (works n) f 0 cs)) in
        let rest = received i (deliver_all works (suc n) fs (deliver (works n) f 0 cs).0).1 in
        ap (λ fs'. (get_or (deliver_all works n (f ∷ fs) cs).0 i blank_client, fs'))
          (received-append i (deliver (works n) f 0 cs).1 _ ∙ ap (λ g. g ++ rest) sent)
        ∙ branch_of (c.active && wants f.target c) f _ _ _
            (later ∙ ap (outlet (λ m. works m i) (suc n) fs) moved)
