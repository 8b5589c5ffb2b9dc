-- ===== src/Ws/Clients/Flush.antt =====
-- ws_flush_work as a whole: the ring is emptied, and each client gets its own frames in order.
use esp32_web_terminal.Prelude.{
  ℕ, suc, ◌<◌, ◌≡◌, refl, sym, ap, ◌∙◌, ◌⊎◌, inl, inr, Bool, true, false, not, List, [], ◌∷◌, arith,
  if◌then◌else◌, ◌&&◌, length, get_or, take, some, ap₂, subst, Bool-cases,
}
use esp32_web_terminal.Auth.Sessions.{Session, validate_session}
use esp32_web_terminal.Ws.Ring.{tx_slots, Frame, Ring, unkick}
use esp32_web_terminal.Ws.Ring.Queue.{contents, RingInv, length-contents}
use esp32_web_terminal.Ws.Clients.{Client, blank_client, evict, wants, flush, due, revalidate}
use esp32_web_terminal.Ws.Clients.Delivery.{
  received, outlet, deliver_all, Drained, drain-deliver_all, deliver_all-outlet,
}

-- The frames of a queue that are meant for a client, if it is connected.
unfoldable pub meant_for : Client → List Frame → List Frame
meant_for c [] = []
meant_for c (f ∷ fs) =
    let rest = meant_for c fs in if c.active && wants f.target c then f ∷ rest else rest

-- How a client fares whose sends may fail: it gets the first frames that are meant for it, and
-- unless it gets all of them it is dropped.
pub record Delivered (sent wanted : List Frame) (c : Client) : Type 0 where
  pub count : ℕ
  pub in_order : sent ≡ take count wanted
  pub all_or_dropped : (sent ≡ wanted) ⊎ (c.active ≡ false)

module _ (works : ℕ → Bool) (n : ℕ) (f : Frame) (fs : List Frame) (c : Client) where
  outlet_skip :
      (c.active && wants f.target c) ≡ false
      → (outlet works n (f ∷ fs) c ≡ outlet works (suc n) fs c)
        × (meant_for c (f ∷ fs) ≡ meant_for c fs)
  unfolding outlet meant_for
  outlet_skip e = (rw (e) refl, rw (e) refl)

  outlet_sent :
      (c.active && wants f.target c) ≡ true
      → works n ≡ true
      → outlet works n (f ∷ fs) c
        ≡ ((outlet works (suc n) fs c).0, f ∷ (outlet works (suc n) fs c).1)
  unfolding outlet
  outlet_sent e ok = rw (e, ok) refl

  outlet_failed :
      (c.active && wants f.target c) ≡ true
      → works n ≡ false
      → outlet works n (f ∷ fs) c
        ≡ ((outlet works (suc n) fs (evict c)).0, f ∷ (outlet works (suc n) fs (evict c)).1)
  unfolding outlet
  outlet_failed e ok = rw (e, ok) refl

  meant_first : (c.active && wants f.target c) ≡ true → meant_for c (f ∷ fs) ≡ f ∷ meant_for c fs
  unfolding meant_for
  meant_first e = rw (e) refl

none_sent :
    (works : ℕ → Bool) (n : ℕ) (fs : List Frame) (c : Client)
    → outlet works n fs (evict c) ≡ (evict c, [])
unfolding outlet
none_sent works n [] c = refl
none_sent works n (f ∷ fs) c = none_sent works (suc n) fs c

nothing_sent :
    (works : ℕ → Bool) (n : ℕ) (c : Client)
    → Delivered (outlet works n [] c).1 (meant_for c []) (outlet works n [] c).0
unfolding outlet meant_for
nothing_sent works n c = record { count = 0; in_order = refl; all_or_dropped = inl refl }

outlet-Delivered :
    (works : ℕ → Bool) (n : ℕ) (fs : List Frame) (c : Client)
    → Delivered (outlet works n fs c).1 (meant_for c fs) (outlet works n fs c).0
outlet-Delivered works n [] c = nothing_sent works n c
outlet-Delivered works n (f ∷ fs) c =
    let later = outlet-Delivered works (suc n) fs c in
    elim (Bool-cases (c.active && wants f.target c)) [
      | inr e ↦ let (skipped, same) = outlet_skip works n f fs c e in rw (skipped, same) later
      | inl e ↦ elim (Bool-cases (works n)) [
        | inl ok ↦
            rw (outlet_sent works n f fs c e ok, meant_first works n f fs c e)
              (record {
                count = suc later.count;
                in_order = ap (◌∷◌ f) later.in_order;
                all_or_dropped = elim later.all_or_dropped [
                  | inl all ↦ inl (ap (◌∷◌ f) all)
                  | inr gone ↦ inr gone
                ];
              })
        | inr ko ↦
            rw
              (
                outlet_failed works n f fs c e ko,
                meant_first works n f fs c e,
                none_sent works (suc n) fs c,
              )
              (record { count = 1; in_order = refl; all_or_dropped = inr refl })
      ]
    ]

-- The sockets of the clients that were connected before some checks and are not afterwards.
unfoldable pub dropped : List Client → List Client → List ℕ
dropped [] cs' = []
dropped (c ∷ cs) [] = []
dropped (c ∷ cs) (c' ∷ cs') =
    let rest = dropped cs cs' in if c.active && not c'.active then c.fd ∷ rest else rest

module _ (now : ℕ) (seconds : ℕ → ℕ) where
  length-revalidate :
      (i : ℕ) (cs : List Client) (ss : List Session)
      → length (revalidate now seconds i cs ss).clients ≡ length cs
  unfolding revalidate
  length-revalidate i [] ss = refl
  length-revalidate i (c ∷ cs) ss = ground (
    arith,
    length-revalidate (suc i) cs
        (if due now c then (validate_session (seconds i) (some c.token) ss).1 else ss),
  )

  revalidate-dropped :
      (i : ℕ) (cs : List Client) (ss : List Session)
      → (revalidate now seconds i cs ss).closed
        ≡ dropped cs (revalidate now seconds i cs ss).clients
  unfolding revalidate dropped
  revalidate-dropped i [] ss = refl
  revalidate-dropped i (c ∷ cs) ss = ground (
    arith,
    revalidate-dropped (suc i) cs
        (if due now c then (validate_session (seconds i) (some c.token) ss).1 else ss),
  )

module _ (now : ℕ) (seconds : ℕ → ℕ) (works : ℕ → ℕ → Bool) (r : Ring) (cs : List Client)
    (ss : List Session) (v : RingInv r) where
  drained :
      Drained
        (flush now seconds works r cs ss).0
        (deliver_all works 0 (contents r) (revalidate now seconds 0 cs ss).clients)
  unfolding flush
  drained =
      drain-deliver_all works tx_slots 0 (unkick r) _ (contents r)
        (record {
          slot_count = v.slot_count;
          head_word = v.head_word;
          tail_word = v.tail_word;
          fits = v.fits;
          buffers = v.buffers;
        })
        refl (omega (arith, length-contents r, v.fits))

  -- With a ring that fulfils RingInv, a flush during which no frame is stored empties the ring.
  pub flush_empties : contents (flush now seconds works r cs ss).0.ring ≡ []
  flush_empties = drained.0

  module _ (i : ℕ) (lt : i < length cs) where
    abbrev pub checked : Client
    checked = get_or (revalidate now seconds 0 cs ss).clients i blank_client

    flush-outlet :
        (
          get_or (flush now seconds works r cs ss).0.clients i blank_client,
          received i (flush now seconds works r cs ss).0.sends,
        )
        ≡ outlet (λ m. works m i) 0 (contents r) checked
    flush-outlet =
        ap₂ (λ x y. (get_or x i blank_client, received i y)) drained.1 drained.2
        ∙ deliver_all-outlet works i 0 (contents r) _
            (omega (arith, length-revalidate now seconds 0 cs ss))

    pub delivered :
        Delivered
          (received i (flush now seconds works r cs ss).0.sends)
          (meant_for checked (contents r))
          (get_or (flush now seconds works r cs ss).0.clients i blank_client)
    delivered =
        subst (λ p. Delivered p.1 (meant_for checked (contents r)) p.0) (sym flush-outlet)
          (outlet-Delivered (λ m. works m i) 0 (contents r) checked)

    -- With a ring that fulfils RingInv, a flush first sends a close frame to the sockets of the
    -- clients that the checks drop, and to no other. Then it sends to a slot the frames of the ring
    -- that are meant for its client as the checks left it, in order and from the first on, and no
    -- others; unless it sends all of them, the client is dropped.
    pub flush-Delivered :
        ((flush now seconds works r cs ss).0.closes
          ≡ dropped cs (revalidate now seconds 0 cs ss).clients)
        × Delivered
            (received i (flush now seconds works r cs ss).0.sends)
            (meant_for checked (contents r))
            (get_or (flush now seconds works r cs ss).0.clients i blank_client)
    unfolding flush
    flush-Delivered = (revalidate-dropped now seconds 0 cs ss, delivered)
