-- ===== src/Usb/Reach.antt =====
-- No handle is used before it is opened or after it is closed, and the device is asked for the rate
-- that was set.
use esp32_web_terminal.Prelude.{
  ℕ, ◌≡◌, refl, sym, ap, ◌∙◌, inl, inr, Bool, true, false, Option, none, some, List, [], ◌∷◌, arith,
  Bytes, subst, Bool-cases,
}
use esp32_web_terminal.Usb.{
  Vendors, Reply, Call, line_coding, control_lines, transmit, Bridge, on_connected, publish, mark,
  on_disconnected, usb_cdc_send, store_rate, apply_rate, tolerated, ok, invalid_state, Step,
  connects, publishes, disconnects, marks, sends, stores_rate, applies_rate, Run, starts, goes_on,
  is_some,
}
use esp32_web_terminal.Usb.Handles.{
  HostStack, idle, in_use, on_handle, replay, replay-append, Holds, Marked, RateKept, BridgeInv,
  Kept, same_handle, none_held, only_held, only_opening,
}

module _ (v : Vendors) (b : Bridge) (s : HostStack) (i : BridgeInv b s) where
  on_connected-Kept :
      (vid : ℕ) (handle : Option ℕ) (device : Option ℕ)
      → b.device ≡ device
      → b.opening ≡ none
      → Kept s (on_connected v vid handle b)
  unfolding on_connected Kept replay
  on_connected-Kept vid handle (some h) e o = rw (e, on_connected) i
  on_connected-Kept vid none none e o = rw (e, on_connected) i
  on_connected-Kept vid (some h) none e o =
      rw (e, none_held b s i e o, on_connected)
        (
          subst
              (λ p.
                Holds p (some h) (record b { opening = some h; stale = false })
                  (replay (line_coding h b.baud_rate ∷ control_lines h ∷ []) (in_use h 0)))
              (sym e) (b.baud_rate, ground arith, inr (inr refl)),
          i.1,
          i.2,
        )

  publish-Kept : (opening : Option ℕ) → b.opening ≡ opening → Kept s (publish b)
  unfolding publish Kept replay
  publish-Kept none o = rw (o, publish) i
  publish-Kept (some h) o = rw (o, publish) ((only_opening b s i h b.device refl o).1, refl, i.2)

  on_disconnected-Kept :
      (device : Option ℕ) → b.device ≡ device → b.opening ≡ none → Kept s (on_disconnected b)
  unfolding on_disconnected Kept replay
  on_disconnected-Kept none e o =
      rw (e, on_disconnected)
        (
          subst (λ p. Holds p b.opening (record b { marking = some false }) s) (sym e)
              (subst (λ p. Holds none p (record b { marking = some false }) s) (sym o)
                (none_held b s i e o)),
          sym (ap is_some e),
          i.2,
        )
  on_disconnected-Kept (some h) e o =
      let (r, at, fresh) = (only_held b s i h none o e).1 in
      rw (e, at, on_disconnected)
        (
          subst
              (λ p.
                Holds none p (record b { device = none; marking = some false })
                  (on_handle h (in_use h r) idle))
              (sym o) (same_handle h r idle),
          refl,
          i.2,
        )

  marked-Holds :
      (on : Bool) (device opening : Option ℕ)
      → Holds device opening b s
      → Holds device opening (record b { available = on; marking = none }) s
  marked-Holds on none none held = held
  marked-Holds on none (some g) held = held
  marked-Holds on (some h) none held = held
  marked-Holds on (some h) (some g) held = held

  mark-Kept : (marking : Option Bool) → b.marking ≡ marking → Kept s (mark b)
  unfolding mark Kept replay
  mark-Kept none m = rw (m, mark) i
  mark-Kept (some on) m =
      rw (m, mark)
        (
          marked-Holds on b.device b.opening i.0,
          subst (λ p. Marked p b.available b.device) m i.1,
          i.2,
        )

  transmit_kept : (h : ℕ) (bytes : Bytes) → b.device ≡ some h → replay (transmit h bytes ∷ []) s ≡ s
  unfolding replay
  transmit_kept h bytes e =
      let (r, at, fresh) = (only_held b s i h b.opening refl e).1 in
      rw (at) (same_handle h r (in_use h r))

  usb_cdc_send-Kept :
      (answer : Reply) (bytes : Bytes) (device : Option ℕ)
      → b.device ≡ device
      → replay (usb_cdc_send answer bytes b).1 s ≡ s
  unfolding usb_cdc_send replay
  usb_cdc_send-Kept answer bytes device e = elim (Bool-cases b.ready) [
    | inr down ↦ rw (down, usb_cdc_send) refl
    | inl up ↦ rw (up, usb_cdc_send) (by_device device e)
  ]
    where
      by_device :
          (d : Option ℕ)
          → b.device ≡ d
          → replay
              (elim b.device as (λ x. Reply × List Call) [
                | none ↦ (invalid_state, [])
                | some h ↦ (answer, transmit h bytes ∷ [])
              ]).1
              s
            ≡ s
      by_device none p = rw (p) refl
      by_device (some h) p = rw (p) (transmit_kept h bytes p)

  stored-Holds :
      (rate : ℕ) (device opening : Option ℕ)
      → Holds device opening b s
      → Holds device opening (record b { baud_rate = rate; setting = some rate }) s
  stored-Holds rate none none held = held
  stored-Holds rate none (some g) (r, at, fresh) = (r, at, inr (inl refl))
  stored-Holds rate (some h) none (r, at, fresh) = (r, at, inr (inl refl))
  stored-Holds rate (some h) (some g) held = held

  store_down : (rate : ℕ) → b.ready ≡ false → store_rate rate b ≡ b
  unfolding store_rate
  store_down rate down = ground (arith, down)

  store_up :
      (rate : ℕ)
      → b.ready ≡ true
      → store_rate rate b ≡ record b { baud_rate = rate; setting = some rate }
  unfolding store_rate
  store_up rate up = ground (arith, up)

  store_rate-Kept : (rate : ℕ) → Kept s (store_rate rate b, [])
  unfolding Kept replay
  store_rate-Kept rate = elim (Bool-cases b.ready) [
    | inr down ↦ rw (store_down rate down) i
    | inl up ↦ rw (store_up rate up) (stored-Holds rate b.device b.opening i.0, i.1, refl)
  ]

  applied_idle : (answer : Reply) → b.setting ≡ none → apply_rate answer b ≡ (invalid_state, b, [])
  unfolding apply_rate
  applied_idle answer set = ground (arith, set)

  applied_absent :
      (answer : Reply) (rate : ℕ)
      → b.setting ≡ some rate
      → b.device ≡ none
      → apply_rate answer b ≡ (ok, record b { setting = none; stale = is_some b.opening }, [])
  unfolding apply_rate
  applied_absent answer rate set e = ground (arith, set, e)

  applied_present :
      (answer : Reply) (rate h : ℕ)
      → b.setting ≡ some rate
      → b.device ≡ some h
      → apply_rate answer b
        ≡ (tolerated answer, record b { setting = none; stale = false }, line_coding h rate ∷ [])
  unfolding apply_rate
  applied_present answer rate h set e = ground (arith, set, e)

  absent-Kept :
      (opening : Option ℕ)
      → b.device ≡ none
      → b.opening ≡ opening
      → Kept s (record b { setting = none; stale = is_some b.opening }, [])
  unfolding Kept replay
  absent-Kept none e o =
      let b' = record b { setting = none; stale = is_some b.opening } in
      (
        subst (λ p. Holds p b.opening b' s) (sym e)
            (subst (λ p. Holds none p b' s) (sym o) (none_held b s i e o)),
        i.1,
        tt,
      )
  absent-Kept (some g) e o =
      let b' = record b { setting = none; stale = is_some b.opening } in
      let (r, at, fresh) = (only_opening b s i g none e o).1 in
      (
        subst (λ p. Holds p b.opening b' s) (sym e)
            (subst (λ p. Holds none p b' s) (sym o) (r, at, inl (ap is_some o))),
        i.1,
        tt,
      )

  present-Kept :
      (rate h : ℕ)
      → b.setting ≡ some rate
      → b.device ≡ some h
      → Kept s (record b { setting = none; stale = false }, line_coding h rate ∷ [])
  unfolding Kept replay
  present-Kept rate h set e =
      let b' = record b { setting = none; stale = false } in
      let (free, (r, at, fresh)) = only_held b s i h b.opening refl e in
      (
        subst (λ p. Holds p b.opening b' (on_handle h s (in_use h rate))) (sym e)
            (subst (λ p. Holds (some h) p b' (on_handle h s (in_use h rate))) (sym free)
              (
                rate,
                ap (λ t. on_handle h t (in_use h rate)) at ∙ same_handle h r (in_use h rate),
                inr (inr (subst (λ p. RateKept p b.baud_rate) set i.2)),
              )),
        i.1,
        tt,
      )

  apply_rate-Kept :
      (answer : Reply) (setting device : Option ℕ)
      → b.setting ≡ setting
      → b.device ≡ device
      → Kept s ((apply_rate answer b).1, (apply_rate answer b).2)
  unfolding Kept replay
  apply_rate-Kept answer none device set e = rw (applied_idle answer set) i
  apply_rate-Kept answer (some rate) none set e =
      rw (applied_absent answer rate set e) (absent-Kept b.opening e refl)
  apply_rate-Kept answer (some rate) (some h) set e =
      rw (applied_present answer rate h set e) (present-Kept rate h set e)

  Step-Kept : (out : Bridge × List Call) → Step v b out → Kept s out
  Step-Kept out (connects vid handle o m) = on_connected-Kept vid handle b.device refl o
  Step-Kept out publishes = publish-Kept b.opening refl
  Step-Kept out (disconnects o m) = on_disconnected-Kept b.device refl o
  Step-Kept out marks = mark-Kept b.marking refl
  Step-Kept out (sends answer bytes) =
      unfold Kept in subst (BridgeInv b) (sym (usb_cdc_send-Kept answer bytes b.device refl)) i
  Step-Kept out (stores_rate rate free) = store_rate-Kept rate
  Step-Kept out (applies_rate answer) = apply_rate-Kept answer b.setting b.device refl refl

-- However the steps of the two tasks interleave, no call is made on a handle that is not open; the
-- host has exactly the handle that the bridge holds; the rate asked of it last is s_baud_rate, unless
-- one was set during the opening, or usb_cdc_set_baud_rate has stored one and not yet had the mutex;
-- and the port is available exactly while a device is published, but for the time between the mutex
-- section of an event and the write after it, which then makes it so.
pub Run-BridgeInv :
    (v : Vendors) (b : Bridge) (calls : List Call) → Run v b calls → BridgeInv b (replay calls idle)
unfolding replay Kept
Run-BridgeInv v b calls (starts queue_made mutex_made rate) = (refl, refl, tt)
Run-BridgeInv v b calls (goes_on {b = b₀} {b' = b₁} {calls = before} {more = more} run step) =
    subst (BridgeInv b₁) (sym (replay-append before more idle))
      (Step-Kept v b₀ (replay before idle) (Run-BridgeInv v b₀ before run) (b₁, more) step)
