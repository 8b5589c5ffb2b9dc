-- ===== src/Http/Upload/Loop.antt =====
-- The loop of handle_ota (main/web_server.c): what it writes, when it succeeds, and that a stalled
-- client is given up.
use esp32_web_terminal.Prelude.{
  ℕ, ◌+◌, ◌≤◌, ◌<◌, ◌≡◌, refl, sym, ap, ◌∙◌, inl, inr, Bool, true, false, List, [], ◌∷◌, ◌++◌,
  arith, Bytes, ltb, leb, ◌==◌, if◌then◌else◌, length, length-append, take, replicate, Bool-cases,
  All,
}
use mathlib.Core.List.{append_assoc, append-nil}
use esp32_web_terminal.Http.{Effect, ota_write}
use esp32_web_terminal.Http.Upload.{
  Recv, chunk, timeout, recv_error, chunk_size, max_timeouts, ota_loop,
}

-- The bytes that a list of effects writes to the partition.
unfoldable pub written : List Effect → Bytes
written [] = []
written (ota_write b ∷ es) = b ++ written es
written (e ∷ es) = written es

-- The bytes that the answers of httpd_req_recv bring.
unfoldable pub received : List Recv → Bytes
received [] = []
received (chunk b w ∷ rs) = take chunk_size b ++ received rs
received (timeout ∷ rs) = received rs
received (recv_error ∷ rs) = []

-- What is left of the loop's result behind a piece, and whether its write worked.
abbrev behind : Bool → Bytes → Bool × List Effect → Bool × List Effect
behind w got rest = if w then (rest.0, ota_write got ∷ rest.1) else (true, ota_write got ∷ [])

-- What is written is a beginning of what is received.
abbrev pub Begins : Bytes → Bytes → Type 0
Begins xs ys = (rest : Bytes) × (xs ++ rest ≡ ys)

pub ota_loop-Begins :
    (rs : List Recv) (content_len total timeouts : ℕ)
    → Begins (written (ota_loop rs content_len total timeouts).1) (received rs)
unfolding ota_loop written received
ota_loop-Begins [] content_len total timeouts = ([], refl)
ota_loop-Begins (recv_error ∷ rs) content_len total timeouts = ([], refl)
ota_loop-Begins (timeout ∷ rs) content_len total timeouts =
    let ih = ota_loop-Begins rs content_len total (timeouts + 1) in
    elim (Bool-cases (leb content_len total)) [
      | inl done ↦ rw (done) (received rs, refl)
      | inr more ↦ elim (Bool-cases (ltb (timeouts + 1) 5)) [
        | inl again ↦ rw (more, again) ih
        | inr given_up ↦ rw (more, given_up) (received rs, refl)
      ]
    ]
ota_loop-Begins (chunk b w ∷ rs) content_len total timeouts =
    let got = take 4096 b in
    let ih = ota_loop-Begins rs content_len (total + length got) 0 in
    elim (Bool-cases (leb content_len total)) [
      | inl done ↦ rw (done) (got ++ received rs, refl)
      | inr more ↦ elim (Bool-cases (length got == 0)) [
        | inl empty ↦ rw (more, empty) (got ++ received rs, refl)
        | inr some_bytes ↦ rw (more, some_bytes) (stored w got (received rs) _ ih)
      ]
    ]
  where
    stored :
        (w : Bool) (got later : Bytes) (rest : Bool × List Effect)
        → Begins (written rest.1) later
        → Begins (written (behind w got rest).1) (got ++ later)
    stored true got later rest (r, e) = (r, append_assoc got (written rest.1) r ∙ ap (◌++◌ got) e)
    stored false got later rest h = (later, ap (λ t. t ++ later) (append-nil got))

-- The loop succeeds only once everything announced is written.
pub ota_loop_complete :
    (rs : List Recv) (content_len total timeouts : ℕ)
    → (ota_loop rs content_len total timeouts).0 ≡ false
    → content_len ≤ total + length (written (ota_loop rs content_len total timeouts).1)
unfolding ota_loop written
ota_loop_complete [] content_len total timeouts e = ground arith
ota_loop_complete (recv_error ∷ rs) content_len total timeouts e = ground arith
ota_loop_complete (timeout ∷ rs) content_len total timeouts e =
    ground (arith, ota_loop_complete rs content_len total (timeouts + 1))
ota_loop_complete (chunk b w ∷ rs) content_len total timeouts e =
    let got = take 4096 b in
    let ih = ota_loop_complete rs content_len (total + length got) 0 in
    elim (Bool-cases (leb content_len total)) [
      | inl done ↦ rw (done) (ground (arith, done))
      | inr more ↦ elim (Bool-cases (length got == 0)) [
        | inl empty ↦
            let stopped : ota_loop (chunk b w ∷ rs) content_len total timeouts ≡ (true, []) =
              rw (more, empty, ota_loop) refl in
            absurd (cc (sym e ∙ ap (λ (p : Bool × List Effect). p.0) stopped))
        | inr some_bytes ↦
            let goes_on : ota_loop (chunk b w ∷ rs) content_len total timeouts
                ≡ behind w got (ota_loop rs content_len (total + length got) 0) =
              rw (more, some_bytes, ota_loop) refl in
            let succeeded = ap (λ (p : Bool × List Effect). p.0) (sym goes_on) ∙ e in
            rw (goes_on) (enough w got _ content_len total succeeded ih)
      ]
    ]
  where
    enough :
        (w : Bool) (got : Bytes) (rest : Bool × List Effect) (content_len total : ℕ)
        → (behind w got rest).0 ≡ false
        → (rest.0 ≡ false → content_len ≤ total + length got + length (written rest.1))
        → content_len ≤ total + length (written (behind w got rest).1)
    enough true got rest content_len total e h =
        omega (arith, h e, length-append {0} got (written rest.1))
    enough false got rest content_len total e h = absurd (cc e)

-- A client that is silent for five timeouts is given up, whatever it would still send.
pub ota_loop_stalled :
    (rs : List Recv) (content_len total : ℕ)
    → total < content_len
    → ota_loop (replicate max_timeouts timeout ++ rs) content_len total 0 ≡ (true, [])
unfolding ota_loop
ota_loop_stalled rs content_len total more = ground arith

abbrev pub IsWrite : Effect → Type 0
IsWrite (ota_write b) = Unit {0}
IsWrite e = ⊥

behind-writes :
    (w : Bool) (got : Bytes) (rest : Bool × List Effect)
    → All IsWrite rest.1
    → All IsWrite (behind w got rest).1
behind-writes true got rest a = (tt, a)
behind-writes false got rest a = (tt, tt)

pub ota_loop-writes :
    (rs : List Recv) (content_len total timeouts : ℕ)
    → All IsWrite (ota_loop rs content_len total timeouts).1
unfolding ota_loop
ota_loop-writes [] content_len total timeouts = tt
ota_loop-writes (recv_error ∷ rs) content_len total timeouts = tt
ota_loop-writes (timeout ∷ rs) content_len total timeouts =
    let ih = ota_loop-writes rs content_len total (timeouts + 1) in
    elim (Bool-cases (leb content_len total)) [
      | inl done ↦ rw (done) tt
      | inr more ↦ elim (Bool-cases (ltb (timeouts + 1) 5)) [
        | inl again ↦ rw (more, again) ih
        | inr given_up ↦ rw (more, given_up) tt
      ]
    ]
ota_loop-writes (chunk b w ∷ rs) content_len total timeouts =
    let got = take 4096 b in
    let ih = ota_loop-writes rs content_len (total + length got) 0 in
    elim (Bool-cases (leb content_len total)) [
      | inl done ↦ rw (done) tt
      | inr more ↦ elim (Bool-cases (length got == 0)) [
        | inl empty ↦ rw (more, empty) tt
        | inr some_bytes ↦ rw (more, some_bytes) (behind-writes w got _ ih)
      ]
    ]
