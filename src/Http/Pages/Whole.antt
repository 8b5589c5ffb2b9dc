-- ===== src/Http/Pages/Whole.antt =====
-- handle_xterm_js of main/web_server.c sends the whole file.
use esp32_web_terminal.Prelude.{
  ℕ, zero, suc, ◌≤◌, ◌≡◌, refl, sym, ap, ◌∙◌, Bool, true, false, List, [], ◌∷◌, ◌++◌, arith, Bytes,
  ◌==◌, length, length-drop, take, drop,
}
use mathlib.Core.List.{append-nil, append_assoc}
use esp32_web_terminal.Http.Pages.{page_chunk, send_loop, handle_xterm_js}

abbrev pub joined : List Bytes → Bytes
joined [] = []
joined (b ∷ bs) = b ++ joined bs

take-drop : (n : ℕ) (bs : Bytes) → take n bs ++ drop n bs ≡ bs
take-drop zero bs = refl
take-drop (suc n) [] = refl
take-drop (suc n) (b ∷ bs) = ap (◌∷◌ b) (take-drop n bs)

send_loop_whole :
    (fuel : ℕ) (accepts : ℕ → Bool) (bytes : Bytes)
    → length bytes ≤ fuel
    → ((n : ℕ) → accepts n ≡ true)
    → ((send_loop fuel accepts bytes).0 ≡ true) × (joined (send_loop fuel accepts bytes).1 ≡ bytes)
unfolding send_loop
send_loop_whole zero accepts [] le all = (refl, refl)
send_loop_whole zero accepts (b ∷ bs) le all = absurd (omega arith)
send_loop_whole (suc fuel) accepts [] le all = (refl, refl)
send_loop_whole (suc fuel) accepts (b ∷ bs) le all =
    let left : (length (b ∷ bs) == 0) ≡ false = ground arith in
    let ih =
      send_loop_whole fuel (λ n. accepts (suc n)) (drop page_chunk (b ∷ bs))
        (omega (arith, length-drop {0} page_chunk (b ∷ bs))) (λ n. all (suc n)) in
    rw (left, all 0)
      (ih.0, ap (◌++◌ (take page_chunk (b ∷ bs))) ih.1 ∙ take-drop page_chunk (b ∷ bs))

joined-append : (bs cs : List Bytes) → joined (bs ++ cs) ≡ joined bs ++ joined cs
joined-append [] cs = refl
joined-append (b ∷ bs) cs =
    ap (◌++◌ b) (joined-append bs cs) ∙ sym (append_assoc b (joined bs) (joined cs))

-- When every chunk is taken, handle_xterm_js sends the file whole and in order.
pub handle_xterm_js_whole :
    (accepts : ℕ → Bool) (file : Bytes)
    → ((n : ℕ) → accepts n ≡ true)
    → ((handle_xterm_js accepts file).0 ≡ true) × (joined (handle_xterm_js accepts file).1 ≡ file)
unfolding handle_xterm_js
handle_xterm_js_whole accepts file all =
    let sent = send_loop_whole (length file) accepts file (omega arith) all in
    (
      sent.0,
      joined-append (send_loop (length file) accepts file).1 ([] ∷ []) ∙ append-nil _ ∙ sent.1,
    )
