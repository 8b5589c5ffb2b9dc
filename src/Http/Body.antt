-- ===== src/Http/Body.antt =====
-- main/web_server.c: read_body. httpd_req_recv gives at most the bytes that it is asked for, which
-- the model cuts a segment to; a segment without bytes is a closed or failed connection.
use esp32_web_terminal.Prelude.{
  ℕ, zero, suc, ◌-◌, ◌<◌, ◌≡◌, refl, ap, ◌∙◌, sym, false, Option, none, some, List, [], ◌∷◌, ◌++◌,
  arith, Bytes, leb, ◌==◌, if◌then◌else◌, length, length-append, length-take, take, Bool-cases, inl,
  inr,
}
use mathlib.Core.List.{append-nil, append_assoc}

-- The body read so far with `remaining` bytes to come; none for -1.
unfoldable pub read_loop : List Bytes → ℕ → Bytes → Option Bytes
read_loop segs zero buf = some buf
read_loop [] (suc r) buf = none
read_loop (seg ∷ segs) (suc r) buf =
    let n = length (take (suc r) seg) in
    let rest = read_loop segs (suc r - n) (buf ++ take (suc r) seg) in if n == 0 then none else rest

-- The results of read_body: 0, -1, or the length with the bytes in the buffer.
pub data Body : Type 0 where
  absent bad : Body
  body : Bytes → Body

abbrev pub body_of : Option Bytes → Body
body_of none = bad
body_of (some bytes) = body bytes

unfoldable pub read_body : ℕ → List Bytes → ℕ → Body
unfolding read_loop
read_body content_len segs buf_len =
    if content_len == 0
    then absent
    else if leb buf_len content_len
    then bad
    else body_of (read_loop segs content_len [])

-- The bytes that arrive before the connection fails.
unfoldable pub arrived : List Bytes → Bytes
arrived [] = []
arrived (seg ∷ segs) = if length seg == 0 then [] else seg ++ arrived segs

take-append : (n : ℕ) (xs ys : Bytes) → take n (xs ++ ys) ≡ take n xs ++ take (n - length xs) ys
take-append zero xs ys = let e : zero - length xs ≡ 0 = omega arith in rw (e) refl
take-append (suc n) [] ys = let e : suc n - 0 ≡ suc n = omega arith in rw (e) refl
take-append (suc n) (x ∷ xs) ys =
    let e : suc n - suc (length xs) ≡ n - length xs = omega arith in
    rw (e) (ap (◌∷◌ x) (take-append n xs ys))

-- What is left to read after a segment, and what is then in the buffer.
after_segment :
    (n : ℕ) (seg rest buf : Bytes)
    → (if leb (n - length (take n seg)) (length rest)
        then some ((buf ++ take n seg) ++ take (n - length (take n seg)) rest)
        else none)
      ≡ (if leb n (length (seg ++ rest)) then some (buf ++ take n (seg ++ rest)) else none)
after_segment n seg rest buf =
    let left : n - length (take n seg) ≡ n - length seg = omega (arith, length-take n seg) in
    let joined : buf ++ take n (seg ++ rest) ≡ (buf ++ take n seg) ++ take (n - length seg) rest =
      ap (◌++◌ buf) (take-append n seg rest)
      ∙ sym (append_assoc buf (take n seg) (take (n - length seg) rest)) in
    let enough : leb (n - length seg) (length rest) ≡ leb n (length (seg ++ rest)) =
      ground (arith, length-append {0} seg rest) in
    rw (left, joined, enough) refl

-- The loop reads what arrives, whatever its segments.
read_loop-arrived :
    (segs : List Bytes) (n : ℕ) (buf : Bytes)
    → read_loop segs n buf
      ≡ (if leb n (length (arrived segs)) then some (buf ++ take n (arrived segs)) else none)
unfolding read_loop arrived
read_loop-arrived segs zero buf = rw (append-nil buf) (ground arith)
read_loop-arrived [] (suc r) buf = ground arith
read_loop-arrived ([] ∷ segs) (suc r) buf = ground arith
read_loop-arrived ((b ∷ bs) ∷ segs) (suc r) buf =
    let some_read : (suc (length (take r bs)) == 0) ≡ false = ground arith in
    let some_sent : (suc (length bs) == 0) ≡ false = ground arith in
    rw (some_read, some_sent)
      (read_loop-arrived segs (suc r - suc (length (take r bs))) (buf ++ (b ∷ take r bs))
        ∙ after_segment (suc r) (b ∷ bs) (arrived segs) buf)

-- A body that is announced and fits the buffer is read exactly if all of it arrives before the
-- connection fails, and then it is what arrived, however it was cut into segments; otherwise the
-- result is -1.
pub read_body-arrived :
    (content_len buf_len : ℕ) (segs : List Bytes)
    → 0 < content_len
    → content_len < buf_len
    → read_body content_len segs buf_len ≡ (
        if leb content_len (length (arrived segs))
        then body (take content_len (arrived segs))
        else bad)
unfolding read_body
read_body-arrived content_len buf_len segs some_bytes fits =
    let present : (content_len == 0) ≡ false = ground arith in
    let room : leb buf_len content_len ≡ false = ground arith in
    rw (present, room, read_loop-arrived segs content_len [])
      (elim (Bool-cases (leb content_len (length (arrived segs)))) [
        | inl all ↦ rw (all) refl
        | inr cut ↦ rw (cut) refl
      ])

-- What read_body puts into the buffer leaves room for the terminator.
pub read_body-lt :
    (content_len buf_len : ℕ) (segs : List Bytes) (bytes : Bytes)
    → read_body content_len segs buf_len ≡ body bytes
    → length bytes < buf_len
unfolding read_body
read_body-lt content_len buf_len segs bytes e =
    ground (arith, read_loop-arrived segs content_len [], length-take content_len (arrived segs))
