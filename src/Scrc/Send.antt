-- ===== src/Scrc/Send.antt =====
-- `send_query`: the bytes of a request on the wire.
use scroller.Prelude.{
  ℕ, ◌+◌, ◌-◌, ◌≤◌, ◌<◌, ◌≡◌, ◌⊎◌, inl, inr, refl, sym, ap, ◌∙◌, Option, none, some, List, [], ◌∷◌,
  ◌++◌, length, length-append, take, drop, append_assoc, append-nil, take-append-drop, length-drop,
  ◌^◌, ltb, Bool-cases, arith, subst, lt→ltb, ltb→lt,
}
use scroller.Session.{Answer, accepted, interrupted, broken}
use scroller.Scrc.Bytes.{bytes_at}
use scroller.Scrc.{send_block, send_query, request, printed, bufsz, scrc_ok, scrc_send_error}

-- The bytes that send() takes in some calls.
abbrev pub taken : List Answer → ℕ
taken [] = 0
taken (accepted n ∷ answers) = n + taken answers
taken (interrupted ∷ answers) = taken answers
taken (broken ∷ answers) = taken answers

-- How a call of `send_block` ends: it waits, as send() has not taken all; or the bytes are on the
-- wire; or a call of send() before that failed, those it took are there, and the status is that of a
-- send error.
abbrev pub Sent : List Answer → List ℕ → List ℕ → Option (ℕ × List ℕ × List Answer) → Type 0
Sent answers wire bytes result =
    ((result ≡ none) × (taken answers < length bytes))
    ⊎ ((left : List Answer) × (result ≡ some (scrc_ok, wire ++ bytes, left)))
    ⊎ ((before : List Answer) × (left : List Answer) × (front : List ℕ) × (back : List ℕ) × (answers
          ≡ before ++ broken ∷ left)
        × (taken before < length bytes)
        × (bytes ≡ front ++ back)
        × (result ≡ some (scrc_send_error, wire ++ front, left)))

send_block-Sent :
    (answers : List Answer) (wire bytes : List ℕ)
    → Sent answers wire bytes (send_block answers wire bytes)
unfolding send_block
send_block-Sent answers wire [] = inr (inl (answers, rw (append-nil wire) refl))
send_block-Sent [] wire (b ∷ bs) = inl (refl, omega arith)
send_block-Sent (interrupted ∷ answers) wire (b ∷ bs) =
    elim (send_block-Sent answers wire (b ∷ bs)) [
      | inl e ↦ inl e
      | inr (inl e) ↦ inr (inl e)
      | inr (inr (before, left, front, back, at, few, parts, e)) ↦ inr (
          inr
            (interrupted ∷ before, left, front, back, ap (λ z. interrupted ∷ z) at, few, parts, e))
    ]
send_block-Sent (broken ∷ answers) wire (b ∷ bs) =
    inr (inr ([], answers, [], b ∷ bs, refl, omega arith, refl, rw (append-nil wire) refl))
send_block-Sent (accepted n ∷ answers) wire (b ∷ bs) =
    let block = take n (b ∷ bs) in
    let rest = drop n (b ∷ bs) in
    let whole : block ++ rest ≡ b ∷ bs = take-append-drop n (b ∷ bs) in
    let shorter : length rest ≡ length (b ∷ bs) - n = length-drop n (b ∷ bs) in
    elim (send_block-Sent answers (wire ++ block) rest) [
      | inl (e, few) ↦ inl (e, omega (arith, few, shorter))
      | inr (inl (left, e)) ↦ inr (
          inl (
            left,
            e
                ∙ ap (λ z. some (scrc_ok, z, left))
                    (append_assoc wire block rest ∙ ap (λ z. wire ++ z) whole),
          ))
      | inr (inr (before, left, front, back, at, few, parts, e)) ↦ inr (
          inr (
            accepted n ∷ before,
            left,
            block ++ front,
            back,
            ap (λ z. accepted n ∷ z) at,
            omega (arith, few, shorter),
            sym whole ∙ ap (λ z. block ++ z) parts ∙ sym (append_assoc block front back),
            e ∙ ap (λ z. some (scrc_send_error, z, left)) (append_assoc wire block front),
          ))
    ]

-- For a query that is not empty and, with its end marker, shorter than BUFSZ, `send_query` waits as
-- long as send() has not taken the query and the marker; or succeeds with them behind what was on the
-- wire; or a call of send() failed before, and a first part of them is there.
pub send_query-Sent :
    (beyond : ℕ → ℕ) (answers : List Answer) (wire query : List ℕ)
    → 1 ≤ length query
    → length query + 4 < bufsz
    → Sent answers wire (request query) (send_query beyond answers wire query)
unfolding send_query
send_query-Sent beyond answers wire [] some_query short = absurd (omega arith)
send_query-Sent beyond answers wire (b ∷ bs) some_query short =
    let len = length-append {0} (b ∷ bs) (10 ∷ 36 ∷ 36 ∷ 10 ∷ []) in
    let fits : length (request (b ∷ bs)) < bufsz = omega (arith, len) in
    let same : printed beyond (request (b ∷ bs)) ≡ request (b ∷ bs) =
      rw (lt→ltb (length (request (b ∷ bs))) bufsz fits) refl in
    subst (λ z. Sent answers wire (request (b ∷ bs)) (send_block answers wire z)) (sym same)
      (send_block-Sent answers wire (request (b ∷ bs)))

-- For a query that is not shorter than BUFSZ with its end marker, and whose length with the marker is
-- an int, the bytes that `send_query` has to send are BUFSZ - 1 bytes of the query and its marker, a
-- zero, and what lies behind the buffer in memory: it waits only as long as send() has not taken so
-- many bytes, succeeds with all of them on the wire, or fails only after a call of send() that failed
-- before they were taken, with a first part of them on the wire.
pub send_query_overflow :
    (beyond : ℕ → ℕ) (answers : List Answer) (wire query : List ℕ)
    → bufsz ≤ length query + 4
    → length query + 4 < 2 ^ 31
    → Sent answers wire
        (take (bufsz - 1) (request query) ++ 0 ∷ bytes_at beyond 0 (length query + 4 - bufsz))
        (send_query beyond answers wire query)
unfolding send_query
send_query_overflow beyond answers wire [] long int = absurd (omega arith)
send_query_overflow beyond answers wire (b ∷ bs) long int =
    let text = request (b ∷ bs) in
    let len = length-append {0} (b ∷ bs) (10 ∷ 36 ∷ 36 ∷ 10 ∷ []) in
    let total : length text ≡ length (b ∷ bs) + 4 = omega (arith, len) in
    let less : length text < 2 ^ 31 = omega (arith, total) in
    let sent = take (bufsz - 1) text ++ 0 ∷ bytes_at beyond 0 (length (b ∷ bs) + 4 - bufsz) in
    let same : printed beyond text ≡ sent = elim (Bool-cases (ltb (length text) bufsz)) [
      | inl e ↦ absurd (let lt = ltb→lt (length text) bufsz e in omega (arith, total, lt, long))
      | inr e ↦
          rw (e, lt→ltb (length text) (2 ^ 31) less)
            (ap (λ z. take (bufsz - 1) text ++ 0 ∷ bytes_at beyond 0 (z - bufsz)) total)
    ] in
    subst (λ z. Sent answers wire sent (send_block answers wire z)) (sym same)
      (send_block-Sent answers wire sent)
