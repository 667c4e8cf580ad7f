-- ===== src/Session/Send.antt =====
-- The stream of bytes through `session_send`.
use scroller.Prelude.{
  ℕ, zero, suc, ◌⊎◌, if◌then◌else◌, ◌+◌, ◌-◌, ◌*◌, ◌/◌, ◌%◌, ◌≤◌, ◌<◌, ◌≡◌, refl, sym, ◌∙◌, ap,
  true, List, [], ◌∷◌, ◌++◌, length, take, drop, append_assoc, append-nil, take-append-drop,
  take-add, length-drop, length-take, take_of_length-le, length-append, arith, Bool-cases, inl, inr,
  ◌==◌, leb, lt→ltb, leb→le, le→leb, ne→==,
}
use scroller.Session.{
  sendbufsz, Status, ok, send_error, session_closed, starved, Answer, accepted, interrupted, broken,
  Session, send_block, transmit, is_ok, send_rest, session_send, send_over, session_flush,
}

-- All the bytes that the session has sent or holds, in order.
abbrev pub stream : Session → List ℕ
stream s = s.wire ++ s.pending

send_block-ok :
    (answers : List Answer) (wire bytes : List ℕ)
    → (send_block answers wire bytes).0 ≡ ok
    → (send_block answers wire bytes).1 ≡ wire ++ bytes
unfolding send_block
send_block-ok answers wire [] e = sym (append-nil wire)
send_block-ok [] wire (b ∷ bs) e = ground arith
send_block-ok (interrupted ∷ answers) wire (b ∷ bs) e = send_block-ok answers wire (b ∷ bs) e
send_block-ok (broken ∷ answers) wire (b ∷ bs) e = ground arith
send_block-ok (accepted zero ∷ answers) wire (b ∷ bs) e = ground arith
send_block-ok (accepted (suc n) ∷ answers) wire (b ∷ bs) e =
    let head = take (suc n) (b ∷ bs) in
    let left = drop (suc n) (b ∷ bs) in
    let some_taken = ne→== (suc n) 0 (omega arith) in
    rw some_taken (
      send_block-ok answers (wire ++ head) left (rw some_taken at e)
      ∙ append_assoc wire head left
      ∙ ap (◌++◌ wire) (take-append-drop (suc n) (b ∷ bs)))

transmit-ok :
    (s : Session) (bytes : List ℕ)
    → (transmit s bytes).0 ≡ ok
    → (transmit s bytes).1.wire ≡ s.wire ++ bytes
unfolding transmit
transmit-ok s bytes e = send_block-ok s.answers s.wire bytes e

ok_of-is_ok : (st : Status) → is_ok st ≡ true → st ≡ ok
unfolding is_ok
ok_of-is_ok ok h = refl
ok_of-is_ok send_error h = cc
ok_of-is_ok session_closed h = cc
ok_of-is_ok starved h = cc

-- `if (status != SCRS_OK) return status;`: where the whole succeeds, so did the first part.
step_ok :
    (sent next : Status × Session)
    → (if is_ok sent.0 then next else sent).0 ≡ ok
    → (sent.0 ≡ ok) × ((if is_ok sent.0 then next else sent) ≡ next)
unfolding is_ok
step_ok sent next e = elim (Bool-cases (is_ok sent.0)) [
  | inl good ↦ (ok_of-is_ok sent.0 good, rw good)
  | inr bad ↦ let fine : sent.0 ≡ ok = rw bad at e in cc (rw fine at bad)
]

empty_of-length : (xs : List ℕ) → (length xs == 0) ≡ true → xs ≡ []
empty_of-length [] h = refl
empty_of-length (x ∷ xs) h = ground arith

-- The steps behind the first: `remaining` bytes of `buf` go out or into the buffer.
send_rest-ok :
    (s : Session) (buf : List ℕ) (remaining : ℕ)
    → (send_rest s buf remaining).0 ≡ ok
    → (stream (send_rest s buf remaining).1 ≡ s.wire ++ take remaining buf)
      × (length (send_rest s buf remaining).1.pending < sendbufsz)
unfolding send_rest
send_rest-ok s buf remaining e = elim (Bool-cases (remaining / sendbufsz == 0)) [
  | inl none_full ↦ rw none_full (
    ap (λ n. s.wire ++ take n buf) (ground arith),
    omega (arith, length-take {0} (remaining % sendbufsz) buf),
  )
  | inr full ↦
      let blocks = remaining / sendbufsz * sendbufsz in
      let tail = remaining % sendbufsz in
      let sent = transmit s (take blocks buf) in
      let (fine, shape) = step_ok sent _ (rw full at e) in
      rw (full, shape)
        (
          ap (λ w. w ++ take tail (drop blocks buf)) (transmit-ok s (take blocks buf) fine)
              ∙ append_assoc s.wire (take blocks buf) (take tail (drop blocks buf))
              ∙ ap (◌++◌ s.wire) (take-add blocks tail buf)
              ∙ ap (λ n. s.wire ++ take n buf) (omega arith),
          omega (arith, length-take {0} tail (drop blocks buf)),
        )
]

filled :
    (wire pending buf : List ℕ) (head : ℕ)
    → (wire ++ (pending ++ take head buf)) ++ take (length buf - head) (drop head buf)
      ≡ (wire ++ pending) ++ buf
filled wire pending buf head =
    rw
      (take_of_length-le (length buf - head) (drop head buf)
        (omega (arith, length-drop {0} head buf)))
      (simp (append_assoc, take-append-drop))

-- While the buffer holds something, or the data end before its end, a successful `session_send`
-- appends the data to the stream, and leaves the buffer short of its end.
pub session_send-stream :
    (s : Session) (buf : List ℕ)
    → length s.pending < sendbufsz
    → (0 < length s.pending) ⊎ (length buf < sendbufsz)
    → (session_send s buf).0 ≡ ok
    → (stream (session_send s buf).1 ≡ stream s ++ buf)
      × (length (session_send s buf).1.pending < sendbufsz)
unfolding session_send send_over
session_send-stream s buf room held e =
    elim (Bool-cases (leb sendbufsz (length s.pending + length buf))) [
      | inr short ↦
          rw short (
            sym (append_assoc s.wire s.pending buf),
            ground (arith, length-append {0} s.pending buf),
          )
      | inl over ↦
          let idx = length s.pending in
          let len = length buf in
          let head = sendbufsz - idx in
          let full = leb→le sendbufsz (idx + len) over in
          let some = lt→ltb 0 idx (omega arith) in
          let next =
            send_rest (transmit s (s.pending ++ take head buf)).1 (drop head buf) (len - head) in
          let (fine, shape) =
            step_ok (transmit s (s.pending ++ take head buf)) next (rw (over, some) at e) in
          let (same, short) =
            send_rest-ok _ (drop head buf) (len - head) (rw (over, some, shape) at e) in
          let rejoin =
            ap (λ w. w ++ take (len - head) (drop head buf))
              (transmit-ok s (s.pending ++ take head buf) fine)
            ∙ filled s.wire s.pending buf head in
          rw (over, some, shape) (same ∙ rejoin, short)
    ]

-- With an empty buffer and data of at least its size a successful `session_send` loses the last
-- `sendbufsz` bytes of the data.
pub session_send_loses :
    (s : Session) (buf : List ℕ)
    → length s.pending ≡ 0
    → sendbufsz ≤ length buf
    → (session_send s buf).0 ≡ ok
    → stream (session_send s buf).1 ≡ s.wire ++ take (length buf - sendbufsz) buf
unfolding session_send send_over
session_send_loses s buf empty long e =
    let over = le→leb sendbufsz (0 + length buf) (omega arith) in
    rw (empty, over) ((send_rest-ok s buf (length buf - sendbufsz) (rw (empty, over) at e)).0)

-- A successful `session_flush` moves all that the buffer holds to the client.
pub session_flush-stream :
    (s : Session)
    → (session_flush s).0 ≡ ok
    → ((session_flush s).1.wire ≡ stream s) × ((session_flush s).1.pending ≡ [])
unfolding session_flush
session_flush-stream s e = elim (Bool-cases (length s.pending == 0)) [
  | inl none_held ↦ rw none_held (
    sym (append-nil s.wire) ∙ ap (◌++◌ s.wire) (sym (empty_of-length s.pending none_held)),
    empty_of-length s.pending none_held,
  )
  | inr held ↦
      let (fine, shape) = step_ok (transmit s s.pending) _ (rw held at e) in
      rw (held, shape) (transmit-ok s s.pending fine, refl)
]
