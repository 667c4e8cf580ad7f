-- ===== src/Session/Served.antt =====
-- The sends that succeed: with a socket that takes at least a byte at each call, there is an answer
-- for each byte.
use scroller.Prelude.{
  ℕ, ◌+◌, ◌-◌, ◌*◌, ◌/◌, ◌≤◌, ◌<◌, ◌≡◌, refl, Bool, true, false, List, [], ◌∷◌, ◌++◌, length, take,
  drop, All, arith, ltb, leb, ◌==◌, Bool-cases, length-take, length-drop, length-append, ltb→lt,
  leb→le, ne→==, inl, inr,
}
use scroller.Session.{
  Session, ok, Answer, accepted, interrupted, broken, sendbufsz, send_block, transmit, is_ok,
  send_rest, send_over, session_send,
}

abbrev pub takes : Answer → Bool
takes (accepted n) = ltb 0 n
takes interrupted = false
takes broken = false

-- The next calls take at least a byte each, and there are answers for `n` bytes.
pub record Serves (answers : List Answer) (n : ℕ) : Type 0 where
  pub each : All (λ a. takes a ≡ true) answers
  pub enough : n ≤ length answers

Serves-less : (answers : List Answer) (n k : ℕ) → k ≤ n → Serves answers n → Serves answers k
Serves-less answers n k h s = record { each = s.each; enough = omega (arith, s.enough) }

send_block-ok :
    (answers : List Answer) (wire bs : List ℕ) (m : ℕ)
    → Serves answers (length bs + m)
    → (wire' : List ℕ) × (left : List Answer) × (send_block answers wire bs ≡ (ok, wire', left))
      × Serves left m
unfolding send_block
send_block-ok answers wire [] m s =
    (wire, answers, refl, Serves-less answers (0 + m) m (omega arith) s)
send_block-ok [] wire (b ∷ bs) m s = absurd (let h = s.enough in omega arith)
send_block-ok (interrupted ∷ answers) wire (b ∷ bs) m s = absurd (let h = s.each.0 in ground arith)
send_block-ok (broken ∷ answers) wire (b ∷ bs) m s = absurd (let h = s.each.0 in ground arith)
send_block-ok (accepted n ∷ answers) wire (b ∷ bs) m s =
    let pos' = ltb→lt 0 n s.each.0 in
    let fewer = length-drop n (b ∷ bs) in
    let next : Serves answers (length (drop n (b ∷ bs)) + m) = record {
      each = s.each.1;
      enough = omega (arith, s.enough, fewer);
    } in
    rw (ne→== n 0 (omega arith))
      (send_block-ok answers (wire ++ take n (b ∷ bs)) (drop n (b ∷ bs)) m next)

transmit-ok :
    (s : Session) (bs : List ℕ) (m : ℕ)
    → Serves s.answers (length bs + m)
    → (t : Session) × (transmit s bs ≡ (ok, t)) × Serves t.answers m
unfolding transmit
transmit-ok s bs m h =
    let (wire, left, e, g) = send_block-ok s.answers s.wire bs m h in
    (record s { wire = wire; answers = left }, rw e, g)

send_rest-ok :
    (s : Session) (bs : List ℕ) (n : ℕ)
    → n ≤ length bs
    → Serves s.answers n
    → (send_rest s bs n).0 ≡ ok
unfolding send_rest is_ok
send_rest-ok s bs n le h =
    let k = n / sendbufsz * sendbufsz in
    let few = length-take k bs in
    let (t, e, g) =
      transmit-ok s (take k bs) 0
        (Serves-less s.answers n (length (take k bs) + 0) (omega arith) h) in
    elim (Bool-cases ((n / sendbufsz) == 0)) [
      | inl none_full ↦ rw none_full
      | inr full ↦ rw (full, e)
    ]

-- If each call of send() takes at least a byte, and there are as many calls as bytes in the buffer
-- and the data, then `session_send` succeeds.
pub session_send-ok :
    (s : Session) (buf : List ℕ)
    → length s.pending < sendbufsz
    → Serves s.answers (length s.pending + length buf)
    → (session_send s buf).0 ≡ ok
unfolding session_send send_over is_ok
session_send-ok s buf room h =
    let head = sendbufsz - length s.pending in
    elim (Bool-cases (leb sendbufsz (length s.pending + length buf))) [
      | inr short ↦ rw short
      | inl long ↦
          let le = leb→le sendbufsz (length s.pending + length buf) long in
          let size = length-append s.pending (take head buf) in
          let part = length-take head buf in
          let left = length-drop head buf in
          let (t, e, g) = transmit-ok s (s.pending ++ take head buf) (length buf - head) (
            Serves-less s.answers (length s.pending + length buf)
              (length (s.pending ++ take head buf) + (length buf - head)) (omega arith) h) in
          rw long (elim (Bool-cases (ltb 0 (length s.pending))) [
            | inl held ↦
                rw (held, e) (send_rest-ok t (drop head buf) (length buf - head) (omega arith) g)
            | inr empty ↦ rw empty (
                send_rest-ok s buf (length buf - head) (omega arith) (
                  Serves-less s.answers (length s.pending + length buf) (length buf - head)
                    (omega arith) h))
          ])
    ]
