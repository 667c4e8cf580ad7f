-- ===== src/Session/Examples.antt =====
-- A session that sends, and the theorems at it.
use scroller.Prelude.{ℕ, ◌≡◌, refl, ◌<◌, inl, List, [], ◌∷◌, length, replicate, arith}
use scroller.Session.{
  ok, accepted, interrupted, Session, send_block, transmit, is_ok, send_rest, send_over,
  session_send, session_flush, send_all, session_send_header_str, session_finish_header,
}
use scroller.Session.Served.{session_send-ok}
use scroller.Session.Send.{stream, session_send-stream}

abbrev fresh : Session
fresh = record {
  pending = [];
  wire = [];
  answers = accepted 3 ∷ interrupted ∷ accepted 100 ∷ accepted 5000 ∷ [];
}

-- `Status: 0`, the end mark and a flush, with a short write and an EINTR on the way.
reply : Session
reply =
    let (_, a) = session_send_header_str fresh (83 ∷ []) (b'0' ∷ []) in
    let (_, b) = session_finish_header a in (session_flush b).1

reply_output :
    (reply.wire ≡ 83 ∷ b':' ∷ b' ' ∷ b'0' ∷ 10 ∷ b'$' ∷ b'$' ∷ 10 ∷ []) × (reply.pending ≡ [])
unfolding reply session_send_header_str session_finish_header send_all session_flush session_send
    send_over send_rest transmit send_block is_ok
reply_output = (refl, refl)

abbrev started : Session
started = record fresh { pending = 1 ∷ 2 ∷ [] }

session_send-stream_example :
    (stream (session_send started (3 ∷ [])).1 ≡ 1 ∷ 2 ∷ 3 ∷ [])
    × (length (session_send started (3 ∷ [])).1.pending < 4096)
unfolding session_send
session_send-stream_example =
    session_send-stream started (3 ∷ []) (omega arith) (inl (omega arith)) refl

-- A block of 4096 zeros.
abbrev block : List ℕ
block = replicate 4096 0

-- Six calls that take two bytes each.
abbrev served : Session
served = record started { answers = replicate 6 (accepted 2) }

session_send-ok_example : (session_send served (3 ∷ 4 ∷ [])).0 ≡ ok
session_send-ok_example =
    session_send-ok served (3 ∷ 4 ∷ []) (omega arith)
      (record { each = (refl, (refl, (refl, (refl, (refl, (refl, tt)))))); enough = omega arith })
