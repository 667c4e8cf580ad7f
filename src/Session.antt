-- ===== src/Session.antt =====
-- src/scrs/session.c: the send buffer between a session and its client. The bytes
-- send_buf[0 .. send_buf_idx) are the list `pending`; what the kernel has taken is the list `wire`.
pub mod Send
pub mod Served
mod Examples
use scroller.Prelude.{
  ℕ, ◌+◌, ◌-◌, ◌*◌, ◌/◌, ◌%◌, Bool, true, false, List, [], ◌∷◌, ◌++◌, length, take, drop, ltb, leb,
  ◌==◌, if◌then◌else◌,
}

-- SENDBUFSZ
abbrev pub sendbufsz : ℕ
sendbufsz = 4096

-- `starved` is no status: the answers of the kernel are used up while `send` is called.
pub data Status : Type 0 where
  ok send_error session_closed starved : Status

-- What one call of send(2) answers: a number of bytes taken, EINTR, or another error.
pub data Answer : Type 0 where
  accepted : ℕ → Answer
  interrupted broken : Answer

pub record Session : Type 0 where
  pub pending : List ℕ
  pub wire : List ℕ
  pub answers : List Answer

-- The loop of `send_block`, with the bytes that are left.
unfoldable pub send_block : List Answer → List ℕ → List ℕ → Status × List ℕ × List Answer
send_block answers wire [] = (ok, wire, answers)
send_block [] wire (b ∷ bs) = (starved, wire, [])
send_block (interrupted ∷ answers) wire (b ∷ bs) = send_block answers wire (b ∷ bs)
send_block (broken ∷ answers) wire (b ∷ bs) = (send_error, wire, answers)
send_block (accepted n ∷ answers) wire (b ∷ bs) =
    let rest = send_block answers (wire ++ take n (b ∷ bs)) (drop n (b ∷ bs)) in
    if n == 0 then (session_closed, wire, answers) else rest

-- Sends bytes of the session, with no change of its buffer.
unfoldable pub transmit : Session → List ℕ → Status × Session
transmit s bytes =
    let (status, wire, answers) = send_block s.answers s.wire bytes in
    (status, record s { wire = wire; answers = answers })

unfoldable pub is_ok : Status → Bool
is_ok ok = true
is_ok _ = false

-- The second and the third step of `session_send`, from the place in `buf` that is reached: whole
-- blocks go out directly, and the tail into the buffer.
unfoldable pub send_rest : Session → List ℕ → ℕ → Status × Session
unfolding is_ok
send_rest s buf remaining =
    let full_blocks = remaining / sendbufsz in
    let tail = remaining % sendbufsz in
    let block_bytes = full_blocks * sendbufsz in
    let sent = transmit s (take block_bytes buf) in
    if full_blocks == 0
    then (ok, record s { pending = take tail buf })
    else if is_ok sent.0
    then (ok, record sent.1 { pending = take tail (drop block_bytes buf) })
    else sent

-- The branch of `session_send` for data that reaches the end of the buffer: if the buffer holds
-- anything it is filled up to its end and sent.
unfoldable pub send_over : Session → List ℕ → Status × Session
unfolding is_ok
send_over s buf =
    let idx = length s.pending in
    let head = sendbufsz - idx in
    let remaining = length buf - head in
    let sent = transmit s (s.pending ++ take head buf) in
    if ltb 0 idx
    then (if is_ok sent.0 then send_rest sent.1 (drop head buf) remaining else sent)
    else send_rest s buf remaining

unfoldable pub session_send : Session → List ℕ → Status × Session
session_send s buf =
    if leb sendbufsz (length s.pending + length buf)
    then send_over s buf
    else (ok, record s { pending = s.pending ++ buf })

unfoldable pub session_flush : Session → Status × Session
unfolding is_ok
session_flush s =
    let sent = transmit s s.pending in
    if length s.pending == 0
    then (ok, s)
    else if is_ok sent.0
    then (ok, record sent.1 { pending = [] })
    else sent

-- The calls of `session_send` for a header line: name, ": ", value and a newline, each made only
-- if the one before it succeeded.
unfoldable pub send_all : Session → List (List ℕ) → Status × Session
unfolding is_ok
send_all s [] = (ok, s)
send_all s (buf ∷ bufs) =
    let (status, s') = session_send s buf in
    let rest = send_all s' bufs in if is_ok status then rest else (status, s')

unfoldable pub session_send_header_str : Session → List ℕ → List ℕ → Status × Session
session_send_header_str s name value =
    send_all s (name ∷ (b':' ∷ b' ' ∷ []) ∷ value ∷ (10 ∷ []) ∷ [])

unfoldable pub session_finish_header : Session → Status × Session
session_finish_header s = session_send s (b'$' ∷ b'$' ∷ 10 ∷ [])
