-- ===== src/Scrc.antt =====
-- lib/core/src/scrc.c: what the client sends and receives. Bytes are numbers, a pointer into the receive buffer
-- is a place of it. The socket is a list of what it holds for the calls of recv(); `none` says that a
-- call waits for more. Numbers of several bytes are read in the order of a little-endian machine.
pub mod Bytes
pub mod Refill
pub mod Block
pub mod Row
pub mod Send
pub mod Header
pub mod Lines
pub mod Parsed
mod Examples
use scroller.Prelude.{
  ◌^◌, ℕ, zero, suc, ◌+◌, ◌-◌, ◌*◌, Bool, true, false, Option, none, some, List, [], ◌∷◌, ◌++◌,
  length, take, drop, ltb, ◌==◌, ◌&&◌, ◌||◌, not, if◌then◌else◌, ◌>>=◌, get_elem?,
}
use scroller.Scrc.Bytes.{bytes_at, write_at, word}
use scroller.Session

-- `BUFSZ`, `RESERVESZ`, `FULLSZ`
abbrev pub bufsz : ℕ
bufsz = 65536

abbrev pub reservesz : ℕ
reservesz = bufsz

abbrev pub fullsz : ℕ
fullsz = bufsz + reservesz

-- `ScrcStatus`: numbers, since the client passes on those of the server.
abbrev pub scrc_ok : ℕ
scrc_ok = 0

abbrev pub scrc_end : ℕ
scrc_end = 1

abbrev pub scrc_connection_closed : ℕ
scrc_connection_closed = 9

abbrev pub scrc_recv_error : ℕ
scrc_recv_error = 11

abbrev pub scrc_protocol_error : ℕ
scrc_protocol_error = 12

abbrev pub scrc_unknown_command : ℕ
scrc_unknown_command = 15

abbrev pub scrc_buffer_overflow : ℕ
scrc_buffer_overflow = 16

abbrev pub scrc_incorrect_param : ℕ
scrc_incorrect_param = 17

abbrev pub scrc_out_of_range : ℕ
scrc_out_of_range = 18

-- `ScrcCmd`
abbrev pub cmd_tabheader : ℕ
cmd_tabheader = 1

abbrev pub cmd_tabdata : ℕ
cmd_tabdata = 2

abbrev pub cmd_row : ℕ
cmd_row = 3

abbrev pub cmd_end : ℕ
cmd_end = 4

-- What recv() meets: bytes that came in, none of them at the end of the stream, EINTR, or another
-- error. It takes as many of the bytes as it has room for, and leaves the rest.
pub data Answer : Type 0 where
  received : List ℕ → Answer
  interrupted broken : Answer

-- The members of `Column` that a cell is found by.
pub record Column : Type 0 where
  pub offs : ℕ
  pub size : ℕ

pub record ScrcConnection : Type 0 where
  pub status : ℕ
  pub columns : List Column
  pub rbuf : ℕ → ℕ
  pub rlen : ℕ
  pub rpos : ℕ
  pub body : Bool
  pub answers : List Answer

abbrev pub put_back : List ℕ → List Answer → List Answer
put_back [] answers = answers
put_back (b ∷ bs) answers = received (b ∷ bs) ∷ answers

-- The loop of `recv_refill`, with `space` bytes of room.
unfoldable pub recv_into : ScrcConnection → ℕ → List Answer → Option (ℕ × ScrcConnection)
recv_into conn space [] = none
recv_into conn space (interrupted ∷ answers) = recv_into conn space answers
recv_into conn space (broken ∷ answers) = some (scrc_recv_error, record conn { answers = answers })
recv_into conn space (received [] ∷ answers) =
    some (scrc_connection_closed, record conn { answers = answers })
recv_into conn space (received (b ∷ bs) ∷ answers) =
    let block = take space (b ∷ bs) in
    some (
      scrc_ok,
      record conn {
        rbuf = write_at conn.rbuf conn.rlen block;
        rlen = conn.rlen + length block;
        answers = put_back (drop space (b ∷ bs)) answers;
      },
    )

-- The unread bytes move to the begin of the buffer.
unfoldable pub compact : ScrcConnection → ScrcConnection
compact conn =
    let valid = conn.rlen - conn.rpos in
    let moved = write_at conn.rbuf 0 (bytes_at conn.rbuf conn.rpos valid) in
    record conn {
      rbuf = if ltb 0 valid && ltb 0 conn.rpos then moved else conn.rbuf;
      rlen = valid;
      rpos = 0;
    }

unfoldable pub recv_refill : ScrcConnection → Option (ℕ × ScrcConnection)
unfolding recv_into compact
recv_refill conn =
    if ltb (fullsz - conn.rlen) reservesz
    then recv_into (compact conn) (fullsz - (compact conn).rlen) conn.answers
    else recv_into conn (fullsz - conn.rlen) conn.answers

-- The loop of `recv_block`. Each refill brings a byte or more, so that `size` rounds are enough.
unfoldable pub recv_until : ℕ → ScrcConnection → ℕ → Option (ℕ × ScrcConnection)
unfolding recv_refill
recv_until zero conn size = none
recv_until (suc fuel) conn size =
    let more = elim (recv_refill conn) as (λ _. Option (ℕ × ScrcConnection)) [
      | none ↦ none
      | some (status, refilled) ↦
          let rest = recv_until fuel refilled size in
          if status == scrc_ok then rest else some (status, refilled)
    ] in
    if ltb (conn.rlen - conn.rpos) size then more else some (scrc_ok, conn)

-- The status, the connection and the pointer.
unfoldable pub recv_block : ScrcConnection → ℕ → Option (ℕ × ScrcConnection × Option ℕ)
unfolding recv_until
recv_block conn size = if ltb bufsz size then some (scrc_buffer_overflow, conn, none) else do
  (status, filled) ← recv_until (size + 1) conn size
  some (
      if status == scrc_ok
      then (scrc_ok, record filled { rpos = filled.rpos + size }, some filled.rpos)
      else (status, filled, none))

-- `*cmd` is written where the status is SCRC_OK.
unfoldable pub recv_cmd : ScrcConnection → Option (ℕ × ScrcConnection × Option ℕ)
recv_cmd conn = do
  (ret, after, p) ← recv_block conn 4
  some (ret, after, elim p [ none ↦ none | some place ↦ some (word (bytes_at after.rbuf place 4)) ])

-- The size and the data of a row; `*row` is written where the status is SCRC_OK.
unfoldable pub recv_data : ScrcConnection → Option (ℕ × ScrcConnection × Option ℕ)
recv_data conn = do
  (ret, after, p) ← recv_block conn 8
  elim p as (λ _. Option (ℕ × ScrcConnection × Option ℕ)) [
    | none ↦ some (ret, after, none)
    | some place ↦ recv_block after (word (bytes_at after.rbuf place 8))
  ]

-- The status of `recv_cmd` is not looked at: without a command, `cmd` is 0.
unfoldable pub recv_row : ScrcConnection → Option (ℕ × ScrcConnection × Option ℕ)
unfolding recv_cmd recv_data
recv_row conn = do
  (ret, after, got) ← recv_cmd conn
  let cmd : ℕ = elim got [ none ↦ 0 | some k ↦ k ] in
      if cmd == cmd_row
      then recv_data after
      else if cmd == cmd_tabheader || cmd == cmd_tabdata
      then some (scrc_protocol_error, after, none)
      else if cmd == cmd_end
      then some (scrc_end, after, none)
      else some (scrc_unknown_command, after, none)

-- `row` is `none` for a NULL argument and else what `*row` is before; the result has what it is
-- afterwards.
unfoldable pub scrc_fetch_row :
    ScrcConnection → Option (Option ℕ) → Option (ℕ × ScrcConnection × Option (Option ℕ))
scrc_fetch_row conn none =
    some (scrc_incorrect_param, record conn { status = scrc_incorrect_param }, none)
scrc_fetch_row conn (some row) =
    if not conn.body then some (scrc_ok, record conn { status = scrc_ok }, some row) else do
      (ret, after, p) ← recv_row conn
      some (
          if ret == scrc_end
          then (scrc_ok, record after { status = scrc_ok }, some none)
          else if ret == scrc_ok
          then (scrc_ok, record after { status = scrc_ok }, some p)
          else (ret, record after { status = ret }, some none))

-- `start` is the pointer `data`; NULL is `none`.
pub record ScrcCell : Type 0 where
  pub start : Option ℕ
  pub size : ℕ

-- `none` for NULL arguments, and what `*cell` is before and afterwards.
unfoldable pub scrc_fetch_cell :
    ScrcConnection → Option ℕ → ℕ → Option ScrcCell → ℕ × ScrcConnection × Option ScrcCell
scrc_fetch_cell conn none n cell =
    (scrc_incorrect_param, record conn { status = scrc_incorrect_param }, cell)
scrc_fetch_cell conn (some row) n none =
    (scrc_incorrect_param, record conn { status = scrc_incorrect_param }, none)
scrc_fetch_cell conn (some row) n (some cell) = elim (get_elem? conn.columns n) [
  | none ↦ (
    scrc_out_of_range,
    record conn { status = scrc_out_of_range },
    some (record { start = none; size = 0 }),
  )
  | some c ↦ (
    scrc_ok,
    record conn { status = scrc_ok },
    some (record { start = some (row + c.offs); size = c.size }),
  )
]

abbrev pub scrc_send_error : ℕ
scrc_send_error = 10

-- The loop of `send_block`, with the bytes that are left and what the kernel has taken; `none` says
-- that a call of send() waits.
unfoldable pub send_block :
    List Session.Answer → List ℕ → List ℕ → Option (ℕ × List ℕ × List Session.Answer)
send_block answers wire [] = some (scrc_ok, wire, answers)
send_block [] wire (b ∷ bs) = none
send_block (Session.interrupted ∷ answers) wire (b ∷ bs) = send_block answers wire (b ∷ bs)
send_block (Session.broken ∷ answers) wire (b ∷ bs) = some (scrc_send_error, wire, answers)
send_block (Session.accepted n ∷ answers) wire (b ∷ bs) =
    send_block answers (wire ++ take n (b ∷ bs)) (drop n (b ∷ bs))

-- The bytes of the query and the end marker: a newline, two dollar signs, and a newline.
abbrev pub request : List ℕ → List ℕ
request query = query ++ (10 ∷ b'$' ∷ b'$' ∷ 10 ∷ [])

-- What `send_block` is given after `snprintf`: as many bytes from `buffer` on as the whole text has,
-- where `buffer` has the text cut off before a zero, and `beyond` lies behind it in memory. Where the
-- length of the text is no int, `snprintf` gives -1, and `send_block` sends nothing.
abbrev pub printed : (ℕ → ℕ) → List ℕ → List ℕ
printed beyond text =
    if ltb (length text) bufsz
    then text
    else if ltb (length text) (2 ^ 31)
    then take (bufsz - 1) text ++ 0 ∷ bytes_at beyond 0 (length text - bufsz)
    else []

-- `query` is not NULL.
unfoldable pub send_query :
    (ℕ → ℕ) → List Session.Answer → List ℕ → List ℕ → Option (ℕ × List ℕ × List Session.Answer)
unfolding send_block
send_query beyond answers wire [] = some (scrc_ok, wire, answers)
send_query beyond answers wire (b ∷ bs) =
    send_block answers wire (printed beyond (request (b ∷ bs)))
