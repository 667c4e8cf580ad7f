-- ===== src/Scrc/Examples.antt =====
-- An answer of one row that comes in pieces, and the theorems at it.
use scroller.Prelude.{
  Option, subst, ◌≢◌, false, ◌==◌, if◌then◌else◌, ℕ, ◌≡◌, ◌≤◌, ◌<◌, ◌+◌, ◌-◌, ◌⊎◌, refl, none, some,
  List, [], ◌∷◌, ◌++◌, length, length-replicate, replicate, take, true, arith,
}
use scroller.Session
use scroller.Scrc.{
  recv_until, recv_refill, recv_into, compact, ScrcConnection, received, interrupted, recv_block,
  scrc_fetch_cell, send_query, request, scrc_ok, bufsz, scrc_buffer_overflow, scrc_out_of_range,
}
use scroller.Scrc.Bytes.{bytes_at}
use scroller.Scrc.Refill.{unread, IsBuffer, IsFailure}
use scroller.Scrc.Block.{recv_block-stream, recv_block_short}
use scroller.Scrc.Row.{IsFrame, no_frame, next_frame, fetch_rows, fetch_rows-Frames}
use scroller.Scrc.Header.{
  recv_header_line, is_space, header_loop, trim, skip_spaces, line_end, last_char, HeaderLine,
}
use scroller.Scrc.Lines.{Plain, Text}
use scroller.Scrc.Parsed.{recv_header_line-Line}
use scroller.Scrc.Send.{Sent, send_query_overflow}

-- The row of the bytes 7 and 9, in its frame.
abbrev frame : List ℕ
frame = 3 ∷ 0 ∷ 0 ∷ 0 ∷ 2 ∷ 0 ∷ 0 ∷ 0 ∷ 0 ∷ 0 ∷ 0 ∷ 0 ∷ 7 ∷ 9 ∷ []

abbrev stop : List ℕ
stop = 4 ∷ 0 ∷ 0 ∷ 0 ∷ []

abbrev conn : ScrcConnection
conn = record {
  status = 0;
  columns = record { offs = 0; size = 1 } ∷ record { offs = 1; size = 1 } ∷ [];
  rbuf = λ _. 0;
  rlen = 0;
  rpos = 0;
  body = true;
  answers =
      received (3 ∷ 0 ∷ 0 ∷ [])
      ∷ interrupted
      ∷ received (0 ∷ 2 ∷ 0 ∷ 0 ∷ 0 ∷ 0 ∷ 0 ∷ 0 ∷ 0 ∷ 7 ∷ [])
      ∷ received (9 ∷ stop)
      ∷ received []
      ∷ [];
}

conn-IsBuffer : IsBuffer conn
conn-IsBuffer = record { inside = omega arith; fits = omega arith }

recv_block-stream_example :
    (after : ScrcConnection) × (p : ℕ) × (recv_block conn 4 ≡ some (scrc_ok, after, some p))
    × (bytes_at after.rbuf p 4 ≡ 3 ∷ 0 ∷ 0 ∷ 0 ∷ [])
    × (unread after ≡ 2 ∷ 0 ∷ 0 ∷ 0 ∷ 0 ∷ 0 ∷ 0 ∷ 0 ∷ 7 ∷ 9 ∷ stop)
    × IsBuffer after
    × (after.body ≡ true)
recv_block-stream_example = recv_block-stream conn 4 conn-IsBuffer (omega arith) (omega arith)

recv_block_short_example :
    ((bufsz < 19) × (recv_block conn 19 ≡ some (scrc_buffer_overflow, conn, none)))
    ⊎ ((19 ≤ bufsz) × (19 ≤ length (unread conn)))
    ⊎ ((length (unread conn) < 19)
        × ((recv_block conn 19 ≡ none)
            ⊎ ((status : ℕ) × (failed : ScrcConnection) × (recv_block conn 19
                  ≡ some (status, failed, none))
                × IsFailure status)))
recv_block_short_example = recv_block_short conn 19 conn-IsBuffer

frame-IsFrame : IsFrame frame (7 ∷ 9 ∷ [])
frame-IsFrame = record {
  command = 3 ∷ 0 ∷ 0 ∷ 0 ∷ [];
  sizes = 2 ∷ 0 ∷ 0 ∷ 0 ∷ 0 ∷ 0 ∷ 0 ∷ 0 ∷ [];
  parts = refl;
  command_bytes = refl;
  is_row = refl;
  size_bytes = refl;
  is_size = refl;
  small = omega arith;
}

fetch_rows-Frames_example :
    (after : ScrcConnection) × (fetch_rows (2 ∷ []) conn ≡ some ((7 ∷ 9 ∷ []) ∷ [], after))
    × (unread after ≡ [])
    × IsBuffer after
fetch_rows-Frames_example =
    fetch_rows-Frames conn frame ((7 ∷ 9 ∷ []) ∷ []) stop [] conn-IsBuffer refl
      (next_frame frame-IsFrame no_frame) (record { command_bytes = refl; is_end = refl }) refl

-- A cell of the row, and one behind the last column.
cell_results :
    ((scrc_fetch_cell conn (some 12) 1 (some (record { start = none; size = 0 }))).2
      ≡ some (record { start = some 13; size = 1 }))
    × ((scrc_fetch_cell conn (some 12) 2 (some (record { start = none; size = 0 }))).0
        ≡ scrc_out_of_range)
unfolding scrc_fetch_cell
cell_results = (refl, refl)

abbrev taken : List Session.Answer
taken = Session.accepted 2 ∷ Session.interrupted ∷ Session.accepted 100 ∷ []

send_query_result :
    send_query (λ _. 0) taken (1 ∷ []) (83 ∷ [])
    ≡ some (scrc_ok, 1 ∷ 83 ∷ 10 ∷ 36 ∷ 36 ∷ 10 ∷ [], [])
unfolding send_query
send_query_result = refl

abbrev long : List ℕ
long = replicate bufsz 65

send_query_overflow_example :
    Sent taken []
      (take (bufsz - 1) (request long) ++ 0 ∷ bytes_at (λ _. 0) 0 (length long + 4 - bufsz))
      (send_query (λ _. 0) taken [] long)
send_query_overflow_example =
    send_query_overflow (λ _. 0) taken [] long (omega (arith, length-replicate {A = ℕ} bufsz 65))
      (omega (arith, length-replicate {A = ℕ} bufsz 65))

-- The line "a: x" and what is read of it.
abbrev line_bytes : ℕ → ℕ
line_bytes p =
    if p == 0 then 97 else if p == 1 then 58 else if p == 2 then 32 else if p == 3 then 120 else 10

abbrev lined : ScrcConnection
lined = record conn { rbuf = line_bytes; rlen = 5 }

Text-at : (p : ℕ) → Plain (line_bytes p) → is_space (line_bytes p) ≡ false → Text line_bytes p 1
Text-at p h s = record {
  some_byte = omega arith;
  plain = λ i lt. let e : p ≡ p + i = omega arith in subst (λ z. Plain (line_bytes z)) e h;
  first = s;
  last = let e : p ≡ p + 1 - 1 = omega arith in subst (λ z. is_space (line_bytes z) ≡ false) e s;
}

recv_header_line-Line_example :
    (after : ScrcConnection) × (recv_header_line lined
      ≡ some (scrc_ok, after, record { name = some 0; value = some 3 }))
    × (after.rbuf 1 ≡ 0)
    × (after.rbuf 4 ≡ 0)
    × ((q : ℕ) → q ≢ 1 → q ≢ 4 → after.rbuf q ≡ line_bytes q)
    × (after.rpos ≡ 5)
    × (after.rlen ≡ 5)
recv_header_line-Line_example =
    recv_header_line-Line lined 1 1 1 4
      (record {
        name =
            Text-at 0 ((λ e. omega (arith, e)), (λ e. omega (arith, e)), (λ e. omega (arith, e)))
              refl;
        colon = refl;
        space = refl;
        value =
            Text-at 3 ((λ e. omega (arith, e)), (λ e. omega (arith, e)), (λ e. omega (arith, e)))
              refl;
        newline = refl;
        colon_place = refl;
        end_place = refl;
        short = omega arith;
      })
      (omega arith)

-- A line that is cut by a compaction: its first byte is the last of the buffer, the rest comes later.
abbrev split_line : ScrcConnection
split_line = record conn {
  rbuf = λ p. if p == 65536 then 97 else 0;
  rlen = 65537;
  rpos = 65536;
  answers = received (98 ∷ b':' ∷ 120 ∷ 10 ∷ []) ∷ [];
}

abbrev name_of : Option (ℕ × ScrcConnection × HeaderLine) → List ℕ
name_of none = []
name_of (some (ret, after, hl)) = elim hl.name [ none ↦ [] | some p ↦ bytes_at after.rbuf p 2 ]

-- The name of the line "ab:x" is read as "a".
split_line_name : name_of (recv_header_line split_line) ≡ 97 ∷ 0 ∷ []
unfolding recv_header_line header_loop recv_block recv_until recv_refill recv_into compact trim
    skip_spaces line_end last_char
split_line_name = refl
