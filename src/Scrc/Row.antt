-- ===== src/Scrc/Row.antt =====
-- The rows of an answer: what the frames of the stream hold is what the client fetches.
use scroller.Prelude.{
  ℕ, ◌≤◌, ◌≡◌, refl, sym, ap, ◌∙◌, Option, none, some, List, [], ◌∷◌, ◌++◌, length, length-append,
  take, drop, append_assoc, ◌==◌, if◌then◌else◌, Bool, true, false, arith, ◌>>=◌, map, not,
}
use scroller.Scrc.{
  ScrcConnection, recv_block, recv_row, scrc_fetch_row, bufsz, scrc_ok, scrc_end, cmd_row, cmd_end,
}
use scroller.Scrc.Bytes.{bytes_at, word}
use scroller.Scrc.Refill.{unread, IsBuffer}
use scroller.Scrc.Block.{recv_block-stream}

take-append_front : (xs ys : List ℕ) → take (length xs) (xs ++ ys) ≡ xs
take-append_front [] ys = refl
take-append_front (x ∷ xs) ys = ap (λ z. x ∷ z) (take-append_front xs ys)

drop-append_front : (xs ys : List ℕ) → drop (length xs) (xs ++ ys) ≡ ys
drop-append_front [] ys = refl
drop-append_front (x ∷ xs) ys = drop-append_front xs ys

-- The bytes of the stream in front, as a block.
recv_front :
    (conn : ScrcConnection) (bs rest : List ℕ) (size : ℕ)
    → IsBuffer conn
    → size ≡ length bs
    → size ≤ bufsz
    → unread conn ≡ bs ++ rest
    → (after : ScrcConnection) × (p : ℕ) × (recv_block conn size ≡ some (scrc_ok, after, some p))
      × (bytes_at after.rbuf p size ≡ bs)
      × (unread after ≡ rest)
      × IsBuffer after
      × (after.body ≡ conn.body)
recv_front conn bs rest size w e small stream =
    let (after, p, code, block, left, w', kept) =
      recv_block-stream conn size w small
        (omega (arith, e, ap (length {0}) stream, length-append {0} bs rest)) in
    (
      after,
      p,
      code,
      block ∙ rw (stream, e) (take-append_front bs rest),
      left ∙ rw (stream, e) (drop-append_front bs rest),
      w',
      kept,
    )

-- The frame of a row: the command, the size and the data.
pub record IsFrame (frame row : List ℕ) : Type 0 where
  pub command : List ℕ
  pub sizes : List ℕ
  pub parts : frame ≡ command ++ (sizes ++ row)
  pub command_bytes : length command ≡ 4
  pub is_row : word command ≡ cmd_row
  pub size_bytes : length sizes ≡ 8
  pub is_size : word sizes ≡ length row
  pub small : length row ≤ bufsz

-- The command that ends the rows.
pub record IsEnd (command : List ℕ) : Type 0 where
  pub command_bytes : length command ≡ 4
  pub is_end : word command ≡ cmd_end

recv_row-end :
    (conn : ScrcConnection) (command rest : List ℕ)
    → IsBuffer conn
    → IsEnd command
    → unread conn ≡ command ++ rest
    → (after : ScrcConnection) × (recv_row conn ≡ some (scrc_end, after, none))
      × (unread after ≡ rest)
      × IsBuffer after
unfolding recv_row
recv_row-end conn command rest w f stream =
    let (c1, p1, code1, block1, left1, w1, kept1) =
      recv_front conn command rest 4 w (sym f.command_bytes) (omega arith) stream in
    let stop : word (bytes_at c1.rbuf p1 4) ≡ cmd_end = ap word block1 ∙ f.is_end in
    (c1, rw (code1, stop) refl, left1, w1)

recv_row-frame :
    (conn : ScrcConnection) (frame row rest : List ℕ)
    → IsBuffer conn
    → IsFrame frame row
    → unread conn ≡ frame ++ rest
    → (after : ScrcConnection) × (p : ℕ) × (recv_row conn ≡ some (scrc_ok, after, some p))
      × (bytes_at after.rbuf p (length row) ≡ row)
      × (unread after ≡ rest)
      × IsBuffer after
      × (after.body ≡ conn.body)
unfolding recv_row
recv_row-frame conn frame row rest w f stream =
    let parts : unread conn ≡ f.command ++ (f.sizes ++ (row ++ rest)) =
      stream
      ∙ ap (λ z. z ++ rest) f.parts
      ∙ append_assoc f.command (f.sizes ++ row) rest
      ∙ ap (λ z. f.command ++ z) (append_assoc f.sizes row rest) in
    let (c1, p1, code1, block1, left1, w1, kept1) =
      recv_front conn f.command (f.sizes ++ (row ++ rest)) 4 w (sym f.command_bytes) (omega arith)
        parts in
    let (c2, p2, code2, block2, left2, w2, kept2) =
      recv_front c1 f.sizes (row ++ rest) 8 w1 (sym f.size_bytes) (omega arith) left1 in
    let (c3, p3, code3, block3, left3, w3, kept3) =
      recv_front c2 row rest (length row) w2 refl f.small left2 in
    let command : word (bytes_at c1.rbuf p1 4) ≡ cmd_row = ap word block1 ∙ f.is_row in
    let size : word (bytes_at c2.rbuf p2 8) ≡ length row = ap word block2 ∙ f.is_size in
    (c3, p3, rw (code1, command, code2, size) code3, block3, left3, w3, kept3 ∙ kept2 ∙ kept1)

-- The client's loop: it fetches rows until it gets NULL, and keeps what each pointer leads to, given
-- the sizes of the rows.
unfoldable pub fetch_rows : List ℕ → ScrcConnection → Option (List (List ℕ) × ScrcConnection)
fetch_rows [] conn = do
  (ret, after, row) ← scrc_fetch_row conn (some none)
  elim row as (λ _. Option (List (List ℕ) × ScrcConnection)) [
    | some none ↦ if ret == scrc_ok then some ([], after) else none
    | _ ↦ none
  ]
fetch_rows (size ∷ sizes) conn = do
  (ret, after, row) ← scrc_fetch_row conn (some none)
  elim row as (λ _. Option (List (List ℕ) × ScrcConnection)) [
    | some (some p) ↦ do
      (rows, last) ← fetch_rows sizes after
      some (bytes_at after.rbuf p size ∷ rows, last)
    | _ ↦ none
  ]

-- The frames of rows, one behind the other.
pub data Frames : List ℕ → List (List ℕ) → Type 0 where
  no_frame : Frames [] []
  next_frame :
      {frame row frames : List ℕ} {rows : List (List ℕ)}
      → IsFrame frame row
      → Frames frames rows
      → Frames (frame ++ frames) (row ∷ rows)

with_body {ℓ} : {B : Type ℓ} (b : Bool) (x y : B) → b ≡ true → (if not b then x else y) ≡ y
with_body true x y e = refl
with_body false x y e = absurd (ground arith)

fetch_row-frame :
    (conn after : ScrcConnection) (p : ℕ)
    → conn.body ≡ true
    → recv_row conn ≡ some (scrc_ok, after, some p)
    → scrc_fetch_row conn (some none)
      ≡ some (scrc_ok, record after { status = scrc_ok }, some (some p))
unfolding scrc_fetch_row
fetch_row-frame conn after p body code = with_body conn.body _ _ body ∙ rw code refl

fetch_row-end :
    (conn after : ScrcConnection)
    → conn.body ≡ true
    → recv_row conn ≡ some (scrc_end, after, none)
    → scrc_fetch_row conn (some none) ≡ some (scrc_ok, record after { status = scrc_ok }, some none)
unfolding scrc_fetch_row
fetch_row-end conn after body code = with_body conn.body _ _ body ∙ rw code refl

-- Where the buffer is well-formed, the answer has a body, and the stream holds the frames of rows
-- of at most BUFSZ bytes and then the end command: the client fetches these rows, in their order
-- and byte for byte, and then NULL with SCRC_OK. What follows stays unread.
pub fetch_rows-Frames :
    (conn : ScrcConnection) (frames : List ℕ) (rows : List (List ℕ)) (stop rest : List ℕ)
    → IsBuffer conn
    → conn.body ≡ true
    → Frames frames rows
    → IsEnd stop
    → unread conn ≡ frames ++ (stop ++ rest)
    → (after : ScrcConnection) × (fetch_rows (map (length {0}) rows) conn ≡ some (rows, after))
      × (unread after ≡ rest)
      × IsBuffer after
unfolding fetch_rows
fetch_rows-Frames conn _ _ stop rest w body no_frame f stream =
    let (after, code, left, w') = recv_row-end conn stop rest w f stream in
    (
      record after { status = scrc_ok },
      rw (fetch_row-end conn after body code) refl,
      left,
      record { inside = w'.inside; fits = w'.fits },
    )
fetch_rows-Frames conn _ _ stop rest w body (next_frame {frame} {row} {frames} {rows} g gs) f
      stream =
    let (c, p, code, block, left, w', kept) =
      recv_row-frame conn frame row (frames ++ (stop ++ rest)) w g
        (stream ∙ append_assoc frame frames (stop ++ rest)) in
    let c' = record c { status = scrc_ok } in
    let (after, code', left', w'') =
      fetch_rows-Frames c' frames rows stop rest (record { inside = w'.inside; fits = w'.fits })
        (kept ∙ body) gs f left in
    (after, rw (fetch_row-frame conn c p body code, code', block) refl, left', w'')
