-- ===== src/Grid/Frame.antt =====
-- Which bytes of a row `grid_put_datum` writes and `grid_get_datum` reads.
use native.Mathlib.Nat.{mod-add-div, mul-le-mul_left, mul-suc}
use scroller.Prelude.{
  suc, ◌-◌, ◌*◌, ◌/◌, ◌%◌, false, if◌then◌else◌, leb, le→leb, ◌∙◌, ℕ, ◌+◌, ◌≤◌, ◌<◌, ◌≡◌, ◌≢◌, ◌⊎◌,
  inl, inr, refl, ap, some, ℤ, arith, lt→ltb, dec_lt,
}
use scroller.Datum.{
  Datum, SqlType, t_unknown, t_name, t_smallint, t_integer, t_bigint, t_char, t_varchar,
}
use scroller.Grid.{Grid, Column, column_width, grid_get_row}
use scroller.Grid.Columns.{IsLayout, end_of}
use scroller.Grid.Bytes.{
  Bytes, word_of, signed, put_smallint, put_integer, put_bigint, get_smallint, get_integer,
  get_bigint, store_outside, load_agree, load_bytes_agree,
}
use scroller.Grid.Cells.{
  byte_at, row_at, write_from, read_number, read_character, read_cell, grid_get_datum, write_number,
  write_cell, grid_put_datum,
}

-- Outside the cell of a column.
abbrev pub Outside : Column → ℕ → Type 0
Outside hc q = (q < hc.offs) ⊎ (end_of hc ≤ q)

pub write_number_outside :
    (t : SqlType) (size : ℕ) (r : Bytes) (c : ℕ) (v : ℤ) (q : ℕ)
    → (q < c) ⊎ (c + column_width t size ≤ q)
    → write_number t r c v q ≡ r q
unfolding write_number put_smallint put_integer put_bigint
write_number_outside t_smallint size r c v q out = store_outside 2 (word_of 2 v) r c q out
write_number_outside t_integer size r c v q out = store_outside 4 (word_of 4 v) r c q out
write_number_outside t_bigint size r c v q out = store_outside 8 (word_of 8 v) r c q out
write_number_outside t_unknown size r c v q out = refl
write_number_outside t_name size r c v q out = refl
write_number_outside t_char size r c v q out = refl
write_number_outside t_varchar size r c v q out = refl

read_number_agree :
    (t : SqlType) (size : ℕ) (r r' : Bytes) (c : ℕ)
    → ((q : ℕ) → c ≤ q → q < c + column_width t size → r' q ≡ r q)
    → read_number t r' c ≡ read_number t r c
unfolding read_number get_smallint get_integer get_bigint
read_number_agree t_smallint size r r' c h = ap (signed 2) (load_agree 2 r r' c h)
read_number_agree t_integer size r r' c h = ap (signed 4) (load_agree 4 r r' c h)
read_number_agree t_bigint size r r' c h = ap (signed 8) (load_agree 8 r r' c h)
read_number_agree t_unknown size r r' c h = refl
read_number_agree t_name size r r' c h = refl
read_number_agree t_char size r r' c h = refl
read_number_agree t_varchar size r r' c h = refl

read_character_agree :
    (t : SqlType) (size : ℕ) (r r' : Bytes) (c : ℕ)
    → ((q : ℕ) → c ≤ q → q < c + column_width t size → r' q ≡ r q)
    → read_character t size r' c ≡ read_character t size r c
unfolding read_character
read_character_agree t_char size r r' c h = ap some (load_bytes_agree size r r' c h)
read_character_agree t_varchar size r r' c h = ap some (load_bytes_agree 2 r r' c h)
read_character_agree t_smallint size r r' c h = refl
read_character_agree t_integer size r r' c h = refl
read_character_agree t_bigint size r r' c h = refl
read_character_agree t_unknown size r r' c h = refl
read_character_agree t_name size r r' c h = refl

pub read_cell_agree :
    (hc : Column) (r r' : Bytes)
    → ((q : ℕ) → hc.offs ≤ q → q < end_of hc → r' q ≡ r q)
    → read_cell hc r' ≡ read_cell hc r
unfolding read_cell
read_cell_agree hc r r' h =
    let number = read_number_agree hc.type hc.size r r' hc.offs h in
    let text = read_character_agree hc.type hc.size r r' hc.offs h in rw (number, text) refl

-- Two columns of a layout have no byte in common.
pub columns_apart :
    (hgrid : Grid Column) (i j : ℕ)
    → IsLayout hgrid
    → i < hgrid.occupied
    → j < hgrid.occupied
    → i ≢ j
    → (q : ℕ) → (hgrid.rows j).offs ≤ q
    → q < end_of (hgrid.rows j)
    → Outside (hgrid.rows i) q
columns_apart hgrid i j w hi hj ne q low high = elim (dec_lt i j) [
  | yes before ↦ let k = w.ordered i j before hj in inr (omega arith)
  | no behind ↦ let k = w.ordered j i (omega arith) hi in inl (omega arith)
]

-- The grid with other bytes from a row on.
abbrev pub changed : Grid Bytes → ℕ → Bytes → Grid Bytes
changed grid row written = record grid { rows = write_from grid row written }

byte_at-changed :
    (grid : Grid Bytes) (row : ℕ) (written : Bytes) (a : ℕ)
    → byte_at (changed grid row written) a
      ≡ (if leb (grid.rowsz * row) a then written (a - grid.rowsz * row) else byte_at grid a)
byte_at-changed grid row written a =
    let z = grid.rowsz in
    let e : z * (a / z) + a % z ≡ a = omega (arith, mod-add-div a z) in
    ap (λ b. if leb (z * row) b then written (b - z * row) else byte_at grid a) e

pub row_at-changed :
    (grid : Grid Bytes) (row : ℕ) (written : Bytes) (q : ℕ)
    → row_at (changed grid row written) row q ≡ written q
row_at-changed grid row written q =
    let a = grid.rowsz * row + q in
    let e : a - grid.rowsz * row ≡ q = omega arith in
    byte_at-changed grid row written a ∙ rw (le→leb (grid.rowsz * row) a (omega arith), e) refl

lt→leb_false : (m n : ℕ) → n < m → leb m n ≡ false
lt→leb_false m n h = ground arith

-- Where nothing behind the first `rowsz` bytes is changed, the other rows stay.
pub row_at-other :
    (grid : Grid Bytes) (row : ℕ) (written : Bytes) (i q : ℕ)
    → i ≢ row
    → q < grid.rowsz
    → ((k : ℕ) → grid.rowsz ≤ k → written k ≡ row_at grid row k)
    → row_at (changed grid row written) i q ≡ row_at grid i q
row_at-other grid row written i q ne inside same =
    let z = grid.rowsz in
    let a = z * i + q in
    byte_at-changed grid row written a ∙ elim (dec_lt i row) [
      | yes before ↦
          let far : z * suc i ≤ z * row = mul-le-mul_left z (omega arith) in
          let step = mul-suc z i in
          let no_more : leb (z * row) a ≡ false = lt→leb_false (z * row) a (omega arith) in
          rw no_more refl
      | no other ↦
          let far : z * suc row ≤ z * i = mul-le-mul_left z (omega arith) in
          let step = mul-suc z row in
          let back : z * row + (a - z * row) ≡ a = omega arith in
          rw (le→leb (z * row) a (omega arith))
            (same (a - z * row) (omega arith) ∙ ap (byte_at grid) back)
    ]

pub put_written :
    (hgrid : Grid Column) (grid : Grid Bytes) (row column : ℕ) (d : Datum) (written : Bytes × ℕ)
    → row < grid.occupied
    → column < hgrid.occupied
    → write_cell (hgrid.rows column) (row_at grid row) d ≡ some written
    → grid_put_datum hgrid grid row column d ≡ some (changed grid row written.0, written.1)
unfolding grid_put_datum grid_get_row
put_written hgrid grid row column d written hr hc e =
    rw (lt→ltb row grid.occupied hr, lt→ltb column hgrid.occupied hc, e) refl

pub got :
    (hgrid : Grid Column) (grid : Grid Bytes) (row column : ℕ)
    → row < grid.occupied
    → column < hgrid.occupied
    → grid_get_datum hgrid grid row column ≡ some (read_cell (hgrid.rows column) (row_at grid row))
unfolding grid_get_datum grid_get_row
got hgrid grid row column hr hc =
    rw (lt→ltb row grid.occupied hr, lt→ltb column hgrid.occupied hc) refl
