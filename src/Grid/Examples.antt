-- ===== src/Grid/Examples.antt =====
-- A header grid on a small page, and the theorems at it.
use scroller.Prelude.{
  ℕ, ℤ, pos, negsuc, inr, ◌==◌, ◌+◌, ◌≤◌, ◌<◌, ◌≡◌, refl, Option, none, some, List, [], ◌∷◌, ltb,
  if◌then◌else◌, arith,
}
use scroller.Align.{align_up}
use scroller.Datum.Text.{spaces}
use scroller.Datum.{Datum, SqlType, bytes, t_smallint, t_char, t_integer, t_bigint, t_unknown}
use scroller.Grid.{
  Grid, gl_fixed, gc_pure, Column, grid_init, grid_get_row, grid_alloc_row, grid_delete_row,
  hgrid_add_column, hgrid_get_column_idx, find_column, invalid_idx,
}
use scroller.Grid.Bytes.{
  Bytes, put_char, put_integer, put_bigint, get_integer, get_bigint, store, load, word_of, signed,
  store_bytes, load_bytes, text_of,
}
use scroller.Grid.Cells.{
  grid_get_datum, grid_put_datum, read_cell, read_number, read_character, write_cell, write_group,
  write_number, write_character,
}
use scroller.Grid.Stored.{narrowed, filled, OthersStay, put_datum-number, put_datum-character}
use scroller.Grid.Rows.{IsGrid, delete_row-IsGrid}
use scroller.Grid.Columns.{IsLayout, IsAligned, add_column-IsLayout}

abbrev blank : Column
blank = record { name = []; offs = 0; type = t_unknown; size = 0 }

-- Three rows, two of them taken.
abbrev page : Grid ℕ
page = record {
  size = 144;
  layout = gl_fixed;
  content = gc_pure;
  next = 0;
  rowsz = 40;
  rown = 3;
  occupied = 2;
  datasz = 0;
  rows = λ i. i + 7;
}

abbrev empty : Grid Column
empty = record {
  size = 144;
  layout = gl_fixed;
  content = gc_pure;
  next = 0;
  rowsz = 40;
  rown = 3;
  occupied = 0;
  datasz = 0;
  rows = λ _. blank;
}

abbrev missing : Option Column → ℕ
missing none = 1
missing (some c) = 0

-- The columns "a" CHAR(3), "b" INTEGER and "c" BIGINT, and a fourth that finds no row.
columns : List ℕ
columns =
    let (g, a) = hgrid_add_column (grid_init blank 144 gl_fixed gc_pure 40) (b'a' ∷ []) t_char 3 in
    let (h, b) = hgrid_add_column g (b'b' ∷ []) t_integer 0 in
    let (k, c) = hgrid_add_column h (b'c' ∷ []) t_bigint 0 in
    let (l, d) = hgrid_add_column k (b'd' ∷ []) t_bigint 0 in
    g.datasz
    ∷ h.datasz
    ∷ k.datasz
    ∷ missing d
    ∷ hgrid_get_column_idx l (b'b' ∷ [])
    ∷ hgrid_get_column_idx l (b'd' ∷ [])
    ∷ []

columns_output : columns ≡ 3 ∷ 8 ∷ 16 ∷ 1 ∷ 1 ∷ invalid_idx ∷ []
unfolding columns hgrid_add_column grid_init grid_alloc_row align_up hgrid_get_column_idx
    find_column
columns_output = refl

page-IsGrid : IsGrid page
page-IsGrid = record { within = omega arith; used = omega arith; small = omega arith }

empty-IsLayout : IsLayout empty
empty-IsLayout = record {
  ordered = λ i j lt le. absurd (omega arith);
  ended = λ i le. absurd (omega arith);
}

delete_row-IsGrid_example :
    IsGrid (grid_delete_row page 0).0
    × (0 < page.occupied
        → (i : ℕ)
        → grid_get_row (grid_delete_row page 0).0 i
          ≡ (if ltb i 0 then grid_get_row page i else grid_get_row page (i + 1)))
    × (page.occupied ≤ 0 → grid_delete_row page 0 ≡ (page, invalid_idx))
delete_row-IsGrid_example = delete_row-IsGrid page 0 page-IsGrid

add_column-IsLayout_example :
    (h : Grid Column) × (c : Column) × (hgrid_add_column empty (b'a' ∷ []) t_char 3 ≡ (h, some c))
    × IsLayout h
    × (h.rows 0 ≡ c)
    × ((i : ℕ) → i < 0 → h.rows i ≡ blank)
    × ((c.name ≡ b'a' ∷ []) × (c.type ≡ t_char) × (c.size ≡ 3))
    × ((0 ≤ c.offs) × (c.offs < 3))
    × IsAligned t_char 3 0 c.offs
    × ((h.datasz ≡ c.offs + 3) × (h.occupied ≡ 1))
add_column-IsLayout_example =
    add_column-IsLayout empty (b'a' ∷ []) t_char 3 empty-IsLayout (omega arith) (omega arith)
      (omega arith) (omega arith)

abbrev letter : ℕ → SqlType → ℕ → ℕ → Column
letter c type size offs = record { name = c ∷ []; offs = offs; type = type; size = size }

-- The columns "a" CHAR(3), "b" INTEGER and "c" BIGINT.
abbrev table_columns : ℕ → Column
table_columns i =
    if i == 0
    then letter b'a' t_char 3 0
    else if i == 1
    then letter b'b' t_integer 0 4
    else letter b'c' t_bigint 0 8

abbrev header : Grid Column
header = record {
  size = 144;
  layout = gl_fixed;
  content = gc_pure;
  next = 0;
  rowsz = 40;
  rown = 3;
  occupied = 3;
  datasz = 16;
  rows = table_columns;
}

header-IsLayout : IsLayout header
header-IsLayout = record { ordered = λ i j lt le. ground arith; ended = λ i le. ground arith }

abbrev zeros : Grid Bytes
zeros = record {
  size = 64;
  layout = gl_fixed;
  content = gc_pure;
  next = 0;
  rowsz = 16;
  rown = 2;
  occupied = 2;
  datasz = 0;
  rows = λ _ _. 0;
}

abbrev value : SqlType → ℤ → Datum
value t v = record { type = t; size = 8; number = v; character = none }

abbrev string : List ℕ → Datum
string bs = record { type = t_char; size = 2; number = pos 0; character = some bs }

abbrev stored : Option (Grid Bytes × ℕ) → Grid Bytes
stored none = zeros
stored (some r) = r.0

abbrev read_as : Option Datum → ℤ × List ℕ
read_as none = (pos 0, [])
read_as (some d) = (d.number, bytes d)

-- -5 in the INTEGER column and "x" in the CHAR(3) column. A SMALLINT -1 in the BIGINT column reads
-- as 65535.
run_cells :
    (read_as (
        grid_get_datum header
          (stored (grid_put_datum header zeros 1 1 (value t_bigint (negsuc 4))))
          1
          1)
      ≡ (negsuc 4, []))
    × (read_as (
          grid_get_datum header
            (stored (grid_put_datum header zeros 0 0 (string (b'x' ∷ 0 ∷ b'y' ∷ []))))
            0
            0)
        ≡ (pos 0, b'x' ∷ b' ' ∷ b' ' ∷ []))
    × (read_as (
          grid_get_datum header
            (stored (grid_put_datum header zeros 0 2 (value t_smallint (negsuc 0))))
            0
            2)
        ≡ (pos 65535, []))
unfolding grid_get_datum grid_put_datum grid_get_row read_cell read_number read_character write_cell
    write_group write_number write_character put_char put_integer put_bigint get_integer get_bigint
    store load word_of signed store_bytes load_bytes text_of spaces
run_cells = (refl, refl, refl)

-- A string that lies in a row without a zero, and is shorter than the column.
run_no_zero : grid_put_datum header zeros 0 0 (string (b'x' ∷ b'y' ∷ [])) ≡ none
unfolding grid_put_datum grid_get_row write_cell write_group write_character put_char text_of
run_no_zero = refl

-- A BIGINT column in rows of 4 bytes: the end of it is in the next row.
abbrev narrow : Grid Bytes
narrow = record zeros { rowsz = 4 }

run_overlap :
    read_as (
      grid_get_datum header
        (stored (grid_put_datum header narrow 0 2 (value t_bigint (pos 7))))
        1
        1)
    ≡ (pos 7, [])
unfolding grid_get_datum grid_put_datum grid_get_row read_cell read_number read_character write_cell
    write_group write_number put_bigint get_integer store load word_of signed
run_overlap = refl

put_datum-number_example :
    (g : Grid Bytes) × (e : Datum) × (grid_put_datum header zeros 1 1 (value t_bigint (negsuc 4))
      ≡ some (g, 0))
    × (grid_get_datum header g 1 1 ≡ some e)
    × (e.number ≡ narrowed 4 (negsuc 4))
    × OthersStay header zeros g 1 1
put_datum-number_example =
    put_datum-number header zeros 1 1 (value t_bigint (negsuc 4)) header-IsLayout (omega arith)
      (omega arith) (omega arith) refl (inr refl)

put_datum-character_example :
    (g : Grid Bytes) × (e : Datum) × (grid_put_datum header zeros 0 0 (string (b'x' ∷ 0 ∷ []))
      ≡ some (g, 0))
    × (grid_get_datum header g 0 0 ≡ some e)
    × (e.character ≡ some (filled 3 (b'x' ∷ [])))
    × OthersStay header zeros g 0 0
put_datum-character_example =
    put_datum-character header zeros 0 0 (string (b'x' ∷ 0 ∷ [])) header-IsLayout (omega arith)
      (omega arith) (omega arith) (b'x' ∷ []) (0 ∷ []) refl refl refl
      (((λ e. omega (arith, e)), tt), inr (omega arith, [], refl))
