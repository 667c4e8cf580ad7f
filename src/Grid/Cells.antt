-- ===== src/Grid/Cells.antt =====
-- The cells and data of a grid in lib/core/src/grid.c: `grid_get_cell`, `grid_get_datum` and
-- `grid_put_datum`. A row is its bytes, and a cell is its offset there; `none` says that a row or a
-- column that is not there is followed, or that a string is read behind the bytes known of it.
use scroller.Prelude.{
  ℕ, ◌+◌, ◌-◌, ◌*◌, ◌/◌, ◌%◌, leb, Bool, true, false, Option, none, some, List, ◌>>=◌,
  if◌then◌else◌, ℤ, pos,
}
use scroller.Datum.{
  Datum, SqlType, TypeGroup, t_unknown, t_name, t_smallint, t_integer, t_bigint, t_char, t_varchar,
  unknown_group, integer_group, character_group, get_type_group, same_group, bytes,
}
use scroller.Grid.{Grid, Column, column_width, grid_get_row}
use scroller.Grid.Bytes.{
  Bytes, word_of, put_smallint, put_integer, put_bigint, get_smallint, get_integer, get_bigint,
  put_char, load_bytes,
}

-- The byte at `grid->datum + a`: each row has its `rowsz` bytes, and the next one follows.
abbrev pub byte_at : Grid Bytes → ℕ → ℕ
byte_at grid a = grid.rows (a / grid.rowsz) (a % grid.rowsz)

-- From the pointer `grid->datum + grid->rowsz * row` on, beyond the end of the row too.
abbrev pub row_at : Grid Bytes → ℕ → Bytes
row_at grid row q = byte_at grid (grid.rowsz * row + q)

-- The rows, where the bytes from that pointer on are `written`.
abbrev pub write_from : Grid Bytes → ℕ → Bytes → ℕ → Bytes
write_from grid row written m q =
    let a = grid.rowsz * m + q in
    if leb (grid.rowsz * row) a then written (a - grid.rowsz * row) else grid.rows m q

-- The row and the offset in it.
unfoldable pub grid_get_cell : Grid Column → Grid Bytes → ℕ → ℕ → Option (Bytes × ℕ)
grid_get_cell hgrid grid row column = do
  there ← grid_get_row grid row
  hc ← grid_get_row hgrid column
  some (row_at grid row, hc.offs)

abbrev pub no_number : ℤ
no_number = pos 0

-- The member of the union that a type selects.
unfoldable pub read_number : SqlType → Bytes → ℕ → ℤ
read_number t_smallint r c = get_smallint r c
read_number t_integer r c = get_integer r c
read_number t_bigint r c = get_bigint r c
read_number t_unknown r c = no_number
read_number t_name r c = no_number
read_number t_char r c = no_number
read_number t_varchar r c = no_number

-- The pointer leads to the bytes of the cell.
unfoldable pub read_character : SqlType → ℕ → Bytes → ℕ → Option (List ℕ)
read_character t_char size r c = some (load_bytes (column_width t_char size) r c)
read_character t_varchar size r c = some (load_bytes (column_width t_varchar size) r c)
read_character t_smallint size r c = none
read_character t_integer size r c = none
read_character t_bigint size r c = none
read_character t_unknown size r c = none
read_character t_name size r c = none

unfoldable pub read_cell : Column → Bytes → Datum
read_cell hc r = record {
  type = hc.type;
  size = hc.size;
  number = read_number hc.type r hc.offs;
  character = read_character hc.type hc.size r hc.offs;
}

unfoldable pub grid_get_datum : Grid Column → Grid Bytes → ℕ → ℕ → Option Datum
unfolding read_cell
grid_get_datum hgrid grid row column = do
  hc ← grid_get_row hgrid column
  there ← grid_get_row grid row
  some (read_cell hc (row_at grid row))

abbrev pub same_type : SqlType → SqlType → Bool
same_type t_unknown t_unknown = true
same_type t_name t_name = true
same_type t_smallint t_smallint = true
same_type t_integer t_integer = true
same_type t_bigint t_bigint = true
same_type t_char t_char = true
same_type t_varchar t_varchar = true
same_type _ _ = false

-- `datum.value.bigint`: of a narrower integer, the bytes above it are zero.
abbrev pub bigint_of : Datum → ℤ
bigint_of d = elim d.type [
  | t_smallint ↦ pos (word_of 2 d.number)
  | t_integer ↦ pos (word_of 4 d.number)
  | _ ↦ d.number
]

unfoldable pub write_number : SqlType → Bytes → ℕ → ℤ → Bytes
write_number t_smallint r c v = put_smallint r c v
write_number t_integer r c v = put_integer r c v
write_number t_bigint r c v = put_bigint r c v
write_number t_unknown r c v = r
write_number t_name r c v = r
write_number t_char r c v = r
write_number t_varchar r c v = r

unfoldable pub write_character : SqlType → ℕ → Bytes → ℕ → List ℕ → Option Bytes
write_character t_char size r c src = put_char r c src size
write_character t_varchar size r c src = some r
write_character t_smallint size r c src = some r
write_character t_integer size r c src = some r
write_character t_bigint size r c src = some r
write_character t_unknown size r c src = some r
write_character t_name size r c src = some r

-- The `put_` that the switch on the column's type selects.
unfoldable pub write_group : TypeGroup → Column → Bytes → ℤ → List ℕ → Option Bytes
write_group integer_group hc r v src = some (write_number hc.type r hc.offs v)
write_group character_group hc r v src = write_character hc.type hc.size r hc.offs src
write_group unknown_group hc r v src = some r

abbrev with_status : ℕ → Option Bytes → Option (Bytes × ℕ)
with_status status none = none
with_status status (some r) = some (r, status)

-- The bytes from the row on afterwards, and the status.
unfoldable pub write_cell : Column → Bytes → Datum → Option (Bytes × ℕ)
unfolding write_group
write_cell hc r d =
    let group = get_type_group hc.type in
    if same_type d.type hc.type
    then with_status 0 (write_group group hc r d.number (bytes d))
    else if same_group (get_type_group d.type) group
    then with_status 0 (write_group group hc r (bigint_of d) (bytes d))
    else some (r, 1)

-- The grid afterwards and the status.
unfoldable pub grid_put_datum : Grid Column → Grid Bytes → ℕ → ℕ → Datum → Option (Grid Bytes × ℕ)
unfolding write_cell
grid_put_datum hgrid grid row column d = do
  hc ← grid_get_row hgrid column
  there ← grid_get_row grid row
  written ← write_cell hc (row_at grid row) d
  some (record grid { rows = write_from grid row written.0 }, written.1)
