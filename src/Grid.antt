-- ===== src/Grid.antt =====
-- lib/core/src/grid.c and grid.h: grids of rows of equal size, and header grids, whose rows are the
-- columns of a table. Row `n` is the `rowsz` bytes at `grid->datum + grid->rowsz * n`, up to where the
-- next one starts, so that whole rows move as one; Grid/Cells reads and writes by address, over the
-- ends of rows. The asserts are off.
pub mod Rows
pub mod Columns
pub mod Bytes
pub mod Cells
mod Frame
pub mod Stored
mod Examples
use scroller.Prelude.{
  ℕ, zero, suc, ◌+◌, ◌-◌, ◌*◌, ◌/◌, ◌%◌, ◌^◌, Bool, true, false, Option, none, some, List, [], ◌∷◌,
  ltb, leb, ◌==◌, if◌then◌else◌, ◌&&◌, update, take,
}
use scroller.Align.{align_up}
use scroller.Gid.{undef}
use scroller.Datum.{SqlType, size_meaning, type_size, typesz, columnsz}

-- `sizeof(Grid)`: 8 bytes of magic, size, layout and content, a Gid of 8, and four uint16_t.
abbrev pub header_size : ℕ
header_size = 24

-- `GRID_INVALID_IDX`
abbrev pub invalid_idx : ℕ
invalid_idx = 65535

pub data GridLayout : Type 0 where
  gl_fixed : GridLayout

pub data GridContent : Type 0 where
  gc_pure gc_mvcc : GridContent

-- `rows` is what lies in the page, row by row, beyond the occupied ones too. Where a row is its bytes,
-- these are the bytes below `rowsz`, and no others are read.
pub record Grid {ℓ} (R : Type ℓ) : Type ℓ where
  pub size : ℕ
  pub layout : GridLayout
  pub content : GridContent
  pub next : ℕ
  pub rowsz : ℕ
  pub rown : ℕ
  pub occupied : ℕ
  pub datasz : ℕ
  pub rows : ℕ → R

module _ {ℓ} {R : Type ℓ} where
  -- `cleared` is the row of all zeros. The difference is a size_t and the quotient a uint16_t.
  unfoldable pub grid_init : R → ℕ → GridLayout → GridContent → ℕ → Grid R
  grid_init cleared pagesz layout content rowsz = record {
    size = pagesz;
    layout = layout;
    content = content;
    next = undef;
    rowsz = rowsz;
    rown = (pagesz + 2 ^ 64 - header_size) % 2 ^ 64 / rowsz % 2 ^ 16;
    occupied = 0;
    datasz = 0;
    rows = λ _. cleared;
  }

  unfoldable pub grid_get_row : Grid R → ℕ → Option R
  grid_get_row g n = if ltb n g.occupied then some (g.rows n) else none

  -- The grid afterwards and the index.
  unfoldable pub grid_alloc_row : Grid R → Grid R × ℕ
  grid_alloc_row g =
      if ltb g.occupied g.rown
      then (record g { occupied = g.occupied + 1 }, g.occupied)
      else (g, invalid_idx)

  -- The `memmove` of `n` rows from row `src` to row `dest`.
  abbrev pub memmove : (ℕ → R) → ℕ → ℕ → ℕ → ℕ → R
  memmove f dest src n q = if leb dest q && ltb q (dest + n) then f (src + (q - dest)) else f q

  unfoldable pub grid_delete_row : Grid R → ℕ → Grid R × ℕ
  grid_delete_row g row =
      if ltb row g.occupied
      then (
        record g {
          rows = memmove g.rows row (row + 1) (g.occupied - row - 1);
          occupied = g.occupied - 1;
        },
        g.occupied - 1,
      )
      else (g, invalid_idx)

-- The name without its final zeros.
pub record Column : Type 0 where
  pub name : List ℕ
  pub offs : ℕ
  pub type : SqlType
  pub size : ℕ

-- `cursz` of `hgrid_add_column`.
abbrev pub column_width : SqlType → ℕ → ℕ
column_width type size = elim (size_meaning type) [ typesz ↦ type_size type | columnsz ↦ size ]

-- `sizeof(Column)`: a name of 16 bytes, the offset, the type and the size.
abbrev pub column_size : ℕ
column_size = 40

unfoldable pub hgrid_init : Column → ℕ → GridLayout → GridContent → Grid Column
hgrid_init cleared pagesz layout content = grid_init cleared pagesz layout content column_size

-- Aligned to `sizeof(int)`, and cut to a uint16_t as an argument of `grid_init`.
unfoldable pub hgrid_get_row_size : Grid Column → ℕ
hgrid_get_row_size g = align_up g.datasz 4

unfoldable pub dgrid_init {ℓ} :
    {R : Type ℓ} → R → ℕ → GridLayout → GridContent → Grid Column → Grid R
dgrid_init cleared pagesz layout content hgrid =
    grid_init cleared pagesz layout content (hgrid_get_row_size hgrid % 2 ^ 16)

-- The column that `hgrid_add_column` writes.
abbrev pub new_column : Grid Column → List ℕ → SqlType → ℕ → Column
new_column g name type size = record {
  name = take 15 name;
  offs = align_up g.datasz (column_width type size);
  type = type;
  size = size;
}

-- The grid afterwards and the column, or `none` for NULL. `datasz` is a uint16_t.
unfoldable pub hgrid_add_column : Grid Column → List ℕ → SqlType → ℕ → Grid Column × Option Column
unfolding grid_alloc_row
hgrid_add_column g name type size =
    let (h, idx) = grid_alloc_row g in
    let c = new_column g name type size in
    if idx == invalid_idx then (h, none) else (
      record h { rows = update h.rows idx c; datasz = (c.offs + column_width type size) % 2 ^ 16 },
      some c,
    )

-- `strcmp(a, b) == 0`
abbrev pub same_name : List ℕ → List ℕ → Bool
same_name [] [] = true
same_name (x ∷ a) (y ∷ b) = let rest = same_name a b in if x == y then rest else false
same_name _ _ = false

-- The loop of `hgrid_get_column_idx` with `n` columns to go, from column `i` on.
unfoldable pub find_column : (ℕ → Column) → List ℕ → ℕ → ℕ → ℕ
find_column f name zero i = invalid_idx
find_column f name (suc n) i =
    let rest = find_column f name n (i + 1) in if same_name (f i).name name then i else rest

unfoldable pub hgrid_get_column_idx : Grid Column → List ℕ → ℕ
unfolding find_column
hgrid_get_column_idx g name = find_column g.rows name g.occupied 0
