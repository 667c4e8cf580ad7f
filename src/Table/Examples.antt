-- ===== src/Table/Examples.antt =====
-- A table of three rows that a transaction sees in part, and the theorem at it.
use scroller.Prelude.{ℕ, ◌≡◌, refl, Option, none, some, [], ◌∷◌, ◌==◌, if◌then◌else◌, arith, pos}
use scroller.Datum.{t_bigint, t_char}
use scroller.Align.{align_up}
use scroller.Tran.{tf_aborted, tran_row_is_visible, tran_flag_get}
use scroller.Grid.{
  Grid, Column, gl_fixed, gc_mvcc, grid_get_row, grid_init, hgrid_init, hgrid_add_column,
  grid_alloc_row,
}
use scroller.Grid.Bytes.{Bytes, get_bigint, load, signed, word_of}
use scroller.Grid.Cells.{grid_get_datum, read_cell, read_number, read_character}
use scroller.Mesh.{Pages}
use scroller.Mesh.Walk.{all_rows, rows_of_page}
use scroller.Table.{Tran, Titor, titor_init, mitor_get_datum, row_is_visible, htable_init}
use scroller.Table.Hidden.{visible_rows}
use scroller.Table.Visible.{Sees, init-Sees}

abbrev blank : Column
blank = record { name = []; offs = 0; type = t_char; size = 0 }

abbrev columns_of : Option (Grid Column) → Grid Column
columns_of none = hgrid_init blank 144 gl_fixed gc_mvcc
columns_of (some g) = g

abbrev header : Grid Column
header = record {
  size = 144;
  layout = gl_fixed;
  content = gc_mvcc;
  next = 0;
  rowsz = 40;
  rown = 3;
  occupied = 2;
  datasz = 16;
  rows = λ i. record { name = []; offs = if i == 0 then 0 else 8; type = t_bigint; size = 0 };
}

-- The offsets that `htable_init` gives to the columns of the transactions.
run_init :
    ((columns_of (htable_init blank 144 gl_fixed gc_mvcc)).occupied ≡ 2)
    × ((columns_of (htable_init blank 144 gl_fixed gc_mvcc)).datasz ≡ 16)
    × (((columns_of (htable_init blank 144 gl_fixed gc_mvcc)).rows 1).offs ≡ 8)
unfolding htable_init hgrid_init grid_init hgrid_add_column grid_alloc_row align_up
run_init = (refl, refl, refl)

-- The number of the transaction that made a row, and of that which deleted it, in their low bytes.
abbrev stamped : ℕ → ℕ → Bytes
stamped tmin tmax q = if q == 0 then tmin else if q == 8 then tmax else 0

-- Row 0 was deleted by transaction 2. Page 2 has rows 0 and 1, page 3 row 0, made by transaction 0.
abbrev grid_of : ℕ → ℕ → (ℕ → Bytes) → Grid Bytes
grid_of next occupied rows = record {
  size = 64;
  layout = gl_fixed;
  content = gc_mvcc;
  next = next;
  rowsz = 16;
  rown = 2;
  occupied = occupied;
  datasz = 0;
  rows = rows;
}

abbrev pages : Pages
pages = record {
  headers = λ _. header;
  grids = λ q.
      if q == 2
      then grid_of 3 2 (λ i. if i == 0 then stamped 1 2 else stamped 1 0)
      else grid_of 0 1 (λ _. stamped 0 0);
  sequence = record {
    min_val = pos 1;
    max_val = pos 9;
    last_val = pos 3;
    increment = pos 1;
    cycle = pos 0;
    is_called = pos 1;
  };
}

-- All transactions but 0 have committed.
abbrev reader : Tran
reader = record {
  flags = record { tid_start = 0; size = 4088; datum = λ _. 254; outside = λ _. tf_aborted };
  key = 7;
}

run_visible : visible_rows pages (some reader) 1 (all_rows pages (2 ∷ 3 ∷ [])) ≡ (2, 1) ∷ []
unfolding visible_rows all_rows rows_of_page row_is_visible mitor_get_datum grid_get_datum
    grid_get_row read_cell read_number read_character get_bigint load signed word_of
    tran_row_is_visible tran_flag_get
run_visible = refl

init-Sees_example :
    (t : Titor) × (titor_init 9 pages (some reader) (record { header = 1; data_gid = 2 }) 1 2
      ≡ some t)
    × Sees 9 pages t (visible_rows pages (some reader) 1 (all_rows pages (2 ∷ 3 ∷ [])))
unfolding all_rows rows_of_page
init-Sees_example =
    init-Sees pages reader 1 9 2 (3 ∷ []) (λ e. omega (arith, e)) (λ e. omega (arith, e))
      (omega arith) (refl, (λ e. omega (arith, e)), refl)
      ((omega arith, omega arith), ((omega arith, omega arith), tt)) (refl, (refl, (refl, tt))) refl
      (omega arith)
