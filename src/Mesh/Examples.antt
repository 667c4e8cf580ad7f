-- ===== src/Mesh/Examples.antt =====
-- A table of two pages, its iterator, and a row that is appended to it.
use scroller.Prelude.{ℕ, ◌+◌, ◌^◌, ◌≡◌, refl, [], ◌∷◌, ◌==◌, if◌then◌else◌, arith, pos}
use scroller.Datum.{t_bigint}
use scroller.Align.{align_up}
use scroller.Grid.{
  Grid, Column, gl_fixed, gc_pure, grid_alloc_row, grid_init, dgrid_init, hgrid_get_row_size,
}
use scroller.Grid.Bytes.{Bytes}
use scroller.Mesh.{GidPair, Pages, mitor_init, next_gid, chain_page, alloc_behind, mesh_alloc_row}
use scroller.Mesh.Walk.{Walks, rows_of_page, all_rows, init-Walks}
use scroller.Mesh.Grow.{Appended, alloc_row-appends}

-- The column "a" BIGINT.
abbrev header : Grid Column
header = record {
  size = 144;
  layout = gl_fixed;
  content = gc_pure;
  next = 0;
  rowsz = 40;
  rown = 3;
  occupied = 1;
  datasz = 8;
  rows = λ _. record { name = b'a' ∷ []; offs = 0; type = t_bigint; size = 0 };
}

abbrev grid_of : ℕ → ℕ → Grid Bytes
grid_of next occupied = record {
  size = 40;
  layout = gl_fixed;
  content = gc_pure;
  next = next;
  rowsz = 8;
  rown = 2;
  occupied = occupied;
  datasz = 0;
  rows = λ _ _. 0;
}

-- Page 2 leads to page 3; both are full.
abbrev pages : Pages
pages = record {
  headers = λ _. header;
  grids = λ q. if q == 2 then grid_of 3 2 else grid_of 0 2;
  sequence = record {
    min_val = pos 1;
    max_val = pos 9;
    last_val = pos 3;
    increment = pos 1;
    cycle = pos 0;
    is_called = pos 1;
  };
}

abbrev tail : GidPair
tail = record { header = 1; data_gid = 3 }

abbrev zeros : Bytes
zeros _ = 0

-- Page 1 of file 3.
abbrev behind : ℕ
behind = 3 + 2 ^ 40

run_alloc :
    ((mesh_alloc_row 40 zeros pages tail).1.data_gid ≡ behind)
    × (((mesh_alloc_row 40 zeros pages tail).0.grids 3).next ≡ behind)
    × (((mesh_alloc_row 40 zeros pages tail).0.grids behind).occupied ≡ 1)
unfolding mesh_alloc_row alloc_behind next_gid chain_page grid_alloc_row dgrid_init grid_init
    hgrid_get_row_size align_up
run_alloc = (refl, refl, refl)

init-Walks_example :
    Walks pages (mitor_init (record { header = 1; data_gid = 2 }) 1 2) (all_rows pages (2 ∷ 3 ∷ []))
init-Walks_example =
    init-Walks pages 1 2 (3 ∷ []) (λ e. omega (arith, e)) (λ e. omega (arith, e))
      (refl, (λ e. omega (arith, e)), refl)
      ((omega arith, omega arith), ((omega arith, omega arith), tt))

all_places : all_rows pages (2 ∷ 3 ∷ []) ≡ (2, 0) ∷ (2, 1) ∷ (3, 0) ∷ (3, 1) ∷ []
unfolding all_rows rows_of_page
all_places = refl

alloc_row-appends_example :
    Appended pages 2 (3 ∷ []) (mesh_alloc_row 40 zeros pages tail) (3 ∷ behind ∷ []) (behind, 0)
    × ((mesh_alloc_row 40 zeros pages tail).0.sequence ≡ pages.sequence)
unfolding dgrid_init grid_init hgrid_get_row_size align_up
alloc_row-appends_example =
    alloc_row-appends 40 zeros pages tail 2 (3 ∷ []) (refl, (λ e. omega (arith, e)), refl)
      (((λ e. omega (arith, e)), tt), (tt, tt)) refl (omega arith)
      (
        omega arith,
        (λ e. omega (arith, e)),
        ((λ e. omega (arith, e)), ((λ e. omega (arith, e)), tt)),
      )
