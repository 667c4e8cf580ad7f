-- ===== src/Table.antt =====
-- lib/core/src/table.c and table.h: the rows of a mesh that a transaction sees. A row of a grid with
-- GC_MVCC carries the transactions that made and deleted it in its first two columns.
mod Hidden
pub mod Visible
mod Examples
use scroller.Prelude.{
  ℕ, zero, suc, ◌+◌, Bool, true, false, ◌&&◌, not, Option, none, some, List, [], ◌∷◌, ◌>>=◌,
  if◌then◌else◌, ◌==◌,
}
use scroller.Datum.{Datum, t_bigint}
use scroller.Tran.{TranPage, tran_row_is_visible}
use scroller.Grid.{
  Grid, Column, GridLayout, GridContent, gc_pure, gc_mvcc, hgrid_init, dgrid_init, hgrid_add_column,
}
use scroller.Grid.Bytes.{Bytes, word_of}
use scroller.Grid.Cells.{grid_get_datum}
use scroller.Mesh.{GidPair, Pages, Mitor, mitor_init, mitor_is_valid, mitor_next, mesh_alloc_row}

-- What `tran_row_is_visible` reads: the flags of all transactions, which are global in the source,
-- and the key of this one. `autocommit` is not read here.
pub record Tran : Type 0 where
  pub flags : TranPage
  pub key : ℕ

pub record Titor : Type 0 where
  pub m : Mitor
  pub tran : Option Tran

-- `TMIN_IDX` and `TMAX_IDX`
abbrev pub tmin_idx : ℕ
tmin_idx = 0

abbrev pub tmax_idx : ℕ
tmax_idx = 1

unfoldable pub mitor_get_datum : Pages → Mitor → ℕ → Option Datum
mitor_get_datum pages m c = do
  h ← m.header
  p ← m.grid
  grid_get_datum (pages.headers h) (pages.grids p) m.row c

-- `(tran_t)d.value.bigint`. The iterator asks for it only where the row is there.
abbrev pub as_tran : Option Datum → ℕ
as_tran none = 0
as_tran (some d) = word_of 8 d.number

-- Of the row at the iterator.
unfoldable pub row_is_visible : Pages → Option Tran → Mitor → Bool
row_is_visible pages tran m =
    let tmin = as_tran (mitor_get_datum pages m tmin_idx) in
    let tmax = as_tran (mitor_get_datum pages m tmax_idx) in
    elim tran [ none ↦ false | some t ↦ tran_row_is_visible t.flags t.key tmin tmax ]

-- An iterator without a page is not valid, and the source does not step it.
abbrev pub content_of : Pages → Mitor → GridContent
content_of pages m = elim m.grid [ none ↦ gc_pure | some p ↦ (pages.grids p).content ]

abbrev pub is_pure : GridContent → Bool
is_pure gc_pure = true
is_pure gc_mvcc = false

abbrev pub has_tran : Option Tran → Bool
has_tran none = false
has_tran (some t) = true

unfoldable pub titor_is_valid : Pages → Titor → Bool
titor_is_valid pages t =
    mitor_is_valid pages t.m && (if is_pure (content_of pages t.m) then true else has_tran t.tran)

-- The loop of `titor_next`.
unfoldable pub next_visible : ℕ → Pages → Option Tran → Mitor → Mitor
next_visible zero pages tran m = m
next_visible (suc fuel) pages tran m =
    let n = mitor_next pages m in
    let rest = next_visible fuel pages tran n in
    if mitor_is_valid pages n then if row_is_visible pages tran n then n else rest else n

-- With fuel for the rows of the table.
unfoldable pub titor_next : ℕ → Pages → Titor → Titor
unfolding next_visible
titor_next fuel pages t =
    if is_pure (content_of pages t.m)
    then record t { m = mitor_next pages t.m }
    else record t { m = next_visible fuel pages t.tran t.m }

-- `none` where the first row, whose columns are read, is not there.
unfoldable pub titor_init : ℕ → Pages → Option Tran → GidPair → ℕ → ℕ → Option Titor
unfolding titor_next
titor_init fuel pages tran gp h d =
    let m = mitor_init gp h d in
    let t : Titor = record { m = m; tran = tran } in
    if is_pure (pages.grids d).content then some t else do
      tmin ← mitor_get_datum pages m tmin_idx
      tmax ← mitor_get_datum pages m tmax_idx
      some (
          if titor_is_valid pages t
          then if row_is_visible pages tran m then t else titor_next fuel pages t
          else t)

-- "*tmin" and "*tmax"
abbrev pub tmin_name : List ℕ
tmin_name = b'*' ∷ b't' ∷ b'm' ∷ b'i' ∷ b'n' ∷ []

abbrev pub tmax_name : List ℕ
tmax_name = b'*' ∷ b't' ∷ b'm' ∷ b'a' ∷ b'x' ∷ []

-- `none` is NULL.
unfoldable pub htable_init : Column → ℕ → GridLayout → GridContent → Option (Grid Column)
htable_init cleared pagesz layout content =
    let ret = hgrid_init cleared pagesz layout content in
    if is_pure content
    then some ret
    else (let one = hgrid_add_column ret tmin_name t_bigint 0 in
        let two = hgrid_add_column one.0 tmax_name t_bigint 0 in
        do c ← one.1; d ← two.1; some two.0)

unfoldable pub dtable_init : Bytes → ℕ → GridLayout → GridContent → Grid Column → Grid Bytes
dtable_init cleared pagesz layout content hgrid = dgrid_init cleared pagesz layout content hgrid

unfoldable pub table_alloc_row : ℕ → Bytes → Pages → Titor → GidPair → Pages × GidPair × Titor
table_alloc_row pagesz cleared pages titor tail =
    let (after, tail', m) = mesh_alloc_row pagesz cleared pages tail in
    (after, tail', record titor { m = record m { gp = tail' } })
