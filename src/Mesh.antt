-- ===== src/Mesh.antt =====
-- lib/core/src/mesh.c and mesh.h: the rows of a table in a chain of data grids, and the iterator over
-- them. A page is named by its global id, and a pointer to a page is that id: the page cache is taken
-- to keep the pages that a step uses.
pub mod Walk
pub mod Rows
pub mod Grow
mod Examples
use scroller.Prelude.{
  ℕ, ◌+◌, ◌-◌, ◌%◌, ◌^◌, Bool, true, false, not, ◌&&◌, Option, none, some, ltb, ◌==◌, if◌then◌else◌,
  ℤ, pos_part, neg_part, update,
}
use scroller.Gid.{undef, max_page, page, file_id, gid_of}
use scroller.Sequence.{Sequence, nextval}
use scroller.Grid.{Grid, Column, invalid_idx, grid_alloc_row, grid_delete_row, dgrid_init}
use scroller.Grid.Bytes.{Bytes, word_of}

pub record GidPair : Type 0 where
  pub header : ℕ
  pub data_gid : ℕ

-- What lies in the pages: the header grids, the data grids, and the grids of `g_sequence`.
pub record Pages : Type 0 where
  pub headers : ℕ → Grid Column
  pub grids : ℕ → Grid Bytes
  pub sequence : Sequence

-- The members `header` and `data` are pointers, `none` for NULL.
pub record Mitor : Type 0 where
  pub gp : GidPair
  pub header : Option ℕ
  pub grid : Option ℕ
  pub row : ℕ

abbrev pub mitor_init : GidPair → ℕ → ℕ → Mitor
mitor_init gp h d = record { gp = gp; header = some h; grid = some d; row = 0 }

abbrev pub mitor_init_invalid : Mitor
mitor_init_invalid = record {
  gp = record { header = undef; data_gid = undef };
  header = none;
  grid = none;
  row = 0;
}

unfoldable pub mitor_is_valid : Pages → Mitor → Bool
mitor_is_valid pages m =
    not (m.gp.header == undef)
    && not (m.gp.data_gid == undef)
    && elim m.grid [ none ↦ false | some p ↦ ltb m.row (pages.grids p).occupied ]

-- To the first row of the next page, where there is one.
unfoldable pub next_page : Pages → Mitor → Mitor
next_page pages m = elim m.grid [
  | none ↦ m
  | some p ↦
      let next = (pages.grids p).next in
      if next == undef
      then m
      else record m { gp = record m.gp { data_gid = next }; grid = some next; row = 0 }
]

unfoldable pub mitor_next : Pages → Mitor → Mitor
unfolding next_page
mitor_next pages m =
    let on = record m { row = (m.row + 1) % 2 ^ 16 } in
    if mitor_is_valid pages m
    then (if mitor_is_valid pages on then on else next_page pages on)
    else m

-- `none` where the iterator has no page.
unfoldable pub mitor_delete : Pages → Mitor → Option Pages
mitor_delete pages m = elim m.grid [
  | none ↦ none
  | some p ↦
      some (record pages { grids = update pages.grids p (grid_delete_row (pages.grids p) m.row).0 })
]

-- A page in use that is full: the id of the page that follows it, and the sequence afterwards.
unfoldable pub next_gid : Sequence → ℕ → Sequence × Option ℕ
next_gid sequence gid =
    let drawn = nextval sequence in
    if ltb (page gid) max_page then (sequence, some (gid_of (file_id gid) (page gid + 1))) else (
      drawn.0,
      elim drawn.1 [ none ↦ none | some currval ↦ some (gid_of (word_of 8 currval) 0) ],
    )

-- A new page `gid` behind the page `old`, with its first row taken. Of a row, `cleared` is the
-- bytes that `memset` leaves.
unfoldable pub chain_page : ℕ → Bytes → Pages → GidPair → ℕ → Pages × ℕ
chain_page pagesz cleared pages tail gid =
    let header = pages.headers tail.header in
    let old = pages.grids tail.data_gid in
    let fresh = dgrid_init cleared pagesz old.layout old.content header in
    let linked = update (update pages.grids gid fresh) tail.data_gid (record old { next = gid }) in
    let (filled, row) = grid_alloc_row (linked gid) in
    (record pages { grids = update linked gid filled }, row)

-- The tail is full, and `next_gid` has given `drawn`.
unfoldable pub alloc_behind :
    ℕ → Bytes → Pages → GidPair → Sequence × Option ℕ → Pages × GidPair × Mitor
unfolding chain_page
alloc_behind pagesz cleared pages tail drawn =
    let advanced = record pages { sequence = drawn.0 } in
    elim drawn.1 [
      | none ↦ (advanced, tail, mitor_init_invalid)
      | some gid ↦
          let (chained, first) = chain_page pagesz cleared advanced tail gid in
          let at = record tail { data_gid = gid } in
          (chained, at, record { gp = at; header = some tail.header; grid = some gid; row = first })
    ]

-- The pages, the tail and the iterator afterwards.
unfoldable pub mesh_alloc_row : ℕ → Bytes → Pages → GidPair → Pages × GidPair × Mitor
unfolding next_gid alloc_behind
mesh_alloc_row pagesz cleared pages tail =
    let (filled, row) = grid_alloc_row (pages.grids tail.data_gid) in
    if row == invalid_idx
    then alloc_behind pagesz cleared pages tail (next_gid pages.sequence tail.data_gid)
    else (
      record pages { grids = update pages.grids tail.data_gid filled },
      tail,
      record { gp = tail; header = some tail.header; grid = some tail.data_gid; row = row },
    )
