-- ===== src/Grid/Stored.antt =====
-- What `grid_put_datum` stores, `grid_get_datum` reads, and all other cells stay.
use scroller.Prelude.{
  ℕ, ◌+◌, ◌-◌, ◌^◌, ◌≤◌, ◌<◌, ◌≡◌, ◌≢◌, ◌⊎◌, inl, inr, refl, ap, ◌∙◌, sym, true, some, List, ◌++◌,
  length, ℤ, pos, negsuc, ◌≤ℤ◌, arith, ℕ_discrete, Bool-cases, IsInt64, subst,
}
use scroller.Datum.{
  Datum, SqlType, t_unknown, t_name, t_smallint, t_integer, t_bigint, t_char, t_varchar,
  integer_group, character_group, get_type_group, bytes, type_size,
}
use scroller.Grid.{Grid, Column, column_width}
use scroller.Grid.Columns.{IsLayout}
use scroller.Grid.Bytes.{
  Ends, text_of-append, length_filled, Bytes, word_of, signed, put_smallint, put_integer,
  put_bigint, get_smallint, get_integer, get_bigint, put_char, store_bytes_outside, load_bytes,
  store_bytes, load-store, load_bytes-store_bytes,
}
use scroller.Grid.Cells.{
  row_at, read_number, read_character, read_cell, grid_get_datum, same_type, write_number,
  write_character, write_group, write_cell, grid_put_datum,
}
use scroller.Datum.Text.{spaces}
use scroller.Grid.Frame.{
  changed, row_at-changed, row_at-other, write_number_outside, Outside, read_cell_agree,
  columns_apart, put_written, got,
}

-- What is left of a number in `w` bytes.
abbrev pub narrowed : ℕ → ℤ → ℤ
narrowed w v = signed w (word_of w v)

-- A number within the bounds of 2, 4 or 8 bytes stays.
pub narrowed-smallint : (v : ℤ) → negsuc 32767 ≤ℤ v → v ≤ℤ pos 32767 → narrowed 2 v ≡ v
unfolding signed word_of
narrowed-smallint v low high = ground arith

pub narrowed-integer : (v : ℤ) → negsuc (2 ^ 31 - 1) ≤ℤ v → v ≤ℤ pos (2 ^ 31 - 1) → narrowed 4 v ≡ v
unfolding signed word_of
narrowed-integer v low high = ground arith

pub narrowed-bigint : (v : ℤ) → IsInt64 v → narrowed 8 v ≡ v
unfolding signed word_of
narrowed-bigint v h = ground arith

read_number-write_number :
    (t : SqlType) (r : Bytes) (c : ℕ) (v : ℤ)
    → get_type_group t ≡ integer_group
    → read_number t (write_number t r c v) c ≡ narrowed (type_size t) v
unfolding read_number write_number put_smallint put_integer put_bigint get_smallint get_integer
    get_bigint word_of
read_number-write_number t_smallint r c v g =
    ap (signed 2) (load-store 2 (word_of 2 v) r c (omega arith))
read_number-write_number t_integer r c v g =
    ap (signed 4) (load-store 4 (word_of 4 v) r c (omega arith))
read_number-write_number t_bigint r c v g =
    ap (signed 8) (load-store 8 (word_of 8 v) r c (omega arith))
read_number-write_number t_unknown r c v g = ground arith
read_number-write_number t_name r c v g = ground arith
read_number-write_number t_char r c v g = ground arith
read_number-write_number t_varchar r c v g = ground arith

same_type_self : (t : SqlType) → same_type t t ≡ true
same_type_self t_unknown = refl
same_type_self t_name = refl
same_type_self t_smallint = refl
same_type_self t_integer = refl
same_type_self t_bigint = refl
same_type_self t_char = refl
same_type_self t_varchar = refl

write_cell-number :
    (hc : Column) (r : Bytes) (d : Datum)
    → get_type_group hc.type ≡ integer_group
    → (d.type ≡ hc.type) ⊎ (d.type ≡ t_bigint)
    → write_cell hc r d ≡ some (write_number hc.type r hc.offs d.number, 0)
unfolding write_cell write_group
write_cell-number hc r d g (inl e) = rw (e, same_type_self hc.type, g) refl
write_cell-number hc r d g (inr e) = elim (Bool-cases (same_type d.type hc.type)) [
  | inl same ↦ rw (same, g) refl
  | inr other ↦ rw (other, e, g) refl
]

-- A text filled up with spaces to `n` bytes.
abbrev pub filled : ℕ → List ℕ → List ℕ
filled n text = text ++ spaces (n - length text)

write_cell-character :
    (hc : Column) (r : Bytes) (d : Datum) (text rest : List ℕ)
    → hc.type ≡ t_char
    → get_type_group d.type ≡ character_group
    → bytes d ≡ text ++ rest
    → Ends hc.size text rest
    → write_cell hc r d ≡ some (store_bytes (filled hc.size text) r hc.offs, 0)
unfolding write_cell write_group write_character put_char
write_cell-character hc r d text rest e g split ends =
    let counted = text_of-append hc.size text rest ends in
    elim (Bool-cases (same_type d.type hc.type)) [
      | inl same ↦ rw (same, e, split, counted) refl
      | inr other ↦ rw (other, e, g, split, counted) refl
    ]

-- As many bytes as the column has.
length-filled : (n : ℕ) (text rest : List ℕ) → Ends n text rest → length (filled n text) ≡ n
length-filled n text rest (out, inl e) = length_filled n text (omega (arith, e))
length-filled n text rest (out, inr (lt, behind, e)) = length_filled n text (omega (arith, lt))

filled_back :
    (n : ℕ) (text rest : List ℕ) (r : Bytes) (c : ℕ)
    → Ends n text rest
    → load_bytes n (store_bytes (filled n text) r c) c ≡ filled n text
filled_back n text rest r c ends =
    subst (λ z. load_bytes z (store_bytes (filled n text) r c) c ≡ filled n text)
      (length-filled n text rest ends) (load_bytes-store_bytes (filled n text) r c)

-- Every cell but that of the row and the column reads as before.
abbrev pub OthersStay : Grid Column → Grid Bytes → Grid Bytes → ℕ → ℕ → Type 0
OthersStay hgrid grid grid' row column =
    (i j : ℕ)
    → i < grid.occupied
    → j < hgrid.occupied
    → (i ≢ row) ⊎ (j ≢ column)
    → grid_get_datum hgrid grid' i j ≡ grid_get_datum hgrid grid i j

module _ (hgrid : Grid Column) (grid : Grid Bytes) (row column : ℕ) (d : Datum) (w : IsLayout hgrid)
    (within : hgrid.datasz ≤ grid.rowsz) (hr : row < grid.occupied)
    (hc : column < hgrid.occupied) where
  -- Bytes that differ from those of the row in the cell of the column alone.
  module _ (written : Bytes)
      (outside : (q : ℕ) → Outside (hgrid.rows column) q → written q ≡ row_at grid row q) where
    others_stay : OthersStay hgrid grid (changed grid row written) row column
    others_stay i j hi hj apart =
        let after = changed grid row written in
        let cell = hgrid.rows j in
        let at_end = w.ended column hc in
        let ended = w.ended j hj in
        got hgrid after i j hi hj
        ∙ ap some (
            read_cell_agree cell (row_at grid i) (row_at after i) λ q low high.
              elim (ℕ_discrete i row) [
                | no other ↦
                    row_at-other grid row written i q other (omega arith)
                      λ k far. outside k (inr (omega arith))
                | yes same ↦
                    ap (λ z. row_at after z q) same
                    ∙ row_at-changed grid row written q
                    ∙ outside q
                        (columns_apart hgrid column j w hc hj (ne i j apart same) q low high)
                    ∙ ap (λ z. row_at grid z q) (sym same)
              ])
        ∙ sym (got hgrid grid i j hi hj)
      where
        ne : (i j : ℕ) → (i ≢ row) ⊎ (j ≢ column) → i ≡ row → column ≢ j
        ne i j apart same s = elim apart [ inl differ ↦ differ same | inr differ ↦ differ (sym s) ]

    read_back :
        grid_get_datum hgrid (changed grid row written) row column
        ≡ some (read_cell (hgrid.rows column) written)
    read_back =
        let after = changed grid row written in
        got hgrid after row column hr hc
        ∙ ap some (
            read_cell_agree (hgrid.rows column) written (row_at after row)
              λ q low high. row_at-changed grid row written q)

  -- In a grid whose columns follow one another and end within the row size, `grid_put_datum` of a
  -- datum of an integer column's own type, or of a BIGINT, succeeds, and `grid_get_datum` then reads
  -- the number, cut to the bytes of the column in two's complement. Every other cell of the grid
  -- reads as before.
  pub put_datum-number :
      get_type_group (hgrid.rows column).type ≡ integer_group
      → (d.type ≡ (hgrid.rows column).type) ⊎ (d.type ≡ t_bigint)
      → (g : Grid Bytes) × (e : Datum) × (grid_put_datum hgrid grid row column d ≡ some (g, 0))
        × (grid_get_datum hgrid g row column ≡ some e)
        × (e.number ≡ narrowed (type_size (hgrid.rows column).type) d.number)
        × OthersStay hgrid grid g row column
  unfolding read_cell
  put_datum-number g kind =
      let c = hgrid.rows column in
      let r = row_at grid row in
      let written = write_number c.type r c.offs d.number in
      let outside =
        λ (q : ℕ) (out : Outside c q). write_number_outside c.type c.size r c.offs d.number q out in
      (
        changed grid row written,
        read_cell c written,
        put_written hgrid grid row column d (written, 0) hr hc (write_cell-number c r d g kind),
        read_back written outside,
        read_number-write_number c.type r c.offs d.number g,
        others_stay written outside,
      )

  -- In a grid whose columns follow one another and end within the row size, `grid_put_datum` in a
  -- CHAR column of a string whose text, without zeros, has the size of the column at least, or ends
  -- before at a zero, succeeds, and `grid_get_datum` then reads the text, of at most the size of the
  -- column, filled up with spaces. Every other cell of the grid reads as before.
  pub put_datum-character :
      (text rest : List ℕ)
      → (hgrid.rows column).type ≡ t_char
      → get_type_group d.type ≡ character_group
      → bytes d ≡ text ++ rest
      → Ends (hgrid.rows column).size text rest
      → (g : Grid Bytes) × (e : Datum) × (grid_put_datum hgrid grid row column d ≡ some (g, 0))
        × (grid_get_datum hgrid g row column ≡ some e)
        × (e.character ≡ some (filled (hgrid.rows column).size text))
        × OthersStay hgrid grid g row column
  unfolding read_cell read_character
  put_datum-character text rest t g split ends =
      let c = hgrid.rows column in
      let r = row_at grid row in
      let written = store_bytes (filled c.size text) r c.offs in
      let wide : column_width c.type c.size ≡ c.size = rw t refl in
      let long = length-filled c.size text rest ends in
      let outside = λ (q : ℕ) (out : Outside c q).
        store_bytes_outside (filled c.size text) r c.offs q
          (subst (λ z. (q < c.offs) ⊎ (c.offs + z ≤ q)) (wide ∙ sym long) out) in
      (
        changed grid row written,
        read_cell c written,
        put_written hgrid grid row column d (written, 0) hr hc
            (write_cell-character c r d text rest t g split ends),
        read_back written outside,
        rw t (ap some (filled_back c.size text rest r c.offs ends)),
        others_stay written outside,
      )
