-- ===== src/Grid/Columns.antt =====
-- The columns that `hgrid_add_column` lays out, and the search for a name.
use Prim.Native.Nat.{bit_and}
use scroller.Prelude.{
  ℕ, zero, suc, ◌+◌, ◌-◌, take, ◌%◌, ◌^◌, ◌≤◌, ◌<◌, ◌≡◌, ◌↔◌, ◌⊎◌, inl, inr, refl, true, false,
  some, List, [], ◌∷◌, arith, Bool-cases, update, update_self, update_ne, dec_lt, ℕ_discrete,
  lt→ltb, ne→==,
}
use scroller.Align.{align_up}
use scroller.Align.Bits.{align_up_bounds, align_up_multiple}
use scroller.Datum.{SqlType, t_unknown, t_name, t_smallint, t_integer, t_bigint, t_char, t_varchar}
use scroller.Grid.{
  Grid, Column, invalid_idx, column_width, new_column, grid_alloc_row, hgrid_add_column, same_name,
  find_column, hgrid_get_column_idx,
}

abbrev pub end_of : Column → ℕ
end_of c = c.offs + column_width c.type c.size

-- The columns of a header grid follow one another and end before `datasz`.
pub record IsLayout (g : Grid Column) : Type 0 where
  pub ordered : (i j : ℕ) → i < j → j < g.occupied → end_of (g.rows i) ≤ (g.rows j).offs
  pub ended : (i : ℕ) → i < g.occupied → end_of (g.rows i) ≤ g.datasz

added :
    (g : Grid Column) (name : List ℕ) (type : SqlType) (size : ℕ)
    → g.occupied < g.rown
    → g.rown < 2 ^ 16
    → hgrid_add_column g name type size ≡ (
      record g {
        rows = update g.rows g.occupied (new_column g name type size);
        datasz = ((new_column g name type size).offs + column_width type size) % 2 ^ 16;
        occupied = g.occupied + 1;
      },
      some (new_column g name type size),
    )
unfolding hgrid_add_column grid_alloc_row
added g name type size room small =
    rw (lt→ltb g.occupied g.rown room) (rw (ne→== g.occupied invalid_idx (omega arith)))

-- An offset that is not below `datasz`, by the type: a multiple of the width of an integer; for a
-- CHAR, whose size need not be a power of two, the sum with the mask cleared.
abbrev pub IsAligned : SqlType → ℕ → ℕ → ℕ → Type 0
IsAligned t_smallint size datasz offs = offs % 2 ≡ 0
IsAligned t_integer size datasz offs = offs % 4 ≡ 0
IsAligned t_bigint size datasz offs = offs % 8 ≡ 0
IsAligned t_varchar size datasz offs = offs % 2 ≡ 0
IsAligned t_char size datasz offs =
    offs ≡ datasz + size - 1 - bit_and (datasz + size - 1) (size - 1)
IsAligned t_unknown size datasz offs = Unit
IsAligned t_name size datasz offs = Unit

aligned :
    (type : SqlType) (size datasz : ℕ)
    → 1 ≤ column_width type size
    → datasz + column_width type size + column_width type size ≤ 2 ^ 16
    → IsAligned type size datasz (align_up datasz (column_width type size))
unfolding align_up
aligned t_smallint size datasz wide fits = (align_up_multiple datasz (omega arith)).0
aligned t_integer size datasz wide fits = (align_up_multiple datasz (omega arith)).1
aligned t_bigint size datasz wide fits = (align_up_multiple datasz (omega arith)).2
aligned t_varchar size datasz wide fits = (align_up_multiple datasz (omega arith)).0
aligned t_char zero datasz wide fits = absurd (omega arith)
aligned t_char (suc m) datasz wide fits =
    let e : (datasz + m) % 2 ^ 64 ≡ datasz + suc m - 1 = omega arith in
    let e' : suc m - 1 ≡ m = omega arith in rw (e, e') refl
aligned t_unknown size datasz wide fits = tt
aligned t_name size datasz wide fits = tt

-- To a header grid whose columns follow one another and that has a free row, `hgrid_add_column` of
-- a width of at least one byte, where the row size and twice the width are within 2^16, adds a
-- column behind the others, which stay. It has the name, cut to 15 bytes, the type and the size;
-- its offset is at least the row size, by less than its width, and aligned as `IsAligned` says; the
-- row size ends with it. The columns still follow one another and end within the row size.
pub add_column-IsLayout :
    (g : Grid Column) (name : List ℕ) (type : SqlType) (size : ℕ)
    → IsLayout g
    → g.occupied < g.rown
    → g.rown < 2 ^ 16
    → 1 ≤ column_width type size
    → g.datasz + column_width type size + column_width type size ≤ 2 ^ 16
    → (h : Grid Column) × (c : Column) × (hgrid_add_column g name type size ≡ (h, some c))
      × IsLayout h
      × (h.rows g.occupied ≡ c)
      × ((i : ℕ) → i < g.occupied → h.rows i ≡ g.rows i)
      × ((c.name ≡ take 15 name) × (c.type ≡ type) × (c.size ≡ size))
      × ((g.datasz ≤ c.offs) × (c.offs < g.datasz + column_width type size))
      × IsAligned type size g.datasz c.offs
      × ((h.datasz ≡ c.offs + column_width type size) × (h.occupied ≡ g.occupied + 1))
add_column-IsLayout g name type size w room small wide fits =
    let c = new_column g name type size in
    let (low, high) = align_up_bounds g.datasz (column_width type size) wide (omega arith) in
    (
      record g {
        rows = update g.rows g.occupied c;
        datasz = (c.offs + column_width type size) % 2 ^ 16;
        occupied = g.occupied + 1;
      },
      c,
      added g name type size room small,
      record {
        ordered = λ i j lt le. elim (dec_lt j g.occupied) [
          | yes old ↦
              rw
                (
                  update_ne g.rows g.occupied i c (omega arith),
                  update_ne g.rows g.occupied j c (omega arith),
                )
                (w.ordered i j lt old)
          | no new ↦
              let e : j ≡ g.occupied = omega arith in
              let k = w.ended i (omega arith) in
              rw (e, update_self g.rows g.occupied c, update_ne g.rows g.occupied i c (omega arith))
                (omega arith)
        ];
        ended = λ i le. elim (dec_lt i g.occupied) [
          | yes old ↦
              let k = w.ended i old in
              rw (update_ne g.rows g.occupied i c (omega arith)) (omega arith)
          | no new ↦
              let e : i ≡ g.occupied = omega arith in
              rw (e, update_self g.rows g.occupied c) (omega arith)
        ];
      },
      update_self g.rows g.occupied c,
      λ i h. update_ne g.rows g.occupied i c (omega arith),
      (refl, refl, refl),
      (low, high),
      aligned type size g.datasz wide fits,
      (omega arith, refl),
    )

-- In a header grid with two free rows, a CHAR column of size 0 sets the row size back to 0,
-- whatever columns there are: the BIGINT column that is added next lies at offset 0.
pub add_empty_column :
    (g : Grid Column) (name next_name : List ℕ)
    → g.occupied + 1 < g.rown
    → g.rown < 2 ^ 16
    → (h k : Grid Column) × (c d : Column) × (hgrid_add_column g name t_char 0 ≡ (h, some c))
      × (h.datasz ≡ 0)
      × (hgrid_add_column h next_name t_bigint 0 ≡ (k, some d))
      × (d.offs ≡ 0)
unfolding align_up
add_empty_column g name next_name room small =
    let c = new_column g name t_char 0 in
    let h = record g { rows = update g.rows g.occupied c; datasz = 0; occupied = g.occupied + 1 } in
    (
      h,
      _,
      c,
      _,
      added g name t_char 0 (omega arith) small,
      refl,
      added h next_name t_bigint 0 room small,
      refl,
    )

-- From `i` on, if at `i` and from the next on.
below :
    (f : ℕ → Column) (name : List ℕ) (i : ℕ) {end : ℕ}
    → same_name (f i).name name ≡ false
    → ((j : ℕ) → i + 1 ≤ j → j < end → same_name (f j).name name ≡ false)
    → (j : ℕ) → i ≤ j
    → j < end
    → same_name (f j).name name ≡ false
below f name i other differ j h k = elim (ℕ_discrete j i) [
  | yes e ↦ rw e other
  | no ne ↦ differ j (omega arith) k
]

find_column-first :
    (f : ℕ → Column) (name : List ℕ) (n i : ℕ)
    → i + n < invalid_idx
    → ((find_column f name n i ≡ invalid_idx)
        × ((j : ℕ) → i ≤ j → j < i + n → same_name (f j).name name ≡ false))
      ⊎ ((i ≤ find_column f name n i)
          × (find_column f name n i < i + n)
          × (same_name (f (find_column f name n i)).name name ≡ true)
          × ((j : ℕ) → i ≤ j → j < find_column f name n i → same_name (f j).name name ≡ false))
unfolding find_column
find_column-first f name zero i small = inl (refl, λ j h k. absurd (omega arith))
find_column-first f name (suc n) i small = elim (Bool-cases (same_name (f i).name name)) [
  | inl here ↦ inr (rw here (omega arith, omega arith, here, λ j h k. absurd (omega arith)))
  | inr other ↦ rw other (elim (find_column-first f name n (i + 1) (omega arith)) [
    | inl (none_left, differ) ↦
        inl (none_left, λ j h k. below f name i other differ j h (omega arith))
    | inr (low, high, found, differ) ↦
        inr (omega arith, omega arith, found, λ j h k. below f name i other differ j h k)
  ])
]

-- With fewer than 65535 columns, `hgrid_get_column_idx` gives the first column with the name, or
-- GRID_INVALID_IDX if there is none.
pub column_idx-first :
    (g : Grid Column) (name : List ℕ)
    → g.occupied < invalid_idx
    → ((hgrid_get_column_idx g name ≡ invalid_idx)
        × ((j : ℕ) → j < g.occupied → same_name (g.rows j).name name ≡ false))
      ⊎ ((hgrid_get_column_idx g name < g.occupied)
          × (same_name (g.rows (hgrid_get_column_idx g name)).name name ≡ true)
          × ((j : ℕ) → j < hgrid_get_column_idx g name → same_name (g.rows j).name name ≡ false))
unfolding hgrid_get_column_idx
column_idx-first g name small = elim (find_column-first g.rows name g.occupied 0 (omega arith)) [
  | inl (missing, differ) ↦ inl (missing, λ j h. differ j (omega arith) (omega arith))
  | inr (low, high, found, differ) ↦ inr (omega arith, found, λ j h. differ j (omega arith) h)
]

-- Two strings are the same name exactly if they are equal.
pub same_name_iff : (a b : List ℕ) → (same_name a b ≡ true) ↔ (a ≡ b)
same_name_iff [] [] = (λ e. refl, λ e. refl)
same_name_iff [] (y ∷ b) = (λ e. ground arith, λ e. ground arith)
same_name_iff (x ∷ a) [] = (λ e. ground arith, λ e. ground arith)
same_name_iff (x ∷ a) (y ∷ b) = let ih = same_name_iff a b in (λ e. grind arith, λ e. grind arith)
