-- ===== src/Grid/Rows.antt =====
-- The rows of a grid within its page.
use native.Mathlib.Nat.{div-mul-le_self, div-le_self}
use scroller.Prelude.{
  ℕ, ◌+◌, ◌-◌, ◌*◌, ◌/◌, ◌%◌, ◌^◌, ◌≤◌, ◌<◌, ◌≡◌, ◌⊎◌, inl, inr, refl, false, none, some, ltb, leb,
  if◌then◌else◌, arith, Bool-cases, ltb→lt, lt→ltb, le→leb, dec_lt,
}
use scroller.Grid.{
  Grid, GridLayout, GridContent, header_size, invalid_idx, grid_init, grid_get_row, grid_alloc_row,
  memmove, grid_delete_row,
}

-- The rows lie within the page, and the occupied ones among them.
pub record IsGrid {ℓ} {R : Type ℓ} (g : Grid R) : Type 0 where
  pub within : header_size + g.rown * g.rowsz ≤ g.size
  pub used : g.occupied ≤ g.rown
  pub small : g.rown < 2 ^ 16

ne_lt : (a b : ℕ) → ltb a b ≡ false → b ≤ a
ne_lt a b h = ground arith

module _ {ℓ} {R : Type ℓ} where
  -- `grid_init` on a page that holds a header gives a grid without rows that stays in its page.
  pub init-IsGrid :
      (cleared : R) (pagesz : ℕ) (layout : GridLayout) (content : GridContent) (rowsz : ℕ)
      → header_size ≤ pagesz
      → pagesz < 2 ^ 16
      → 1 ≤ rowsz
      → IsGrid (grid_init cleared pagesz layout content rowsz)
        × ((n : ℕ) → grid_get_row (grid_init cleared pagesz layout content rowsz) n ≡ none)
  unfolding grid_init grid_get_row
  init-IsGrid cleared pagesz layout content rowsz large small wide =
      let room : (pagesz + 2 ^ 64 - header_size) % 2 ^ 64 ≡ pagesz - header_size = omega arith in
      (
        record {
          within =
              let q = div-mul-le_self (pagesz - header_size) rowsz in
              let le = div-le_self (pagesz - header_size) rowsz in
              let e : (pagesz - header_size) / rowsz % 65536 ≡ (pagesz - header_size) / rowsz =
                omega arith in
              rw (room, e) (omega arith);
          used = omega arith;
          small = omega arith;
        },
        λ n. ground arith,
      )

  -- `grid_alloc_row` adds a row where there is room, and returns its index, which is valid; else it
  -- changes nothing and returns GRID_INVALID_IDX.
  pub alloc_row-IsGrid :
      (g : Grid R)
      → IsGrid g
      → IsGrid (grid_alloc_row g).0
        × (((g.occupied < g.rown)
              × ((grid_alloc_row g).1 ≡ g.occupied)
              × ((grid_alloc_row g).0.occupied ≡ g.occupied + 1)
              × (g.occupied < invalid_idx))
            ⊎ ((g.rown ≤ g.occupied) × (grid_alloc_row g ≡ (g, invalid_idx))))
        × ((n : ℕ) → n < g.occupied → grid_get_row (grid_alloc_row g).0 n ≡ grid_get_row g n)
  unfolding grid_alloc_row grid_get_row
  alloc_row-IsGrid g w =
      let within = w.within in
      let used = w.used in
      let small = w.small in
      elim (Bool-cases (ltb g.occupied g.rown)) [
        | inl room ↦
            let h = ltb→lt g.occupied g.rown room in
            rw room (
              record { within = within; used = omega arith; small = small },
              inl (h, refl, refl, omega arith),
              λ n k. rw (lt→ltb n (g.occupied + 1) (omega arith), lt→ltb n g.occupied k),
            )
        | inr full ↦ rw full (w, inr (ground arith, refl), λ n k. refl)
      ]

  memmove_before : (f : ℕ → R) (dest src n q : ℕ) → q < dest → memmove f dest src n q ≡ f q
  memmove_before f dest src n q h = let e : leb dest q ≡ false = ground arith in rw e

  memmove_within :
      (f : ℕ → R) (dest src n q : ℕ)
      → dest ≤ q
      → q < dest + n
      → memmove f dest src n q ≡ f (src + (q - dest))
  memmove_within f dest src n q h k = rw (le→leb dest q h, lt→ltb q (dest + n) k)

  moved_up :
      (g : Grid R) (row : ℕ)
      → row < g.occupied
      → (i : ℕ)
      → (if ltb i (g.occupied - 1)
          then some (memmove g.rows row (row + 1) (g.occupied - row - 1) i)
          else none)
        ≡ (if ltb i row then grid_get_row g i else grid_get_row g (i + 1))
  unfolding grid_get_row
  moved_up g row h i = elim (dec_lt i row) [
    | yes before ↦ rw (
      lt→ltb i row before,
      lt→ltb i (g.occupied - 1) (omega arith),
      lt→ltb i g.occupied (omega arith),
      memmove_before g.rows row (row + 1) (g.occupied - row - 1) i before,
    )
    | no behind ↦
        let e : ltb i row ≡ false = ground arith in
        elim (dec_lt i (g.occupied - 1)) [
          | yes inside ↦
              let next : row + 1 + (i - row) ≡ i + 1 = omega arith in
              rw (
                e,
                lt→ltb i (g.occupied - 1) inside,
                lt→ltb (i + 1) g.occupied (omega arith),
                memmove_within g.rows row (row + 1) (g.occupied - row - 1) i (omega arith)
                    (omega arith),
                next,
              )
          | no outside ↦
              let e' : ltb i (g.occupied - 1) ≡ false = ground arith in
              let e'' : ltb (i + 1) g.occupied ≡ false = ground arith in rw (e, e', e'')
        ]
  ]

  -- In a grid whose rows lie in their page, `grid_delete_row` of an occupied row takes it out: the
  -- rows before it stay where they are and the rows behind it move up by one. Of another row it
  -- changes nothing and returns GRID_INVALID_IDX. The rows still lie in the page.
  pub delete_row-IsGrid :
      (g : Grid R) (row : ℕ)
      → IsGrid g
      → IsGrid (grid_delete_row g row).0
        × (row < g.occupied
            → (i : ℕ)
            → grid_get_row (grid_delete_row g row).0 i
              ≡ (if ltb i row then grid_get_row g i else grid_get_row g (i + 1)))
        × (g.occupied ≤ row → grid_delete_row g row ≡ (g, invalid_idx))
  unfolding grid_delete_row grid_get_row
  delete_row-IsGrid g row w =
      let within = w.within in
      let used = w.used in
      let small = w.small in
      elim (Bool-cases (ltb row g.occupied)) [
        | inl old ↦
            let h = ltb→lt row g.occupied old in
            rw old (
              record { within = within; used = omega arith; small = small },
              λ k i. moved_up g row h i,
              λ k. absurd (omega arith),
            )
        | inr beyond ↦
            let h = ne_lt row g.occupied beyond in
            rw beyond (w, λ k. absurd (omega arith), λ k. refl)
      ]
