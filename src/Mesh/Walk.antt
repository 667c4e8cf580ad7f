-- ===== src/Mesh/Walk.antt =====
-- The iterator of a mesh goes through the rows of the chain in their order.
use scroller.Prelude.{
  ℕ, zero, suc, ◌+◌, ◌-◌, ◌%◌, ◌^◌, ◌≤◌, ◌<◌, ◌≡◌, ◌≢◌, refl, subst, true, false, some, List, [],
  ◌∷◌, ◌++◌, All, arith, lt→ltb, ne→==, eq→==,
}
use scroller.Gid.{undef}
use scroller.Mesh.{Pages, Mitor, mitor_init, mitor_is_valid, next_page, mitor_next}

-- A page and a row of it.
abbrev pub Place : Type 0
Place = ℕ × ℕ

abbrev pub IsAt : Mitor → Place → Type 0
IsAt m x = (m.grid ≡ some x.0) × (m.row ≡ x.1)

-- The iterator stands on the first of the rows, goes through the others with `mitor_next`, and is
-- not valid behind the last.
abbrev pub Walks : Pages → Mitor → List Place → Type 0
Walks pages m [] = mitor_is_valid pages m ≡ false
Walks pages m (x ∷ xs) =
    (mitor_is_valid pages m ≡ true) × IsAt m x × Walks pages (mitor_next pages m) xs

-- The links lead from page `p` along `ps`.
abbrev pub Chain : Pages → ℕ → List ℕ → Type 0
Chain pages p [] = (pages.grids p).next ≡ undef
Chain pages p (q ∷ ps) = ((pages.grids p).next ≡ q) × (q ≢ undef) × Chain pages q ps

abbrev pub HasRows : Pages → ℕ → Type 0
HasRows pages p = (1 ≤ (pages.grids p).occupied) × ((pages.grids p).occupied < 2 ^ 16)

-- `n` rows of a page from row `k` on, and the rows of all the pages.
unfoldable pub rows_of_page : ℕ → ℕ → ℕ → List Place
rows_of_page p k zero = []
rows_of_page p k (suc n) = (p, k) ∷ rows_of_page p (k + 1) n

unfoldable pub all_rows : Pages → List ℕ → List Place
unfolding rows_of_page
all_rows pages [] = []
all_rows pages (p ∷ ps) = rows_of_page p 0 (pages.grids p).occupied ++ all_rows pages ps

module _ (pages : Pages) where
  abbrev at : ℕ → ℕ → ℕ → ℕ → Mitor
  at h g p k = record {
    gp = record { header = h; data_gid = g };
    header = some h;
    grid = some p;
    row = k;
  }

  valid_at :
      (h g p k : ℕ)
      → h ≢ undef
      → g ≢ undef
      → k < (pages.grids p).occupied
      → mitor_is_valid pages (at h g p k) ≡ true
  unfolding mitor_is_valid
  valid_at h g p k hh hg lt =
      rw (ne→== h undef hh, ne→== g undef hg, lt→ltb k (pages.grids p).occupied lt) refl

  past_end :
      (h g p k : ℕ) → (pages.grids p).occupied ≤ k → mitor_is_valid pages (at h g p k) ≡ false
  unfolding mitor_is_valid
  past_end h g p k le = ground arith

  Walks-page :
      (n h g p k : ℕ) (ps : List ℕ)
      → h ≢ undef
      → g ≢ undef
      → k + suc n ≡ (pages.grids p).occupied
      → (pages.grids p).occupied < 2 ^ 16
      → Chain pages p ps
      → All (HasRows pages) ps
      → Walks pages (at h g p k) (rows_of_page p k (suc n) ++ all_rows pages ps)
  unfolding mitor_next next_page rows_of_page all_rows
  Walks-page (suc n) h g p k ps hh hg count small chain full =
      let here = valid_at h g p k hh hg (omega arith) in
      let next = valid_at h g p (k + 1) hh hg (omega arith) in
      let small_row : (k + 1) % 2 ^ 16 ≡ k + 1 = omega arith in
      (
        here,
        (refl, refl),
        rw (here, small_row, next)
            (Walks-page n h g p (k + 1) ps hh hg (omega arith) small chain full),
      )
  Walks-page zero h g p k [] hh hg count small last full =
      let here = valid_at h g p k hh hg (omega arith) in
      let next = past_end h g p (k + 1) (omega arith) in
      let small_row : (k + 1) % 2 ^ 16 ≡ k + 1 = omega arith in
      (here, (refl, refl), rw (here, small_row, next, eq→== (pages.grids p).next undef last) next)
  Walks-page zero h g p k (q ∷ ps) hh hg count small (link, some_page, chain) (rows, full) =
      let here = valid_at h g p k hh hg (omega arith) in
      let next = past_end h g p (k + 1) (omega arith) in
      let small_row : (k + 1) % 2 ^ 16 ≡ k + 1 = omega arith in
      let first : suc ((pages.grids q).occupied - 1) ≡ (pages.grids q).occupied =
        omega (arith, rows.0) in
      let on =
        subst (λ z. Walks pages (at h q q 0) (rows_of_page q 0 z ++ all_rows pages ps)) first
          (Walks-page ((pages.grids q).occupied - 1) h q q 0 ps hh some_page (omega arith) rows.1
            chain full) in
      (here, (refl, refl), rw (here, small_row, next, link, ne→== q undef some_page) on)

  -- In a chain of pages that all have rows, the iterator that `mitor_init` makes at the first page
  -- goes through all the rows, page by page and each page from its first row on, and ends there.
  pub init-Walks :
      (h p : ℕ) (ps : List ℕ)
      → h ≢ undef
      → p ≢ undef
      → Chain pages p ps
      → All (HasRows pages) (p ∷ ps)
      → Walks pages (mitor_init (record { header = h; data_gid = p }) h p) (all_rows pages (p ∷ ps))
  unfolding all_rows
  init-Walks h p ps hh hp chain (rows, full) =
      let first : suc ((pages.grids p).occupied - 1) ≡ (pages.grids p).occupied =
        omega (arith, rows.0) in
      subst (λ z. Walks pages (at h p p 0) (rows_of_page p 0 z ++ all_rows pages ps)) first
        (Walks-page ((pages.grids p).occupied - 1) h p p 0 ps hh hp (omega arith) rows.1 chain full)
