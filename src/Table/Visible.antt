-- ===== src/Table/Visible.antt =====
-- The iterator of a table goes through the rows of the mesh that the transaction sees.
use scroller.Prelude.{
  ℕ, zero, suc, ◌≤◌, ◌<◌, ◌≡◌, ◌≢◌, refl, sym, subst, true, false, some, List, [], ◌∷◌, length, All,
  arith, if◌then◌else◌, Bool-cases, inl, inr, lt→ltb,
}
use scroller.Gid.{undef}
use scroller.Datum.{Datum}
use scroller.Grid.Cells.{grid_get_datum, read_cell, row_at}
use scroller.Grid.{grid_get_row, gc_mvcc}
use scroller.Mesh.{Pages, Mitor, mitor_init, mitor_is_valid, mitor_next}
use scroller.Mesh.Walk.{Place, IsAt, Walks, Chain, HasRows, all_rows, init-Walks}
use scroller.Table.{
  Tran, Titor, row_is_visible, content_of, is_pure, titor_is_valid, next_visible, titor_next,
  titor_init, mitor_get_datum,
}
use scroller.Table.Hidden.{
  place_of, visible_rows, drop_hidden, visible_at, length-drop_hidden, visible_rows-drop_hidden,
  StartsSeen, drop_hidden-StartsSeen, Mvcc, Mvcc-drop_hidden, next_visible-Walks,
}

-- The iterator stands on the first of the rows, goes through the others with `titor_next`, and is
-- not valid behind the last.
abbrev pub Sees : ℕ → Pages → Titor → List Place → Type 0
Sees fuel pages t [] = titor_is_valid pages t ≡ false
Sees fuel pages t (x ∷ xs) =
    (titor_is_valid pages t ≡ true) × IsAt t.m x × Sees fuel pages (titor_next fuel pages t) xs

module _ (pages : Pages) (tran : Tran) (h : ℕ) (fuel : ℕ) where
  abbrev titor : Mitor → Titor
  titor m = record { m = m; tran = some tran }

  not_pure :
      (m : Mitor) (x : Place)
      → IsAt m x
      → (pages.grids x.0).content ≡ gc_mvcc
      → is_pure (content_of pages m) ≡ false
  not_pure m x at mvcc = rw (at.0, mvcc) refl

  valid-titor :
      (m : Mitor) (x : Place)
      → mitor_is_valid pages m ≡ true
      → IsAt m x
      → (pages.grids x.0).content ≡ gc_mvcc
      → titor_is_valid pages (titor m) ≡ true
  unfolding titor_is_valid
  valid-titor m x valid at mvcc = rw (valid, not_pure m x at mvcc) refl

  not_valid : (m : Mitor) → mitor_is_valid pages m ≡ false → titor_is_valid pages (titor m) ≡ false
  unfolding titor_is_valid
  not_valid m over = rw over refl

  titor_next-mvcc :
      (m : Mitor) (x : Place)
      → IsAt m x
      → (pages.grids x.0).content ≡ gc_mvcc
      → titor_next fuel pages (titor m) ≡ titor (next_visible fuel pages (some tran) m)
  unfolding titor_next
  titor_next-mvcc m x at mvcc = rw (not_pure m x at mvcc) refl

  Sees-visible :
      (n : ℕ) (m : Mitor) (xs : List Place)
      → length xs ≤ n
      → length xs ≤ fuel
      → m.header ≡ some h
      → StartsSeen pages (some tran) h xs
      → Mvcc pages tran h xs
      → Walks pages m xs
      → Sees fuel pages (titor m) (visible_rows pages (some tran) h xs)
  unfolding visible_rows titor_is_valid
  Sees-visible n m [] le lf hh seen mvcc w = rw w refl
  Sees-visible zero m (x ∷ xs) le lf hh seen mvcc w = absurd (omega arith)
  Sees-visible (suc n) m (x ∷ xs) le lf hh seen mvcc (valid, at, w) =
      let ys = drop_hidden pages (some tran) h xs in
      let short = length-drop_hidden pages (some tran) h xs in
      let (w', hh') = next_visible-Walks pages tran h fuel m xs (omega arith) hh w in
      let rest =
        Sees-visible n (next_visible fuel pages (some tran) m) ys (omega arith) (omega arith) hh'
          (drop_hidden-StartsSeen pages (some tran) h xs) (Mvcc-drop_hidden pages tran h xs mvcc.1)
          w' in
      rw seen (
        valid-titor m x valid at mvcc.0,
        at,
        subst (λ t. Sees fuel pages t (visible_rows pages (some tran) h xs))
            (sym (titor_next-mvcc m x at mvcc.0))
            (subst (λ l. Sees fuel pages (titor (next_visible fuel pages (some tran) m)) l)
              (visible_rows-drop_hidden pages (some tran) h xs) rest),
      )

  -- The first row, for which both columns can be read.
  reads :
      (p c : ℕ)
      → 1 ≤ (pages.grids p).occupied
      → c < (pages.headers h).occupied
      → (d : Datum) × (mitor_get_datum pages
            (mitor_init (record { header = h; data_gid = p }) h p)
            c
          ≡ some d)
  unfolding mitor_get_datum grid_get_datum grid_get_row
  reads p c rows columns = (
    read_cell ((pages.headers h).rows c) (row_at (pages.grids p) 0),
    rw (lt→ltb 0 (pages.grids p).occupied rows, lt→ltb c (pages.headers h).occupied columns) refl,
  )

  next-Sees :
      (m : Mitor) (x : Place) (xs : List Place)
      → length (x ∷ xs) < fuel
      → m.header ≡ some h
      → IsAt m x
      → Mvcc pages tran h (x ∷ xs)
      → Walks pages (mitor_next pages m) xs
      → Sees fuel pages (titor_next fuel pages (titor m)) (visible_rows pages (some tran) h xs)
  next-Sees m x xs small hh at mvcc w =
      let ys = drop_hidden pages (some tran) h xs in
      let short = length-drop_hidden pages (some tran) h xs in
      let (w', hh') = next_visible-Walks pages tran h fuel m xs (omega arith) hh w in
      subst (λ t. Sees fuel pages t (visible_rows pages (some tran) h xs))
        (sym (titor_next-mvcc m x at mvcc.0))
        (subst (λ l. Sees fuel pages (titor (next_visible fuel pages (some tran) m)) l)
          (visible_rows-drop_hidden pages (some tran) h xs)
          (Sees-visible (length xs) (next_visible fuel pages (some tran) m) ys short (omega arith)
            hh' (drop_hidden-StartsSeen pages (some tran) h xs)
            (Mvcc-drop_hidden pages tran h xs mvcc.1) w'))

  -- The end of `titor_init`.
  abbrev start : Mitor → Titor
  start m =
      if titor_is_valid pages (titor m)
      then if row_is_visible pages (some tran) m then titor m else titor_next fuel pages (titor m)
      else titor m

  start-Sees :
      (m : Mitor) (xs : List Place)
      → length xs < fuel
      → m.header ≡ some h
      → Mvcc pages tran h xs
      → Walks pages m xs
      → Sees fuel pages (start m) (visible_rows pages (some tran) h xs)
  unfolding visible_rows
  start-Sees m [] small hh mvcc w =
      let over : titor_is_valid pages (titor m) ≡ false = not_valid m w in rw (over) over
  start-Sees m (x ∷ xs) small hh mvcc (valid, at, w) =
      let same = visible_at pages (some tran) h m x hh at in
      let good = valid-titor m x valid at mvcc.0 in
      let next = next-Sees m x xs small hh at mvcc w in
      elim (Bool-cases (row_is_visible pages (some tran) (place_of h x))) [
        | inl seen ↦ rw (good, same, seen) (good, at, next)
        | inr hidden ↦ rw (good, same, hidden) next
      ]

  -- In a chain of pages of an MVCC table that all have rows, with a header page that has the two
  -- columns of the transactions, and with fuel for all the rows: the iterator that `titor_init`
  -- makes at the first page goes, with `titor_next`, through the rows that the transaction sees,
  -- in the order of the table and no others, and ends behind the last of them.
  pub init-Sees :
      (p : ℕ) (ps : List ℕ)
      → h ≢ undef
      → p ≢ undef
      → 2 ≤ (pages.headers h).occupied
      → Chain pages p ps
      → All (HasRows pages) (p ∷ ps)
      → Mvcc pages tran h (all_rows pages (p ∷ ps))
      → (pages.grids p).content ≡ gc_mvcc
      → length (all_rows pages (p ∷ ps)) < fuel
      → (t : Titor) × (titor_init fuel pages (some tran) (record { header = h; data_gid = p }) h p
          ≡ some t)
        × Sees fuel pages t (visible_rows pages (some tran) h (all_rows pages (p ∷ ps)))
  unfolding titor_init
  init-Sees p ps hh hp columns chain full mvcc first small =
      let m = mitor_init (record { header = h; data_gid = p }) h p in
      let rows = all_rows pages (p ∷ ps) in
      let w = init-Walks pages h p ps hh hp chain full in
      let (d, tmin) = reads p 0 full.0.0 (omega arith) in
      let (d', tmax) = reads p 1 full.0.0 (omega arith) in
      (start m, rw (first, tmin, tmax) refl, start-Sees m rows small refl mvcc w)
