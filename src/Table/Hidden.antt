-- ===== src/Table/Hidden.antt =====
-- The rows that a transaction sees, and the loop that finds the next of them.
use scroller.Prelude.{
  ℕ, zero, suc, ◌+◌, ◌≤◌, ◌<◌, ◌≡◌, refl, ◌∙◌, true, ◌==◌, ◌%◌, ◌^◌, Option, none, some, List, [],
  ◌∷◌, length, All, arith, if◌then◌else◌, Bool-cases, inl, inr,
}
use scroller.Gid.{undef}
use scroller.Grid.{gc_mvcc}
use scroller.Mesh.{Pages, Mitor, mitor_is_valid, mitor_next, next_page}
use scroller.Mesh.Walk.{Place, IsAt, Walks}
use scroller.Table.{Tran, row_is_visible, next_visible, mitor_get_datum}

-- An iterator at a row, with header page `h`.
abbrev pub place_of : ℕ → Place → Mitor
place_of h x = record {
  gp = record { header = h; data_gid = x.0 };
  header = some h;
  grid = some x.0;
  row = x.1;
}

-- The rows that the transaction sees, in their order.
unfoldable pub visible_rows : Pages → Option Tran → ℕ → List Place → List Place
visible_rows pages tran h [] = []
visible_rows pages tran h (x ∷ xs) =
    let rest = visible_rows pages tran h xs in
    if row_is_visible pages tran (place_of h x) then x ∷ rest else rest

-- Without the rows in front that the transaction does not see.
unfoldable pub drop_hidden : Pages → Option Tran → ℕ → List Place → List Place
drop_hidden pages tran h [] = []
drop_hidden pages tran h (x ∷ xs) =
    let rest = drop_hidden pages tran h xs in
    if row_is_visible pages tran (place_of h x) then x ∷ xs else rest

header-next_page :
    (pages : Pages) (m : Mitor) (o : Option ℕ) → m.grid ≡ o → (next_page pages m).header ≡ m.header
unfolding next_page
header-next_page pages m none e = rw e refl
header-next_page pages m (some p) e = elim (Bool-cases ((pages.grids p).next == undef)) [
  | inl last ↦ rw (e, last) refl
  | inr more ↦ rw (e, more) refl
]

header-mitor_next : (pages : Pages) (m : Mitor) → (mitor_next pages m).header ≡ m.header
unfolding mitor_next
header-mitor_next pages m =
    let on = record m { row = (m.row + 1) % 2 ^ 16 } in
    elim (Bool-cases (mitor_is_valid pages m)) [
      | inr over ↦ rw over refl
      | inl here ↦ rw here (elim (Bool-cases (mitor_is_valid pages on)) [
        | inl more ↦ rw more refl
        | inr end ↦ rw end (header-next_page pages on m.grid refl)
      ])
    ]

-- Visibility is a matter of the row and the header page.
pub visible_at :
    (pages : Pages) (tran : Option Tran) (h : ℕ) (m : Mitor) (x : Place)
    → m.header ≡ some h
    → IsAt m x
    → row_is_visible pages tran m ≡ row_is_visible pages tran (place_of h x)
unfolding row_is_visible mitor_get_datum
visible_at pages tran h m x hh at = rw (hh, at.0, at.1) refl

pub length-drop_hidden :
    (pages : Pages) (tran : Option Tran) (h : ℕ) (xs : List Place)
    → length (drop_hidden pages tran h xs) ≤ length xs
unfolding drop_hidden
length-drop_hidden pages tran h [] = omega arith
length-drop_hidden pages tran h (x ∷ xs) =
    let ih = length-drop_hidden pages tran h xs in
    elim (Bool-cases (row_is_visible pages tran (place_of h x))) [
      | inl seen ↦ rw seen (omega arith)
      | inr hidden ↦ rw hidden (omega arith)
    ]

pub visible_rows-drop_hidden :
    (pages : Pages) (tran : Option Tran) (h : ℕ) (xs : List Place)
    → visible_rows pages tran h (drop_hidden pages tran h xs) ≡ visible_rows pages tran h xs
unfolding visible_rows drop_hidden
visible_rows-drop_hidden pages tran h [] = refl
visible_rows-drop_hidden pages tran h (x ∷ xs) =
    elim (Bool-cases (row_is_visible pages tran (place_of h x))) [
      | inl seen ↦ rw (seen, seen) refl
      | inr hidden ↦ rw (hidden) (visible_rows-drop_hidden pages tran h xs)
    ]

-- The first of the rows is one that the transaction sees.
abbrev pub StartsSeen : Pages → Option Tran → ℕ → List Place → Type 0
StartsSeen pages tran h [] = Unit
StartsSeen pages tran h (x ∷ xs) = row_is_visible pages tran (place_of h x) ≡ true

pub drop_hidden-StartsSeen :
    (pages : Pages) (tran : Option Tran) (h : ℕ) (xs : List Place)
    → StartsSeen pages tran h (drop_hidden pages tran h xs)
unfolding drop_hidden
drop_hidden-StartsSeen pages tran h [] = tt
drop_hidden-StartsSeen pages tran h (x ∷ xs) =
    elim (Bool-cases (row_is_visible pages tran (place_of h x))) [
      | inl seen ↦ rw seen seen
      | inr hidden ↦ rw hidden (drop_hidden-StartsSeen pages tran h xs)
    ]

module _ (pages : Pages) (tran : Tran) (h : ℕ) where
  abbrev pub Mvcc : List Place → Type 0
  Mvcc = All (λ x. (pages.grids x.0).content ≡ gc_mvcc)

  pub Mvcc-drop_hidden : (xs : List Place) → Mvcc xs → Mvcc (drop_hidden pages (some tran) h xs)
  unfolding drop_hidden
  Mvcc-drop_hidden [] k = tt
  Mvcc-drop_hidden (x ∷ xs) k =
      elim (Bool-cases (row_is_visible pages (some tran) (place_of h x))) [
        | inl seen ↦ rw seen k
        | inr hidden ↦ rw hidden (Mvcc-drop_hidden xs k.1)
      ]

  -- The loop stops at the next row that the transaction sees, or behind the last.
  pub next_visible-Walks :
      (fuel : ℕ) (m : Mitor) (xs : List Place)
      → length xs < fuel
      → m.header ≡ some h
      → Walks pages (mitor_next pages m) xs
      → Walks pages (next_visible fuel pages (some tran) m) (drop_hidden pages (some tran) h xs)
        × ((next_visible fuel pages (some tran) m).header ≡ some h)
  unfolding next_visible drop_hidden
  next_visible-Walks zero m xs lt hh w = absurd (omega arith)
  next_visible-Walks (suc fuel) m [] lt hh w = rw w (w, header-mitor_next pages m ∙ hh)
  next_visible-Walks (suc fuel) m (x ∷ xs) lt hh (valid, at, w) =
      let n = mitor_next pages m in
      let hn = header-mitor_next pages m ∙ hh in
      let same = visible_at pages (some tran) h n x hn at in
      elim (Bool-cases (row_is_visible pages (some tran) (place_of h x))) [
        | inl seen ↦ rw (valid, same, seen) ((valid, at, w), hn)
        | inr hidden ↦ rw (valid, same, hidden) (next_visible-Walks fuel n xs (omega arith) hn w)
      ]
