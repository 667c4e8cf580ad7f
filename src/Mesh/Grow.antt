-- ===== src/Mesh/Grow.antt =====
-- `mesh_alloc_row` appends a row to the rows of the chain.
use scroller.Prelude.{
  ℕ, suc, ◌+◌, ◌^◌, ◌≤◌, ◌<◌, ◌≡◌, ◌≢◌, refl, sym, ap, ◌∙◌, subst, Bool, true, false, Option, none,
  some, ℤ, ltb→lt, List, [], ◌∷◌, ◌++◌, All-at, In, NotIn, Distinct, arith, ltb, lt→ltb, ne→==,
  update, update_self, update_ne, ℕ_discrete,
}
use scroller.Gid.{undef, gid_of, file_id, page, max_page}
use scroller.Sequence.{Sequence, nextval}
use scroller.Grid.{Grid, invalid_idx, grid_alloc_row, dgrid_init, grid_init}
use scroller.Grid.Bytes.{Bytes, word_of}
use scroller.Mesh.{
  GidPair, Pages, Mitor, mitor_init_invalid, next_gid, chain_page, alloc_behind, mesh_alloc_row,
}
use scroller.Mesh.Walk.{Place, Chain, all_rows}
use scroller.Mesh.Rows.{last, In-last, all_rows-filled, all_rows-chained, Chain-same, Chain-chained}

module _ (pages : Pages) (p : ℕ) (ps : List ℕ) where
  -- The chain goes on to `ps'`, its rows are those from before and `x`, at which the iterator stands,
  -- and what lies in the rows of the old pages stays.
  abbrev pub Appended : Pages × GidPair × Mitor → List ℕ → Place → Type 0
  Appended r ps' x =
      Chain r.0 p ps'
      × (r.1.data_gid ≡ last p ps')
      × (all_rows r.0 (p ∷ ps') ≡ all_rows pages (p ∷ ps) ++ x ∷ [])
      × (r.2.grid ≡ some x.0)
      × (r.2.row ≡ x.1)
      × ((q k : ℕ) → In q (p ∷ ps) → (r.0.grids q).rows k ≡ (pages.grids q).rows k)

module _ (pagesz : ℕ) (cleared : Bytes) (pages : Pages) (tail : GidPair) (p : ℕ) (ps : List ℕ)
    (chain : Chain pages p ps) (distinct : Distinct (p ∷ ps)) (at_end : tail.data_gid ≡ last p ps)
    (small : (pages.grids tail.data_gid).rown < 2 ^ 16) where
  abbrev old : Grid Bytes
  old = pages.grids tail.data_gid

  abbrev filled : Pages
  filled = record pages {
    grids = update pages.grids tail.data_gid (record old { occupied = old.occupied + 1 });
  }

  alloc-room :
      old.occupied < old.rown
      → mesh_alloc_row pagesz cleared pages tail ≡ (
        filled,
        tail,
        record {
          gp = tail;
          header = some tail.header;
          grid = some tail.data_gid;
          row = old.occupied;
        },
      )
  unfolding mesh_alloc_row grid_alloc_row
  alloc-room room =
      rw (lt→ltb old.occupied old.rown room, ne→== old.occupied invalid_idx (omega arith)) refl

  at_filled :
      {B : Type 0} (f : Grid Bytes → B)
      → f (record old { occupied = old.occupied + 1 }) ≡ f old
      → (q : ℕ) → f (filled.grids q) ≡ f (pages.grids q)
  at_filled f e q = elim (ℕ_discrete q tail.data_gid) [
    | yes s ↦
        ap (λ z. f (filled.grids z)) s
        ∙ ap f (update_self pages.grids tail.data_gid (record old { occupied = old.occupied + 1 }))
        ∙ e
        ∙ ap (λ z. f (pages.grids z)) (sym s)
    | no ne ↦
        ap f (update_ne pages.grids tail.data_gid q (record old { occupied = old.occupied + 1 }) ne)
  ]

  room_left :
      old.occupied < old.rown
      → Appended pages p ps
          (mesh_alloc_row pagesz cleared pages tail)
          ps
          (tail.data_gid, old.occupied)
  room_left room =
      let one_more =
        update_self pages.grids tail.data_gid (record old { occupied = old.occupied + 1 }) in
      subst (λ r. Appended pages p ps r ps (tail.data_gid, old.occupied)) (sym (alloc-room room))
        (
          Chain-same pages filled p ps (at_filled (λ g. g.next) refl) chain,
          at_end,
          all_rows-filled pages filled p ps distinct
                (λ q ne.
                  ap (λ g. g.occupied)
                    (update_ne pages.grids tail.data_gid q
                      (record old { occupied = old.occupied + 1 }) (λ s. ne (s ∙ at_end))))
                (subst (λ t. (filled.grids t).occupied ≡ suc (pages.grids t).occupied) at_end
                  (ap (λ g. g.occupied) one_more ∙ omega arith))
              ∙ ap (λ t. all_rows pages (p ∷ ps) ++ (t, (pages.grids t).occupied) ∷ [])
                  (sym at_end),
          refl,
          refl,
          λ q k i. at_filled (λ g. g.rows k) refl q,
        )

  goes_behind :
      old.rown ≤ old.occupied
      → mesh_alloc_row pagesz cleared pages tail
        ≡ alloc_behind pagesz cleared pages tail (next_gid pages.sequence tail.data_gid)
  unfolding mesh_alloc_row grid_alloc_row
  goes_behind full =
      let none_left : ltb old.occupied old.rown ≡ false = ground arith in rw none_left refl

  -- A new page `g` behind the others.
  module _ (seq : Sequence) (g : ℕ) (drawn : next_gid pages.sequence tail.data_gid ≡ (seq, some g))
      (some_page : g ≢ undef) (new : NotIn g (p ∷ ps)) where
    abbrev fresh : Grid Bytes
    fresh = dgrid_init cleared pagesz old.layout old.content (pages.headers tail.header)

    abbrev linked : ℕ → Grid Bytes
    linked = update (update pages.grids g fresh) tail.data_gid (record old { next = g })

    abbrev first_row : Grid Bytes
    first_row = record fresh { occupied = fresh.occupied + 1 }

    abbrev grown : Pages
    grown = record pages { grids = update linked g first_row; sequence = seq }

    g_differs : g ≢ tail.data_gid
    g_differs = rw at_end (All-at (λ z. g ≢ z) (p ∷ ps) (last p ps) new (In-last p ps))

    there : linked g ≡ fresh
    there =
        update_ne (update pages.grids g fresh) tail.data_gid g (record old { next = g }) g_differs
        ∙ update_self pages.grids g fresh

    alloc-fresh : 1 ≤ fresh.rown → grid_alloc_row fresh ≡ (first_row, 0)
    unfolding grid_alloc_row dgrid_init grid_init
    alloc-fresh wide = rw (lt→ltb 0 fresh.rown wide) refl

    chained :
        1 ≤ fresh.rown
        → chain_page pagesz cleared (record pages { sequence = seq }) tail g ≡ (grown, 0)
    unfolding chain_page
    chained wide = rw (there, alloc-fresh wide) refl

    alloc-full :
        old.rown ≤ old.occupied
        → 1 ≤ fresh.rown
        → mesh_alloc_row pagesz cleared pages tail ≡ (
          grown,
          record tail { data_gid = g },
          record {
            gp = record tail { data_gid = g };
            header = some tail.header;
            grid = some g;
            row = 0;
          },
        )
    unfolding alloc_behind
    alloc-full full wide =
        goes_behind full
        ∙ ap (alloc_behind pagesz cleared pages tail) drawn
        ∙ ap
            (λ z. (
              z.0,
              record tail { data_gid = g },
              record {
                gp = record tail { data_gid = g };
                header = some tail.header;
                grid = some g;
                row = z.1;
              },
            ))
            (chained wide)

    at_others : (q : ℕ) → q ≢ tail.data_gid → q ≢ g → grown.grids q ≡ pages.grids q
    at_others q ne ne' =
        update_ne linked g q first_row ne'
        ∙ update_ne (update pages.grids g fresh) tail.data_gid q (record old { next = g }) ne
        ∙ update_ne pages.grids g q fresh ne'

    at_tail : grown.grids tail.data_gid ≡ record old { next = g }
    at_tail =
        update_ne linked g tail.data_gid first_row (λ s. g_differs (sym s))
        ∙ update_self (update pages.grids g fresh) tail.data_gid (record old { next = g })

    at_new : grown.grids g ≡ first_row
    at_new = update_self linked g first_row

    occupied_same : (q : ℕ) → q ≢ g → (grown.grids q).occupied ≡ (pages.grids q).occupied
    occupied_same q ne = elim (ℕ_discrete q tail.data_gid) [
      | yes s ↦
          ap (λ z. (grown.grids z).occupied) s
          ∙ ap (λ z. z.occupied) at_tail
          ∙ ap (λ z. (pages.grids z).occupied) (sym s)
      | no other ↦ ap (λ z. z.occupied) (at_others q other ne)
    ]

    rows_same : (q k : ℕ) → q ≢ g → (grown.grids q).rows k ≡ (pages.grids q).rows k
    rows_same q k ne = elim (ℕ_discrete q tail.data_gid) [
      | yes s ↦
          ap (λ z. (grown.grids z).rows k) s
          ∙ ap (λ z. z.rows k) at_tail
          ∙ ap (λ z. (pages.grids z).rows k) (sym s)
      | no other ↦ ap (λ z. z.rows k) (at_others q other ne)
    ]

    last-new : (r : ℕ) (rs : List ℕ) → g ≡ last r (rs ++ g ∷ [])
    last-new r [] = refl
    last-new r (q ∷ rs) = last-new q rs

    page_added :
        old.rown ≤ old.occupied
        → 1 ≤ fresh.rown
        → Appended pages p ps (mesh_alloc_row pagesz cleared pages tail) (ps ++ g ∷ []) (g, 0)
    unfolding dgrid_init grid_init
    page_added full wide =
        subst (λ r. Appended pages p ps r (ps ++ g ∷ []) (g, 0)) (sym (alloc-full full wide))
          (
            Chain-chained pages grown p ps g some_page distinct new
                (λ q ne ne'. ap (λ z. z.next) (at_others q (λ s. ne (s ∙ at_end)) ne'))
                (subst (λ t. (grown.grids t).next ≡ g) at_end (ap (λ z. z.next) at_tail))
                (ap (λ z. z.next) at_new) chain,
            last-new p ps,
            all_rows-chained pages grown p ps g new occupied_same (ap (λ z. z.occupied) at_new),
            refl,
            refl,
            λ q k i. rows_same q k (λ s. All-at (λ z. g ≢ z) (p ∷ ps) q new i (sym s)),
          )

  -- A page `g` that is not yet in use, and with room for a row.
  abbrev pub IsNew : ℕ → Type 0
  IsNew g =
      (1 ≤ (dgrid_init cleared pagesz old.layout old.content (pages.headers tail.header)).rown)
      × (g ≢ undef)
      × NotIn g (p ∷ ps)

  -- The page `g` is behind the others, with the new row as its first, and the sequence is `seq`.
  abbrev pub Behind : ℕ → Sequence → Type 0
  Behind g seq =
      Appended pages p ps (mesh_alloc_row pagesz cleared pages tail) (ps ++ g ∷ []) (g, 0)
      × ((mesh_alloc_row pagesz cleared pages tail).0.sequence ≡ seq)

  -- The page that follows `tail` in its file, and the first page of the file `v`.
  abbrev pub next_in_file : ℕ
  next_in_file = gid_of (file_id tail.data_gid) (page tail.data_gid + 1)

  abbrev pub first_of_file : ℤ → ℕ
  first_of_file v = gid_of (word_of 8 v) 0

  -- By whether the tail has room, whether its file has, and what the sequence gives.
  abbrev pub Ready : Bool → Bool → Sequence × Option ℤ → Type 0
  Ready true more drawn = Unit
  Ready false true drawn = IsNew next_in_file
  Ready false false (seq, some v) = IsNew (first_of_file v)
  Ready false false (seq, none) = Unit

  abbrev pub Allocated : Bool → Bool → Sequence × Option ℤ → Type 0
  Allocated true more drawn =
      Appended pages p ps (mesh_alloc_row pagesz cleared pages tail) ps
        (tail.data_gid, old.occupied)
      × ((mesh_alloc_row pagesz cleared pages tail).0.sequence ≡ pages.sequence)
  Allocated false true drawn = Behind next_in_file pages.sequence
  Allocated false false (seq, some v) = Behind (first_of_file v) seq
  Allocated false false (seq, none) =
      mesh_alloc_row pagesz cleared pages tail
      ≡ (record pages { sequence = seq }, tail, mitor_init_invalid)

  added-Behind :
      (seq : Sequence) (g : ℕ)
      → next_gid pages.sequence tail.data_gid ≡ (seq, some g)
      → old.rown ≤ old.occupied
      → IsNew g
      → Behind g seq
  added-Behind seq g drawn full (wide, some_page, new) = (
    page_added seq g drawn some_page new full wide,
    ap (λ z. z.0.sequence) (alloc-full seq g drawn some_page new full wide),
  )

  by_cases :
      (room more : Bool) (drawn : Sequence × Option ℤ)
      → ltb old.occupied old.rown ≡ room
      → ltb (page tail.data_gid) max_page ≡ more
      → nextval pages.sequence ≡ drawn
      → Ready room more drawn
      → Allocated room more drawn
  unfolding next_gid alloc_behind
  by_cases true more drawn r m d ready =
      let lt = ltb→lt old.occupied old.rown r in
      (room_left lt, ap (λ z. z.0.sequence) (alloc-room lt))
  by_cases false true drawn r m d ready =
      added-Behind pages.sequence next_in_file (rw m refl) (ground arith) ready
  by_cases false false (seq, some v) r m d ready =
      added-Behind seq (first_of_file v) (rw (m, d) refl) (ground arith) ready
  by_cases false false (seq, none) r m d ready =
      let none_left : next_gid pages.sequence tail.data_gid ≡ (seq, none) = rw (m, d) refl in
      goes_behind (ground arith) ∙ ap (alloc_behind pagesz cleared pages tail) none_left

  -- `tail` is the last page of a chain of pages, all different. Where the page has room,
  -- `mesh_alloc_row` appends a row there. Where it is full, it appends a page with one row behind
  -- the others: the page that follows in the file, or, where the file is full, the first page of the
  -- file whose number `nextval` gives; here that page must be a new one, not GID_UNDEF, and with room
  -- for a row. In these cases the iterator stands on the new row, the rows of the table are those
  -- from before and the new one behind them, and what lies in the old ones stays; the sequence only
  -- changes where its number is used. Where the sequence gives none, the iterator is not valid, and
  -- only the sequence changes.
  pub alloc_row-appends :
      Ready (ltb old.occupied old.rown) (ltb (page tail.data_gid) max_page) (nextval pages.sequence)
      → Allocated
          (ltb old.occupied old.rown)
          (ltb (page tail.data_gid) max_page)
          (nextval pages.sequence)
  alloc_row-appends ready =
      by_cases (ltb old.occupied old.rown) (ltb (page tail.data_gid) max_page)
        (nextval pages.sequence) refl refl refl ready
