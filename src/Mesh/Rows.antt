-- ===== src/Mesh/Rows.antt =====
-- The rows of a chain of pages that grows at its end.
use scroller.Prelude.{
  ℕ, zero, suc, ◌+◌, ◌≡◌, ◌≢◌, inl, inr, refl, sym, ap, ◌∙◌, List, [], ◌∷◌, ◌++◌, All-at, In, NotIn,
  Distinct, arith, append_assoc, append-nil,
}
use scroller.Gid.{undef}
use scroller.Mesh.{Pages}
use scroller.Mesh.Walk.{Chain, rows_of_page, all_rows}

-- The last page of the chain.
abbrev pub last : ℕ → List ℕ → ℕ
last p [] = p
last p (q ∷ ps) = last q ps

pub In-last : (p : ℕ) (ps : List ℕ) → In (last p ps) (p ∷ ps)
In-last p [] = inl refl
In-last p (q ∷ ps) = inr (In-last q ps)

pub rows_of_page-suc :
    (p k n : ℕ) → rows_of_page p k (suc n) ≡ rows_of_page p k n ++ (p, k + n) ∷ []
unfolding rows_of_page
rows_of_page-suc p k zero = ap (λ z. (p, z) ∷ []) (omega arith)
rows_of_page-suc p k (suc n) =
    ap (λ l. (p, k) ∷ l)
      (rows_of_page-suc p (k + 1) n
        ∙ ap (λ z. rows_of_page p (k + 1) n ++ (p, z) ∷ []) (omega arith))

module _ (pages pages' : Pages) where
  -- One more row in the last page.
  pub all_rows-filled :
      (p : ℕ) (ps : List ℕ)
      → Distinct (p ∷ ps)
      → ((q : ℕ) → q ≢ last p ps → (pages'.grids q).occupied ≡ (pages.grids q).occupied)
      → (pages'.grids (last p ps)).occupied ≡ suc (pages.grids (last p ps)).occupied
      → all_rows pages' (p ∷ ps)
        ≡ all_rows pages (p ∷ ps) ++ (last p ps, (pages.grids (last p ps)).occupied) ∷ []
  unfolding all_rows
  all_rows-filled p [] d same more =
      let n = (pages.grids p).occupied in
      append-nil (rows_of_page p 0 (pages'.grids p).occupied)
      ∙ ap (rows_of_page p 0) more
      ∙ rows_of_page-suc p 0 n
      ∙ ap (λ z. rows_of_page p 0 n ++ (p, z) ∷ []) (omega arith)
      ∙ ap (λ l. l ++ (p, n) ∷ []) (sym (append-nil (rows_of_page p 0 n)))
  all_rows-filled p (q ∷ ps) d same more =
      let apart = All-at (λ z. p ≢ z) (q ∷ ps) (last q ps) d.0 (In-last q ps) in
      let ih = all_rows-filled q ps d.1 same more in
      ap (λ n. rows_of_page p 0 n ++ all_rows pages' (q ∷ ps)) (same p apart)
      ∙ ap (λ l. rows_of_page p 0 (pages.grids p).occupied ++ l) ih
      ∙ sym (
          append_assoc (rows_of_page p 0 (pages.grids p).occupied) (all_rows pages (q ∷ ps))
            ((last q ps, (pages.grids (last q ps)).occupied) ∷ []))

  -- The same rows, and one in a new page behind them.
  pub all_rows-chained :
      (p : ℕ) (ps : List ℕ) (g : ℕ)
      → NotIn g (p ∷ ps)
      → ((q : ℕ) → q ≢ g → (pages'.grids q).occupied ≡ (pages.grids q).occupied)
      → (pages'.grids g).occupied ≡ 1
      → all_rows pages' (p ∷ ps ++ g ∷ []) ≡ all_rows pages (p ∷ ps) ++ (g, 0) ∷ []
  unfolding all_rows rows_of_page
  all_rows-chained p [] g out same one =
      let rows = rows_of_page p 0 (pages.grids p).occupied in
      rw (same p (λ e. out.0 (sym e)), one) (ap (λ l. l ++ (g, 0) ∷ []) (sym (append-nil rows)))
  all_rows-chained p (q ∷ ps) g out same one =
      let ih = all_rows-chained q ps g out.1 same one in
      ap (λ n. rows_of_page p 0 n ++ all_rows pages' (q ∷ ps ++ g ∷ []))
        (same p (λ e. out.0 (sym e)))
      ∙ ap (λ l. rows_of_page p 0 (pages.grids p).occupied ++ l) ih
      ∙ sym (
          append_assoc (rows_of_page p 0 (pages.grids p).occupied) (all_rows pages (q ∷ ps))
            ((g, 0) ∷ []))

  pub Chain-same :
      (p : ℕ) (ps : List ℕ)
      → ((q : ℕ) → (pages'.grids q).next ≡ (pages.grids q).next)
      → Chain pages p ps
      → Chain pages' p ps
  Chain-same p [] same c = same p ∙ c
  Chain-same p (q ∷ ps) same c = (same p ∙ c.0, c.1, Chain-same q ps same c.2)

  pub Chain-chained :
      (p : ℕ) (ps : List ℕ) (g : ℕ)
      → g ≢ undef
      → Distinct (p ∷ ps)
      → NotIn g (p ∷ ps)
      → ((q : ℕ) → q ≢ last p ps → q ≢ g → (pages'.grids q).next ≡ (pages.grids q).next)
      → (pages'.grids (last p ps)).next ≡ g
      → (pages'.grids g).next ≡ undef
      → Chain pages p ps
      → Chain pages' p (ps ++ g ∷ [])
  Chain-chained p [] g some_page d out same link end c = (link, some_page, end)
  Chain-chained p (q ∷ ps) g some_page d out same link end c =
      let apart = All-at (λ z. p ≢ z) (q ∷ ps) (last q ps) d.0 (In-last q ps) in
      (
        same p apart (λ e. out.0 (sym e)) ∙ c.0,
        c.1,
        Chain-chained q ps g some_page d.1 out.1 same link end c.2,
      )
