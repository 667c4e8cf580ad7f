-- ===== src/Tran/Examples.antt =====
-- A page of flags at work, and the theorems at it.
use scroller.Prelude.{
  ℕ, ◌≡◌, ◌≢◌, ◌↔◌, ◌⊎◌, refl, Bool, none, some, true, false, List, [], ◌∷◌, ◌==◌, if◌then◌else◌,
  arith,
}
use scroller.Tran.{
  TranPage, TranFlag, tf_aborted, tf_commited, tran_flag_get, tran_flag_put, tran_row_is_visible,
  is_commited,
}
use scroller.Tran.Flags.{AreBytes, flag_get-put, row_is_visible_iff}

abbrev blank : TranPage
blank = record { tid_start = 0; size = 4088; datum = λ _. 0; outside = λ _. tf_aborted }

abbrev put : TranPage → ℕ → TranFlag → TranPage
put page tid flag = elim (tran_flag_put page tid flag) [ none ↦ page | some after ↦ after ]

-- Transactions 3 and 12 commit, and 12 is taken back.
flags : List Bool
flags =
    let a = put (put blank 3 tf_commited) 12 tf_commited in
    let b = put a 12 tf_aborted in
    is_commited (tran_flag_get a 12)
    ∷ is_commited (tran_flag_get b 12)
    ∷ is_commited (tran_flag_get b 3)
    ∷ tran_row_is_visible b 7 3 0
    ∷ tran_row_is_visible b 7 12 0
    ∷ tran_row_is_visible a 7 3 12
    ∷ tran_row_is_visible a 7 7 0
    ∷ []

flags_output : flags ≡ true ∷ false ∷ true ∷ true ∷ false ∷ false ∷ true ∷ []
unfolding flags tran_flag_put tran_flag_get tran_row_is_visible
flags_output = refl

blank-AreBytes : AreBytes blank
blank-AreBytes p = omega arith

flag_get-put_example :
    (after : TranPage) × (tran_flag_put blank 12 tf_commited ≡ some after)
    × ((other : ℕ)
        → tran_flag_get after other
          ≡ (if other == 12 then tf_commited else tran_flag_get blank other))
flag_get-put_example = flag_get-put blank 12 tf_commited blank-AreBytes (omega arith) (omega arith)

-- The number that the page starts from cannot be written.
run_first : tran_flag_put blank 0 tf_commited ≡ none
unfolding tran_flag_put
run_first = refl

abbrev seven : ℕ
seven = 7

row_is_visible_iff_example : (tran_row_is_visible blank seven 3 5 ≡ true) ↔ (
    ((3 ≡ seven) ⊎ (tran_flag_get blank 3 ≡ tf_commited))
    × (5 ≢ seven)
    × (tran_flag_get blank 5 ≡ tf_aborted))
unfolding tran_flag_get
row_is_visible_iff_example = row_is_visible_iff blank seven 3 5 refl (λ e. absurd (omega arith))
