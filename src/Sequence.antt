-- ===== src/Sequence.antt =====
-- lib/core/src/sequence.c: SQL sequences. A sequence is one row of six bigint cells, in the order
-- of the columns of `hsequence_init`.
pub mod Laws
pub mod Run
mod Examples
use scroller.Prelude.{
  ℕ, ◌≡◌, Bool, true, false, Option, none, some, ltb, if◌then◌else◌, ℤ, pos, ◌+ℤ◌, ltb_ℤ, leb_ℤ,
  eqb_ℤ, wrap64,
}

pub record Sequence : Type 0 where
  pub min_val : ℤ
  pub max_val : ℤ
  pub last_val : ℤ
  pub increment : ℤ
  pub cycle : ℤ
  pub is_called : ℤ

-- A bool as a bigint cell stores it, and a cell as a C condition reads it.
abbrev pub of_bool : Bool → ℤ
of_bool true = pos 1
of_bool false = pos 0

abbrev pub is_set : ℤ → Bool
is_set c = if eqb_ℤ c (pos 0) then false else true

-- `none` is the return of 1, before the page is touched.
unfoldable pub init : ℤ → ℤ → ℤ → ℤ → Bool → Option Sequence
init minval maxval startval increment cycle =
    if leb_ℤ maxval minval
    then none
    else if ltb_ℤ startval minval
    then none
    else if ltb_ℤ maxval startval
    then none
    else if eqb_ℤ increment (pos 0)
    then none
    else some (record {
      min_val = minval;
      max_val = maxval;
      last_val = startval;
      increment = increment;
      cycle = of_bool cycle;
      is_called = pos 0;
    })

-- `*outval`, or `none` for the return of 1.
unfoldable pub currval : Sequence → Option ℤ
currval s = if is_set s.is_called then some s.last_val else none

-- The two bounds tests of `sequence_nextval`: the value to store, or `none` for the return of 1.
unfoldable pub bounded : Sequence → ℤ → Option ℤ
bounded s newval =
    if ltb_ℤ (pos 0) s.increment
    then (if ltb_ℤ s.max_val newval
        then if is_set s.cycle then some s.min_val else none
        else some newval)
    else (if ltb_ℤ newval s.min_val
        then if is_set s.cycle then some s.max_val else none
        else some newval)

-- The sequence afterwards, and `*outval` unless 1 is returned.
unfoldable pub nextval : Sequence → Sequence × Option ℤ
unfolding bounded
nextval s =
    if is_set s.is_called
    then elim (bounded s (wrap64 (s.last_val +ℤ s.increment))) [
      | none ↦ (s, none)
      | some v ↦ (record s { last_val = v }, some v)
    ]
    else (record s { is_called = pos 1 }, some s.last_val)

-- The setters give the sequence afterwards and the returned status.
unfoldable pub setval : Sequence → ℤ → Bool → Sequence × ℕ
setval s val is_called =
    if ltb_ℤ s.max_val val
    then (s, 1)
    else if ltb_ℤ val s.min_val
    then (s, 1)
    else (record s { last_val = val; is_called = of_bool is_called }, 0)

unfoldable pub set_minval : Sequence → ℤ → Sequence × ℕ
set_minval s val =
    if leb_ℤ s.max_val val
    then (s, 1)
    else if ltb_ℤ s.last_val val
    then (s, 1)
    else (record s { min_val = val }, 0)

unfoldable pub set_maxval : Sequence → ℤ → Sequence × ℕ
set_maxval s val =
    if leb_ℤ val s.min_val
    then (s, 1)
    else if ltb_ℤ val s.last_val
    then (s, 1)
    else (record s { max_val = val }, 0)

unfoldable pub set_increment : Sequence → ℤ → Sequence × ℕ
set_increment s val = if eqb_ℤ val (pos 0) then (s, 1) else (record s { increment = val }, 0)

unfoldable pub set_cycle : Sequence → Bool → Sequence × ℕ
set_cycle s val = (record s { cycle = of_bool val }, 0)
