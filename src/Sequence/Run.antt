-- ===== src/Sequence/Run.antt =====
-- Repeated calls of `sequence_nextval` on one sequence.
use scroller.Prelude.{
  ℕ, zero, suc, ◌≡◌, refl, true, Option, none, some, List, [], ◌∷◌, replicate, arith, ℤ, pos, ◌+ℤ◌,
  ◌≤ℤ◌, ◌<ℤ◌, wrap64_of_IsInt64, IsInt64, int_laws,
}
use scroller.Sequence.{Sequence, is_set, bounded, nextval}
use scroller.Sequence.Laws.{IsValid, with_last-IsValid}

-- The sequence after `n` calls, and what they returned.
unfoldable pub run : ℕ → Sequence → Sequence × List (Option ℤ)
run zero s = (s, [])
run (suc n) s = let (s', v) = nextval s in let (s'', vs) = run n s' in (s'', v ∷ vs)

-- `n` steps of `d` from `a`, and the values that they visit.
unfoldable pub advance : ℕ → ℤ → ℤ → ℤ
advance zero a d = a
advance (suc n) a d = advance n (a +ℤ d) d

unfoldable pub visited : ℕ → ℤ → ℤ → List (Option ℤ)
visited zero a d = []
visited (suc n) a d = some (a +ℤ d) ∷ visited n (a +ℤ d) d

advance_ge : (n : ℕ) (a d : ℤ) → pos 0 <ℤ d → a ≤ℤ advance n a d
unfolding advance
advance_ge zero a d h = omega arith
advance_ge (suc n) a d h = omega (int_laws, advance_ge n (a +ℤ d) d h)

next_up :
    {s : Sequence}
    → IsValid s
    → is_set s.is_called ≡ true
    → pos 0 <ℤ s.increment
    → s.last_val +ℤ s.increment ≤ℤ s.max_val
    → nextval s
      ≡ (record s { last_val = s.last_val +ℤ s.increment }, some (s.last_val +ℤ s.increment))
unfolding nextval bounded
next_up {s} v called up room =
    let fits : IsInt64 (s.last_val +ℤ s.increment) = omega int_laws in
    rw (wrap64_of_IsInt64 _ fits) (ground arith)

-- A valid, called, growing sequence gives the values of the arithmetic progression, one a call, as
-- long as the last of them is not above the maximum.
pub run-visited :
    (n : ℕ) {s : Sequence}
    → IsValid s
    → is_set s.is_called ≡ true
    → pos 0 <ℤ s.increment
    → advance n s.last_val s.increment ≤ℤ s.max_val
    → run n s
      ≡ (record s { last_val = advance n s.last_val s.increment }, visited n s.last_val s.increment)
unfolding run advance visited
run-visited zero v called up room = refl
run-visited (suc n) {s} v called up room =
    let d = s.increment in
    let a = s.last_val +ℤ d in
    let ok : a ≤ℤ s.max_val = omega (arith, advance_ge n a d up) in
    rw (
      next_up v called up ok,
      run-visited n (with_last-IsValid a v (omega int_laws, ok)) called up room,
    )

nextval_refused : (s : Sequence) → (nextval s).1 ≡ none → nextval s ≡ (s, none)
unfolding nextval bounded
nextval_refused s e = ground arith

-- A sequence that refuses once, refuses every later call and keeps its state.
pub run_exhausted : (n : ℕ) {s : Sequence} → (nextval s).1 ≡ none → run n s ≡ (s, replicate n none)
unfolding run
run_exhausted zero e = refl
run_exhausted (suc n) {s} e = rw (nextval_refused s e, run_exhausted n e)
