-- ===== src/Sequence/Examples.antt =====
-- Sequences in use, and the theorems at them.
use scroller.Prelude.{
  ◌≡◌, refl, ◌↔◌, ◌⊎◌, true, false, none, some, [], ◌∷◌, arith, ℤ, pos, ◌+ℤ◌, ◌≤ℤ◌, ◌<ℤ◌, wrap64,
  int64_max,
}
use scroller.Sequence.{Sequence, nextval}
use scroller.Sequence.Laws.{IsValid, nextval-IsValid, nextval-none_iff}
use scroller.Sequence.Run.{run, advance, visited, run-visited}

-- Three to nine in steps of two, called at five.
abbrev odds : Sequence
odds = record {
  min_val = pos 3;
  max_val = pos 9;
  last_val = pos 5;
  increment = pos 2;
  cycle = pos 0;
  is_called = pos 1;
}

abbrev last_odd : Sequence
last_odd = record odds { last_val = pos 9 }

-- All of int64_t from 1, at its end.
abbrev at_end : Sequence
at_end = record odds { min_val = pos 1; max_val = int64_max; last_val = int64_max }

odds-IsValid : IsValid odds
odds-IsValid = grind arith

odds-run : run 3 odds ≡ (last_odd, some (pos 7) ∷ some (pos 9) ∷ none ∷ [])
unfolding run nextval ◌+ℤ◌ wrap64
odds-run = refl

abbrev fresh : Sequence
fresh = record odds { is_called = pos 0 }

nextval-IsValid_example :
    IsValid (nextval odds).0 × ((v : ℤ) → (nextval odds).1 ≡ some v → (pos 3 ≤ℤ v) × (v ≤ℤ pos 9))
unfolding ◌+ℤ◌
nextval-IsValid_example = nextval-IsValid odds-IsValid (omega arith)

last_odd-IsValid : IsValid last_odd
last_odd-IsValid = grind arith

nextval-none_iff_example :
    ((nextval last_odd).1 ≡ none)
    ↔ ((true ≡ true) × (false ≡ false) × ((pos 9 <ℤ pos 9 +ℤ pos 2) ⊎ (pos 9 +ℤ pos 2 <ℤ pos 3)))
unfolding ◌+ℤ◌
nextval-none_iff_example = nextval-none_iff last_odd-IsValid (omega arith)

at_end-IsValid : IsValid at_end
at_end-IsValid = grind arith

run-visited_example :
    run 2 odds ≡ (record odds { last_val = advance 2 (pos 5) (pos 2) }, visited 2 (pos 5) (pos 2))
unfolding advance ◌+ℤ◌
run-visited_example = run-visited 2 odds-IsValid refl (omega arith) (omega arith)
