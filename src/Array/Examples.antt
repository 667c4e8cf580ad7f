-- ===== src/Array/Examples.antt =====
-- Arrays of capacity four, and the theorems at them.
use scroller.Prelude.{
  ℕ, ◌+◌, ◌*◌, ◌<◌, ◌≡◌, refl, true, false, none, some, List, [], ◌∷◌, ◌++◌, arith,
}
use scroller.Array.{
  Array, array_create_fn, array_put, array_pop, put_to, array_raise_fn, array_reduce_fn,
  header_size, array_size, array_clear,
}
use scroller.Array.Stack.{IsArray, contents, put-contents, put_after_refusal}

abbrev zeros : ℕ → ℕ
zeros i = 0

-- Four words of eight bytes, all taken.
abbrev four : Array ℕ
four = record { size = 4; usersz = 8; capacity = 4; block = 56; items = λ i. i + 10 }

four-IsArray : IsArray four
four-IsArray = record {
  within = omega arith;
  held = omega arith;
  fits = omega arith;
  small = omega arith;
}

-- Put into a fresh array, put two, pop one, and clear.
sizes : List ℕ
sizes =
    let (a, ok) = array_put true true zeros 8 none 5 in
    let (b, ok') = array_put true true zeros 8 a 6 in
    elim b [
      | none ↦ []
      | some c ↦
          let (d, v) = array_pop true c in
          array_size (some c)
          ∷ array_size d
          ∷ elim v [ none ↦ 0 | some x ↦ x ]
          ∷ array_size (array_clear d)
          ∷ []
    ]

sizes_output : sizes ≡ 2 ∷ 1 ∷ 6 ∷ 0 ∷ []
unfolding sizes array_put put_to array_create_fn array_raise_fn array_reduce_fn array_pop
    array_clear
sizes_output = refl

put-contents_example :
    (b : Array ℕ) × (array_put true true zeros 8 (some four) 7 ≡ (some b, true))
    × IsArray b
    × (contents b ≡ contents four ++ 7 ∷ [])
put-contents_example = put-contents true zeros 8 four 7 four-IsArray (omega arith) (omega arith)

put_after_refusal_example :
    (b c : Array ℕ) × (array_put true false zeros 8 (some four) 7 ≡ (some b, false))
    × (array_put true false zeros 8 (some b) 9 ≡ (some c, true))
    × (c.block < header_size + c.usersz * c.size)
put_after_refusal_example =
    put_after_refusal true false zeros 8 four 7 9 (omega arith) (omega arith) (omega arith) refl
      refl
