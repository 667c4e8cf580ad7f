-- ===== src/Memory/Examples.antt =====
-- Contexts of one page, and the theorems at them.
use scroller.Prelude.{ℕ, ◌+◌, ◌≤◌, ◌<◌, ◌≡◌, ◌⊎◌, refl, Option, none, some, List, [], ◌∷◌, arith}
use scroller.Align.{align_up, align_max}
use scroller.Memory.{
  BumpContext, fresh_context, bump_context_alloc, bump_context_free, bump_context_realloc, place,
  rewind, moved, linear_context_alloc,
}
use scroller.Memory.Blocks.{IsBump, alloc-IsBump}
use scroller.Memory.Realloc.{realloc_last}

abbrev page : BumpContext
page = fresh_context 4096

abbrev one : BumpContext
one = place page 16

abbrev two : BumpContext
two = place one 32

two-IsBump : IsBump two (144 ∷ 112 ∷ [])
unfolding align_up
two-IsBump = record { blocks = ground arith; room = omega arith; small = omega arith }

page-IsBump : IsBump page []
unfolding align_up
page-IsBump = record { blocks = omega arith; room = omega arith; small = omega arith }

-- Allocate twice, grow the first block, free it, and take from a linear context.
places : List (Option ℕ)
places =
    let (a, p) = bump_context_alloc page 10 in
    let (b, q) = bump_context_alloc a 32 in
    let (c, r) = bump_context_realloc b p 20 in
    let d = bump_context_free c r in
    let (e, t) = bump_context_alloc d 1 in
    p ∷ q ∷ r ∷ t ∷ (linear_context_alloc page 1).1 ∷ (bump_context_alloc e 5000).1 ∷ []

places_output : places ≡ some 112 ∷ some 144 ∷ some 192 ∷ some 192 ∷ some 96 ∷ none ∷ []
unfolding places align_up bump_context_alloc bump_context_realloc bump_context_free rewind moved
    linear_context_alloc
places_output = refl

abbrev ten : ℕ
ten = 10

alloc-IsBump_example :
    ((bump_context_alloc two 10 ≡ (two, none)) × ((ten ≡ 0) ⊎ (4096 < 176 + (align_max 10 + 16))))
    ⊎ ((bump_context_alloc two 10 ≡ (place two (align_max 10), some 192))
        × IsBump (place two (align_max 10)) (192 ∷ 144 ∷ 112 ∷ [])
        × (10 ≤ align_max 10))
unfolding align_up
alloc-IsBump_example = alloc-IsBump two (144 ∷ 112 ∷ []) 10 two-IsBump (omega arith)

realloc_last_example :
    (r : BumpContext × Option ℕ) × (bump_context_realloc two (some 144) 4000 ≡ r)
    × (((144 + align_max 4000 ≤ 4096)
          × (r.1 ≡ some 144)
          × IsBump r.0 (144 ∷ 112 ∷ [])
          × (r.0.cells ≡ two.cells)
          × (r.0.block_size 144 ≡ align_max 4000))
        ⊎ ((4096 < 144 + align_max 4000) × (r.1 ≡ none) × IsBump r.0 (112 ∷ [])))
unfolding align_up
realloc_last_example =
    realloc_last two 144 4000 (112 ∷ []) two-IsBump (omega arith) (omega arith) (omega arith)
