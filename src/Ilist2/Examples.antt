-- ===== src/Ilist2/Examples.antt =====
-- A list of three slots in use, and the theorems at it.
use scroller.Prelude.{ℕ, ◌≡◌, refl, List, [], ◌∷◌, update, arith}
use scroller.Ilist2.{
  undef, Node, Ilist2, clear_loop, clear_nodes, clear, init, get_back, get_front, pop_back_fn,
  pop_front_fn, pop_back, pop_front, touch_new_fn, touch_back_fn, touch_front_fn, put_back,
  put_front, move_front_from, move_front_by_idx,
}
use scroller.Ilist2.Chain.{IsList, SameValues}
use scroller.Ilist2.Ends.{pop_back-IsList}
use scroller.Ilist2.Moves.{move_front-IsList}
use scroller.Ilist2.Puts.{PutsValue, put_back-IsList}

abbrev cells : ℕ → Node ℕ
cells =
    update
      (update (λ _. record { value = 0; prev = undef; next = undef }) 0
        (record { value = 10; prev = undef; next = 1 }))
      1 (record { value = 20; prev = 0; next = undef })

-- Slots 0 and 1 are used, with values 10 and 20, and slot 2 is free.
abbrev two : Ilist2 ℕ
two = record { listsz = 3; freelist_head = 2; front_idx = 0; back_idx = 1; nodes = cells }

two-IsList : IsList two (0 ∷ 1 ∷ []) (2 ∷ [])
two-IsList = record {
  list = (refl, refl, (refl, refl, (refl, refl)));
  frees = (refl, refl);
  slots = grind arith;
  small = omega arith;
}

-- Slots 0 and 1 of two, and none is free.
abbrev crowded : Ilist2 ℕ
crowded = record two { listsz = 2; freelist_head = undef }

crowded-IsList : IsList crowded (0 ∷ 1 ∷ []) []
crowded-IsList = record {
  list = (refl, refl, (refl, refl, (refl, refl)));
  frees = refl;
  slots = grind arith;
  small = omega arith;
}

-- Fill a list of three from both ends, turn it by its middle, and take it apart.
session : List ℕ
session =
    let a = (put_back (init (λ _. record { value = 0; prev = 7; next = 7 }) 3) 5).0 in
    let b = (put_front a 6).0 in
    let (c, i) = put_back b 7 in
    let d = move_front_by_idx c i in
    let (e, x) = pop_back d in
    let (f, y) = pop_front e in get_front f ∷ get_back f ∷ x ∷ y ∷ (put_back c 8).1 ∷ []

session_output : session ≡ 6 ∷ 6 ∷ 5 ∷ 7 ∷ undef ∷ []
unfolding session init clear clear_nodes clear_loop put_back put_front touch_back_fn touch_front_fn
    touch_new_fn move_front_by_idx move_front_from pop_back pop_back_fn pop_front pop_front_fn
    get_front get_back
session_output = refl

pop_back-IsList_example :
    IsList (pop_back two).0 (0 ∷ []) (1 ∷ 2 ∷ [])
    × ((pop_back two).1 ≡ 20)
    × SameValues two (pop_back two).0
pop_back-IsList_example = pop_back-IsList two (0 ∷ []) 1 (2 ∷ []) two-IsList

put_back-IsList_example :
    IsList (put_back two 30).0 (0 ∷ 1 ∷ 2 ∷ []) []
    × ((put_back two 30).1 ≡ 2)
    × PutsValue two 2 30 (put_back two 30).0
put_back-IsList_example = put_back-IsList two (0 ∷ 1 ∷ []) 2 [] 30 two-IsList

move_front-IsList_example :
    IsList (move_front_by_idx two 1) (1 ∷ 0 ∷ []) (2 ∷ [])
    × SameValues two (move_front_by_idx two 1)
move_front-IsList_example = move_front-IsList two (0 ∷ []) 1 [] (2 ∷ []) two-IsList
