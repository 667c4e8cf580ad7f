-- ===== src/Ilist2/Moves.antt =====
-- `ilist2_move_front_by_idx` and `ilist2_move_back_by_idx` on the list of slots.
use scroller.Prelude.{
  ℕ, ◌<◌, refl, sym, ◌∙◌, subst, List, [], ◌∷◌, ◌++◌, NotIn, All, Distinct, append-nil, arith,
  Distinct-append_left, Distinct-append_right, All-append_left, All-append_right,
}
use scroller.Ilist2.{undef, Ilist2, write_next, write_prev, move_back_by_idx, move_front_by_idx}
use scroller.Ilist2.Chain.{
  value-write_next, value-write_prev, value-relink, relink, IsList, SameValues, Seg, Seg-update,
  Free-update, Seg-split, Seg-join, Seg-end, Seg-write_next, Seg-write_prev, Seg-attach_front,
  Seg-attach_back, Free-relink,
}
use scroller.Ilist2.Steps.{
  move_front-first, move_back-last, move_front-last, move_front-mid, move_back-first, move_back-mid,
  around, NotIn-flip,
}

-- `ilist2_move_front_by_idx` takes a node of the list to its front; the order of the others, the
-- freelist and all the values stay.
pub move_front-IsList {ℓ} :
    {A : Type ℓ} (l : Ilist2 A) (xs : List ℕ) (x : ℕ) (ys free : List ℕ)
    → IsList l (xs ++ x ∷ ys) free
    → IsList (move_front_by_idx l x) (x ∷ xs ++ ys) free × SameValues l (move_front_by_idx l x)
unfolding move_front_by_idx
move_front-IsList l [] x ys free w =
    rw (w.list.1, move_front-first l x undef (l.nodes x).next) (w, λ i. refl)
move_front-IsList l (y ∷ xr) x [] free w =
    let f = l.nodes in
    let n = l.listsz in
    let xs = y ∷ xr in
    let front = l.front_idx in
    let b = l.back_idx in
    let small = w.small in
    let a = around n xs x [] free w.slots in
    let nil = append-nil xs in
    let out = subst (NotIn x) nil a.out in
    let d = subst Distinct nil a.rest in
    let (m, k, left, right) = Seg-split f undef front xs (x ∷ []) b undef w.list in
    let low_m =
      Seg-end (λ z. z < n) f undef front y xr m k left (subst (All (λ z. z < n)) nil a.low) in
    let apart = subst (All (λ z. NotIn z free)) nil a.rest_apart in
    let apart_m = Seg-end (λ z. NotIn z free) f undef front y xr m k left apart in
    let g = write_next f m undef in
    let front_y = left.0 in
    rw (right.1, right.2.0, move_front-last l x m undef y front_y (omega arith))
      (
        record {
          list =
              subst (λ zs. Seg (relink (write_prev g y x) x undef y) undef x (x ∷ zs) m undef)
                (sym nil)
                (Seg-attach_front g x y xr m out d.0
                  (rw front_y at (Seg-write_next f undef front y xr m k undef d left)));
          frees =
              Free-relink (write_prev g y x) x undef y _ free a.apart
                (Free-update g y _ _ free apart.0 (Free-update f m _ _ free apart_m w.frees));
          slots = a.moved;
          small = w.small;
        },
        λ i.
            value-relink (write_prev g y x) x undef y i
            ∙ value-write_prev g y x i
            ∙ value-write_next f m undef i,
      )
move_front-IsList l (y ∷ xr) x (z ∷ zr) free w =
    let f = l.nodes in
    let n = l.listsz in
    let xs = y ∷ xr in
    let ys = z ∷ zr in
    let front = l.front_idx in
    let b = l.back_idx in
    let small = w.small in
    let a = around n xs x ys free w.slots in
    let (m, k, left, right) = Seg-split f undef front xs (x ∷ ys) b undef w.list in
    let low_m =
      Seg-end (λ z. z < n) f undef front y xr m k left (All-append_left (λ z. z < n) xs ys a.low) in
    let low_z = (All-append_right (λ z. z < n) xs ys a.low).0 in
    let across_m = Seg-end (λ z. NotIn z ys) f undef front y xr m k left a.across in
    let apart_m =
      Seg-end (λ z. NotIn z free) f undef front y xr m k left
        (All-append_left (λ z. NotIn z free) xs ys a.rest_apart) in
    let apart_z = (All-append_right (λ z. NotIn z free) xs ys a.rest_apart).0 in
    let out_z = NotIn-flip xs zr z a.across in
    let g = write_next f m z in
    let h = write_prev g z m in
    let front_y = left.0 in
    let left' =
      Seg-update g z _ undef front xs m z out_z
        (Seg-write_next f undef front y xr m k z (Distinct-append_left xs ys a.rest) left) in
    let right' =
      Seg-write_prev g x z z zr b undef m (Distinct-append_right xs ys a.rest).0
        (Seg-update f m _ x z ys b undef across_m (refl, right.2.1, right.2.2)) in
    rw (right.1, right.2.0, move_front-mid l x m z y front_y (omega arith) (omega arith))
      (
        record {
          list =
              Seg-attach_front h x y (xr ++ ys) b a.out a.rest.0
                (rw front_y at (Seg-join h undef front xs ys b undef m z left' right'));
          frees = Free-relink (write_prev h y x) x undef y _ free a.apart (
              Free-update h y _ _ free a.rest_apart.0
                (Free-update g z _ _ free apart_z (Free-update f m _ _ free apart_m w.frees)));
          slots = a.moved;
          small = w.small;
        },
        λ i.
            value-relink (write_prev h y x) x undef y i
            ∙ value-write_prev h y x i
            ∙ value-write_prev g z m i
            ∙ value-write_next f m z i,
      )

-- `ilist2_move_back_by_idx` takes a node of the list to its back; the order of the others, the
-- freelist and all the values stay.
pub move_back-IsList {ℓ} :
    {A : Type ℓ} (l : Ilist2 A) (xs : List ℕ) (x : ℕ) (ys free : List ℕ)
    → IsList l (xs ++ x ∷ ys) free
    → IsList (move_back_by_idx l x) ((xs ++ ys) ++ x ∷ []) free
      × SameValues l (move_back_by_idx l x)
unfolding move_back_by_idx
move_back-IsList l xs x [] free w =
    let f = l.nodes in
    let (m, k, left, right) = Seg-split f undef l.front_idx xs (x ∷ []) l.back_idx undef w.list in
    rw (right.2.0, move_back-last l x (f x).prev undef) (rw (append-nil xs) w, λ i. refl)
move_back-IsList l [] x (z ∷ zr) free w =
    let f = l.nodes in
    let n = l.listsz in
    let ys = z ∷ zr in
    let b = l.back_idx in
    let small = w.small in
    let a = around n [] x ys free w.slots in
    let low_z = a.low.0 in
    let s = w.list in
    let apart_b =
      Seg-end (λ z. NotIn z free) f x z z zr b undef (refl, s.2.1, s.2.2) a.rest_apart in
    let g = write_prev f z undef in
    rw (s.1, s.2.0, move_back-first l x undef z (omega arith))
      (
        record {
          list =
              Seg-attach_back g x z z zr b a.out a.rest
                (Seg-write_prev f x z z zr b undef undef a.rest.0 (refl, s.2.1, s.2.2));
          frees =
              Free-relink (write_next g b x) x b undef _ free a.apart (
                Free-update g b _ _ free apart_b (Free-update f z _ _ free a.rest_apart.0 w.frees));
          slots = a.tailed;
          small = w.small;
        },
        λ i.
            value-relink (write_next g b x) x b undef i
            ∙ value-write_next g b x i
            ∙ value-write_prev f z undef i,
      )
move_back-IsList l (y ∷ xr) x (z ∷ zr) free w =
    let f = l.nodes in
    let n = l.listsz in
    let xs = y ∷ xr in
    let ys = z ∷ zr in
    let front = l.front_idx in
    let b = l.back_idx in
    let small = w.small in
    let a = around n xs x ys free w.slots in
    let (m, k, left, right) = Seg-split f undef front xs (x ∷ ys) b undef w.list in
    let low_m =
      Seg-end (λ z. z < n) f undef front y xr m k left (All-append_left (λ z. z < n) xs ys a.low) in
    let low_z = (All-append_right (λ z. z < n) xs ys a.low).0 in
    let across_m = Seg-end (λ z. NotIn z ys) f undef front y xr m k left a.across in
    let apart_m =
      Seg-end (λ z. NotIn z free) f undef front y xr m k left
        (All-append_left (λ z. NotIn z free) xs ys a.rest_apart) in
    let apart_ys = All-append_right (λ z. NotIn z free) xs ys a.rest_apart in
    let apart_b =
      Seg-end (λ z. NotIn z free) f x z z zr b undef (refl, right.2.1, right.2.2) apart_ys in
    let out_z = NotIn-flip xs zr z a.across in
    let g = write_prev f z m in
    let h = write_next g m z in
    let left' =
      Seg-write_next g undef front y xr m k z (Distinct-append_left xs ys a.rest)
        (Seg-update f z _ undef front xs m k out_z left) in
    let right' = Seg-update g m _ m z ys b undef across_m (
      Seg-write_prev f x z z zr b undef m (Distinct-append_right xs ys a.rest).0
        (refl, right.2.1, right.2.2)) in
    rw (right.1, right.2.0, move_back-mid l x m z (omega arith) (omega arith))
      (
        record {
          list =
              Seg-attach_back h x front y (xr ++ ys) b a.out a.rest
                (Seg-join h undef front xs ys b undef m z left' right');
          frees = Free-relink (write_next h b x) x b undef _ free a.apart (
              Free-update h b _ _ free apart_b
                (Free-update g m _ _ free apart_m (Free-update f z _ _ free apart_ys.0 w.frees)));
          slots = a.tailed;
          small = w.small;
        },
        λ i.
            value-relink (write_next h b x) x b undef i
            ∙ value-write_next h b x i
            ∙ value-write_next g m z i
            ∙ value-write_prev f z m i,
      )
