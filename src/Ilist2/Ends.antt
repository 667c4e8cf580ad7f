-- ===== src/Ilist2/Ends.antt =====
-- `ilist2_pop_back`, `ilist2_pop_front`, `ilist2_put_back` and `ilist2_put_front` on the list of
-- slots and the freelist.
use scroller.Prelude.{
  ℕ, ◌<◌, ◌≡◌, ◌≢◌, refl, sym, List, [], ◌∷◌, ◌++◌, NotIn, Slots, Slots-middle, append_assoc, arith,
  ne→==, update_self, update_ne, subst, ◌∙◌, Slots-middle_back, Distinct-apart,
  Distinct-append_left, All-append_left, All-append_right,
}
use scroller.Ilist2.{
  undef, Ilist2, write_next, write_prev, pop_back_fn, pop_front_fn, pop_back, pop_front,
}
use scroller.Ilist2.Chain.{
  value-write_next, value-write_prev, IsList, SameValues, Seg-update, Free-update, Seg-split,
  Seg-end, Seg-write_next, Seg-write_prev,
}

-- What the slots say of one of them.
pub slot_facts :
    (n : ℕ) (xs ys : List ℕ) (x : ℕ) → Slots n (xs ++ x ∷ ys) → (x < n) × NotIn x xs × NotIn x ys
slot_facts n xs ys x s =
    let t = Slots-middle xs ys n x s in
    (
      t.inside.0,
      All-append_left (λ z. x ≢ z) xs ys t.distinct.0,
      All-append_right (λ z. x ≢ z) xs ys t.distinct.0,
    )

module _ {ℓ} {A : Type ℓ} (l : Ilist2 A) where
  pop_back_fn-many :
      (x m : ℕ)
      → l.back_idx ≡ x
      → (l.nodes x).prev ≡ m
      → m ≢ undef
      → pop_back_fn l ≡ (
        record l {
          nodes = write_next (write_next l.nodes x l.freelist_head) m undef;
          freelist_head = x;
          back_idx = m;
        },
        x,
      )
  unfolding pop_back_fn
  pop_back_fn-many x m b p ne = rw (b, p, ne→== m undef ne)

  pop_back_fn-one :
      (x : ℕ)
      → l.back_idx ≡ x
      → (l.nodes x).prev ≡ undef
      → pop_back_fn l ≡ (
        record l {
          nodes = write_next l.nodes x l.freelist_head;
          freelist_head = x;
          front_idx = undef;
          back_idx = undef;
        },
        x,
      )
  unfolding pop_back_fn
  pop_back_fn-one x b p = rw (b, p)

-- Of a list that is not empty `ilist2_pop_back` removes the last node, puts it in front of the
-- freelist and returns its value; every other node keeps its place and its value.
pub pop_back-IsList {ℓ} :
    {A : Type ℓ} (l : Ilist2 A) (xs : List ℕ) (x : ℕ) (free : List ℕ)
    → IsList l (xs ++ x ∷ []) free
    → IsList (pop_back l).0 xs (x ∷ free)
      × ((pop_back l).1 ≡ (l.nodes x).value)
      × SameValues l (pop_back l).0
unfolding pop_back
pop_back-IsList l [] x free w =
    let (low, out, apart) = slot_facts l.listsz [] free x w.slots in
    let f = l.nodes in
    rw (pop_back_fn-one l x (sym w.list.2.1) w.list.1, pop_back)
      (
        record {
          list = (refl, refl);
          frees = (refl, rw (update_self f x _) (Free-update f x _ _ free apart w.frees));
          slots = w.slots;
          small = w.small;
        },
        value-write_next f x l.freelist_head x,
        λ i. value-write_next f x l.freelist_head i,
      )
pop_back-IsList l (y ∷ ys) x free w =
    let n = l.listsz in
    let f = l.nodes in
    let h = l.freelist_head in
    let xs = y ∷ ys in
    let slots = subst (Slots n) (append_assoc xs (x ∷ []) free) w.slots in
    let (low, out, apart) = slot_facts n xs free x slots in
    let (m, k, left, right) = Seg-split f undef l.front_idx xs (x ∷ []) l.back_idx undef w.list in
    let low_m : m < n =
      Seg-end (λ z. z < n) f undef l.front_idx y ys m k left
        (All-append_left (λ z. z < n) xs (x ∷ free) slots.inside) in
    let ne : x ≢ m = Seg-end (λ z. x ≢ z) f undef l.front_idx y ys m k left out in
    let apart_m : NotIn m (x ∷ free) =
      Seg-end (λ z. NotIn z (x ∷ free)) f undef l.front_idx y ys m k left
        (Distinct-apart xs (x ∷ free) slots.distinct) in
    let g = write_next f x h in
    let e : write_next g m undef x ≡ record (f x) { next = h } =
      update_ne g m x _ ne ∙ update_self f x _ in
    let small = w.small in
    rw (pop_back_fn-many l x m (sym right.2.1) right.1 (omega arith), pop_back)
      (
        record {
          list =
              Seg-write_next g undef l.front_idx y ys m k undef
                (Distinct-append_left xs (x ∷ free) slots.distinct)
                (Seg-update f x _ undef l.front_idx xs m k out left);
          frees = (
            refl,
            rw e (Free-update g m _ h free apart_m.1 (Free-update f x _ h free apart w.frees)),
          );
          slots = slots;
          small = small;
        },
        value-write_next g m undef x ∙ value-write_next f x l.freelist_head x,
        λ i. value-write_next g m undef i ∙ value-write_next f x l.freelist_head i,
      )

module _ {ℓ} {A : Type ℓ} (l : Ilist2 A) (x k : ℕ) where
  pop_front_fn-many :
      l.front_idx ≡ x
      → (l.nodes x).next ≡ k
      → k ≢ undef
      → pop_front_fn l ≡ (
        record l {
          nodes = write_prev (write_next l.nodes x l.freelist_head) k undef;
          freelist_head = x;
          front_idx = k;
        },
        x,
      )
  unfolding pop_front_fn
  pop_front_fn-many b p ne = rw (b, p, ne→== k undef ne)

  pop_front_fn-one :
      l.front_idx ≡ x
      → (l.nodes x).next ≡ undef
      → pop_front_fn l ≡ (
        record l {
          nodes = write_next l.nodes x l.freelist_head;
          freelist_head = x;
          front_idx = undef;
          back_idx = undef;
        },
        x,
      )
  unfolding pop_front_fn
  pop_front_fn-one b p = rw (b, p)

-- Of a list that is not empty `ilist2_pop_front` removes the first node, puts it in front of the
-- freelist and returns its value; every other node keeps its place and its value.
pub pop_front-IsList {ℓ} :
    {A : Type ℓ} (l : Ilist2 A) (x : ℕ) (xs free : List ℕ)
    → IsList l (x ∷ xs) free
    → IsList (pop_front l).0 xs (x ∷ free)
      × ((pop_front l).1 ≡ (l.nodes x).value)
      × SameValues l (pop_front l).0
unfolding pop_front
pop_front-IsList l x [] free w =
    let (low, out, apart) = slot_facts l.listsz [] free x w.slots in
    let f = l.nodes in
    rw (pop_front_fn-one l x undef w.list.0 w.list.2.0, pop_front)
      (
        record {
          list = (refl, refl);
          frees = (refl, rw (update_self f x _) (Free-update f x _ _ free apart w.frees));
          slots = w.slots;
          small = w.small;
        },
        value-write_next f x l.freelist_head x,
        λ i. value-write_next f x l.freelist_head i,
      )
pop_front-IsList l x (y ∷ ys) free w =
    let n = l.listsz in
    let f = l.nodes in
    let h = l.freelist_head in
    let xs = y ∷ ys in
    let slots = Slots-middle_back xs free n x w.slots in
    let (low, out, apart) = slot_facts n xs free x slots in
    let low_y : y < n = w.slots.inside.1.0 in
    let apart_y = (Distinct-apart xs (x ∷ free) slots.distinct).0 in
    let (_, out_y, _) = slot_facts n (x ∷ []) (ys ++ free) y w.slots in
    let s = w.list in
    let g = write_next f x h in
    let e : write_prev g y undef x ≡ record (f x) { next = h } =
      update_ne g y x _ out.0 ∙ update_self f x _ in
    let small = w.small in
    rw (pop_front_fn-many l x y s.0 s.2.0 (omega arith), pop_front)
      (
        record {
          list =
              Seg-write_prev g x y y ys l.back_idx undef undef
                (Distinct-append_left xs (x ∷ free) slots.distinct).0
                (Seg-update f x _ x y xs l.back_idx undef out (refl, s.2.1, s.2.2));
          frees = (
            refl,
            rw e (Free-update g y _ h free apart_y.1 (Free-update f x _ h free apart w.frees)),
          );
          slots = slots;
          small = small;
        },
        value-write_prev g y undef x ∙ value-write_next f x l.freelist_head x,
        λ i. value-write_prev g y undef i ∙ value-write_next f x l.freelist_head i,
      )
