-- ===== src/Ilist2/Puts.antt =====
-- `ilist2_put_back` and `ilist2_put_front` on the list of slots and the freelist.
use scroller.Prelude.{
  ℕ, ◌<◌, ◌≡◌, ◌≢◌, refl, sym, ◌∙◌, subst, ap, List, [], ◌∷◌, ◌++◌, NotIn, Slots, Slots-middle,
  append_assoc, arith, ne→==, Bool-cases, ◌==◌, inl, inr, update, update_ne, Distinct-apart,
  Distinct-append_left,
}
use scroller.Ilist2.{
  Node, undef, Ilist2, write_next, write_prev, write_value, touch_new_fn, touch_back_fn,
  touch_front_fn, put_back, put_front,
}
use scroller.Ilist2.Chain.{
  value-write_next, value-write_prev, value-relink, relink, relink_self, IsList, Free, Free-update,
  Seg-end, Seg-attach_front, Seg-attach_back, Free-relink,
}
use scroller.Ilist2.Values.{Seg-write_value, Free-write_value}
use scroller.Ilist2.Ends.{slot_facts}

module _ {ℓ} {A : Type ℓ} (l : Ilist2 A) (x : ℕ) (v : A) where
  put-new :
      l.freelist_head ≡ x
      → x ≢ undef
      → l.front_idx ≡ undef
      → (put_back l v ≡ (
        record l {
          freelist_head = (l.nodes x).next;
          nodes = write_value (relink l.nodes x undef undef) x v;
          back_idx = x;
          front_idx = x;
        },
        x,
      ))
        × (put_front l v ≡ put_back l v)
  unfolding put_back put_front touch_back_fn touch_front_fn touch_new_fn
  put-new h ne e = rw (h, ne→== x undef ne, e) (rw (ne→== x undef ne), refl)

  put_back-many :
      l.freelist_head ≡ x
      → x ≢ undef
      → l.front_idx ≢ undef
      → put_back l v ≡ (
        record l {
          freelist_head = (write_next l.nodes l.back_idx x x).next;
          nodes = write_value (relink (write_next l.nodes l.back_idx x) x l.back_idx undef) x v;
          back_idx = x;
        },
        x,
      )
  unfolding put_back touch_back_fn touch_new_fn
  put_back-many h ne e = rw (h, ne→== x undef ne, ne→== _ undef e) (rw (ne→== x undef ne))

  put_front-many :
      l.freelist_head ≡ x
      → x ≢ undef
      → l.front_idx ≢ undef
      → put_front l v ≡ (
        record l {
          freelist_head = (write_prev l.nodes l.front_idx x x).next;
          nodes = write_value (relink (write_prev l.nodes l.front_idx x) x undef l.front_idx) x v;
          front_idx = x;
        },
        x,
      )
  unfolding put_front touch_front_fn touch_new_fn
  put_front-many h ne e = rw (h, ne→== x undef ne, ne→== _ undef e) (rw (ne→== x undef ne))

-- What a put of `v` at slot `x` does to the user data.
abbrev pub PutsValue {ℓ} : {A : Type ℓ} → Ilist2 A → ℕ → A → Ilist2 A → Type ℓ
PutsValue l x v l' = (i : ℕ) → (l'.nodes i).value ≡ update (λ k. (l.nodes k).value) x v i

module _ {ℓ} {A : Type ℓ} where
  value-put :
      (f g : ℕ → Node A) (x : ℕ) (v : A)
      → ((i : ℕ) → (g i).value ≡ (f i).value)
      → (i : ℕ) → (write_value g x v i).value ≡ update (λ k. (f k).value) x v i
  value-put f g x v same i = elim (Bool-cases (i == x)) [ inl e ↦ rw e | inr e ↦ rw e (same i) ]

  new_slot : (l : Ilist2 A) (x : ℕ) (free : List ℕ) → IsList l [] (x ∷ free) → l.front_idx ≡ undef
  new_slot l x free w = w.list.0

  put_new-IsList :
      (l l' : Ilist2 A) (x : ℕ) (free : List ℕ) (v : A)
      → IsList l [] (x ∷ free)
      → l' ≡ record l {
        freelist_head = (l.nodes x).next;
        nodes = write_value (relink l.nodes x undef undef) x v;
        back_idx = x;
        front_idx = x;
      }
      → IsList l' (x ∷ []) free × PutsValue l x v l'
  put_new-IsList l l' x free v w e =
      let f = l.nodes in
      let g = relink f x undef undef in
      let (low, out, apart) = slot_facts l.listsz [] free x w.slots in
      rw e (
        record {
          list =
              Seg-write_value g x v undef x (x ∷ []) x undef
                (rw (relink_self f x undef undef) (refl, refl, (refl, refl)));
          frees =
              Free-write_value g x v _ free (Free-relink f x undef undef _ free apart w.frees.1);
          slots = w.slots;
          small = w.small;
        },
        value-put f g x v (value-relink f x undef undef),
      )

  -- With a free slot `ilist2_put_back` takes the first one, appends it to the list, writes the value
  -- to it and returns its index.
  pub put_back-IsList :
      (l : Ilist2 A) (used : List ℕ) (x : ℕ) (free : List ℕ) (v : A)
      → IsList l used (x ∷ free)
      → IsList (put_back l v).0 (used ++ x ∷ []) free
        × ((put_back l v).1 ≡ x)
        × PutsValue l x v (put_back l v).0
  put_back-IsList l [] x free v w =
      let small = w.small in
      let (low, _, _) = slot_facts l.listsz [] free x w.slots in
      let (e, _) = put-new l x v w.frees.0 (omega arith) w.list.0 in
      let (is, puts) = put_new-IsList l _ x free v w (ap (λ r. r.0) e) in
      (is, ap (λ r. r.1) e, puts)
  put_back-IsList l (y ∷ ys) x free v w =
      let n = l.listsz in
      let small = w.small in
      let used = y ∷ ys in
      let f = l.nodes in
      let b = l.back_idx in
      let front = l.front_idx in
      let (low, out, apart) = slot_facts n used free x w.slots in
      let low_y : y < n = w.slots.inside.0 in
      let front_y = w.list.0 in
      let ne : x ≢ b = Seg-end (λ z. x ≢ z) f undef front y ys b undef w.list out in
      let apart_b : NotIn b (x ∷ free) =
        Seg-end (λ z. NotIn z (x ∷ free)) f undef front y ys b undef w.list
          (Distinct-apart used (x ∷ free) w.slots.distinct) in
      let g = write_next f b x in
      let h = relink g x b undef in
      let e : g x ≡ f x = update_ne f b x _ ne in
      rw (put_back-many l x v w.frees.0 (omega arith) (omega arith)) (
        record {
          list = Seg-write_value h x v undef front (used ++ x ∷ []) x undef (
              Seg-attach_back f x front y ys b out
                (Distinct-append_left used (x ∷ free) w.slots.distinct) w.list);
          frees =
              subst (λ z. Free (write_value h x v) z.next free) (sym e)
                (Free-write_value h x v _ free (
                  Free-relink g x b undef _ free apart
                    (Free-update f b _ _ free apart_b.1 w.frees.1)));
          slots = subst (Slots n) (sym (append_assoc used (x ∷ []) free)) w.slots;
          small = w.small;
        },
        refl,
        value-put f h x v (λ i. value-relink g x b undef i ∙ value-write_next f b x i),
      )

  -- With a free slot `ilist2_put_front` takes the first one, puts it before the list, writes the
  -- value to it and returns its index.
  pub put_front-IsList :
      (l : Ilist2 A) (used : List ℕ) (x : ℕ) (free : List ℕ) (v : A)
      → IsList l used (x ∷ free)
      → IsList (put_front l v).0 (x ∷ used) free
        × ((put_front l v).1 ≡ x)
        × PutsValue l x v (put_front l v).0
  put_front-IsList l [] x free v w =
      let small = w.small in
      let (low, _, _) = slot_facts l.listsz [] free x w.slots in
      let (e, same) = put-new l x v w.frees.0 (omega arith) w.list.0 in
      let (is, puts) = put_new-IsList l _ x free v w (ap (λ r. r.0) (same ∙ e)) in
      (is, ap (λ r. r.1) (same ∙ e), puts)
  put_front-IsList l (y ∷ ys) x free v w =
      let n = l.listsz in
      let small = w.small in
      let used = y ∷ ys in
      let f = l.nodes in
      let b = l.back_idx in
      let front = l.front_idx in
      let (low, out, apart) = slot_facts n used free x w.slots in
      let low_y : y < n = w.slots.inside.0 in
      let front_y = w.list.0 in
      let d = Distinct-append_left used (x ∷ free) w.slots.distinct in
      let apart_y = (Distinct-apart used (x ∷ free) w.slots.distinct).0 in
      let g = write_prev f y x in
      let h = relink g x undef y in
      let e : g x ≡ f x = update_ne f y x _ out.0 in
      rw (put_front-many l x v w.frees.0 (omega arith) (omega arith), front_y)
        (
          record {
            list =
                Seg-write_value h x v undef x (x ∷ used) b undef
                  (Seg-attach_front f x y ys b out d.0 (refl, w.list.1, w.list.2));
            frees =
                subst (λ z. Free (write_value h x v) z.next free) (sym e)
                  (Free-write_value h x v _ free (
                    Free-relink g x undef y _ free apart
                      (Free-update f y _ _ free apart_y.1 w.frees.1)));
            slots = Slots-middle used free n x w.slots;
            small = w.small;
          },
          refl,
          value-put f h x v (λ i. value-relink g x undef y i ∙ value-write_prev f y x i),
        )

-- With no free slot both puts return ILIST2_UNDEF and change nothing.
pub put_full {ℓ} :
    {A : Type ℓ} (l : Ilist2 A) (used : List ℕ) (v : A)
    → IsList l used []
    → (put_back l v ≡ (l, undef)) × (put_front l v ≡ (l, undef))
unfolding put_back put_front touch_back_fn touch_front_fn
put_full l used v w = rw w.frees (refl, refl)
