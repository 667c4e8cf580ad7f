-- ===== src/Ilist2/Chain.antt =====
-- Linked segments of nodes and the chain of free nodes, under the writes of ilist2.c.
use scroller.Prelude.{
  ℕ, ◌≤◌, ◌≡◌, ◌≢◌, refl, update_ne, update_self, update, ap, sym, ◌∙◌, eq→==, subst, List, [], ◌∷◌,
  ◌++◌, All, NotIn, Distinct, Slots, arith, Bool-cases, eq-of-==, inl, inr, ◌==◌,
}
use scroller.Ilist2.{undef, Node, Ilist2, write_next, write_prev}

module _ {ℓ} {A : Type ℓ} where
  -- From `i`, whose predecessor is `p`, through the nodes `xs`, the last of which is `q`, to `j`.
  abbrev pub Seg : (ℕ → Node A) → ℕ → ℕ → List ℕ → ℕ → ℕ → Type 0
  Seg f p i [] q j = (i ≡ j) × (p ≡ q)
  Seg f p i (x ∷ xs) q j = (i ≡ x) × ((f x).prev ≡ p) × Seg f x (f x).next xs q j

  -- The free nodes from `h` on.
  abbrev pub Free : (ℕ → Node A) → ℕ → List ℕ → Type 0
  Free f h [] = h ≡ undef
  Free f h (x ∷ xs) = (h ≡ x) × Free f (f x).next xs

  -- Writes to the links leave the user data alone.
  pub value-write_next : (f : ℕ → Node A) (a v i : ℕ) → (write_next f a v i).value ≡ (f i).value
  value-write_next f a v i = elim (Bool-cases (i == a)) [
    | inl e ↦ rw (e, eq-of-== i a e)
    | inr e ↦ rw e
  ]

  pub value-write_prev : (f : ℕ → Node A) (a v i : ℕ) → (write_prev f a v i).value ≡ (f i).value
  value-write_prev f a v i = elim (Bool-cases (i == a)) [
    | inl e ↦ rw (e, eq-of-== i a e)
    | inr e ↦ rw e
  ]

  pub Seg-update :
      (f : ℕ → Node A) (a : ℕ) (n : Node A) (p i : ℕ) (xs : List ℕ) (q j : ℕ)
      → NotIn a xs
      → Seg f p i xs q j
      → Seg (update f a n) p i xs q j
  Seg-update f a n p i [] q j out s = s
  Seg-update f a n p i (x ∷ xs) q j out s =
      let e : update f a n x ≡ f x = update_ne f a x n (λ h. out.0 (sym h)) in
      (s.0, rw e s.1, rw e (Seg-update f a n x (f x).next xs q j out.1 s.2))

  pub Free-update :
      (f : ℕ → Node A) (a : ℕ) (n : Node A) (h : ℕ) (xs : List ℕ)
      → NotIn a xs
      → Free f h xs
      → Free (update f a n) h xs
  Free-update f a n h [] out s = s
  Free-update f a n h (x ∷ xs) out s =
      let e : update f a n x ≡ f x = update_ne f a x n (λ h. out.0 (sym h)) in
      (s.0, rw e (Free-update f a n (f x).next xs out.1 s.1))

  pub Seg-split :
      (f : ℕ → Node A) (p i : ℕ) (xs ys : List ℕ) (q j : ℕ)
      → Seg f p i (xs ++ ys) q j
      → (m : ℕ) × (k : ℕ) × Seg f p i xs m k × Seg f m k ys q j
  Seg-split f p i [] ys q j s = (p, i, (refl, refl), s)
  Seg-split f p i (x ∷ xs) ys q j s =
      let (m, k, l, r) = Seg-split f x (f x).next xs ys q j s.2 in (m, k, (s.0, s.1, l), r)

  pub Seg-join :
      (f : ℕ → Node A) (p i : ℕ) (xs ys : List ℕ) (q j m k : ℕ)
      → Seg f p i xs m k
      → Seg f m k ys q j
      → Seg f p i (xs ++ ys) q j
  Seg-join f p i [] ys q j m k l r = rw (l.0, l.1) r
  Seg-join f p i (x ∷ xs) ys q j m k l r = (l.0, l.1, Seg-join f x (f x).next xs ys q j m k l.2 r)

  -- The last node of a segment is one of its nodes.
  pub Seg-end {κ} :
      (P : ℕ → Type κ) (f : ℕ → Node A) (p i x : ℕ) (xs : List ℕ) (q j : ℕ)
      → Seg f p i (x ∷ xs) q j
      → All P (x ∷ xs)
      → P q
  Seg-end P f p i x [] q j s h = subst P s.2.1 h.0
  Seg-end P f p i x (y ∷ xs) q j s h = Seg-end P f x (f x).next y xs q j s.2 h.1

  -- A write to the `next` of the last node moves the end of the segment.
  pub Seg-write_next :
      (f : ℕ → Node A) (p i x : ℕ) (xs : List ℕ) (q j k : ℕ)
      → Distinct (x ∷ xs)
      → Seg f p i (x ∷ xs) q j
      → Seg (write_next f q k) p i (x ∷ xs) q k
  Seg-write_next f p i x [] q j k d s = ground arith
  Seg-write_next f p i x (y ∷ xs) q j k d s =
      let ne : x ≢ q = Seg-end (λ z. x ≢ z) f x (f x).next y xs q j s.2 d.0 in
      let e : write_next f q k x ≡ f x = update_ne f q x _ ne in
      (s.0, rw e s.1, rw e (Seg-write_next f x (f x).next y xs q j k d.1 s.2))

  -- A write to the `prev` of the first node moves the start of the segment.
  pub Seg-write_prev :
      (f : ℕ → Node A) (p i x : ℕ) (xs : List ℕ) (q j k : ℕ)
      → NotIn x xs
      → Seg f p i (x ∷ xs) q j
      → Seg (write_prev f x k) k i (x ∷ xs) q j
  Seg-write_prev f p i x xs q j k out s =
      let e : write_prev f x k x ≡ record (f x) { prev = k } = update_self f x _ in
      (s.0, rw e refl, rw e (Seg-update f x _ x (f x).next xs q j out s.2))

  -- Both links of one node written, as for a node that comes in.
  abbrev pub relink : (ℕ → Node A) → ℕ → ℕ → ℕ → ℕ → Node A
  relink f a p k = write_next (write_prev f a p) a k

  pub relink_self :
      (f : ℕ → Node A) (a p k : ℕ)
      → relink f a p k a ≡ record { value = (f a).value; prev = p; next = k }
  relink_self f a p k = rw (eq→== a a refl)

  pub value-relink : (f : ℕ → Node A) (a p k i : ℕ) → (relink f a p k i).value ≡ (f i).value
  value-relink f a p k i = value-write_next (write_prev f a p) a k i ∙ value-write_prev f a p i

  pub Seg-relink :
      (f : ℕ → Node A) (a v w p i : ℕ) (xs : List ℕ) (q j : ℕ)
      → NotIn a xs
      → Seg f p i xs q j
      → Seg (relink f a v w) p i xs q j
  Seg-relink f a v w p i xs q j out s =
      Seg-update (write_prev f a v) a _ p i xs q j out (Seg-update f a _ p i xs q j out s)

  pub Free-relink :
      (f : ℕ → Node A) (a v w h : ℕ) (xs : List ℕ)
      → NotIn a xs
      → Free f h xs
      → Free (relink f a v w) h xs
  Free-relink f a v w h xs out s =
      Free-update (write_prev f a v) a _ h xs out (Free-update f a _ h xs out s)

  -- A node that is no part of the segment, linked in before its first node or behind its last.
  pub Seg-attach_front :
      (f : ℕ → Node A) (x y : ℕ) (xs : List ℕ) (b : ℕ)
      → NotIn x (y ∷ xs)
      → NotIn y xs
      → Seg f undef y (y ∷ xs) b undef
      → Seg (relink (write_prev f y x) x undef y) undef x (x ∷ y ∷ xs) b undef
  Seg-attach_front f x y xs b out d s = rw (relink_self (write_prev f y x) x undef y) (
    refl,
    refl,
    Seg-relink (write_prev f y x) x undef y x y (y ∷ xs) b undef out
        (Seg-write_prev f undef y y xs b undef x d s),
  )

  pub Seg-attach_back :
      (f : ℕ → Node A) (x front y : ℕ) (xs : List ℕ) (b : ℕ)
      → NotIn x (y ∷ xs)
      → Distinct (y ∷ xs)
      → Seg f undef front (y ∷ xs) b undef
      → Seg (relink (write_next f b x) x b undef) undef front ((y ∷ xs) ++ x ∷ []) x undef
  Seg-attach_back f x front y xs b out d s =
      let g = write_next f b x in
      let e = relink_self g x b undef in
      Seg-join (relink g x b undef) undef front (y ∷ xs) (x ∷ []) x undef b x
        (Seg-relink g x b undef undef front (y ∷ xs) b x out
          (Seg-write_next f undef front y xs b undef x d s))
        (refl, ap (λ r. r.prev) e, (ap (λ r. r.next) e, refl))

  -- `used` are the nodes of the list from front to back and `free` those of the freelist, which
  -- together are all the slots, each once.
  pub record IsList (l : Ilist2 A) (used free : List ℕ) : Type ℓ where
    pub list : Seg l.nodes undef l.front_idx used l.back_idx undef
    pub frees : Free l.nodes l.freelist_head free
    pub slots : Slots l.listsz (used ++ free)
    pub small : l.listsz ≤ undef

  -- The user data of every node is what it was.
  abbrev pub SameValues : Ilist2 A → Ilist2 A → Type ℓ
  SameValues l l' = (i : ℕ) → (l'.nodes i).value ≡ (l.nodes i).value
