-- ===== src/Ilist2/Clear.antt =====
-- `ilist2_clear` and `ilist2_init_fn`: all the slots are free, in order.
use scroller.Prelude.{
  ℕ, zero, suc, ◌+◌, ◌-◌, ◌≤◌, ◌<◌, ◌≡◌, refl, sym, ◌∙◌, List, [], ◌∷◌, All, NotIn, Distinct, Slots,
  length, arith, lt→ltb, update_ne, update_self, subst, ap, dec_lt,
}
use scroller.Ilist2.{undef, Node, Ilist2, write_next, write_prev, clear_loop, clear_nodes, clear}
use scroller.Ilist2.Chain.{
  Free, relink, relink_self, value-relink, value-write_next, IsList, SameValues,
}

-- The numbers from `i` on, `k` of them.
unfoldable pub range : ℕ → ℕ → List ℕ
range i zero = []
range i (suc k) = i ∷ range (i + 1) k

range-NotIn : (k i a : ℕ) → a < i → NotIn a (range i k)
unfolding range
range-NotIn zero i a h = tt
range-NotIn (suc k) i a h = (omega arith, range-NotIn k (i + 1) a (omega arith))

range-inside : (k i n : ℕ) → i + k ≤ n → All (λ z. z < n) (range i k)
unfolding range
range-inside zero i n h = tt
range-inside (suc k) i n h = (omega arith, range-inside k (i + 1) n (omega arith))

range-Distinct : (k i : ℕ) → Distinct (range i k)
unfolding range
range-Distinct zero i = tt
range-Distinct (suc k) i = (range-NotIn k (i + 1) i (omega arith), range-Distinct k (i + 1))

length-range : (k i : ℕ) → length (range i k) ≡ k
unfolding range
length-range zero i = refl
length-range (suc k) i = omega (arith, length-range k (i + 1))

range-Slots : (n : ℕ) → Slots n (range 0 n)
range-Slots n = record {
  inside = range-inside n 0 n (omega arith);
  distinct = range-Distinct n 0;
  count = length-range n 0;
}

module _ {ℓ} {A : Type ℓ} where
  clear_loop_below : (k i : ℕ) (f : ℕ → Node A) (j : ℕ) → j < i → clear_loop k i f j ≡ f j
  unfolding clear_loop
  clear_loop_below zero i f j h = refl
  clear_loop_below (suc k) i f j h =
      clear_loop_below k (i + 1) (relink f i undef (i + 1)) j (omega arith)
      ∙ update_ne (write_prev f i undef) i j _ (omega arith)
      ∙ update_ne f i j _ (omega arith)

  clear_loop_next :
      (k i : ℕ) (f : ℕ → Node A) (j : ℕ) → i ≤ j → j < i + k → (clear_loop k i f j).next ≡ j + 1
  unfolding clear_loop
  clear_loop_next zero i f j h h' = absurd (omega arith)
  clear_loop_next (suc k) i f j h h' = elim (dec_lt i j) [
    | yes p ↦ clear_loop_next k (i + 1) (relink f i undef (i + 1)) j (omega arith) (omega arith)
    | no p ↦
        let e : j ≡ i = omega arith in
        rw (e, clear_loop_below k (i + 1) (relink f i undef (i + 1)) i (omega arith))
          (rw (relink_self f i undef (i + 1)))
  ]

  value-clear_loop : (k i : ℕ) (f : ℕ → Node A) (j : ℕ) → (clear_loop k i f j).value ≡ (f j).value
  unfolding clear_loop
  value-clear_loop zero i f j = refl
  value-clear_loop (suc k) i f j =
      value-clear_loop k (i + 1) (relink f i undef (i + 1)) j ∙ value-relink f i undef (i + 1) j

  Free-range :
      (g : ℕ → Node A) (k i : ℕ)
      → ((j : ℕ) → i ≤ j → suc j < i + suc k → (g j).next ≡ j + 1)
      → (g (i + k)).next ≡ undef
      → Free g i (range i (suc k))
  unfolding range
  Free-range g zero i h last = let e : i + 0 ≡ i = omega arith in (refl, rw e at last)
  Free-range g (suc k) i h last =
      let e : i + suc k ≡ i + 1 + k = omega arith in
      let at : (g i).next ≡ i + 1 = h i (omega arith) (omega arith) in
      (
        refl,
        subst (λ z. Free g z (range (i + 1) (suc k))) (sym at)
            (Free-range g k (i + 1) (λ j a b. h j (omega arith) (omega arith)) (rw e at last)),
      )

  clear_nodes-suc :
      (n : ℕ) (f : ℕ → Node A)
      → clear_nodes (suc n) f ≡ (write_next (clear_loop (suc n) 0 f) (0 + n) undef, 0)
  unfolding clear_nodes
  clear_nodes-suc n f =
      let e : suc n - 1 ≡ 0 + n = omega arith in rw (lt→ltb 0 (suc n) (omega arith), e)

  clear_nodes-zero : (f : ℕ → Node A) → clear_nodes 0 f ≡ (f, undef)
  unfolding clear_nodes clear_loop
  clear_nodes-zero f = refl

  clear_nodes-Free :
      (n : ℕ) (f : ℕ → Node A) → Free (clear_nodes n f).0 (clear_nodes n f).1 (range 0 n)
  clear_nodes-Free zero f = rw clear_nodes-zero (unfold range in refl)
  clear_nodes-Free (suc n) f =
      let g = clear_loop (suc n) 0 f in
      rw clear_nodes-suc (
        Free-range (write_next g (0 + n) undef) n 0
          (λ j a b.
            ap (λ c. c.next) (update_ne g (0 + n) j _ (omega arith))
            ∙ clear_loop_next (suc n) 0 f j a (omega arith))
          (ap (λ c. c.next) (update_self g (0 + n) _)))

  value-clear_nodes : (n : ℕ) (f : ℕ → Node A) (j : ℕ) → ((clear_nodes n f).0 j).value ≡ (f j).value
  value-clear_nodes zero f j = rw clear_nodes-zero
  value-clear_nodes (suc n) f j =
      rw clear_nodes-suc
        (value-write_next (clear_loop (suc n) 0 f) (0 + n) undef j ∙ value-clear_loop (suc n) 0 f j)

-- `ilist2_clear` empties the list and makes every slot free, in the order of the slots; the user
-- data stays.
pub clear-IsList {ℓ} :
    {A : Type ℓ} (l : Ilist2 A)
    → l.listsz ≤ undef
    → IsList (clear l) [] (range 0 l.listsz) × SameValues l (clear l)
unfolding clear
clear-IsList l small = (
  record {
    list = (refl, refl);
    frees = clear_nodes-Free l.listsz l.nodes;
    slots = range-Slots l.listsz;
    small = small;
  },
  value-clear_nodes l.listsz l.nodes,
)
