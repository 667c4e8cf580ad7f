-- ===== src/Ihash/Unlink.antt =====
-- A chain that loses one of its nodes, in the middle or behind the bucket.
use scroller.Prelude.{
  ℕ, ◌+◌, ◌≡◌, ◌≢◌, refl, sym, ap, ◌∙◌, none, List, [], ◌∷◌, ◌++◌, ◌==◌, if◌then◌else◌, All,
  All-append_left, NotIn, Distinct, Distinct-middle, update_self, update_ne, ℕ_discrete, subst,
  eq→==, ne→==,
}
use scroller.Ihash.{Node, write_next}
use scroller.Ihash.Chain.{Links, find}
use scroller.Ihash.Map.{keys}
use scroller.Ihash.Values.{All-keys}
use scroller.Ihash.Extend.{last_place, last_place-ne}

module _ {ℓ} {A : Type ℓ} where
  -- The links behind `q`, taken over by `a`.
  pub Links-move :
      (n : ℕ) (f g : ℕ → Node A) (a q : ℕ) (vs : List ℕ)
      → (g a).next ≡ (f q).next
      → All (λ p. g p ≡ f p) vs
      → Links n f q vs
      → Links n g a vs
  Links-move n f g a q [] same agree t = same ∙ t
  Links-move n f g a q (v ∷ vs) same agree t = (
    λ e. t.0 (sym same ∙ e),
    ap (λ z. n + z) same ∙ t.1,
    Links-move n f g v v vs (ap (λ c. c.next) agree.0) agree.1 t.2,
  )

  pub next_ne : (f : ℕ → Node A) (e k p : ℕ) → p ≢ e → write_next f e k p ≡ f p
  next_ne f e k p ne = update_ne f e p (record (f e) { next = k }) ne

  next-All :
      (f : ℕ → Node A) (e k : ℕ) (ps : List ℕ) → NotIn e ps → All (λ p. write_next f e k p ≡ f p) ps
  next-All f e k [] h = tt
  next-All f e k (p ∷ ps) h = (next_ne f e k p (λ s. h.0 (sym s)), next-All f e k ps h.1)

  pub Links-unlink :
      (n : ℕ) (f : ℕ → Node A) (q : ℕ) (vs : List ℕ) (a : ℕ) (us : List ℕ)
      → Distinct (a ∷ us ++ q ∷ vs)
      → Links n f a (us ++ q ∷ vs)
      → Links n (write_next f (last_place a us) (f q).next) a (us ++ vs)
  Links-unlink n f q vs a [] d t =
      Links-move n f (write_next f a (f q).next) a q vs
        (ap (λ c. c.next) (update_self f a (record (f a) { next = (f q).next })))
        (next-All f a (f q).next vs d.0.1) t.2
  Links-unlink n f q vs a (u ∷ us) d t =
      let e = last_place u us in
      let k = (f q).next in
      let apart : a ≢ e =
        last_place-ne a u us d.0.0 (All-append_left (λ z. a ≢ z) us (q ∷ vs) d.0.1) in
      let same = ap (λ c. c.next) (next_ne f e k a apart) in
      (λ s. t.0 (sym same ∙ s), ap (λ z. n + z) same ∙ t.1, Links-unlink n f q vs u us d.1 t.2)

  pub key-write_next : (f : ℕ → Node A) (e k p : ℕ) → (write_next f e k p).key ≡ (f p).key
  key-write_next f e k p = elim (ℕ_discrete p e) [
    | yes s ↦ rw (s, update_self f e (record (f e) { next = k })) refl
    | no ne ↦ rw (next_ne f e k p ne) refl
  ]

  value-write_next : (f : ℕ → Node A) (e k p : ℕ) → (write_next f e k p).value ≡ (f p).value
  value-write_next f e k p = elim (ℕ_discrete p e) [
    | yes s ↦ rw (s, update_self f e (record (f e) { next = k })) refl
    | no ne ↦ rw (next_ne f e k p ne) refl
  ]

  pub find-write_next :
      (f : ℕ → Node A) (e k j : ℕ) (ps : List ℕ) → find (write_next f e k) j ps ≡ find f j ps
  find-write_next f e k j [] = refl
  find-write_next f e k j (p ∷ ps) =
      rw (key-write_next f e k p, value-write_next f e k p, find-write_next f e k j ps) refl

  keys-append : (f : ℕ → Node A) (us vs : List ℕ) → keys f (us ++ vs) ≡ keys f us ++ keys f vs
  keys-append f [] vs = refl
  keys-append f (u ∷ us) vs = ap (λ z. (f u).key ∷ z) (keys-append f us vs)

  pub find-none :
      (f : ℕ → Node A) (j : ℕ) (ps : List ℕ) → All (λ p. j ≢ (f p).key) ps → find f j ps ≡ none
  find-none f j [] h = refl
  find-none f j (p ∷ ps) h = rw (ne→== j (f p).key h.0) (find-none f j ps h.1)

  -- Without the node of a key, the key is not found and the others are.
  pub find-without :
      (f : ℕ → Node A) (j q : ℕ) (us vs : List ℕ)
      → Distinct (keys f (us ++ q ∷ vs))
      → find f j (us ++ vs) ≡ (if j == (f q).key then none else find f j (us ++ q ∷ vs))
  find-without f j q us vs d = elim (ℕ_discrete j (f q).key) [
    | yes e ↦ rw (eq→== j (f q).key e) (
        find-none f j (us ++ vs) (
          subst (λ z. All (λ p. z ≢ (f p).key) (us ++ vs)) (sym e)
            (All-keys f (f q).key (us ++ vs) (
              subst (λ z. NotIn (f q).key z) (sym (keys-append f us vs))
                (Distinct-middle (keys f us) (keys f vs) (f q).key
                  (subst Distinct (keys-append f us (q ∷ vs)) d)).0))))
    | no ne ↦ rw (ne→== j (f q).key ne) (skip us ne)
  ]
    where
      skip : (ws : List ℕ) → j ≢ (f q).key → find f j (ws ++ vs) ≡ find f j (ws ++ q ∷ vs)
      skip [] ne = rw (ne→== j (f q).key ne) refl
      skip (w ∷ ws) ne = rw (skip ws ne) refl

  pub keys_without :
      (f : ℕ → Node A) (q : ℕ) (us vs : List ℕ)
      → Distinct (keys f (us ++ q ∷ vs))
      → Distinct (keys f (us ++ vs))
  keys_without f q us vs d =
      subst Distinct (sym (keys-append f us vs))
        (Distinct-middle (keys f us) (keys f vs) (f q).key
          (subst Distinct (keys-append f us (q ∷ vs)) d)).1
