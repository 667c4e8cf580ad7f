-- ===== src/Ilist2/Values.antt =====
-- Writes to the user data of a node leave the links alone.
use scroller.Prelude.{ℕ, ◌≡◌, refl, ◌∙◌, List, [], ◌∷◌, Bool-cases, eq-of-==, inl, inr, ◌==◌}
use scroller.Ilist2.{Node, write_value}
use scroller.Ilist2.Chain.{Seg, Free}

module _ {ℓ} {A : Type ℓ} where
  links-write_value :
      (f : ℕ → Node A) (a : ℕ) (v : A) (i : ℕ)
      → ((write_value f a v i).prev ≡ (f i).prev) × ((write_value f a v i).next ≡ (f i).next)
  links-write_value f a v i = elim (Bool-cases (i == a)) [
    | inl e ↦ rw (e, eq-of-== i a e) (refl, refl)
    | inr e ↦ rw e (refl, refl)
  ]

  pub Seg-write_value :
      (f : ℕ → Node A) (a : ℕ) (v : A) (p i : ℕ) (xs : List ℕ) (q j : ℕ)
      → Seg f p i xs q j
      → Seg (write_value f a v) p i xs q j
  Seg-write_value f a v p i [] q j s = s
  Seg-write_value f a v p i (x ∷ xs) q j s =
      let e = links-write_value f a v x in
      (s.0, e.0 ∙ s.1, rw e.1 (Seg-write_value f a v x (f x).next xs q j s.2))

  pub Free-write_value :
      (f : ℕ → Node A) (a : ℕ) (v : A) (h : ℕ) (xs : List ℕ)
      → Free f h xs
      → Free (write_value f a v) h xs
  Free-write_value f a v h [] s = s
  Free-write_value f a v h (x ∷ xs) s =
      let e = links-write_value f a v x in (s.0, rw e.1 (Free-write_value f a v (f x).next xs s.1))
