-- ===== src/Ihash/Split.antt =====
-- The chain at the node with a key, where the loop of `ihash_erase_fn` unlinks it.
use scroller.Prelude.{
  ℕ, zero, suc, ◌+◌, ◌<◌, ◌≡◌, ◌≢◌, ◌⊎◌, inl, inr, refl, sym, ap, some, List, [], ◌∷◌, ◌++◌, length,
  arith, All, ℕ_discrete, eq→==, ne→==,
}
use scroller.Ihash.{Ihash, Node, undef, erase_chain, release, write_next}
use scroller.Ihash.Chain.{Links, find}
use scroller.Ihash.Extend.{last_place}

module _ {ℓ} {A : Type ℓ} where
  -- The node `q` with the key among `ps`, behind the places `us`.
  pub record Split (f : ℕ → Node A) (key : ℕ) (ps : List ℕ) : Type 0 where
    pub before : List ℕ
    pub node : ℕ
    pub after : List ℕ
    pub parts : ps ≡ before ++ node ∷ after
    pub same : (f node).key ≡ key
    pub earlier : All (λ p. key ≢ (f p).key) before

  later :
      (f : ℕ → Node A) (key p : ℕ) (ps : List ℕ)
      → key ≢ (f p).key
      → Split f key ps
      → Split f key (p ∷ ps)
  later f key p ps ne s = record {
    before = p ∷ s.before;
    node = s.node;
    after = s.after;
    parts = ap (λ z. p ∷ z) s.parts;
    same = s.same;
    earlier = (ne, s.earlier);
  }

  pub Split-at :
      (f : ℕ → Node A) (key : ℕ) (ps : List ℕ) → Split f key ps ⊎ All (λ p. key ≢ (f p).key) ps
  Split-at f key [] = inr tt
  Split-at f key (p ∷ ps) = elim (ℕ_discrete key (f p).key) [
    | yes e ↦
        inl (record { before = []; node = p; after = ps; parts = refl; same = sym e; earlier = tt })
    | no ne ↦ elim (Split-at f key ps) [
      | inl s ↦ inl (later f key p ps ne s)
      | inr out ↦ inr (ne, out)
    ]
  ]

  -- The loop of the erasure runs to the end of a chain without the key.
  pub erase_chain_missing :
      (fuel : ℕ) (h : Ihash A) (key e : ℕ) (ps : List ℕ)
      → length ps < fuel
      → Links h.bucketsz h.nodes e ps
      → All (λ p. key ≢ (h.nodes p).key) ps
      → erase_chain fuel h key e (h.nodes e).next ≡ some (h, 0)
  unfolding erase_chain
  erase_chain_missing zero h key e ps lt t out = absurd (omega arith)
  erase_chain_missing (suc fuel) h key e [] lt t out =
      rw (eq→== undef (h.nodes e).next (sym t)) refl
  erase_chain_missing (suc fuel) h key e (p ∷ ps) lt t out =
      let on = ne→== undef (h.nodes e).next (λ q. t.0 (sym q)) in
      rw (on, t.1, ne→== key (h.nodes p).key out.0)
        (erase_chain_missing fuel h key p ps (omega arith) t.2 out.1)

  -- It stops at the node with the key, and unlinks it.
  pub erase_chain_unlinks :
      (fuel : ℕ) (h : Ihash A) (key e : ℕ) (us : List ℕ) (q : ℕ) (vs : List ℕ)
      → length (us ++ q ∷ vs) < fuel
      → Links h.bucketsz h.nodes e (us ++ q ∷ vs)
      → All (λ p. key ≢ (h.nodes p).key) us
      → key ≡ (h.nodes q).key
      → (idx : ℕ) × (idx ≢ undef)
        × (h.bucketsz + idx ≡ q)
        × (erase_chain fuel h key e (h.nodes e).next
            ≡ some (release h (write_next h.nodes (last_place e us) (h.nodes q).next) q idx, 1))
  unfolding erase_chain
  erase_chain_unlinks zero h key e us q vs lt t out same = absurd (omega arith)
  erase_chain_unlinks (suc fuel) h key e [] q vs lt t out same =
      let on = ne→== undef (h.nodes e).next (λ s. t.0 (sym s)) in
      ((h.nodes e).next, t.0, t.1, rw (on, t.1, eq→== key (h.nodes q).key same) refl)
  erase_chain_unlinks (suc fuel) h key e (u ∷ us) q vs lt t out same =
      let on = ne→== undef (h.nodes e).next (λ s. t.0 (sym s)) in
      let (idx, some_node, place, code) =
        erase_chain_unlinks fuel h key u us q vs (omega arith) t.2 out.1 same in
      (idx, some_node, place, rw (on, t.1, ne→== key (h.nodes u).key out.0) code)

  pub find-some :
      (f : ℕ → Node A) (key : ℕ) (us : List ℕ) (q : ℕ) (vs : List ℕ)
      → All (λ p. key ≢ (f p).key) us
      → key ≡ (f q).key
      → find f key (us ++ q ∷ vs) ≡ some (f q).value
  find-some f key [] q vs out same = rw (eq→== key (f q).key same) refl
  find-some f key (u ∷ us) q vs out same =
      rw (ne→== key (f u).key out.0) (find-some f key us q vs out.1 same)
