-- ===== src/Ihash/Chain.antt =====
-- The chain of one bucket of an ihash: its links as a list of places, and what a search along the list
-- finds. The walk of the code is that search, whatever fuel it has beyond the length.
use scroller.Prelude.{
  ℕ, zero, suc, ◌+◌, ◌≤◌, ◌<◌, ◌≡◌, ◌≢◌, refl, sym, ◌∙◌, false, Option, none, some, List, [], ◌∷◌,
  length, ◌==◌, if◌then◌else◌, arith, Bool-cases, All, eq→==, ne→==, inl, inr, ℕ_discrete,
}
use scroller.Ihash.{
  Ihash, Node, undef, Search, found, missing, unfinished, bucket_of, walk, walk_fuel, answer,
  ihash_get_fn,
}

module _ {ℓ} {A : Type ℓ} where
  -- `Links n f e ps`: behind `n` buckets, the links lead from node `e` along the places `ps`, and
  -- end there.
  abbrev pub Links : ℕ → (ℕ → Node A) → ℕ → List ℕ → Type 0
  Links n f e [] = (f e).next ≡ undef
  Links n f e (p ∷ ps) = ((f e).next ≢ undef) × (n + (f e).next ≡ p) × Links n f p ps

  -- The node with the key among `e` and `ps`, or the last node.
  abbrev pub seek : (ℕ → Node A) → ℕ → ℕ → List ℕ → Search
  seek f key e [] = if key == (f e).key then found e else missing e
  seek f key e (p ∷ ps) = let rest = seek f key p ps in if key == (f e).key then found e else rest

  pub walk-seek :
      (fuel : ℕ) (h : Ihash A) (key e : ℕ) (ps : List ℕ)
      → length ps < fuel
      → Links h.bucketsz h.nodes e ps
      → walk fuel h key e ≡ seek h.nodes key e ps
  unfolding walk
  walk-seek zero h key e ps lt t = absurd (omega arith)
  walk-seek (suc fuel) h key e [] lt t = rw (eq→== undef (h.nodes e).next (sym t))
  walk-seek (suc fuel) h key e (p ∷ ps) lt t =
      let on : (undef == (h.nodes e).next) ≡ false =
        ne→== undef (h.nodes e).next (λ q. t.0 (sym q)) in
      rw (on, t.1) (rw (walk-seek fuel h key p ps (omega arith) t.2))

  -- The value of the first of the nodes with the key.
  abbrev pub find : (ℕ → Node A) → ℕ → List ℕ → Option A
  find f key [] = none
  find f key (p ∷ ps) =
      let rest = find f key ps in if key == (f p).key then some (f p).value else rest

  abbrev pub value_of : (ℕ → Node A) → Search → Option A
  value_of f (found p) = some (f p).value
  value_of f (missing p) = none
  value_of f unfinished = none

  seek-find :
      (f : ℕ → Node A) (key e : ℕ) (ps : List ℕ)
      → value_of f (seek f key e ps) ≡ find f key (e ∷ ps)
  seek-find f key e [] = elim (Bool-cases (key == (f e).key)) [
    | inl here ↦ rw here
    | inr other ↦ rw other
  ]
  seek-find f key e (p ∷ ps) = elim (Bool-cases (key == (f e).key)) [
    | inl here ↦ rw here
    | inr other ↦ rw other (seek-find f key p ps)
  ]

  abbrev pub value_at : (ℕ → Node A) → Option (Option ℕ) → Option A
  value_at f none = none
  value_at f (some none) = none
  value_at f (some (some p)) = some (f p).value

  -- The user data under a key.
  abbrev pub lookup : Ihash A → ℕ → Option A
  lookup h key = value_at h.nodes (ihash_get_fn h key)

  value_at-answer : (f : ℕ → Node A) (s : Search) → value_at f (answer s) ≡ value_of f s
  value_at-answer f (found p) = refl
  value_at-answer f (missing p) = refl
  value_at-answer f unfinished = refl

  pub lookup-find :
      (h : Ihash A) (key : ℕ) (ps : List ℕ)
      → key ≢ undef
      → Links h.bucketsz h.nodes (bucket_of h key) ps
      → length ps ≤ h.chainsz
      → ((h.nodes (bucket_of h key)).key ≡ undef → ps ≡ [])
      → lookup h key ≡ find h.nodes key (bucket_of h key ∷ ps)
  unfolding ihash_get_fn
  lookup-find h key ps ne t fits empty =
      let b = bucket_of h key in
      elim (ℕ_discrete (h.nodes b).key undef) [
        | yes e ↦ rw (
          empty e,
          eq→== undef (h.nodes b).key (sym e),
          ne→== key (h.nodes b).key (λ q. ne (q ∙ e)),
        )
        | no n ↦
            rw
              (
                ne→== undef (h.nodes b).key (λ q. n (sym q)),
                walk-seek (walk_fuel h) h key b ps (omega arith) t,
              )
              (value_at-answer h.nodes (seek h.nodes key b ps) ∙ seek-find h.nodes key b ps)
      ]

  -- What a search finds in changed nodes.
  pub find-agree :
      (f g : ℕ → Node A) (key : ℕ) (ps : List ℕ)
      → All (λ p. g p ≡ f p) ps
      → find g key ps ≡ find f key ps
  find-agree f g key [] h = refl
  find-agree f g key (p ∷ ps) h = rw (h.0, find-agree f g key ps h.1)

  pub Links-agree :
      (n : ℕ) (f g : ℕ → Node A) (e : ℕ) (ps : List ℕ)
      → g e ≡ f e
      → All (λ p. g p ≡ f p) ps
      → Links n f e ps
      → Links n g e ps
  Links-agree n f g e [] h k t = rw h t
  Links-agree n f g e (p ∷ ps) h k t = (rw h t.0, rw h t.1, Links-agree n f g p ps k.0 k.1 t.2)
