-- ===== src/Ihash/Walk.antt =====
-- The walk along a chain of an ihash: it finishes on its fuel, and finds the key if it is there.
use scroller.Prelude.{
  ℕ, zero, suc, ◌≤◌, ◌<◌, ◌≡◌, ◌≢◌, ◌⊎◌, inl, inr, refl, sym, ap, ◌∙◌, true, false, Option, none,
  some, List, [], ◌∷◌, length, ◌==◌, arith, Bool-cases, All, eq-of-==, ne-of-==, eq→==, ne→==,
  update_self,
}
use scroller.Ihash.{
  Ihash, undef, found, missing, chain_place, bucket_of, walk, walk_fuel, ihash_get_fn,
  ihash_touch_fn, append_node, write_key, write_next,
}

-- The node that a walk ends at is on the trail.
abbrev pub OnTrail : ℕ → List ℕ → ℕ → Type 0
OnTrail e [] p = p ≡ e
OnTrail e (q ∷ ps) p = (p ≡ e) ⊎ OnTrail q ps p

module _ {ℓ} {A : Type ℓ} where
  -- `Trail h e ps`: the links lead from node `e` along the places `ps`, and end there.
  abbrev pub Trail : Ihash A → ℕ → List ℕ → Type 0
  Trail h e [] = (h.nodes e).next ≡ undef
  Trail h e (p ∷ ps) =
      ((h.nodes e).next ≢ undef) × (chain_place h (h.nodes e).next ≡ p) × Trail h p ps

  -- The bucket of the key is empty, or leads to no more nodes than there are in the chains.
  abbrev pub IsChained : Ihash A → ℕ → List ℕ → Type 0
  IsChained h key ps = Trail h (bucket_of h key) ps × (length ps ≤ h.chainsz)

  pub walk_finishes :
      (fuel : ℕ) (h : Ihash A) (key e : ℕ) (ps : List ℕ)
      → length ps < fuel
      → Trail h e ps
      → ((p : ℕ) × (walk fuel h key e ≡ found p) × ((h.nodes p).key ≡ key) × OnTrail e ps p)
        ⊎ ((p : ℕ) × (walk fuel h key e ≡ missing p)
            × ((h.nodes p).next ≡ undef)
            × OnTrail e ps p
            × ((h.nodes e).key ≢ key)
            × All (λ q. (h.nodes q).key ≢ key) ps)
  unfolding walk
  walk_finishes zero h key e ps lt t = absurd (omega arith)
  walk_finishes (suc fuel) h key e [] lt t = elim (Bool-cases (key == (h.nodes e).key)) [
    | inl here ↦ inl (e, rw here, sym (eq-of-== key (h.nodes e).key here), refl)
    | inr other ↦
        let ne : (h.nodes e).key ≢ key = λ q. ne-of-== key (h.nodes e).key other (sym q) in
        inr (e, rw (other, eq→== undef (h.nodes e).next (sym t)), t, refl, ne, tt)
  ]
  walk_finishes (suc fuel) h key e (p ∷ ps) lt t = elim (Bool-cases (key == (h.nodes e).key)) [
    | inl here ↦ inl (e, rw here, sym (eq-of-== key (h.nodes e).key here), inl refl)
    | inr other ↦
        let ne : (h.nodes e).key ≢ key = λ q. ne-of-== key (h.nodes e).key other (sym q) in
        let on : (undef == (h.nodes e).next) ≡ false =
          ne→== undef (h.nodes e).next (λ q. t.0 (sym q)) in
        let step : walk (suc fuel) h key e ≡ walk fuel h key p = rw (other, on, t.1) in
        elim (walk_finishes fuel h key p ps (omega arith) t.2) [
          | inl (q, w, same, onward) ↦ inl (q, step ∙ w, same, inr onward)
          | inr (q, w, last, onward, differ, rest) ↦
              inr (q, step ∙ w, last, inr onward, ne, (differ, rest))
        ]
  ]

  -- Where the chain of the key's bucket ends after at most as many nodes as there are chain nodes,
  -- `ihash_get_fn` finishes, and gives a node of the bucket's chain that has the key, or NULL if
  -- the bucket is empty or no node of its chain has the key.
  pub get-finds :
      (h : Ihash A) (key : ℕ) (ps : List ℕ)
      → IsChained h key ps
      → ((p : ℕ) × (ihash_get_fn h key ≡ some (some p))
          × ((h.nodes p).key ≡ key)
          × OnTrail (bucket_of h key) ps p)
        ⊎ ((ihash_get_fn h key ≡ some none)
            × (((h.nodes (bucket_of h key)).key ≡ undef)
                ⊎ (((h.nodes (bucket_of h key)).key ≢ key) × All (λ q. (h.nodes q).key ≢ key) ps)))
  unfolding ihash_get_fn
  get-finds h key ps (t, fits) =
      let e = bucket_of h key in
      elim (Bool-cases (undef == (h.nodes e).key)) [
        | inl empty ↦ inr (rw empty, inl (sym (eq-of-== undef (h.nodes e).key empty)))
        | inr taken ↦ elim (walk_finishes (walk_fuel h) h key e ps (omega arith) t) [
          | inl (p, w, same, on) ↦ inl (p, rw (taken, w), same, on)
          | inr (p, w, last, on, differ, rest) ↦ inr (rw (taken, w), inr (differ, rest))
        ]
      ]

  append_full :
      (h : Ihash A) (key e : ℕ) → (h.chain_head == undef) ≡ true → append_node h key e ≡ (h, none)
  unfolding append_node
  append_full h key e full = rw full

  append_room :
      (h : Ihash A) (key e : ℕ)
      → (h.chain_head == undef) ≡ false
      → append_node h key e ≡ (
          let n = chain_place h h.chain_head in
          let f = write_next h.nodes e h.chain_head in
          (
            record h { chain_head = (f n).next; nodes = write_next (write_key f n key) n undef },
            some n,
          ))
  unfolding append_node
  append_room h key e room = rw room

  -- Where the chain of the key's bucket ends after at most as many nodes as there are chain nodes,
  -- `ihash_touch_fn` finishes. It gives the node that has the key and changes nothing; or, where
  -- `ihash_get_fn` finds nothing, it gives the bucket or the top of the freelist, which now has
  -- the key and ends its chain; or NULL, where `ihash_get_fn` finds nothing and the freelist is
  -- empty, and changes nothing.
  pub touch-key :
      (h : Ihash A) (key : ℕ) (ps : List ℕ)
      → IsChained h key ps
      → (r : Ihash A) × (o : Option ℕ) × (ihash_touch_fn h key ≡ some (r, o))
        × (((p : ℕ) × (o ≡ some p)
              × (r ≡ h)
              × ((h.nodes p).key ≡ key)
              × (ihash_get_fn h key ≡ some (some p)))
            ⊎ ((p : ℕ) × (o ≡ some p)
                × ((r.nodes p).key ≡ key)
                × ((r.nodes p).next ≡ undef)
                × (ihash_get_fn h key ≡ some none)
                × ((p ≡ bucket_of h key) ⊎ (p ≡ chain_place h h.chain_head)))
            ⊎ ((o ≡ none) × (r ≡ h) × (ihash_get_fn h key ≡ some none) × (h.chain_head ≡ undef)))
  unfolding ihash_touch_fn ihash_get_fn
  touch-key h key ps (t, fits) =
      let e = bucket_of h key in
      elim (Bool-cases (undef == (h.nodes e).key)) [
        | inl empty ↦
            let f = write_key h.nodes e key in
            let at = update_self f e (record (f e) { next = undef }) in
            let at' = update_self h.nodes e (record (h.nodes e) { key = key }) in
            (
              record h { nodes = write_next f e undef },
              some e,
              rw empty,
              inr (
                  inl (
                    e,
                    refl,
                    ap (λ n. n.key) at ∙ ap (λ n. n.key) at',
                    ap (λ n. n.next) at,
                    rw empty,
                    inl refl,
                  )),
            )
        | inr taken ↦ elim (walk_finishes (walk_fuel h) h key e ps (omega arith) t) [
          | inl (p, w, same, on) ↦
              (h, some p, rw (taken, w), inl (p, refl, refl, same, rw (taken, w)))
          | inr (p, w, last, on, differ, rest) ↦ elim (Bool-cases (h.chain_head == undef)) [
            | inl full ↦ (
              h,
              none,
              rw (taken, w) (ap some (append_full h key p full)),
              inr (inr (refl, refl, rw (taken, w), eq-of-== h.chain_head undef full)),
            )
            | inr room ↦
                let n = chain_place h h.chain_head in
                let g = write_next h.nodes p h.chain_head in
                let f = write_key g n key in
                let at = update_self f n (record (f n) { next = undef }) in
                let at' = update_self g n (record (g n) { key = key }) in
                (
                  record h { chain_head = (g n).next; nodes = write_next f n undef },
                  some n,
                  rw (taken, w) (ap some (append_room h key p room)),
                  inr (
                      inl (
                        n,
                        refl,
                        ap (λ c. c.key) at ∙ ap (λ c. c.key) at',
                        ap (λ c. c.next) at,
                        rw (taken, w),
                        inr refl,
                      )),
                )
          ]
        ]
      ]
