-- ===== src/Ihash/Erase.antt =====
-- `ihash_erase_fn` on a well-formed ihash removes the key from the finite map.
use scroller.Prelude.{
  ℕ, ◌<◌, ◌≡◌, ◌≢◌, inl, inr, refl, sym, ap, ◌∙◌, Option, none, some, List, [], ◌∷◌, ◌++◌, length,
  ◌==◌, if◌then◌else◌, arith, All, update, update_self, ℕ_discrete, subst, eq→==, ne→==,
}
use scroller.Ihash.{
  Ihash, undef, bucket_of, walk_fuel, ihash_erase_fn, release, write_next, write_key,
}
use scroller.Ihash.Chain.{lookup, find, find-agree}
use scroller.Ihash.Map.{IsBucket, IsHash, bucket_of-lt, length_chain-le, lookup_bucket}
use scroller.Ihash.Local.{IsLocal, local-IsHash, local-lookup_other, local-lookup_own}
use scroller.Ihash.Extend.{last_place}
use scroller.Ihash.Touch.{empty_IsLocal}
use scroller.Ihash.Release.{release-IsLocal, release-find}
use scroller.Ihash.Leaving.{first_Leaves, inner_Leaves}
use scroller.Ihash.Split.{Split, Split-at, erase_chain_missing, erase_chain_unlinks, find-some}
use scroller.Ihash.Unlink.{find-write_next, find-none, find-without}

module _ {ℓ} {A : Type ℓ} where
  -- How many nodes an answer stands for.
  abbrev pub present : Option A → ℕ
  present none = 0
  present (some v) = 1

  module _ (h : Ihash A) (chains : ℕ → List ℕ) (free : List ℕ) (owner : ℕ → ℕ) (key : ℕ)
      (w : IsHash h chains free owner) where
    -- The outcome of an erasure.
    record Erased : Type ℓ where
      result : Ihash A
      count : ℕ
      chains_after : ℕ → List ℕ
      free_after : List ℕ
      owner_after : ℕ → ℕ
      returns : ihash_erase_fn h key ≡ some (result, count)
      hash : IsHash result chains_after free_after owner_after
      counted : count ≡ present (lookup h key)
      lookups : (j : ℕ) → j ≢ undef → lookup result j ≡ (if j == key then none else lookup h j)

    not_there :
        key ≢ undef
        → ihash_erase_fn h key ≡ some (h, 0)
        → find h.nodes key (bucket_of h key ∷ chains (bucket_of h key)) ≡ none
        → Erased
    not_there ne code missed =
        let nothing = lookup_bucket h chains free owner key w ne ∙ missed in
        record {
          result = h;
          count = 0;
          chains_after = chains;
          free_after = free;
          owner_after = owner;
          returns = code;
          hash = w;
          counted = rw nothing refl;
          lookups = λ j jne. elim (ℕ_discrete j key) [
            | yes e ↦ rw (eq→== j key e) (ap (lookup h) e ∙ nothing)
            | no other ↦ rw (ne→== j key other) refl
          ];
        }

    -- A change of the bucket after which its search misses the key and no other.
    erased :
        (h' : Ihash A) (ps free' : List ℕ) (owner' : ℕ → ℕ) (v : A)
        → key ≢ undef
        → ihash_erase_fn h key ≡ some (h', 1)
        → IsLocal h h' chains free owner (bucket_of h key) ps free' owner'
        → h'.hash_fn ≡ h.hash_fn
        → find h.nodes key (bucket_of h key ∷ chains (bucket_of h key)) ≡ some v
        → ((j : ℕ)
            → j ≢ undef
            → find h'.nodes j (bucket_of h key ∷ ps) ≡ (
                if j == key
                then none
                else find h.nodes j (bucket_of h key ∷ chains (bucket_of h key))))
        → Erased
    erased h' ps free' owner' v ne code l hashes there finds =
        let b = bucket_of h key in
        record {
          result = h';
          count = 1;
          chains_after = update chains b ps;
          free_after = free';
          owner_after = owner';
          returns = code;
          hash = local-IsHash h h' chains free owner b ps free' owner' w l;
          counted = rw (lookup_bucket h chains free owner key w ne, there) refl;
          lookups = λ j jne. elim (ℕ_discrete (bucket_of h j) b) [
            | yes here ↦
                local-lookup_own h h' chains free owner b ps free' owner' j w l hashes jne here
                ∙ finds j jne
                ∙ ap (λ z. if j == key then none else z)
                    (sym (
                      subst (λ c. lookup h j ≡ find h.nodes j (c ∷ chains c)) here
                        (lookup_bucket h chains free owner j w jne)))
            | no away ↦
                local-lookup_other h h' chains free owner b ps free' owner' j w l hashes jne away
                ∙ rw (ne→== j key (λ q. away (ap (bucket_of h) q))) refl
          ];
        }

    erase_empty : key ≢ undef → (h.nodes (bucket_of h key)).key ≡ undef → Erased
    unfolding ihash_erase_fn
    erase_empty ne e =
        let b = bucket_of h key in
        let v = w.buckets b (bucket_of-lt h key w.some_bucket) in
        not_there ne (rw (eq→== undef (h.nodes b).key (sym e)) refl)
          (rw (v.empty e, ne→== key (h.nodes b).key (λ q. ne (q ∙ e))) refl)

    -- The key is alone in its bucket.
    erase_alone :
        key ≢ undef → key ≡ (h.nodes (bucket_of h key)).key → chains (bucket_of h key) ≡ [] → Erased
    unfolding ihash_erase_fn
    erase_alone ne same alone =
        let b = bucket_of h key in
        let v = w.buckets b (bucket_of-lt h key w.some_bucket) in
        let h' = record h { nodes = write_next (write_key h.nodes b undef) b undef } in
        let (l, own) = empty_IsLocal h chains free owner key w undef alone h' refl in
        let last : (h.nodes b).next ≡ undef = rw alone at v.links in
        erased h' [] free owner (h.nodes b).value ne
          (rw
            (
              ne→== undef (h.nodes b).key (λ q. ne (same ∙ sym q)),
              eq→== key (h.nodes b).key same,
              eq→== undef (h.nodes b).next (sym last),
            )
            refl)
          l refl (rw (eq→== key (h.nodes b).key same) refl)
          (λ j jne.
            rw (alone, ne→== j (h'.nodes b).key (λ q. jne (q ∙ own)))
              (elim (ℕ_discrete j key) [
                | yes e ↦ rw (eq→== j key e) refl
                | no other ↦
                    rw (ne→== j key other, ne→== j (h.nodes b).key (λ q. other (q ∙ sym same))) refl
              ]))

    erase_first :
        (q : ℕ) (qs : List ℕ)
        → key ≢ undef
        → key ≡ (h.nodes (bucket_of h key)).key
        → chains (bucket_of h key) ≡ q ∷ qs
        → Erased
    unfolding ihash_erase_fn
    erase_first q qs ne same split =
        let b = bucket_of h key in
        let f = h.nodes in
        let idx = (f b).next in
        let f1 = update f b (f q) in
        let (l, v, agree) = first_Leaves h chains free owner key w q qs split in
        let h' = release h f1 q idx in
        erased h' qs (q ∷ free) (update owner q 0) (f b).value ne
          (rw
            (
              ne→== undef (f b).key (λ s. ne (same ∙ sym s)),
              eq→== key (f b).key same,
              ne→== undef idx (λ s. v.links.0 (sym s)),
              v.links.1,
            )
            refl)
          (release-IsLocal h chains free owner f1 b b q idx qs w l) refl
          (rw (eq→== key (f b).key same) refl)
          (λ j jne.
            let moved : find f1 j (b ∷ qs) ≡ find f j (q ∷ qs) =
              rw (update_self f b (f q), find-agree f f1 j qs agree) refl in
            release-find h chains free owner f1 b b q idx qs l j
            ∙ moved
            ∙ subst (λ z. find f j (q ∷ qs) ≡ (if j == key then none else find f j (b ∷ z)))
                (sym split)
                (subst (λ z. find f j (q ∷ qs) ≡ (if j == z then none else find f j (b ∷ q ∷ qs)))
                  (sym same) (find-without f j b [] (q ∷ qs) v.unique)))

    erase_inner :
        key ≢ undef
        → (h.nodes (bucket_of h key)).key ≢ undef
        → key ≢ (h.nodes (bucket_of h key)).key
        → Split h.nodes key (chains (bucket_of h key))
        → Erased
    unfolding ihash_erase_fn
    erase_inner ne taken other s =
        let b = bucket_of h key in
        let f = h.nodes in
        let us = s.before in
        let q = s.node in
        let vs = s.after in
        let f1 = write_next f (last_place b us) (f q).next in
        let lt = bucket_of-lt h key w.some_bucket in
        let v : IsBucket h.bucketsz f b (us ++ q ∷ vs) = rw s.parts at (w.buckets b lt) in
        let fits : length (us ++ q ∷ vs) < walk_fuel h =
          omega (arith, length_chain-le h chains free owner b w lt, ap (length {0}) s.parts) in
        let (idx, some_node, place, code) =
          erase_chain_unlinks (walk_fuel h) h key b us q vs fits v.links s.earlier (sym s.same) in
        let l = inner_Leaves h chains free owner key w us q vs idx taken s.parts some_node place in
        erased (release h f1 q idx) (us ++ vs) (q ∷ free) (update owner q 0) (f q).value ne
          (rw (ne→== undef (f b).key (λ z. taken (sym z)), ne→== key (f b).key other) code)
          (release-IsLocal h chains free owner f1 b (last_place b us) q idx (us ++ vs) w l) refl
          (rw s.parts (find-some f key (b ∷ us) q vs (other, s.earlier) (sym s.same)))
          (λ j jne.
            release-find h chains free owner f1 b (last_place b us) q idx (us ++ vs) l j
            ∙ find-write_next f (last_place b us) (f q).next j (b ∷ us ++ vs)
            ∙ subst (λ z. find f j (b ∷ us ++ vs) ≡ (if j == key then none else find f j (b ∷ z)))
                (sym s.parts)
                (subst
                  (λ z.
                    find f j (b ∷ us ++ vs)
                    ≡ (if j == z then none else find f j (b ∷ us ++ q ∷ vs)))
                  s.same (find-without f j q (b ∷ us) vs v.unique)))

    erase_missing :
        key ≢ undef
        → (h.nodes (bucket_of h key)).key ≢ undef
        → key ≢ (h.nodes (bucket_of h key)).key
        → All (λ p. key ≢ (h.nodes p).key) (chains (bucket_of h key))
        → Erased
    unfolding ihash_erase_fn
    erase_missing ne taken other out =
        let b = bucket_of h key in
        let lt = bucket_of-lt h key w.some_bucket in
        not_there ne
          (rw (ne→== undef (h.nodes b).key (λ z. taken (sym z)), ne→== key (h.nodes b).key other)
            (erase_chain_missing (walk_fuel h) h key b (chains b)
              (omega (arith, length_chain-le h chains free owner b w lt)) (w.buckets b lt).links
              out))
          (find-none h.nodes key (b ∷ chains b) (other, out))

    erase_here :
        key ≢ undef
        → key ≡ (h.nodes (bucket_of h key)).key
        → (ps : List ℕ) → chains (bucket_of h key) ≡ ps
        → Erased
    erase_here ne same [] split = erase_alone ne same split
    erase_here ne same (q ∷ qs) split = erase_first q qs ne same split

    erase-Erased : key ≢ undef → Erased
    erase-Erased ne =
        let b = bucket_of h key in
        elim (ℕ_discrete (h.nodes b).key undef) [
          | yes e ↦ erase_empty ne e
          | no taken ↦ elim (ℕ_discrete key (h.nodes b).key) [
            | yes same ↦ erase_here ne same (chains b) refl
            | no other ↦ elim (Split-at h.nodes key (chains b)) [
              | inl s ↦ erase_inner ne taken other s
              | inr out ↦ erase_missing ne taken other out
            ]
          ]
        ]

    -- On a well-formed ihash, `ihash_erase_fn` terminates and returns 1 where the key is found and else
    -- 0; the ihash stays well-formed, the key is found no more, and for every other key the same is
    -- found as before.
    pub erase-lookup :
        key ≢ undef
        → (r : Ihash A) × (chains' : ℕ → List ℕ) × (free' : List ℕ) × (owner' : ℕ → ℕ)
          × (ihash_erase_fn h key ≡ some (r, present (lookup h key)))
          × IsHash r chains' free' owner'
          × ((j : ℕ) → j ≢ undef → lookup r j ≡ (if j == key then none else lookup h j))
    erase-lookup ne =
        let x = erase-Erased ne in
        (
          x.result,
          x.chains_after,
          x.free_after,
          x.owner_after,
          rw x.counted at x.returns,
          x.hash,
          x.lookups,
        )
