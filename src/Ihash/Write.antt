-- ===== src/Ihash/Write.antt =====
-- What `ihash_get_fn` returns in a well-formed ihash, and a write to the user data there.
use scroller.Prelude.{
  ℕ, ◌≡◌, ◌≢◌, inl, refl, sym, ap, ◌∙◌, none, some, List, ◌∷◌, ◌==◌, if◌then◌else◌, arith, In,
  All-In, update, update_ne, ℕ_discrete, subst, eq→==, ne→==,
}
use scroller.Ihash.{Ihash, undef, answer, bucket_of, walk_fuel, ihash_get_fn}
use scroller.Ihash.Chain.{seek, find, lookup, walk-seek}
use scroller.Ihash.Map.{IsHash, lookup_bucket, bucket_of-lt, length_chain-le}
use scroller.Ihash.Local.{IsLocal, local-IsHash, local-lookup_other, local-lookup_own}
use scroller.Ihash.Values.{
  OfBucket, OfBucket-chain, OfBucket-low, OfBucket-high, answer-found, write_value, key-write_value,
  next-write_value, seek-found, find-write_value, IsBucket-same, Free-same,
}

module _ {ℓ} {A : Type ℓ} where
  pub get-empty :
      (h : Ihash A) (key : ℕ)
      → (h.nodes (bucket_of h key)).key ≡ undef
      → ihash_get_fn h key ≡ some none
  unfolding ihash_get_fn
  get-empty h key e = rw (eq→== undef (h.nodes (bucket_of h key)).key (sym e))

  module _ (h : Ihash A) (chains : ℕ → List ℕ) (free : List ℕ) (owner : ℕ → ℕ) (key : ℕ)
      (w : IsHash h chains free owner) where
    pub get-seek :
        ((h.nodes (bucket_of h key)).key ≢ undef)
        → ihash_get_fn h key
          ≡ answer (seek h.nodes key (bucket_of h key) (chains (bucket_of h key)))
    unfolding ihash_get_fn
    get-seek taken =
        let b = bucket_of h key in
        let lt = bucket_of-lt h key w.some_bucket in
        let le = length_chain-le h chains free owner b w lt in
        rw (
          ne→== undef (h.nodes b).key (λ q. taken (sym q)),
          walk-seek (walk_fuel h) h key b (chains b) (omega arith) (w.buckets b lt).links,
        )

    -- What `ihash_get_fn` returns is a node of the bucket, and has the key.
    pub get-located :
        {p : ℕ}
        → ihash_get_fn h key ≡ some (some p)
        → OfBucket h.bucketsz owner (bucket_of h key) p
          × In p (bucket_of h key ∷ chains (bucket_of h key))
          × ((h.nodes p).key ≡ key)
    get-located e =
        let b = bucket_of h key in
        let ps = chains b in
        let lt = bucket_of-lt h key w.some_bucket in
        let v = w.buckets b lt in
        elim (ℕ_discrete (h.nodes b).key undef) [
          | yes q ↦
              absurd
                (let z : some none ≡ some (some _) = sym (get-empty h key q) ∙ e in ground arith)
          | no taken ↦
              let s = answer-found (seek h.nodes key b ps) (sym (get-seek taken) ∙ e) in
              let (of, same) =
                seek-found (OfBucket h.bucketsz owner b) h.nodes key b ps s
                  (inl refl, OfBucket-chain h.bucketsz owner b ps v.high (w.owned b lt)) in
              let (i, _) = seek-found (λ q. In q (b ∷ ps)) h.nodes key b ps s (All-In (b ∷ ps)) in
              (of, i, same)
        ]

    -- Writing the user data that `ihash_get_fn` returned changes what is looked up under its key, and
    -- nothing else.
    pub write_value-lookup :
        {p : ℕ} (v : A)
        → key ≢ undef
        → ihash_get_fn h key ≡ some (some p)
        → IsHash
            (record h { nodes = write_value h.nodes p v })
            (update chains (bucket_of h key) (chains (bucket_of h key)))
            free
            owner
          × ((j : ℕ)
              → j ≢ undef
              → lookup (record h { nodes = write_value h.nodes p v }) j
                ≡ (if j == key then some v else lookup h j))
    write_value-lookup {p} v ne e =
        let b = bucket_of h key in
        let ps = chains b in
        let n = h.bucketsz in
        let f = h.nodes in
        let g = write_value f p v in
        let h' = record h { nodes = g } in
        let lt = bucket_of-lt h key w.some_bucket in
        let u = w.buckets b lt in
        let (of, i, same) = get-located e in
        let l : IsLocal h h' chains free owner b ps free owner = record {
          sizes = (refl, refl);
          inside = lt;
          bucket = IsBucket-same n f g b ps (key-write_value f p v) (next-write_value f p v) u;
          lows = λ q hq nb.
              update_ne f p q (record (f p) { value = v }) (OfBucket-low n owner b p q of hq nb);
          highs = λ q hq used other.
              update_ne f p q (record (f p) { value = v })
                (OfBucket-high n owner b p q of lt hq other);
          own = w.owned b lt;
          others = λ q used other. refl;
          frees = Free-same n f g h.chain_head free (next-write_value f p v) w.frees;
          free_distinct = w.free_distinct;
          unowned = w.unowned;
          free_high = w.free_high;
          count = refl;
        } in
        (
          local-IsHash h h' chains free owner b ps free owner w l,
          λ j jne. elim (ℕ_discrete (bucket_of h j) b) [
            | yes here ↦
                local-lookup_own h h' chains free owner b ps free owner j w l refl jne here
                ∙ find-write_value f p v j (b ∷ ps) u.unique i
                ∙ rw same (
                    ap (λ x. if j == key then some v else x)
                      (sym (
                        subst (λ c. lookup h j ≡ find f j (c ∷ chains c)) here
                          (lookup_bucket h chains free owner j w jne))))
            | no away ↦
                local-lookup_other h h' chains free owner b ps free owner j w l refl jne away
                ∙ rw (ne→== j key (λ q. away (ap (bucket_of h) q)))
          ],
        )
