-- ===== src/Ihash/Local.antt =====
-- An operation that changes one bucket, and takes nodes from the freelist or puts them there, keeps the
-- ihash well-formed, and what is looked up in the other buckets.
use scroller.Prelude.{
  ℕ, suc, ◌+◌, ◌≤◌, ◌<◌, ◌≡◌, ◌≢◌, sym, ◌∙◌, List, [], ◌∷◌, length, arith, All, Distinct, update,
  update_self, update_ne, ℕ_discrete, subst,
}
use scroller.Ihash.{Ihash, undef, bucket_of}
use scroller.Ihash.Chain.{find, lookup, find-agree}
use scroller.Ihash.Map.{
  total-update, IsBucket, Free, IsHash, bucket_of-lt, lookup_bucket, IsBucket-agree,
}

module _ {ℓ} {A : Type ℓ} where
  -- A change of bucket `b` and of the freelist, from `h` to `h'`.
  pub record IsLocal (h h' : Ihash A) (chains : ℕ → List ℕ) (free : List ℕ) (owner : ℕ → ℕ) (b : ℕ)
      (ps free' : List ℕ) (owner' : ℕ → ℕ) : Type ℓ where
    pub sizes : (h'.bucketsz ≡ h.bucketsz) × (h'.chainsz ≡ h.chainsz)
    pub inside : b < h.bucketsz
    pub bucket : IsBucket h.bucketsz h'.nodes b ps
    pub lows : (p : ℕ) → p < h.bucketsz → p ≢ b → h'.nodes p ≡ h.nodes p
    pub highs : (p : ℕ) → h.bucketsz ≤ p → owner p ≢ 0 → owner p ≢ suc b → h'.nodes p ≡ h.nodes p
    pub own : All (λ p. owner' p ≡ suc b) ps
    pub others : (p : ℕ) → owner p ≢ 0 → owner p ≢ suc b → owner' p ≡ owner p
    pub frees : Free h.bucketsz h'.nodes h'.chain_head free'
    pub free_distinct : Distinct free'
    pub unowned : All (λ p. owner' p ≡ 0) free'
    pub free_high : All (λ p. h.bucketsz ≤ p) free'
    pub count : length ps + length free' ≡ length (chains b) + length free

  module _ (h h' : Ihash A) (chains : ℕ → List ℕ) (free : List ℕ) (owner : ℕ → ℕ) (b : ℕ)
      (ps free' : List ℕ) (owner' : ℕ → ℕ) where
    -- The chain of another bucket is not changed.
    chain_kept :
        (c : ℕ)
        → IsLocal h h' chains free owner b ps free' owner'
        → c ≢ b
        → (qs : List ℕ) → All (λ p. h.bucketsz ≤ p) qs
        → All (λ p. owner p ≡ suc c) qs
        → All (λ p. h'.nodes p ≡ h.nodes p) qs × All (λ p. owner' p ≡ suc c) qs
    chain_kept c l ne [] hi ow = (tt, tt)
    chain_kept c l ne (q ∷ qs) hi ow =
        let used : owner q ≢ 0 = λ e. omega (arith, ow.0, e) in
        let other : owner q ≢ suc b = λ e. ne (omega (arith, ow.0, e)) in
        let (same, kept) = chain_kept c l ne qs hi.1 ow.1 in
        ((l.highs q hi.0 used other, same), (l.others q used other ∙ ow.0, kept))

    -- The operation keeps the ihash well-formed.
    pub local-IsHash :
        IsHash h chains free owner
        → IsLocal h h' chains free owner b ps free' owner'
        → IsHash h' (update chains b ps) free' owner'
    local-IsHash w l = record {
      buckets = λ c lt. elim (ℕ_discrete c b) [
        | yes e ↦ rw (e, l.sizes.0, update_self chains b ps) l.bucket
        | no ne ↦
            let lt' : c < h.bucketsz = omega (arith, l.sizes.0, lt) in
            let v = w.buckets c lt' in
            let (same, kept) = chain_kept c l ne (chains c) v.high (w.owned c lt') in
            rw (l.sizes.0, update_ne chains b c ps ne)
              (IsBucket-agree h.bucketsz h.nodes h'.nodes c (chains c) (l.lows c lt' ne) same v)
      ];
      owned = λ c lt. elim (ℕ_discrete c b) [
        | yes e ↦ rw (e, update_self chains b ps) l.own
        | no ne ↦
            let lt' : c < h.bucketsz = omega (arith, l.sizes.0, lt) in
            let v = w.buckets c lt' in
            let (same, kept) = chain_kept c l ne (chains c) v.high (w.owned c lt') in
            rw (update_ne chains b c ps ne) kept
      ];
      frees = rw l.sizes.0 l.frees;
      free_distinct = l.free_distinct;
      unowned = l.unowned;
      free_high = rw l.sizes.0 l.free_high;
      count = rw l.sizes.0 (
          omega (arith, l.sizes.1, l.count, w.count, total-update chains b ps h.bucketsz l.inside));
      some_bucket = omega (arith, l.sizes.0, w.some_bucket);
    }

    -- What is looked up in another bucket stays.
    pub local-lookup_other :
        (key : ℕ)
        → IsHash h chains free owner
        → IsLocal h h' chains free owner b ps free' owner'
        → h'.hash_fn ≡ h.hash_fn
        → key ≢ undef
        → bucket_of h key ≢ b
        → lookup h' key ≡ lookup h key
    local-lookup_other key w l hash ne apart =
        let c = bucket_of h key in
        let lt = bucket_of-lt h key w.some_bucket in
        let v = w.buckets c lt in
        let same_bucket : bucket_of h' key ≡ c = rw (hash, l.sizes.0) in
        let (same, kept) = chain_kept c l apart (chains c) v.high (w.owned c lt) in
        lookup_bucket h' (update chains b ps) free' owner' key (local-IsHash w l) ne
        ∙ rw (same_bucket, update_ne chains b c ps apart)
            (find-agree h.nodes h'.nodes key (c ∷ chains c) (l.lows c lt apart, same))
        ∙ sym (lookup_bucket h chains free owner key w ne)

    -- What is looked up in the bucket itself is what its new chain holds.
    pub local-lookup_own :
        (key : ℕ)
        → IsHash h chains free owner
        → IsLocal h h' chains free owner b ps free' owner'
        → h'.hash_fn ≡ h.hash_fn
        → key ≢ undef
        → bucket_of h key ≡ b
        → lookup h' key ≡ find h'.nodes key (b ∷ ps)
    local-lookup_own key w l hash ne same =
        let same_bucket : bucket_of h' key ≡ b = rw (hash, l.sizes.0) same in
        lookup_bucket h' (update chains b ps) free' owner' key (local-IsHash w l) ne
        ∙ rw (same_bucket, update_self chains b ps)

    -- What is looked up stays where the search in the changed bucket finds the same.
    pub local-lookup :
        (key : ℕ)
        → IsHash h chains free owner
        → IsLocal h h' chains free owner b ps free' owner'
        → h'.hash_fn ≡ h.hash_fn
        → key ≢ undef
        → (bucket_of h key ≡ b → find h'.nodes key (b ∷ ps) ≡ find h.nodes key (b ∷ chains b))
        → lookup h' key ≡ lookup h key
    local-lookup key w l hash ne same = elim (ℕ_discrete (bucket_of h key) b) [
      | yes here ↦
          local-lookup_own key w l hash ne here
          ∙ same here
          ∙ sym (
              subst (λ c. lookup h key ≡ find h.nodes key (c ∷ chains c)) here
                (lookup_bucket h chains free owner key w ne))
      | no away ↦ local-lookup_other key w l hash ne away
    ]
