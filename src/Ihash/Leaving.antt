-- ===== src/Ihash/Leaving.antt =====
-- The bucket that `ihash_erase_fn` leaves behind: without its first chain node, which moved into the
-- bucket, or without an inner node.
use scroller.Prelude.{
  ℕ, suc, ◌+◌, ◌≤◌, ◌≡◌, ◌≢◌, inl, refl, sym, ap, ◌∙◌, List, [], ◌∷◌, ◌++◌, length-append, arith,
  All, All-append_left, All-middle, NotIn, Distinct, Distinct-middle, update, update_self,
  update_ne, subst,
}
use scroller.Ihash.{Ihash, Node, undef, bucket_of, write_next}
use scroller.Ihash.Map.{keys, IsBucket, IsHash, bucket_of-lt, keyed-agree, keys-agree}
use scroller.Ihash.Values.{OfBucket, OfBucket-chain, keys-same, keyed-same}
use scroller.Ihash.Extend.{last_place, All-last}
use scroller.Ihash.Append.{low_distinct, All-sym}
use scroller.Ihash.Release.{Leaves}
use scroller.Ihash.Unlink.{Links-move, Links-unlink, next_ne, key-write_next, keys_without}

module _ {ℓ} {A : Type ℓ} where
  update-All :
      (f : ℕ → Node A) (b : ℕ) (c : Node A) (ps : List ℕ)
      → NotIn b ps
      → All (λ p. update f b c p ≡ f p) ps
  update-All f b c [] h = tt
  update-All f b c (p ∷ ps) h = (update_ne f b p c (λ s. h.0 (sym s)), update-All f b c ps h.1)

  module _ (h : Ihash A) (chains : ℕ → List ℕ) (free : List ℕ) (owner : ℕ → ℕ) (key : ℕ)
      (w : IsHash h chains free owner) where
    -- The first chain node moves into the bucket.
    pub first_Leaves :
        (q : ℕ) (qs : List ℕ)
        → chains (bucket_of h key) ≡ q ∷ qs
        → Leaves h
            (update h.nodes (bucket_of h key) (h.nodes q))
            owner
            (bucket_of h key)
            (bucket_of h key)
            q
            (h.nodes (bucket_of h key)).next
            (chains (bucket_of h key))
            qs
          × IsBucket h.bucketsz h.nodes (bucket_of h key) (q ∷ qs)
          × All (λ p. update h.nodes (bucket_of h key) (h.nodes q) p ≡ h.nodes p) qs
    first_Leaves q qs split =
        let b = bucket_of h key in
        let n = h.bucketsz in
        let f = h.nodes in
        let f1 = update f b (f q) in
        let lt = bucket_of-lt h key w.some_bucket in
        let v : IsBucket n f b (q ∷ qs) = rw split at (w.buckets b lt) in
        let own : All (λ p. owner p ≡ suc b) (q ∷ qs) = rw split at (w.owned b lt) in
        let low = low_distinct n b (q ∷ qs) lt v.high in
        let self = update_self f b (f q) in
        let agree = update-All f b (f q) qs low.1 in
        let same_keys : keys f1 (b ∷ qs) ≡ keys f (q ∷ qs) =
          rw (self, keys-agree f f1 qs agree) refl in
        (
          record {
            inside = lt;
            changed = inl refl;
            elsewhere = λ p ne. update_ne f b p (f q) ne;
            left = record {
              links = Links-move n f f1 b q qs (ap (λ c. c.next) self) agree v.links.2;
              distinct = v.distinct.1;
              high = v.high.1;
              keyed = keyed-agree f f1 qs agree v.keyed.1;
              empty = λ e. absurd (v.keyed.0 (sym (ap (λ c. c.key) self) ∙ e));
              unique = subst Distinct (sym same_keys) v.unique.1;
            };
            own = own.1;
            gone = (low.0, All-sym q qs v.distinct.0);
            owner_node = own.0;
            place = (v.links.0, v.links.1);
            count = rw split (omega arith);
          },
          v,
          agree,
        )

    -- The node `q` behind `us` is unlinked.
    pub inner_Leaves :
        (us : List ℕ) (q : ℕ) (vs : List ℕ) (idx : ℕ)
        → (h.nodes (bucket_of h key)).key ≢ undef
        → chains (bucket_of h key) ≡ us ++ q ∷ vs
        → idx ≢ undef
        → h.bucketsz + idx ≡ q
        → Leaves h
            (write_next h.nodes (last_place (bucket_of h key) us) (h.nodes q).next)
            owner
            (bucket_of h key)
            (last_place (bucket_of h key) us)
            q
            idx
            (chains (bucket_of h key))
            (us ++ vs)
    inner_Leaves us q vs idx taken split some_node place =
        let b = bucket_of h key in
        let n = h.bucketsz in
        let f = h.nodes in
        let e = last_place b us in
        let k = (f q).next in
        let f1 = write_next f e k in
        let lt = bucket_of-lt h key w.some_bucket in
        let v : IsBucket n f b (us ++ q ∷ vs) = rw split at (w.buckets b lt) in
        let own : All (λ p. owner p ≡ suc b) (us ++ q ∷ vs) = rw split at (w.owned b lt) in
        let low = low_distinct n b (us ++ q ∷ vs) lt v.high in
        let (q_low, low') = All-middle (λ z. b ≢ z) us vs q low in
        let (own_q, own') = All-middle (λ p. owner p ≡ suc b) us vs q own in
        let (out, apart) = Distinct-middle us vs q v.distinct in
        let ofs =
          OfBucket-chain n owner b us (All-append_left (λ p. n ≤ p) us (q ∷ vs) v.high)
            (All-append_left (λ p. owner p ≡ suc b) us (q ∷ vs) own) in
        record {
          inside = lt;
          changed = All-last (OfBucket n owner b) b us (inl refl) ofs;
          elsewhere = next_ne f e k;
          left = record {
            links = Links-unlink n f q vs b us (low, v.distinct) v.links;
            distinct = apart;
            high = (All-middle (λ p. n ≤ p) us vs q v.high).1;
            keyed =
                keyed-same f f1 (us ++ vs) (key-write_next f e k)
                  (All-middle (λ p. (f p).key ≢ undef) us vs q v.keyed).1;
            empty = λ s. absurd (taken (sym (key-write_next f e k b) ∙ s));
            unique =
                subst Distinct (sym (keys-same f f1 (b ∷ us ++ vs) (key-write_next f e k)))
                  (keys_without f q (b ∷ us) vs v.unique);
          };
          own = own';
          gone = (q_low, All-sym q (us ++ vs) out);
          owner_node = own_q;
          place = (some_node, place);
          count = rw split (omega (arith, length-append {0} us (q ∷ vs), length-append {0} us vs));
        }
