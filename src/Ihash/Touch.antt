-- ===== src/Ihash/Touch.antt =====
-- `ihash_touch_fn` on a well-formed ihash: the key is there, or it takes its empty bucket, or a node
-- from the freelist, or the freelist is empty.
use scroller.Prelude.{
  ℕ, suc, ◌+◌, ◌≤◌, ◌<◌, ◌≡◌, ◌≢◌, inl, refl, sym, ap, ◌∙◌, Option, none, some, List, [], ◌∷◌, ◌++◌,
  length, length-append, arith, All, All-append, Distinct, update, update_self, update_ne,
  ℕ_discrete, subst, eq→==, ne→==,
}
use scroller.Ihash.{
  Ihash, Node, undef, bucket_of, append_node, write_key, write_next, ihash_get_fn, ihash_touch_fn,
  walk, walk_fuel, Search, found, missing, unfinished, answer,
}
use scroller.Ihash.Chain.{lookup, seek, walk-seek}
use scroller.Ihash.Map.{Free, Free-agree, IsHash, bucket_of-lt, length_chain-le}
use scroller.Ihash.Local.{IsLocal}
use scroller.Ihash.Values.{OfBucket, OfBucket-chain, OfBucket-high, OfBucket-low}
use scroller.Ihash.Extend.{last_place, All-last, Extends}
use scroller.Ihash.Append.{
  appended, appended-ne, appended-Extends, IsBucket-extend, low_distinct, owned-apart, owned-update,
  All-sym,
}

module _ {ℓ} {A : Type ℓ} where
  -- After a touch of the key, `r` has a node for it at `p`, and nothing else changed.
  pub record IsTouched (h r : Ihash A) (key p : ℕ) (chains : ℕ → List ℕ) (free : List ℕ)
      (owner : ℕ → ℕ) : Type ℓ where
    pub hash : IsHash r chains free owner
    pub here : ihash_get_fn r key ≡ some (some p)
    pub others : (j : ℕ) → j ≢ undef → j ≢ key → lookup r j ≡ lookup h j

  pub touch-found :
      (h : Ihash A) (key : ℕ) {p : ℕ}
      → ihash_get_fn h key ≡ some (some p)
      → ihash_touch_fn h key ≡ some (h, some p)
  unfolding ihash_get_fn ihash_touch_fn
  touch-found h key {p} e =
      let b = bucket_of h key in
      elim (ℕ_discrete undef (h.nodes b).key) [
        | yes q ↦ absurd (
            let z : some none ≡ some (some p) = rw (eq→== undef (h.nodes b).key q) at e in
            ground arith)
        | no taken ↦
            let z : answer (walk (walk_fuel h) h key b) ≡ some (some p) =
              rw (ne→== undef (h.nodes b).key taken) at e in
            rw (ne→== undef (h.nodes b).key taken) (go (walk (walk_fuel h) h key b) z)
      ]
    where
      go :
          (s : Search)
          → answer s ≡ some (some p)
          → (elim s as (λ _. Option (Ihash A × Option ℕ)) [
            | found p ↦ some (h, some p)
            | missing p ↦ some (append_node h key p)
            | unfinished ↦ none
          ])
            ≡ some (h, some p)
      go (found q) e = rw (let e' : q ≡ p = cc in e')
      go (missing q) e = absurd (ground arith)
      go unfinished e = absurd (ground arith)

  appended_frees :
      (f : ℕ → Node A) (n : ℕ) (owner : ℕ → ℕ) (b e idx new key : ℕ) (rest : List ℕ)
      → b < n
      → OfBucket n owner b e
      → All (λ q. q ≢ new) rest
      → All (λ q. n ≤ q) rest
      → All (λ q. owner q ≡ 0) rest
      → All (λ q. (appended f e idx new key q).next ≡ (f q).next) rest
  appended_frees f n owner b e idx new key [] lt of out le z = tt
  appended_frees f n owner b e idx new key (q ∷ rest) lt of out le z = (
    ap (λ c. c.next)
        (appended-ne f n e idx new key q out.0
          (OfBucket-high n owner b e q of lt le.0 (λ s. omega (arith, s, z.0)))),
    appended_frees f n owner b e idx new key rest lt of out.1 le.1 z.1,
  )

  high_kept :
      (f g : ℕ → Node A) (n b : ℕ) (ps : List ℕ)
      → ((q : ℕ) → q ≢ b → g q ≡ f q)
      → b < n
      → All (λ p. n ≤ p) ps
      → All (λ p. (g p).next ≡ (f p).next) ps
  high_kept f g n b [] away lt h = tt
  high_kept f g n b (p ∷ ps) away lt h =
      (ap (λ c. c.next) (away p (λ s. omega (arith, s, h.0, lt))), high_kept f g n b ps away lt h.1)

  module _ (h : Ihash A) (chains : ℕ → List ℕ) (free : List ℕ) (owner : ℕ → ℕ) (key : ℕ)
      (w : IsHash h chains free owner) where
    pub touch-missing :
        (p : ℕ)
        → (h.nodes (bucket_of h key)).key ≢ undef
        → seek h.nodes key (bucket_of h key) (chains (bucket_of h key)) ≡ missing p
        → ihash_touch_fn h key ≡ some (append_node h key p)
    unfolding ihash_touch_fn
    touch-missing p taken s =
        let b = bucket_of h key in
        let lt = bucket_of-lt h key w.some_bucket in
        let le = length_chain-le h chains free owner b w lt in
        rw (
          ne→== undef (h.nodes b).key (λ q. taken (sym q)),
          walk-seek (walk_fuel h) h key b (chains b) (omega arith) (w.buckets b lt).links,
          s,
        )

    pub append-full : (p : ℕ) → h.chain_head ≡ undef → append_node h key p ≡ (h, none)
    unfolding append_node
    append-full p e = rw (eq→== h.chain_head undef e)

    pub append-some :
        (e : ℕ)
        → h.chain_head ≢ undef
        → append_node h key e ≡ (
          record h {
            chain_head = (write_next h.nodes e h.chain_head (h.bucketsz + h.chain_head)).next;
            nodes = appended h.nodes e h.chain_head (h.bucketsz + h.chain_head) key;
          },
          some (h.bucketsz + h.chain_head),
        )
    unfolding append_node
    append-some e ne = rw (ne→== h.chain_head undef ne)

    -- The node is appended.
    module _ (new : ℕ) (rest : List ℕ) where
      pub append_IsLocal :
          h.chain_head ≢ undef
          → h.bucketsz + h.chain_head ≡ new
          → free ≡ new ∷ rest
          → key ≢ undef
          → (h.nodes (bucket_of h key)).key ≢ undef
          → All (λ q. (h.nodes q).key ≢ key) (bucket_of h key ∷ chains (bucket_of h key))
          → (h' : Ihash A)
          → h' ≡ record h {
            chain_head =
                (write_next h.nodes
                  (last_place (bucket_of h key) (chains (bucket_of h key)))
                  h.chain_head
                  new).next;
            nodes =
                appended h.nodes
                  (last_place (bucket_of h key) (chains (bucket_of h key)))
                  h.chain_head
                  new
                  key;
          }
          → IsLocal h h' chains free owner
              (bucket_of h key)
              (chains (bucket_of h key) ++ new ∷ [])
              rest
              (update owner new (suc (bucket_of h key)))
            × Extends h.nodes h'.nodes h.bucketsz
                (last_place (bucket_of h key) (chains (bucket_of h key)))
                new
                key
            × All (λ q. q ≢ new) (bucket_of h key ∷ chains (bucket_of h key))
      append_IsLocal some_node place split ne taken differ h' def =
          let b = bucket_of h key in
          let ps = chains b in
          let n = h.bucketsz in
          let f = h.nodes in
          let e = last_place b ps in
          let g = appended f e h.chain_head new key in
          let lt = bucket_of-lt h key w.some_bucket in
          let v = w.buckets b lt in
          let ofs : All (OfBucket n owner b) (b ∷ ps) =
            (inl refl, OfBucket-chain n owner b ps v.high (w.owned b lt)) in
          let of_e = All-last (OfBucket n owner b) b ps ofs.0 ofs.1 in
          let high : All (λ p. n ≤ p) (new ∷ rest) = rw split at w.free_high in
          let zeros : All (λ p. owner p ≡ 0) (new ∷ rest) = rw split at w.unowned in
          let apart : Distinct (new ∷ rest) = rw split at w.free_distinct in
          let fr : Free n f h.chain_head (new ∷ rest) = rw split at w.frees in
          let out = owned-apart n owner b new (b ∷ ps) lt high.0 zeros.0 ofs in
          let out_e = All-last (λ q. q ≢ new) b ps out.0 out.1 in
          let out_rest = All-sym new rest apart.0 in
          let x = appended-Extends f n e h.chain_head new key some_node place out_e in
          rw def (
            record {
              sizes = (refl, refl);
              inside = lt;
              bucket =
                  IsBucket-extend f g n b new key ps x v (low_distinct n b ps lt v.high, v.distinct)
                    out high.0 ne taken differ;
              lows = λ q ltq nb.
                  appended-ne f n e h.chain_head new key q (λ s. omega (arith, s, ltq, high.0))
                    (OfBucket-low n owner b e q of_e ltq nb);
              highs = λ q leq used other.
                  appended-ne f n e h.chain_head new key q (λ s. used (ap owner s ∙ zeros.0))
                    (OfBucket-high n owner b e q of_e lt leq other);
              own =
                  All-append (λ p. update owner new (suc b) p ≡ suc b) ps (new ∷ [])
                    (owned-update owner new (suc b) (suc b) ps out.1 (w.owned b lt))
                    (update_self owner new (suc b), tt);
              others =
                  λ q used other. update_ne owner new q (suc b) (λ s. used (ap owner s ∙ zeros.0));
              frees =
                  subst (λ z. Free n g z.next rest)
                    (sym (
                      update_ne f e new (record (f e) { next = h.chain_head })
                        (λ s. out_e (sym s))))
                    (Free-agree n f g (f new).next rest
                      (appended_frees f n owner b e h.chain_head new key rest lt of_e out_rest
                        high.1 zeros.1)
                      fr.2);
              free_distinct = apart.1;
              unowned = owned-update owner new (suc b) 0 rest out_rest zeros.1;
              free_high = high.1;
              count = omega (arith, length-append {0} ps (new ∷ []), ap (length {0}) split);
            },
            x,
            out,
          )

    -- A key is written to a bucket without a chain.
    pub empty_IsLocal :
        (k : ℕ)
        → chains (bucket_of h key) ≡ []
        → (h' : Ihash A)
        → h' ≡ record h {
          nodes = write_next (write_key h.nodes (bucket_of h key) k) (bucket_of h key) undef;
        }
        → IsLocal h h' chains free owner (bucket_of h key) [] free owner
          × ((h'.nodes (bucket_of h key)).key ≡ k)
    empty_IsLocal k e h' def =
        let b = bucket_of h key in
        let n = h.bucketsz in
        let f = h.nodes in
        let g1 = write_key f b k in
        let g = write_next g1 b undef in
        let lt = bucket_of-lt h key w.some_bucket in
        let there : g b ≡ record (f b) { key = k; next = undef } = rw (
          update_self g1 b (record (g1 b) { next = undef }),
          update_self f b (record (f b) { key = k }),
        ) in
        let away : (q : ℕ) → q ≢ b → g q ≡ f q = λ q nb.
          update_ne g1 b q (record (g1 b) { next = undef }) nb
          ∙ update_ne f b q (record (f b) { key = k }) nb in
        rw def (
          record {
            sizes = (refl, refl);
            inside = lt;
            bucket = record {
              links = ap (λ c. c.next) there;
              distinct = tt;
              high = tt;
              keyed = tt;
              empty = λ q. refl;
              unique = (tt, tt);
            };
            lows = λ q ltq nb. away q nb;
            highs = λ q leq used other. away q (λ s. omega (arith, s, leq, lt));
            own = tt;
            others = λ q used other. refl;
            frees =
                Free-agree n f g h.chain_head free (high_kept f g n b free away lt w.free_high)
                  w.frees;
            free_distinct = w.free_distinct;
            unowned = w.unowned;
            free_high = w.free_high;
            count = rw e refl;
          },
          ap (λ c. c.key) there,
        )
