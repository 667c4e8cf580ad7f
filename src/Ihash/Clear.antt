-- ===== src/Ihash/Clear.antt =====
-- `ihash_clear`: the empty finite map, with every chain node in the freelist.
use scroller.Prelude.{
  ℕ, zero, suc, ◌+◌, ◌-◌, ◌≤◌, ◌<◌, ◌≡◌, ◌≢◌, refl, sym, ap, ◌∙◌, Option, none, some, List, [], ◌∷◌,
  length, ltb, ◌==◌, if◌then◌else◌, arith, All, NotIn, Distinct, update_self, update_ne, ℕ_discrete,
  subst, eq→==, ne→==, lt→ltb, Bool-cases, ltb→lt, inl, inr,
}
use scroller.Ihash.{
  Ihash, Node, undef, clear_buckets, clear_chains, ihash_clear, write_key, write_next,
  default_hash_fn, bucket_of,
}
use scroller.Ihash.Chain.{lookup}
use scroller.Ihash.Map.{Free, IsHash, total_nil, lookup_bucket, bucket_of-lt}

-- The places from `e` on.
abbrev pub places : ℕ → ℕ → List ℕ
places zero e = []
places (suc n) e = e ∷ places n (e + 1)

length-places : (n e : ℕ) → length (places n e) ≡ n
length-places zero e = refl
length-places (suc n) e = omega (arith, length-places n (e + 1))

places_from : (m n e : ℕ) → m ≤ e → All (λ p. m ≤ p) (places n e)
places_from m zero e le = tt
places_from m (suc n) e le = (le, places_from m n (e + 1) (omega arith))

places_after : (m n e : ℕ) → m < e → NotIn m (places n e)
places_after m zero e lt = tt
places_after m (suc n) e lt = (λ s. omega (arith, s, lt), places_after m n (e + 1) (omega arith))

places-Distinct : (n e : ℕ) → Distinct (places n e)
places-Distinct zero e = tt
places-Distinct (suc n) e = (places_after e n (e + 1) (omega arith), places-Distinct n (e + 1))

All-of : (P : ℕ → Type 0) (ps : List ℕ) → ((p : ℕ) → P p) → All P ps
All-of P [] h = tt
All-of P (p ∷ ps) h = (h p, All-of P ps h)

module _ {ℓ} {A : Type ℓ} where
  cleared-ne : (f : ℕ → Node A) (e k p : ℕ) → p ≢ e → write_next (write_key f e undef) e k p ≡ f p
  cleared-ne f e k p ne =
      let f1 = write_key f e undef in
      update_ne f1 e p (record (f1 e) { next = k }) ne
      ∙ update_ne f e p (record (f e) { key = undef }) ne

  cleared_self :
      (f : ℕ → Node A) (e k : ℕ)
      → write_next (write_key f e undef) e k e ≡ record (f e) { key = undef; next = k }
  cleared_self f e k =
      let f1 = write_key f e undef in
      rw
        (
          update_self f1 e (record (f1 e) { next = k }),
          update_self f e (record (f e) { key = undef }),
        )
        refl

  clear_buckets-below : (n e p : ℕ) (f : ℕ → Node A) → p < e → clear_buckets n e f p ≡ f p
  unfolding clear_buckets
  clear_buckets-below zero e p f lt = refl
  clear_buckets-below (suc n) e p f lt =
      clear_buckets-below n (e + 1) p (write_next (write_key f e undef) e undef) (omega arith)
      ∙ cleared-ne f e undef p (omega arith)

  -- Every bucket is empty.
  clear_buckets-empty :
      (n e p : ℕ) (f : ℕ → Node A)
      → e ≤ p
      → p < e + n
      → ((clear_buckets n e f p).key ≡ undef) × ((clear_buckets n e f p).next ≡ undef)
  unfolding clear_buckets
  clear_buckets-empty zero e p f le lt = absurd (omega arith)
  clear_buckets-empty (suc n) e p f le lt =
      let g = write_next (write_key f e undef) e undef in
      elim (ℕ_discrete p e) [
        | yes s ↦
            let there : clear_buckets n (e + 1) g p ≡ record (f e) { key = undef; next = undef } =
              clear_buckets-below n (e + 1) p g (omega arith)
              ∙ subst (λ z. g z ≡ record (f e) { key = undef; next = undef }) (sym s)
                  (cleared_self f e undef) in
            rw there (refl, refl)
        | no ne ↦ clear_buckets-empty n (e + 1) p g (omega arith) (omega arith)
      ]

  clear_chains-below : (n i e p : ℕ) (f : ℕ → Node A) → p < e → clear_chains n i e f p ≡ f p
  unfolding clear_chains
  clear_chains-below zero i e p f lt = refl
  clear_chains-below (suc n) i e p f lt =
      clear_chains-below n (i + 1) (e + 1) p (write_next (write_key f e undef) e (i + 1))
        (omega arith)
      ∙ cleared-ne f e (i + 1) p (omega arith)

  -- Every chain node leads to the next.
  clear_chains-next :
      (n i e k : ℕ) (f : ℕ → Node A) → k < n → (clear_chains n i e f (e + k)).next ≡ i + k + 1
  unfolding clear_chains
  clear_chains-next zero i e k f lt = absurd (omega arith)
  clear_chains-next (suc n) i e zero f lt =
      let g = write_next (write_key f e undef) e (i + 1) in
      let place : e + 0 ≡ e = omega arith in
      let there : clear_chains n (i + 1) (e + 1) g e ≡ record (f e) { key = undef; next = i + 1 } =
        clear_chains-below n (i + 1) (e + 1) e g (omega arith) ∙ cleared_self f e (i + 1) in
      subst (λ z. (clear_chains n (i + 1) (e + 1) g z).next ≡ i + 0 + 1) (sym place)
        (ap (λ c. c.next) there ∙ omega arith)
  clear_chains-next (suc n) i e (suc k) f lt =
      let g = write_next (write_key f e undef) e (i + 1) in
      let place : e + 1 + k ≡ e + suc k = omega arith in
      subst (λ z. (clear_chains n (i + 1) (e + 1) g z).next ≡ i + suc k + 1) place
        (clear_chains-next n (i + 1) (e + 1) k g (omega arith) ∙ omega arith)

  -- The nodes after both loops and the end of the freelist.
  abbrev nodes_after : Ihash A → ℕ → Node A
  nodes_after h =
      let f = clear_chains h.chainsz 0 h.bucketsz (clear_buckets h.bucketsz 0 h.nodes) in
      if ltb 0 h.chainsz then write_next f (h.bucketsz + h.chainsz - 1) undef else f

  after_low :
      (h : Ihash A) (p : ℕ)
      → p < h.bucketsz
      → ((nodes_after h p).key ≡ undef) × ((nodes_after h p).next ≡ undef)
  after_low h p lt =
      let f0 = clear_buckets h.bucketsz 0 h.nodes in
      let f = clear_chains h.chainsz 0 h.bucketsz f0 in
      let at : f p ≡ f0 p = clear_chains-below h.chainsz 0 h.bucketsz p f0 lt in
      let empty : ((f p).key ≡ undef) × ((f p).next ≡ undef) =
        rw at (clear_buckets-empty h.bucketsz 0 p h.nodes (omega arith) (omega arith)) in
      elim (Bool-cases (ltb 0 h.chainsz)) [
        | inl some_chain ↦
            let pos = ltb→lt 0 h.chainsz some_chain in
            let e = h.bucketsz + h.chainsz - 1 in
            rw (some_chain, update_ne f e p (record (f e) { next = undef }) (omega arith)) empty
        | inr no_chain ↦ rw no_chain empty
      ]

  after_high :
      (h : Ihash A) (k : ℕ)
      → k < h.chainsz
      → (nodes_after h (h.bucketsz + k)).next ≡ (if k + 1 == h.chainsz then undef else k + 1)
  after_high h k lt =
      let f0 = clear_buckets h.bucketsz 0 h.nodes in
      let f = clear_chains h.chainsz 0 h.bucketsz f0 in
      let e = h.bucketsz + h.chainsz - 1 in
      let next = clear_chains-next h.chainsz 0 h.bucketsz k f0 lt in
      elim (ℕ_discrete (k + 1) h.chainsz) [
        | yes last ↦
            let at : h.bucketsz + k ≡ e = omega (arith, last) in
            rw (lt→ltb 0 h.chainsz (omega arith), eq→== (k + 1) h.chainsz last, at)
              (ap (λ c. c.next) (update_self f e (record (f e) { next = undef })))
        | no inner ↦
            rw (lt→ltb 0 h.chainsz (omega arith), ne→== (k + 1) h.chainsz inner)
              (ap (λ c. c.next)
                  (update_ne f e (h.bucketsz + k) (record (f e) { next = undef })
                    (omega (arith, inner)))
                ∙ next
                ∙ omega arith)
      ]

  after-Free :
      (h : Ihash A) (m i : ℕ)
      → i + m ≡ h.chainsz
      → h.chainsz ≤ undef
      → Free h.bucketsz
          (nodes_after h)
          (if i == h.chainsz then undef else i)
          (places m (h.bucketsz + i))
  after-Free h zero i e le = rw (eq→== i h.chainsz (omega (arith, e))) refl
  after-Free h (suc m) i e le =
      let lt : i < h.chainsz = omega (arith, e) in
      let place : h.bucketsz + (i + 1) ≡ h.bucketsz + i + 1 = omega arith in
      let rest = after-Free h m (i + 1) (omega (arith, e)) le in
      rw (ne→== i h.chainsz (λ s. omega (arith, s, lt))) (
        (λ s. omega (arith, s, lt, le)),
        refl,
        subst (λ z. Free h.bucketsz (nodes_after h) z (places m (h.bucketsz + i + 1)))
            (sym (after_high h i lt))
            (subst
              (λ z.
                Free h.bucketsz (nodes_after h) (if i + 1 == h.chainsz then undef else i + 1)
                  (places m z))
              place rest),
      )

  abbrev cleared : Ihash A → Option (ℕ → ℕ) → Ihash A
  cleared h hash_fn = record h {
    hash_fn = elim hash_fn as (λ _. ℕ → ℕ) [ none ↦ default_hash_fn | some g ↦ g ];
    chain_head = if 0 == h.chainsz then undef else 0;
    nodes = nodes_after h;
  }

  clear-cleared :
      (h : Ihash A) (hash_fn : Option (ℕ → ℕ)) → ihash_clear h hash_fn ≡ cleared h hash_fn
  unfolding ihash_clear
  clear-cleared h hash_fn = elim (Bool-cases (ltb 0 h.chainsz)) [
    | inl e ↦ rw (e, ne→== 0 h.chainsz (λ s. omega (arith, s, ltb→lt 0 h.chainsz e))) refl
    | inr e ↦ rw (e, eq→== 0 h.chainsz (ground arith)) refl
  ]

  cleared-IsHash :
      (h : Ihash A) (hash_fn : Option (ℕ → ℕ))
      → 1 ≤ h.bucketsz
      → h.chainsz ≤ undef
      → IsHash (cleared h hash_fn) (λ _. []) (places h.chainsz h.bucketsz) (λ _. 0)
  cleared-IsHash h hash_fn pos le = record {
    buckets = λ b lt. record {
      links = (after_low h b lt).1;
      distinct = tt;
      high = tt;
      keyed = tt;
      empty = λ e. refl;
      unique = (tt, tt);
    };
    owned = λ b lt. tt;
    frees =
        let place : h.bucketsz + 0 ≡ h.bucketsz = omega arith in
        subst
          (λ z.
            Free h.bucketsz (nodes_after h) (if 0 == h.chainsz then undef else 0)
              (places h.chainsz z))
          place (after-Free h h.chainsz 0 (omega arith) le);
    free_distinct = places-Distinct h.chainsz h.bucketsz;
    unowned = All-of (λ p. (λ (q : ℕ). zero) p ≡ zero) (places h.chainsz h.bucketsz) (λ p. refl);
    free_high = places_from h.bucketsz h.chainsz h.bucketsz (omega arith);
    count = omega (arith, total_nil h.bucketsz, length-places h.chainsz h.bucketsz);
    some_bucket = pos;
  }

  -- Where there is a bucket and `chainsz` is a 64-bit word, `ihash_clear` leaves a well-formed ihash:
  -- its chains are empty, all the chain nodes are free, and no key is found.
  pub clear-IsHash :
      (h : Ihash A) (hash_fn : Option (ℕ → ℕ))
      → 1 ≤ h.bucketsz
      → h.chainsz ≤ undef
      → IsHash (ihash_clear h hash_fn) (λ _. []) (places h.chainsz h.bucketsz) (λ _. 0)
        × ((j : ℕ) → j ≢ undef → lookup (ihash_clear h hash_fn) j ≡ none)
  clear-IsHash h hash_fn pos le =
      let w = cleared-IsHash h hash_fn pos le in
      subst
        (λ r.
          IsHash r (λ _. []) (places h.chainsz h.bucketsz) (λ _. 0)
          × ((j : ℕ) → j ≢ undef → lookup r j ≡ none))
        (sym (clear-cleared h hash_fn))
        (
          w,
          λ j jne.
              let r = cleared h hash_fn in
              let b = bucket_of r j in
              let e = (after_low h b (bucket_of-lt r j pos)).0 in
              lookup_bucket r (λ _. []) (places h.chainsz h.bucketsz) (λ _. 0) j w jne
              ∙ rw (ne→== j (nodes_after h b).key (λ s. jne (s ∙ e))) refl,
        )
