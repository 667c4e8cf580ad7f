-- ===== src/Ihash/Append.antt =====
-- A node from the freelist behind the last node of a chain: `append_node` on a well-formed ihash.
use scroller.Prelude.{
  ℕ, ◌+◌, ◌≤◌, ◌<◌, ◌≡◌, ◌≢◌, refl, sym, ◌∙◌, List, [], ◌∷◌, ◌++◌, arith, All, All-append, NotIn,
  Distinct, update, update_self, update_ne, ℕ_discrete, subst,
}
use scroller.Ihash.{Node, undef, write_key, write_next}
use scroller.Ihash.Map.{keys, IsBucket}
use scroller.Ihash.Values.{OfBucket, OfBucket-high}
use scroller.Ihash.Extend.{last_place, Distinct-end, Extends, Links-extend, keys-extend}

module _ {ℓ} {A : Type ℓ} where
  -- The nodes that `append_node` writes.
  abbrev pub appended : (ℕ → Node A) → (e idx new key : ℕ) → ℕ → Node A
  appended f e idx new key = write_next (write_key (write_next f e idx) new key) new undef

  module _ (f : ℕ → Node A) (n e idx new key : ℕ) where
    appended-new :
        e ≢ new → appended f e idx new key new ≡ record (f new) { key = key; next = undef }
    appended-new ne =
        let f1 = write_next f e idx in
        let f2 = write_key f1 new key in
        rw (
          update_self f2 new (record (f2 new) { next = undef }),
          update_self f1 new (record (f1 new) { key = key }),
          update_ne f e new (record (f e) { next = idx }) (λ q. ne (sym q)),
        )

    appended-last : e ≢ new → appended f e idx new key e ≡ record (f e) { next = idx }
    appended-last ne =
        let f1 = write_next f e idx in
        let f2 = write_key f1 new key in
        rw (
          update_ne f2 new e (record (f2 new) { next = undef }) ne,
          update_ne f1 new e (record (f1 new) { key = key }) ne,
          update_self f e (record (f e) { next = idx }),
        )

    pub appended-ne : (q : ℕ) → q ≢ new → q ≢ e → appended f e idx new key q ≡ f q
    appended-ne q ne last =
        let f1 = write_next f e idx in
        let f2 = write_key f1 new key in
        rw (
          update_ne f2 new q (record (f2 new) { next = undef }) ne,
          update_ne f1 new q (record (f1 new) { key = key }) ne,
          update_ne f e q (record (f e) { next = idx }) last,
        )

    pub appended-Extends :
        idx ≢ undef → n + idx ≡ new → e ≢ new → Extends f (appended f e idx new key) n e new key
    appended-Extends some_node place ne = record {
      same_key = λ q out. elim (ℕ_discrete q e) [
        | yes l ↦ rw (l, appended-last ne)
        | no l ↦ rw (appended-ne q out l)
      ];
      same_value = λ q out. elim (ℕ_discrete q e) [
        | yes l ↦ rw (l, appended-last ne)
        | no l ↦ rw (appended-ne q out l)
      ];
      same_next = λ q out l. rw (appended-ne q out l);
      link = rw (appended-last ne) (some_node, place);
      new_key = rw (appended-new ne);
      new_next = rw (appended-new ne);
    }

  keyed-extend :
      (f g : ℕ → Node A) (n e new key : ℕ) (ps : List ℕ)
      → Extends f g n e new key
      → key ≢ undef
      → All (λ q. q ≢ new) ps
      → All (λ p. (f p).key ≢ undef) ps
      → All (λ p. (g p).key ≢ undef) (ps ++ new ∷ [])
  keyed-extend f g n e new key [] x ne out k = (λ q. ne (sym x.new_key ∙ q), tt)
  keyed-extend f g n e new key (p ∷ ps) x ne out k =
      (λ q. k.0 (sym (x.same_key p out.0) ∙ q), keyed-extend f g n e new key ps x ne out.1 k.1)

  differ-keys :
      (f : ℕ → Node A) (key : ℕ) (ps : List ℕ)
      → All (λ q. (f q).key ≢ key) ps
      → All (λ x. x ≢ key) (keys f ps)
  differ-keys f key [] h = tt
  differ-keys f key (p ∷ ps) h = (h.0, differ-keys f key ps h.1)

  -- The bucket with the node at the end of its chain.
  pub IsBucket-extend :
      (f g : ℕ → Node A) (n b new key : ℕ) (ps : List ℕ)
      → Extends f g n (last_place b ps) new key
      → IsBucket n f b ps
      → Distinct (b ∷ ps)
      → All (λ q. q ≢ new) (b ∷ ps)
      → n ≤ new
      → key ≢ undef
      → (f b).key ≢ undef
      → All (λ q. (f q).key ≢ key) (b ∷ ps)
      → IsBucket n g b (ps ++ new ∷ [])
  IsBucket-extend f g n b new key ps x v d out high ne taken differ =
      let e = last_place b ps in
      record {
        links = Links-extend f g n e new key b ps x d out refl v.links;
        distinct = Distinct-end ps new v.distinct out.1;
        high = All-append (λ p. n ≤ p) ps (new ∷ []) v.high (high, tt);
        keyed = keyed-extend f g n e new key ps x ne out.1 v.keyed;
        empty = λ q. absurd (taken (sym (x.same_key b out.0) ∙ q));
        unique =
            subst Distinct (sym (keys-extend f g n e new key (b ∷ ps) x out))
              (Distinct-end (keys f (b ∷ ps)) key v.unique (differ-keys f key (b ∷ ps) differ));
      }

-- A bucket lies below its chain.
pub low_distinct : (n b : ℕ) (ps : List ℕ) → b < n → All (λ p. n ≤ p) ps → NotIn b ps
low_distinct n b [] lt h = tt
low_distinct n b (p ∷ ps) lt h = (λ e. omega (arith, e, h.0), low_distinct n b ps lt h.1)

-- No node of a bucket is free.
pub owned-apart :
    (n : ℕ) (owner : ℕ → ℕ) (b new : ℕ) (ps : List ℕ)
    → b < n
    → n ≤ new
    → owner new ≡ 0
    → All (OfBucket n owner b) ps
    → All (λ q. q ≢ new) ps
owned-apart n owner b new [] lt le z h = tt
owned-apart n owner b new (q ∷ ps) lt le z h = (
  λ e. OfBucket-high n owner b q new h.0 lt le (λ s. omega (arith, s, z)) (sym e),
  owned-apart n owner b new ps lt le z h.1,
)

pub owned-update :
    (owner : ℕ → ℕ) (new o w : ℕ) (ps : List ℕ)
    → All (λ q. q ≢ new) ps
    → All (λ p. owner p ≡ w) ps
    → All (λ p. update owner new o p ≡ w) ps
owned-update owner new o w [] out h = tt
owned-update owner new o w (p ∷ ps) out h =
    (update_ne owner new p o out.0 ∙ h.0, owned-update owner new o w ps out.1 h.1)

pub All-sym : (new : ℕ) (ps : List ℕ) → NotIn new ps → All (λ q. q ≢ new) ps
All-sym new [] h = tt
All-sym new (p ∷ ps) h = (λ e. h.0 (sym e), All-sym new ps h.1)
