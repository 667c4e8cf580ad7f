-- ===== src/Ihash/Release.antt =====
-- A chain node that goes from its bucket to the freelist: `release` on a well-formed ihash.
use scroller.Prelude.{
  ℕ, suc, ◌+◌, ◌≤◌, ◌<◌, ◌≡◌, ◌≢◌, refl, sym, ap, ◌∙◌, List, [], ◌∷◌, length, arith, All, NotIn,
  update, update_self, update_ne, subst,
}
use scroller.Ihash.{Ihash, Node, undef, release, write_key, write_next}
use scroller.Ihash.Chain.{find, find-agree}
use scroller.Ihash.Map.{Free, Free-agree, IsBucket, IsBucket-agree, IsHash}
use scroller.Ihash.Local.{IsLocal}
use scroller.Ihash.Values.{OfBucket, OfBucket-high, OfBucket-low}
use scroller.Ihash.Append.{owned-update}

NotIn-sym : (q : ℕ) (ps : List ℕ) → All (λ p. p ≢ q) ps → NotIn q ps
NotIn-sym q [] h = tt
NotIn-sym q (p ∷ ps) h = (λ e. h.0 (sym e), NotIn-sym q ps h.1)

free-apart :
    (owner : ℕ → ℕ) (q b : ℕ) (free : List ℕ)
    → owner q ≡ suc b
    → All (λ p. owner p ≡ 0) free
    → All (λ p. p ≢ q) free
free-apart owner q b [] o z = tt
free-apart owner q b (p ∷ free) o z =
    (λ e. omega (arith, ap owner e, o, z.0), free-apart owner q b free o z.1)

module _ {ℓ} {A : Type ℓ} where
  -- The nodes that `release` writes.
  abbrev pub released : (ℕ → Node A) → (q head : ℕ) → ℕ → Node A
  released f q head = write_next (write_key f q undef) q head

  pub released_self : (f : ℕ → Node A) (q head : ℕ) → (released f q head q).next ≡ head
  released_self f q head =
      let f1 = write_key f q undef in
      ap (λ c. c.next) (update_self f1 q (record (f1 q) { next = head }))

  pub released-ne : (f : ℕ → Node A) (q head p : ℕ) → p ≢ q → released f q head p ≡ f p
  released-ne f q head p ne =
      let f1 = write_key f q undef in
      update_ne f1 q p (record (f1 q) { next = head }) ne
      ∙ update_ne f q p (record (f q) { key = undef }) ne

  pub released-All :
      (f : ℕ → Node A) (q head : ℕ) (ps : List ℕ)
      → All (λ p. p ≢ q) ps
      → All (λ p. released f q head p ≡ f p) ps
  released-All f q head [] out = tt
  released-All f q head (p ∷ ps) out =
      (released-ne f q head p out.0, released-All f q head ps out.1)

  -- Node `q` leaves bucket `b`; of the nodes, the unlinking has changed `e` alone.
  pub record Leaves (h : Ihash A) (f1 : ℕ → Node A) (owner : ℕ → ℕ) (b e q idx : ℕ)
      (ps ps' : List ℕ) : Type ℓ where
    pub inside : b < h.bucketsz
    pub changed : OfBucket h.bucketsz owner b e
    pub elsewhere : (p : ℕ) → p ≢ e → f1 p ≡ h.nodes p
    pub left : IsBucket h.bucketsz f1 b ps'
    pub own : All (λ p. owner p ≡ suc b) ps'
    pub gone : All (λ p. p ≢ q) (b ∷ ps')
    pub owner_node : owner q ≡ suc b
    pub place : (idx ≢ undef) × (h.bucketsz + idx ≡ q)
    pub count : length ps' + 1 ≡ length ps

  free_kept :
      (f g : ℕ → Node A) (n : ℕ) (owner : ℕ → ℕ) (b e q : ℕ) (free : List ℕ)
      → ((p : ℕ) → p ≢ e → p ≢ q → g p ≡ f p)
      → b < n
      → OfBucket n owner b e
      → All (λ p. p ≢ q) free
      → All (λ p. n ≤ p) free
      → All (λ p. owner p ≡ 0) free
      → All (λ p. (g p).next ≡ (f p).next) free
  free_kept f g n owner b e q [] same lt of out le z = tt
  free_kept f g n owner b e q (p ∷ free) same lt of out le z = (
    ap (λ c. c.next)
        (same p (OfBucket-high n owner b e p of lt le.0 (λ s. omega (arith, s, z.0))) out.0),
    free_kept f g n owner b e q free same lt of out.1 le.1 z.1,
  )

  module _ (h : Ihash A) (chains : ℕ → List ℕ) (free : List ℕ) (owner : ℕ → ℕ) (f1 : ℕ → Node A)
      (b e q idx : ℕ) (ps' : List ℕ) where
    pub release-IsLocal :
        IsHash h chains free owner
        → Leaves h f1 owner b e q idx (chains b) ps'
        → IsLocal h (release h f1 q idx) chains free owner b ps' (q ∷ free) (update owner q 0)
    release-IsLocal w l =
        let n = h.bucketsz in
        let f = h.nodes in
        let g = released f1 q h.chain_head in
        let high : n ≤ q = omega (arith, l.place.1) in
        let same : (p : ℕ) → p ≢ e → p ≢ q → g p ≡ f p =
          λ p ne nq. released-ne f1 q h.chain_head p nq ∙ l.elsewhere p ne in
        let out = free-apart owner q b free l.owner_node w.unowned in
        let agree = released-All f1 q h.chain_head (b ∷ ps') l.gone in
        record {
          sizes = (refl, refl);
          inside = l.inside;
          bucket = IsBucket-agree n f1 g b ps' agree.0 agree.1 l.left;
          lows = λ p lt nb.
              same p (OfBucket-low n owner b e p l.changed lt nb) (λ s. omega (arith, s, lt, high));
          highs = λ p le used other.
              same p (OfBucket-high n owner b e p l.changed l.inside le other)
                (λ s. other (ap owner s ∙ l.owner_node));
          own = owned-update owner q 0 (suc b) ps' l.gone.1 l.own;
          others = λ p used other. update_ne owner q p 0 (λ s. other (ap owner s ∙ l.owner_node));
          frees = (
            l.place.0,
            l.place.1,
            subst (λ z. Free n g z free) (sym (released_self f1 q h.chain_head))
                (Free-agree n f g h.chain_head free
                  (free_kept f g n owner b e q free same l.inside l.changed out w.free_high
                    w.unowned)
                  w.frees),
          );
          free_distinct = (NotIn-sym q free out, w.free_distinct);
          unowned = (update_self owner q 0, owned-update owner q 0 0 free out w.unowned);
          free_high = (high, w.free_high);
          count = omega (arith, l.count);
        }

    pub release-find :
        Leaves h f1 owner b e q idx (chains b) ps'
        → (j : ℕ) → find (release h f1 q idx).nodes j (b ∷ ps') ≡ find f1 j (b ∷ ps')
    release-find l j =
        find-agree f1 (released f1 q h.chain_head) j (b ∷ ps')
          (released-All f1 q h.chain_head (b ∷ ps') l.gone)
