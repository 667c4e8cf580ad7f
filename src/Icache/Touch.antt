-- ===== src/Icache/Touch.antt =====
-- `icache_touch_fn` where the key is there, and where a node is free in the hash.
use scroller.Prelude.{
  ℕ, ◌≡◌, ◌≢◌, ◌⊎◌, inl, inr, refl, sym, ap, ◌∙◌, none, some, List, [], ◌∷◌, ◌++◌, arith, All,
  All-middle, In, subst,
}
use scroller.Ihash.{Ihash, undef, ihash_get_fn, ihash_touch_fn}
use scroller.Ihash.Chain.{lookup}
use scroller.Ihash.Map.{IsHash}
use scroller.Ihash.Outcome.{Touch, Touch-IsTouched}
use scroller.Ilist2.{Ilist2, move_front_by_idx}
use scroller.Ilist2.Chain.{IsList}
use scroller.Ilist2.Moves.{move_front-IsList}
use scroller.Icache.{Icache, Entry, enter, icache_get, icache_touch_fn}
use scroller.Icache.Order.{key_at, Held, Listed, IsCache, IsOpen, Held-kept, enter-IsCache}

pub In-split :
    (x : ℕ) (used : List ℕ) → In x used → (xs : List ℕ) × (ys : List ℕ) × (used ≡ xs ++ x ∷ ys)
In-split x [] i = absurd i
In-split x (y ∷ used) (inl e) = ([], used, ap (λ z. z ∷ used) (sym e))
In-split x (y ∷ used) (inr i) =
    let (xs, ys, e) = In-split x used i in (y ∷ xs, ys, ap (λ z. y ∷ z) e)

pub In-middle : (a x : ℕ) (xs ys : List ℕ) → In a (xs ++ x ∷ ys) → (a ≡ x) ⊎ In a (xs ++ ys)
In-middle a x [] ys i = i
In-middle a x (y ∷ xs) ys (inl e) = inr (inl e)
In-middle a x (y ∷ xs) ys (inr i) = elim (In-middle a x xs ys i) [
  | inl e ↦ inl e
  | inr k ↦ inr (inr k)
]

All-list : (P : ℕ → Type 0) (ps : List ℕ) → ((p : ℕ) → P p) → All P ps
All-list P [] h = tt
All-list P (p ∷ ps) h = (h p, All-list P ps h)

module _ {ℓ} {A : Type ℓ} where
  All-found :
      (hash : Ihash (Entry A)) (list : Ilist2 ℕ) (ps : List ℕ)
      → All (λ i. lookup hash (key_at list i) ≡ lookup hash (key_at list i)) ps
  All-found hash list [] = tt
  All-found hash list (p ∷ ps) = (refl, All-found hash list ps)

  -- A key that is not in the hash is not in the list.
  pub Held-apart :
      (hash : Ihash (Entry A)) (list : Ilist2 ℕ) (key : ℕ) (used : List ℕ)
      → lookup hash key ≡ none
      → All (Held hash list) used
      → All (λ i. key_at list i ≢ key) used
  Held-apart hash list key [] missed h = tt
  Held-apart hash list key (i ∷ used) missed h = (
    λ s.
        let z : none ≡ some _ =
          sym missed
          ∙ subst (λ k. lookup hash k ≡ some (record { value = h.0.1; idx = i })) s h.0.2 in
        absurd (ground arith),
    Held-apart hash list key used missed h.1,
  )

  -- What a touch of the hash leaves open: the key's node in the list.
  pub touched-IsOpen :
      (hash : Ihash (Entry A)) (chains : ℕ → List ℕ) (unchained : List ℕ) (owner : ℕ → ℕ) (key : ℕ)
      (w : IsHash hash chains unchained owner)
      → (list : Ilist2 ℕ) (used free : List ℕ) (p : ℕ) → IsList list used free
      → All (Held hash list) used
      → Listed hash list used key
      → All (λ i. key_at list i ≢ key) used
      → (t : Touch hash chains unchained owner key w p) → IsOpen t.result list used free key p
  touched-IsOpen hash chains unchained owner key w list used free p is held listed apart t =
      record {
        chains = t.chains_after;
        unchained = t.free_after;
        owner = t.owner_after;
        is_hash = t.touched.hash;
        is_list = is;
        held =
            Held-kept hash t.result list list used
              (All-list (λ i. key_at list i ≡ key_at list i) used (λ i. refl))
              (kept used apart held) held;
        listed = λ j jne other e l. listed j jne other e (sym (t.touched.others j jne other) ∙ l);
        apart = apart;
        here = t.touched.here;
      }
    where
      kept :
          (ps : List ℕ)
          → All (λ i. key_at list i ≢ key) ps
          → All (Held hash list) ps
          → All (λ i. lookup t.result (key_at list i) ≡ lookup hash (key_at list i)) ps
      kept [] a h = tt
      kept (i ∷ ps) a h = (t.touched.others (key_at list i) h.0.0 a.0, kept ps a.1 h.1)

  module _ (cache : Icache A) (used free : List ℕ) (key : ℕ) where
    -- In a well-formed cache, for a key that is not IHASH_UNDEF and is in the cache:
    -- `icache_touch_fn` returns its entry and changes the list alone. The node of the key moves to
    -- the front, the others keep their order, and the cache is well-formed.
    pub touch_hit :
        {p : ℕ}
        → IsCache cache used free
        → key ≢ undef
        → ihash_get_fn cache.hash key ≡ some (some p)
        → (xs : List ℕ) × (x : ℕ) × (ys : List ℕ) × (list : Ilist2 ℕ) × (used ≡ xs ++ x ∷ ys)
          × (icache_touch_fn cache key ≡ some (record cache { list = list }, some p))
          × IsCache (record cache { list = list }) (x ∷ xs ++ ys) free
          × (key_at list x ≡ key)
    unfolding icache_touch_fn icache_get
    touch_hit {p} w ne got =
        let hash = cache.hash in
        let v = (hash.nodes p).value in
        let there : lookup hash key ≡ some v = rw got refl in
        let (i, at) = w.listed key ne ne v there in
        let x = v.idx in
        let (xs, ys, parts) = In-split x used i in
        let list = move_front_by_idx cache.list x in
        let is : IsList cache.list (xs ++ x ∷ ys) free = rw parts at w.list in
        let (moved, same) = move_front-IsList cache.list xs x ys free is in
        let held : All (Held hash cache.list) (xs ++ x ∷ ys) =
          subst (λ z. All (Held hash cache.list) z) parts w.held in
        let (h, rest) = All-middle (Held hash cache.list) xs ys x held in
        (
          xs,
          x,
          ys,
          list,
          parts,
          rw got refl,
          record {
            chains = w.chains;
            unchained = w.unchained;
            owner = w.owner;
            hash = w.hash;
            list = moved;
            held =
                Held-kept hash hash cache.list list (x ∷ xs ++ ys)
                  (All-list (λ i. key_at list i ≡ key_at cache.list i) (x ∷ xs ++ ys) same)
                  (All-found hash cache.list (x ∷ xs ++ ys)) (h, rest);
            listed = λ j jne other e l.
                let (k, there') = w.listed j jne other e l in
                (In-middle e.idx x xs ys (subst (In e.idx) parts k), same e.idx ∙ there');
          },
          same x ∙ at,
        )

    -- In a well-formed cache whose list has a free node, for a key that is not IHASH_UNDEF and not
    -- in the cache, and where the hash has a node for it: `icache_touch_fn` returns the new entry,
    -- the key stands in front of the list, the cache is well-formed, and what is found under the
    -- other keys stays.
    pub touch_miss :
        {r : Ihash (Entry A)} {p : ℕ} (x : ℕ)
        → IsCache cache used (x ∷ free)
        → key ≢ undef
        → ihash_get_fn cache.hash key ≡ some none
        → ihash_touch_fn cache.hash key ≡ some (r, some p)
        → (c : Icache A) × (icache_touch_fn cache key ≡ some (c, some p))
          × IsCache c (x ∷ used) free
          × (key_at c.list x ≡ key)
          × ((j : ℕ) → j ≢ undef → j ≢ key → lookup c.hash j ≡ lookup cache.hash j)
    unfolding icache_touch_fn icache_get
    touch_miss {r} {p} x w ne missed room =
        let gone : lookup cache.hash key ≡ none = rw missed refl in
        let apart = Held-apart cache.hash cache.list key used gone w.held in
        elim (Touch-IsTouched cache.hash w.chains w.unchained w.owner key w.hash ne) [
          | inl (q, t) ↦
              let code : some (t.result, some q) ≡ some (r, some p) = sym t.returns ∙ room in
              let same : (t.result, some q) ≡ (r, some p) = some_inj code in
              let state =
                touched-IsOpen cache.hash w.chains w.unchained w.owner key w.hash cache.list used
                  (x ∷ free) q w.list w.held (λ j jne other. w.listed j jne jne) apart t in
              let (is, others, there) =
                enter-IsCache cache t.result cache.list used x free key q ne state in
              let q-p : q ≡ p = cc in
              (
                enter cache t.result cache.list q key,
                rw (missed, t.returns)
                    (ap (λ z. some (enter cache t.result cache.list q key, some z)) q-p),
                is,
                there,
                λ j jne other. others j jne other ∙ t.touched.others j jne other,
              )
          | inr (full, _, _) ↦ absurd (
              let z : some (cache.hash, none) ≡ some (r, some p) = sym full ∙ room in
              let z' : none ≡ some p = cc in ground arith)
        ]
      where
        some_inj : {B : Type ℓ} {a b : B} → some a ≡ some b → a ≡ b
        some_inj e = cc
