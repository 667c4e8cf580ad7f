-- ===== src/Icache/Evict.antt =====
-- `icache_touch_fn` where the hash has no node for the key: the last key of the list leaves.
use scroller.Prelude.{
  ℕ, ◌≡◌, ◌≢◌, inl, inr, refl, sym, ap, ◌∙◌, Option, none, some, List, [], ◌∷◌, ◌++◌, ◌==◌,
  if◌then◌else◌, append-nil, append_assoc, Slots, arith, All, All-middle, In, NotIn, ℕ_discrete,
  subst, eq→==, ne→==,
}
use scroller.Ihash.{Ihash, undef, ihash_get_fn, ihash_touch_fn, ihash_erase_fn}
use scroller.Ihash.Chain.{lookup}
use scroller.Ihash.Map.{IsHash}
use scroller.Ihash.Outcome.{Touch-IsTouched}
use scroller.Ihash.Erase.{erase-lookup, present}
use scroller.Ilist2.{Ilist2, pop_back}
use scroller.Ilist2.Chain.{SameValues}
use scroller.Ilist2.Ends.{pop_back-IsList, slot_facts}
use scroller.Icache.{Icache, Entry, enter, evict, icache_get, icache_touch_fn}
use scroller.Icache.Order.{key_at, Held, IsCache, Held-kept, enter-IsCache}
use scroller.Icache.Members.{none_either, enter-here}
use scroller.Icache.Touch.{In-middle, Held-apart, touched-IsOpen}

pub same_keys :
    (list list' : Ilist2 ℕ) (xs : List ℕ)
    → SameValues list list'
    → All (λ i. key_at list' i ≡ key_at list i) xs
same_keys list list' [] same = tt
same_keys list list' (i ∷ xs) same = (same i, same_keys list list' xs same)

module _ {ℓ} {A : Type ℓ} where
  -- The entries of two nodes of the list have different keys.
  keys_differ :
      (hash : Ihash (Entry A)) (list : Ilist2 ℕ) (x : ℕ) (xs : List ℕ)
      → Held hash list x
      → All (Held hash list) xs
      → NotIn x xs
      → All (λ i. key_at list i ≢ key_at list x) xs
  keys_differ hash list x [] h k out = tt
  keys_differ hash list x (i ∷ xs) h k out = (
    λ s. out.0 (
        same_idx (record { value = h.1; idx = x }) (record { value = k.0.1; idx = i })
          (sym h.2
            ∙ subst (λ z. lookup hash z ≡ some (record { value = k.0.1; idx = i })) s k.0.2)),
    keys_differ hash list x xs h k.1 out.1,
  )
    where
      same_idx : (a b : Entry A) → some a ≡ some b → a.idx ≡ b.idx
      same_idx a b e = let e' : a ≡ b = cc in ap (λ z. z.idx) e'

  found_without :
      (hash hash' : Ihash (Entry A)) (list : Ilist2 ℕ) (lru : ℕ) (xs : List ℕ)
      → ((j : ℕ) → j ≢ undef → lookup hash' j ≡ (if j == lru then none else lookup hash j))
      → All (λ i. key_at list i ≢ lru) xs
      → All (Held hash list) xs
      → All (λ i. lookup hash' (key_at list i) ≡ lookup hash (key_at list i)) xs
  found_without hash hash' list lru [] same apart h = tt
  found_without hash hash' list lru (i ∷ xs) same apart h = (
    same (key_at list i) h.0.0 ∙ rw (ne→== (key_at list i) lru apart.0) refl,
    found_without hash hash' list lru xs same apart.1 h.1,
  )

  -- The cache without its last key.
  abbrev pub without : Icache A → Ihash (Entry A) → Icache A
  without cache hash = record cache { hash = hash; list = (pop_back cache.list).0 }

  pub popped-IsCache :
      (cache : Icache A) (xs : List ℕ) (x : ℕ) (free : List ℕ)
      → IsCache cache (xs ++ x ∷ []) free
      → (hash : Ihash (Entry A)) (chains : ℕ → List ℕ) (unchained : List ℕ) (owner : ℕ → ℕ)
      → IsHash hash chains unchained owner
      → ((j : ℕ)
          → j ≢ undef
          → lookup hash j ≡ (if j == key_at cache.list x then none else lookup cache.hash j))
      → IsCache (without cache hash) xs (x ∷ free)
  popped-IsCache cache xs x free w hash chains unchained owner is same =
      let list = (pop_back cache.list).0 in
      let lru = key_at cache.list x in
      let (is_list, _, values) = pop_back-IsList cache.list xs x free w.list in
      let (h, rest') = All-middle (Held cache.hash cache.list) xs [] x w.held in
      let rest : All (Held cache.hash cache.list) xs =
        subst (λ z. All (Held cache.hash cache.list) z) (append-nil xs) rest' in
      let (_, out, _) =
        slot_facts cache.list.listsz xs free x
          (subst (Slots cache.list.listsz) (append_assoc xs (x ∷ []) free) w.list.slots) in
      let apart = keys_differ cache.hash cache.list x xs h rest out in
      record {
        chains = chains;
        unchained = unchained;
        owner = owner;
        hash = is;
        list = is_list;
        held =
            Held-kept cache.hash hash cache.list list xs (same_keys cache.list list xs values)
              (found_without cache.hash hash cache.list lru xs same apart rest) rest;
        listed = λ j jne other e l. elim (ℕ_discrete j lru) [
          | yes s ↦ absurd (
              let z : none ≡ some e = sym (same j jne ∙ rw (eq→== j lru s) refl) ∙ l in
              ground arith)
          | no ne ↦
              let l' : lookup cache.hash j ≡ some e =
                sym (same j jne ∙ rw (ne→== j lru ne) refl) ∙ l in
              let (i, k) = w.listed j jne other e l' in
              elim (In-middle e.idx x xs [] i) [
                | inl q ↦ absurd (ne (sym k ∙ ap (key_at cache.list) q))
                | inr i' ↦ (subst (In e.idx) (append-nil xs) i', values e.idx ∙ k)
              ]
        ];
      }

  module _ (cache : Icache A) (xs : List ℕ) (x : ℕ) (free : List ℕ) (key : ℕ) where
    -- The cache afterwards, with the entry at `p` that is returned for the key, or without the key.
    abbrev pub Evicted : Icache A → Option ℕ → Type ℓ
    Evicted c (some p) =
        IsCache c (x ∷ xs) free
        × (key_at c.list x ≡ key)
        × (ihash_get_fn c.hash key ≡ some (some p))
        × ((j : ℕ)
            → j ≢ undef
            → j ≢ key
            → lookup c.hash j ≡ (if j == key_at cache.list x then none else lookup cache.hash j))
    Evicted c none =
        IsCache c xs (x ∷ free)
        × (lookup c.hash key ≡ none)
        × ((j : ℕ)
            → j ≢ undef
            → lookup c.hash j ≡ (if j == key_at cache.list x then none else lookup cache.hash j))

    -- In a well-formed cache whose list is not empty, for a key that is not IHASH_UNDEF and not in
    -- the cache, and where no node of the hash is free for it: `icache_touch_fn` takes the last key
    -- of the list out of the cache, and returns what a touch of the hash without that key gives for
    -- the new key. Where that is an entry, it is the one found under the key, which stands in front of
    -- the list; where it is NULL, the key is not in the cache. In both cases the cache is well-formed,
    -- what is found under the other keys stays, and so does their order.
    pub touch_evict :
        IsCache cache (xs ++ x ∷ []) free
        → key ≢ undef
        → ihash_get_fn cache.hash key ≡ some none
        → ihash_touch_fn cache.hash key ≡ some (cache.hash, none)
        → (rest : Ihash (Entry A)) × (n : ℕ) × (touched : Ihash (Entry A)) × (entry : Option ℕ)
          × (c : Icache A) × (ihash_erase_fn cache.hash (key_at cache.list x) ≡ some (rest, n))
          × (ihash_touch_fn rest key ≡ some (touched, entry))
          × (icache_touch_fn cache key ≡ some (c, entry))
          × Evicted c entry
    unfolding icache_touch_fn icache_get evict
    touch_evict w ne missed full =
        let lru = key_at cache.list x in
        let list = (pop_back cache.list).0 in
        let (_, popped, _) = pop_back-IsList cache.list xs x free w.list in
        let (h, _) = All-middle (Held cache.hash cache.list) xs [] x w.held in
        let (r, chains, unchained, owner, erased, is, same) =
          erase-lookup cache.hash w.chains w.unchained w.owner lru w.hash h.0 in
        let kept = popped-IsCache cache xs x free w r chains unchained owner is same in
        let gone : lookup r key ≡ none =
          same key ne ∙ none_either (key == lru) (lookup cache.hash key) (rw missed refl) in
        let apart = Held-apart r list key xs gone kept.held in
        elim (Touch-IsTouched r chains unchained owner key is ne) [
          | inl (p, t) ↦
              let state =
                touched-IsOpen r chains unchained owner key is list xs (x ∷ free) p kept.list
                  kept.held (λ j jne other. kept.listed j jne jne) apart t in
              let (cached, others, there) =
                enter-IsCache cache t.result list xs x free key p ne state in
              let (at, _) = enter-here t.result list xs (x ∷ free) key p ne state cache in
              (
                r,
                present (lookup cache.hash lru),
                t.result,
                some p,
                enter cache t.result list p key,
                erased,
                t.returns,
                rw (missed, full, popped, erased, t.returns) refl,
                (
                  cached,
                  there,
                  at,
                  λ j jne other. others j jne other ∙ t.touched.others j jne other ∙ same j jne,
                ),
              )
          | inr (code, _, _) ↦ (
            r,
            present (lookup cache.hash lru),
            r,
            none,
            without cache r,
            erased,
            code,
            rw (missed, full, popped, erased, code) refl,
            (kept, gone, same),
          )
        ]
