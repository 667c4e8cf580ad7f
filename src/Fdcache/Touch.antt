-- ===== src/Fdcache/Touch.antt =====
-- `fdcache_touch_fn` neither leaks a descriptor nor closes one twice, however it ends.
use scroller.Prelude.{
  ℕ, ◌≡◌, ◌≢◌, ◌⊎◌, refl, sym, ap, ◌∙◌, subst, Bool, true, false, Option, none, some, List, [], ◌∷◌,
  ◌++◌, ◌==◌, if◌then◌else◌, arith,
}
use scroller.Ihash.{Ihash, undef, ihash_get_fn, ihash_touch_fn}
use scroller.Ihash.Chain.{lookup}
use scroller.Ihash.Outcome.{Touch}
use scroller.Ilist2.{Ilist2, move_front_by_idx}
use scroller.Ilist2.Chain.{IsList}
use scroller.Icache.{Entry, enter, icache_get, icache_touch_fn}
use scroller.Icache.Order.{IsCache}
use scroller.Icache.Touch.{Held-apart, touched-IsOpen, touch_hit}
use scroller.Icache.Members.{value_of, held_value, entered}
use scroller.Fdcache.{Files, FdCache, set_fd, fdcache_open, touch_opened, fdcache_touch_fn}
use scroller.Fdcache.Owner.{IsFiles, Owns, Owns-same, Owns-add}

-- The descriptor that the cache holds for a key.
abbrev pub fds : Ihash (Entry ℕ) → ℕ → Option ℕ
fds hash j = held_value hash j

-- The key is in the cache; or it is not, and either the hash has a node for it and the list, too,
-- or the hash has none and the list is not empty.
abbrev pub Ready : FdCache → List ℕ → List ℕ → ℕ → Type 0
Ready cache used free key =
    ((p : ℕ) × (ihash_get_fn cache.hash key ≡ some (some p)))
    ⊎ ((ihash_get_fn cache.hash key ≡ some none)
        × (((r : Ihash (Entry ℕ)) × (p : ℕ) × (x : ℕ) × (free' : List ℕ) × (ihash_touch_fn
                  cache.hash key
                ≡ some (r, some p))
              × (free ≡ x ∷ free'))
            ⊎ ((xs : List ℕ) × (x : ℕ) × (ihash_touch_fn cache.hash key ≡ some (cache.hash, none))
                × (used ≡ xs ++ x ∷ []))))

abbrev with_list : FdCache → Ilist2 ℕ → ℕ → Option (FdCache × Option ℕ)
with_list cache list p = some (record cache { list = list }, some p)

list_of :
    (cache : FdCache) (a b : Ilist2 ℕ) (p : ℕ) → with_list cache a p ≡ with_list cache b p → a ≡ b
list_of cache a b p e =
    let e' : (record cache { list = a }) ≡ record cache { list = b } = cc in ap (λ c. c.list) e'

module _ {W : Type 0} (files : Files W) (is_open : W → ℕ → Bool) (law : IsFiles files is_open)
    (Other : ℕ → Type 0) (w : W) (cache : FdCache) (key : ℕ) where
  -- A well-formed cache that holds the open descriptors, and the entry of the key where there is one.
  pub record Outcome : Type 0 where
    pub after : W
    pub result : FdCache
    pub entry : Option ℕ
    pub returns : fdcache_touch_fn files w cache key ≡ some (after, result, entry)
    pub used_after : List ℕ
    pub free_after : List ℕ
    pub cached : IsCache result used_after free_after
    pub owns : Owns Other (fds result.hash) (is_open after)
    pub here : (p : ℕ) → entry ≡ some p → ihash_get_fn result.hash key ≡ some (some p)

  module _ (used free : List ℕ) (ne : key ≢ undef) (well : IsCache cache used free)
      (o : Owns Other (fds cache.hash) (is_open w)) where
    pub hit : (p : ℕ) → ihash_get_fn cache.hash key ≡ some (some p) → Outcome
    unfolding fdcache_touch_fn icache_get icache_touch_fn
    hit p got =
        let (xs, x, ys, list, _, code, is, _) = touch_hit cache used free key well ne got in
        let m = move_front_by_idx cache.list (cache.hash.nodes p).value.idx in
        let mine : icache_touch_fn cache key ≡ some ((record cache { list = m }), some p) =
          rw got refl in
        let same : list ≡ m = list_of cache list m p (sym code ∙ mine) in
        record {
          after = w;
          result = record cache { list = m };
          entry = some p;
          returns = rw got refl;
          used_after = x ∷ xs ++ ys;
          free_after = free;
          cached = subst (λ z. IsCache (record cache { list = z }) (x ∷ xs ++ ys) free) same is;
          owns = o;
          here = λ q e. rw got (ap some e);
        }

    pub opened_new :
        (fd : ℕ)
        → (fdcache_open files w key).1 ≡ some fd
        → (is_open w fd ≡ false)
          × ((q : ℕ)
              → is_open (fdcache_open files w key).0 q ≡ (if q == fd then true else is_open w q))
    unfolding fdcache_open
    opened_new fd e = law.opens w _ _ fd (ap (λ z. ((fdcache_open files w key).0, z)) e)

    opened_nothing :
        (fdcache_open files w key).1 ≡ none
        → (q : ℕ) → is_open (fdcache_open files w key).0 q ≡ is_open w q
    unfolding fdcache_open
    opened_nothing e = law.fails w _ _ (ap (λ z. ((fdcache_open files w key).0, z)) e)

    pub after_open :
        ihash_get_fn cache.hash key ≡ some none
        → (o : Option ℕ) → (fdcache_open files w key).1 ≡ o
        → fdcache_touch_fn files w cache key
          ≡ touch_opened files (fdcache_open files w key).0 o cache key
    unfolding fdcache_touch_fn icache_get
    after_open missed o got =
        rw missed (ap (λ z. touch_opened files (fdcache_open files w key).0 z cache key) got)

    pub refused :
        ihash_get_fn cache.hash key ≡ some none → (fdcache_open files w key).1 ≡ none → Outcome
    unfolding touch_opened
    refused missed failed = record {
      after = (fdcache_open files w key).0;
      result = cache;
      entry = none;
      returns = after_open missed none failed;
      used_after = used;
      free_after = free;
      cached = well;
      owns =
          Owns-same Other (fds cache.hash) (fds cache.hash) (is_open w)
            (is_open (fdcache_open files w key).0) (λ j jne. refl) (opened_nothing failed) o;
      here = λ p e. absurd (ground arith);
    }

    pub fresh :
        (fd p x : ℕ) (free' : List ℕ)
        → ihash_get_fn cache.hash key ≡ some none
        → (fdcache_open files w key).1 ≡ some fd
        → free ≡ x ∷ free'
        → Touch cache.hash well.chains well.unchained well.owner key well.hash p
        → Outcome
    unfolding touch_opened
    fresh fd p x free' missed got room t =
        let gone : lookup cache.hash key ≡ none = rw missed refl in
        let apart = Held-apart cache.hash cache.list key used gone well.held in
        let state =
          touched-IsOpen cache.hash well.chains well.unchained well.owner key well.hash cache.list
            used (x ∷ free') p (subst (λ z. IsList cache.list used z) room well.list) well.held
            (λ j jne other. well.listed j jne jne) apart t in
        let (is, at, stored) =
          entered t.result cache.list used x free' key p ne cache fd (fds cache.hash)
            (λ j jne other. ap value_of (t.touched.others j jne other)) state in
        let (down, now) = opened_new fd got in
        record {
          after = (fdcache_open files w key).0;
          result = enter cache (set_fd t.result p fd) cache.list p key;
          entry = some p;
          returns = after_open missed (some fd) got ∙ rw t.returns refl;
          used_after = x ∷ used;
          free_after = free';
          cached = is;
          owns =
              Owns-add Other (fds cache.hash) _ (is_open w) _ key fd ne (ap value_of gone) down
                stored now o;
          here = λ q e. at ∙ ap some e;
        }
