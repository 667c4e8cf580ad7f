-- ===== src/Fdcache/Owned.antt =====
-- `fdcache_touch_fn` where the hash has no node for the key: the file of the last key of the list is
-- closed. And all its ways to end together.
use scroller.Prelude.{
  ℕ, ◌≡◌, ◌≢◌, inl, inr, refl, sym, ap, ◌∙◌, subst, Bool, true, false, Option, none, some, List, [],
  ◌∷◌, ◌++◌, ◌==◌, if◌then◌else◌, arith, eq→==, ne→==, Option-cases, All-middle,
}
use scroller.Ihash.{Ihash, undef, ihash_get_fn, ihash_touch_fn}
use scroller.Ihash.Chain.{lookup, value_at}
use scroller.Ihash.Outcome.{Touch-IsTouched}
use scroller.Ihash.Erase.{erase-lookup}
use scroller.Ilist2.{pop_back}
use scroller.Ilist2.Ends.{pop_back-IsList}
use scroller.Icache.{Entry, enter}
use scroller.Icache.Order.{key_at, Held, IsCache}
use scroller.Icache.Touch.{Held-apart, touched-IsOpen}
use scroller.Icache.Evict.{without, popped-IsCache}
use scroller.Icache.Members.{value_of, value_of_either, none_either, entered}
use scroller.Fdcache.{
  Files, FdCache, set_fd, fdcache_open, fdcache_close, evict, enter_or_close, touch_opened,
  fdcache_touch_fn,
}
use scroller.Fdcache.Owner.{
  IsFiles, Owns, Owns-same, Owns-add, Owns-drop, without_old_down, open_close, closed_too,
}
use scroller.Fdcache.Touch.{fds, Ready, Outcome, hit, opened_new, after_open, refused, fresh}

-- The node that a search found, from the value there.
found_at :
    (hash : Ihash (Entry ℕ)) (o : Option (Option ℕ)) (e : Entry ℕ)
    → value_at hash.nodes o ≡ some e
    → (q : ℕ) × (o ≡ some (some q)) × ((hash.nodes q).value.value ≡ e.value)
found_at hash none e h = absurd (ground arith)
found_at hash (some none) e h = absurd (ground arith)
found_at hash (some (some q)) e h = (q, refl, same (hash.nodes q).value e h)
  where
    same : (a b : Entry ℕ) → some a ≡ some b → a.value ≡ b.value
    same a b h = let h' : a ≡ b = cc in ap (λ z. z.value) h'

old_differs : (was : ℕ → Bool) (fd old : ℕ) → was old ≡ true → was fd ≡ false → fd ≢ old
old_differs was fd old up down e = let z : false ≡ true = sym down ∙ ap was e ∙ up in ground arith

module _ {W : Type 0} (files : Files W) (is_open : W → ℕ → Bool) (law : IsFiles files is_open)
    (Other : ℕ → Type 0) (w : W) (cache : FdCache) (key : ℕ) (used free : List ℕ) (ne : key ≢ undef)
    (well : IsCache cache used free) (o : Owns Other (fds cache.hash) (is_open w)) where
  closes-lem :
      (v : W) (fd : ℕ)
      → is_open v fd ≡ true
      → (q : ℕ) → is_open (fdcache_close files v fd) q ≡ (if q == fd then false else is_open v q)
  unfolding fdcache_close
  closes-lem v fd h = law.closes v fd h

  -- The last key has left, its file is closed, and the new file is open.
  record Evicted (fd : ℕ) (xs : List ℕ) (x : ℕ) : Type 0 where
    rest : Ihash (Entry ℕ)
    kept : IsCache (without cache rest) xs (x ∷ free)
    gone : lookup rest key ≡ none
    now : W
    before : ℕ → Bool
    down : before fd ≡ false
    dropped : Owns Other (fds rest) before
    opened : (q : ℕ) → is_open now q ≡ (if q == fd then true else before q)
    closed_again : (q : ℕ) → is_open (fdcache_close files now fd) q ≡ before q
    goes_on :
        (touched : Ihash (Entry ℕ) × Option ℕ)
        → ihash_touch_fn rest key ≡ some touched
        → fdcache_touch_fn files w cache key
          ≡ some (enter_or_close files now cache (pop_back cache.list).0 touched key fd)

  evict-Evicted :
      (fd : ℕ) (xs : List ℕ) (x : ℕ)
      → ihash_get_fn cache.hash key ≡ some none
      → (fdcache_open files w key).1 ≡ some fd
      → ihash_touch_fn cache.hash key ≡ some (cache.hash, none)
      → IsCache cache (xs ++ x ∷ []) free
      → Evicted fd xs x
  unfolding touch_opened evict
  evict-Evicted fd xs x missed got full is_cache =
      let lru = key_at cache.list x in
      let was = is_open w in
      let opened = (fdcache_open files w key).0 in
      let (_, popped, _) = pop_back-IsList cache.list xs x free is_cache.list in
      let (h, _) = All-middle (Held cache.hash cache.list) xs [] x is_cache.held in
      let old = h.1 in
      let (q, at, value) = found_at cache.hash (ihash_get_fn cache.hash lru) _ h.2 in
      let (r, chains, unchained, owner, erased, is, same) =
        erase-lookup cache.hash is_cache.chains is_cache.unchained is_cache.owner lru is_cache.hash
          h.0 in
      let (down, now) = opened_new files is_open law Other w cache key used free ne well o fd got in
      let (up, _) = o.opened lru old h.0 (ap value_of h.2) in
      let left : is_open opened old ≡ true =
        now old ∙ rw (ne→== old fd (λ e. old_differs was fd old up down (sym e))) up in
      let closed = closes-lem opened old left in
      let shut =
        open_close was (is_open opened) (is_open (fdcache_close files opened old)) fd old up down
          now closed in
      record {
        rest = r;
        kept = popped-IsCache cache xs x free is_cache r chains unchained owner is same;
        gone = same key ne ∙ none_either (key == lru) (lookup cache.hash key) (rw missed refl);
        now = fdcache_close files opened old;
        before = λ q. if q == old then false else was q;
        down =
            without_old_down was (is_open opened) (is_open (fdcache_close files opened old)) fd old
              up down now closed;
        dropped =
            Owns-drop Other (fds cache.hash) (fds r) was _ lru old h.0 (ap value_of h.2)
              (λ j jne. ap value_of (same j jne) ∙ value_of_either (j == lru) (lookup cache.hash j))
              (λ q. refl) o;
        opened = shut;
        closed_again =
            closed_too was (is_open opened) (is_open (fdcache_close files opened old)) fd old up
              down now closed _
              (closes-lem (fdcache_close files opened old) fd
                (shut fd ∙ rw (eq→== fd fd refl) refl));
        goes_on = λ touched e.
            after_open files is_open law Other w cache key used free ne well o missed (some fd) got
            ∙ rw (full, popped, at, erased, e, value) refl;
      }

  replaced :
      (fd : ℕ) (xs : List ℕ) (x : ℕ)
      → ihash_get_fn cache.hash key ≡ some none
      → (fdcache_open files w key).1 ≡ some fd
      → ihash_touch_fn cache.hash key ≡ some (cache.hash, none)
      → IsCache cache (xs ++ x ∷ []) free
      → Outcome files is_open law Other w cache key
  unfolding enter_or_close
  replaced fd xs x missed got full is_cache =
      let v = evict-Evicted fd xs x missed got full is_cache in
      let r = v.rest in
      let k = v.kept in
      let apart = Held-apart r (without cache r).list key xs v.gone k.held in
      elim (Touch-IsTouched r k.chains k.unchained k.owner key k.hash ne) [
        | inl (p, t) ↦
            let state =
              touched-IsOpen r k.chains k.unchained k.owner key k.hash (without cache r).list xs
                (x ∷ free) p k.list k.held (λ j jne other. k.listed j jne jne) apart t in
            let (is, at, stored) =
              entered t.result (without cache r).list xs x free key p ne cache fd (fds r)
                (λ j jne other. ap value_of (t.touched.others j jne other)) state in
            record {
              after = v.now;
              result = enter cache (set_fd t.result p fd) (without cache r).list p key;
              entry = some p;
              returns = v.goes_on (t.result, some p) t.returns;
              used_after = x ∷ xs;
              free_after = free;
              cached = is;
              owns =
                  Owns-add Other (fds r) _ v.before (is_open v.now) key fd ne (ap value_of v.gone)
                    v.down stored v.opened v.dropped;
              here = λ q e. at ∙ ap some e;
            }
        | inr (code, _, _) ↦ record {
          after = fdcache_close files v.now fd;
          result = without cache r;
          entry = none;
          returns = v.goes_on (r, none) code;
          used_after = xs;
          free_after = x ∷ free;
          cached = k;
          owns =
              Owns-same Other (fds r) (fds r) v.before (is_open (fdcache_close files v.now fd))
                (λ j jne. refl) v.closed_again v.dropped;
          here = λ p e. absurd (ground arith);
        }
      ]

  -- For a key that is not IHASH_UNDEF, in a well-formed cache that is ready for it (`Ready`) and
  -- where the open descriptors are those that the cache holds, each for one key, and some that it
  -- did not open: `fdcache_touch_fn` returns, and then all that holds again, whether the key was
  -- there, open(2) failed, the key is new, the last key left for it, or NULL is returned because no
  -- node was free even then. No descriptor is lost, none is closed twice, and none of the others is
  -- closed. A pointer that is returned leads to the entry of the key.
  pub touch-Owns : Ready cache used free key → Outcome files is_open law Other w cache key
  touch-Owns (inl (p, got)) = hit files is_open law Other w cache key used free ne well o p got
  touch-Owns (inr (missed, inl (r, p, x, free', room, split))) =
      elim (Option-cases (fdcache_open files w key).1) [
        | inl failed ↦ refused files is_open law Other w cache key used free ne well o missed failed
        | inr (fd, got) ↦
            elim (Touch-IsTouched cache.hash well.chains well.unchained well.owner key well.hash
              ne) [
                | inl (q, t) ↦
                    fresh files is_open law Other w cache key used free ne well o fd q x free'
                      missed got split t
                | inr (full, _, _) ↦ absurd (
                    let z : some (cache.hash, none) ≡ some (r, some p) = sym full ∙ room in
                    let z' : none ≡ some p = cc in ground arith)
              ]
      ]
  touch-Owns (inr (missed, inr (xs, x, full, last))) =
      elim (Option-cases (fdcache_open files w key).1) [
        | inl failed ↦ refused files is_open law Other w cache key used free ne well o missed failed
        | inr (fd, got) ↦
            replaced fd xs x missed got full (subst (λ z. IsCache cache z free) last well)
      ]
