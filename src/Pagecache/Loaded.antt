-- ===== src/Pagecache/Loaded.antt =====
-- `pagecache_touch_fn` where the key is not in the cache: its page is read into memory that no key
-- has, and no page of another key changes.
use scroller.Prelude.{
  ℕ, ◌≡◌, ◌≢◌, inl, inr, refl, sym, ap, ◌∙◌, subst, true, false, Option, none, some, List, [], ◌∷◌,
  ◌++◌, ◌==◌, if◌then◌else◌, arith, eq→==, ne→==, Distinct, Distinct-append_left, update,
  update_self,
}
use scroller.Gid.{file_id}
use scroller.Ihash.{Ihash, undef, ihash_get_fn, ihash_touch_fn}
use scroller.Ihash.Chain.{lookup}
use scroller.Ihash.Outcome.{Touch-IsTouched}
use scroller.Ilist2.{pop_back}
use scroller.Ilist2.Chain.{IsList}
use scroller.Ilist2.Ends.{pop_back-IsList}
use scroller.Icache.{Entry, enter, icache_get}
use scroller.Icache.Order.{key_at, IsOpen}
use scroller.Icache.Touch.{Held-apart, touched-IsOpen}
use scroller.Icache.Evict.{same_keys}
use scroller.Icache.Members.{held_value, value_of, entered, set_value}
use scroller.Fdcache.{FdCache, fdcache_touch_fn}
use scroller.Fdcache.Owner.{Owns, Owns-add}
use scroller.Pagecache.{
  PageFiles, PageCache, offset, open_page, pagecache_read, load_page, read_into, read_answer,
  pagecache_touch_fn,
}
use scroller.Pagecache.Owned.{
  values, values-append, values_kept, taken, taken_pop, member-append, page_at, page_at-update,
  Beyond, page_of, IsPages,
}

other_key : (j key v : ℕ) (o : Option ℕ) → j ≢ key → (if j == key then some v else o) ≡ o
other_key j key v o ne = rw (ne→== j key ne) refl

module _ {W P : Type 0} (io : PageFiles W P) (pagesz : ℕ) where
  -- The file of a key is open, and its page is read into a page that holds `old`.
  pub record Reads (w : W) (c : FdCache) (key : ℕ) (old content : P) : Type 0 where
    pub opened : W
    pub files_after : FdCache
    pub file : ℕ
    pub after : W
    pub opens : fdcache_touch_fn io.files w c (file_id key) ≡ some (opened, files_after, some file)
    pub reads :
        io.pread opened (files_after.hash.nodes file).value.value old (offset io pagesz key)
        ≡ (after, some content)

  -- The file of a key is open, and its page with these contents is written.
  pub record Writes (w : W) (c : FdCache) (key : ℕ) (content : P) : Type 0 where
    pub opened : W
    pub files_after : FdCache
    pub file : ℕ
    pub after : W
    pub count : ℕ
    pub opens : fdcache_touch_fn io.files w c (file_id key) ≡ some (opened, files_after, some file)
    pub writes :
        io.pwrite opened (files_after.hash.nodes file).value.value content (offset io pagesz key)
        ≡ (after, some count)

  -- A well-formed state with the page of the key in it, which holds `content`. What is in memory
  -- of the other keys is what `pages` says.
  pub record Loaded (n : ℕ) (result : Option (PageCache W P × ℕ)) (key : ℕ) (content : P)
      (pages : ℕ → Option P) : Type 0 where
    pub state : PageCache W P
    pub entry : ℕ
    pub returns : result ≡ some (state, entry)
    pub used : List ℕ
    pub free : List ℕ
    pub used_stack : List ℕ
    pub free_stack : List ℕ
    pub well : IsPages n state used free used_stack free_stack
    pub here : ihash_get_fn state.cache.hash key ≡ some (some entry)
    pub mine : page_of state key ≡ some content
    pub others : (j : ℕ) → j ≢ undef → j ≢ key → page_of state j ≡ pages j

  module _ (n : ℕ) (key : ℕ) (ne : key ≢ undef) (content : P) where
    -- The page is read into the index that is popped.
    read_back :
        (s : PageCache W P) (v : ℕ)
        → (pop_back s.stack).1 ≡ v
        → (r : Reads s.world s.fdcache key (s.pages v) content)
        → pagecache_read io pagesz s key
          ≡ some (
            record {
              world = r.after;
              fdcache = r.files_after;
              cache = s.cache;
              stack = (pop_back s.stack).0;
              pages = update s.pages v content;
            },
            v,
          )
    unfolding pagecache_read read_into open_page read_answer
    read_back s v popped r =
        let opened : PageCache W P = record s {
          world = r.opened;
          fdcache = r.files_after;
          stack = (pop_back s.stack).0;
        } in
        ap (λ z. read_into io pagesz (record s { stack = (pop_back s.stack).0 }) z key) popped
        ∙ rw r.opens refl
        ∙ ap (λ z. some (read_answer opened v z)) r.reads

    pub load-Loaded :
        (s : PageCache W P) (used : List ℕ) (x : ℕ) (free : List ℕ) (p : ℕ)
        → IsOpen s.cache.hash s.cache.list used (x ∷ free) key p
        → (before : ℕ → Option ℕ)
        → ((j : ℕ) → j ≢ undef → j ≢ key → held_value s.cache.hash j ≡ before j)
        → before key ≡ none
        → (ys : List ℕ) (y : ℕ) (free_stack : List ℕ) → IsList s.stack (ys ++ y ∷ []) free_stack
        → Distinct (values s.stack ys ++ key_at s.stack y ∷ [])
        → Owns (Beyond n) before (taken (values s.stack ys ++ key_at s.stack y ∷ []))
        → Reads s.world s.fdcache key (s.pages (key_at s.stack y)) content
        → Loaded n
            (load_page io pagesz s s.cache.hash p key)
            key
            content
            (λ j. page_at s.pages (before j))
    unfolding load_page
    load-Loaded s used x free p state before same missed ys y free_stack stacked d o r =
        let v = key_at s.stack y in
        let vs = values s.stack ys in
        let (is_list, popped, kept) = pop_back-IsList s.stack ys y free_stack stacked in
        let rest = (pop_back s.stack).0 in
        let (is, at, stored) =
          entered s.cache.hash s.cache.list used x free key p ne s.cache v before same state in
        let idle : values rest ys ≡ vs =
          values_kept s.stack rest ys (same_keys s.stack rest ys kept) in
        let after = enter s.cache (set_value s.cache.hash p v) s.cache.list p key in
        let on_stack : taken (vs ++ v ∷ []) v ≡ false =
          rw (member-append v vs v, eq→== v v refl) refl in
        record {
          state = record {
            world = r.after;
            fdcache = r.files_after;
            cache = after;
            stack = rest;
            pages = update s.pages v content;
          };
          entry = p;
          returns = rw (read_back s (key_at s.stack y) popped r) refl;
          used = x ∷ used;
          free = free;
          used_stack = ys;
          free_stack = y ∷ free_stack;
          well = record {
            cached = is;
            stacked = is_list;
            distinct = subst Distinct (sym idle) (Distinct-append_left vs (v ∷ []) d);
            owns =
                subst (λ z. Owns (Beyond n) (held_value after.hash) (taken z)) (sym idle)
                  (Owns-add (Beyond n) before _ (taken (vs ++ v ∷ [])) (taken vs) key v ne missed
                    on_stack stored (λ q. taken_pop vs v q d) o);
          };
          here = at;
          mine =
              ap (page_at (update s.pages v content))
                (stored key ne ∙ ap (λ b. if b then some v else before key) (eq→== key key refl))
              ∙ ap some (update_self s.pages v content);
          others = λ j jne other.
              ap (page_at (update s.pages v content))
                (stored j jne ∙ other_key j key v (before j) other)
              ∙ page_at-update s.pages (before j) v content λ q e eq.
                let z : false ≡ true =
                  sym on_stack ∙ ap (taken (vs ++ v ∷ [])) (sym eq) ∙ (o.opened j q jne e).0 in
                ground arith;
        }

    -- For a key that is not IHASH_UNDEF and not in the cache, where the hash and the list of the
    -- cache have a node for it, an index is on the stack, and the page can be read:
    -- `pagecache_touch_fn` returns the entry of the key, whose page holds what was read. The pages
    -- of the other keys hold what they held. Again each index is on the stack or has one key.
    pub touch_room-Loaded :
        (s : PageCache W P) (used free ys : List ℕ) (x y : ℕ) (free_stack : List ℕ) (p : ℕ)
        (hash : Ihash (Entry ℕ))
        → IsPages n s used (x ∷ free) (ys ++ y ∷ []) free_stack
        → ihash_get_fn s.cache.hash key ≡ some none
        → ihash_touch_fn s.cache.hash key ≡ some (hash, some p)
        → Reads s.world s.fdcache key (s.pages (key_at s.stack y)) content
        → Loaded n (pagecache_touch_fn io pagesz s key) key content (page_of s)
    unfolding pagecache_touch_fn icache_get
    touch_room-Loaded s used free ys x y free_stack p hash well missed room r =
        let c = well.cached in
        let gone : lookup s.cache.hash key ≡ none = rw missed refl in
        let apart = Held-apart s.cache.hash s.cache.list key used gone c.held in
        let on_stack = values-append s.stack ys y in
        elim (Touch-IsTouched s.cache.hash c.chains c.unchained c.owner key c.hash ne) [
          | inl (q, t) ↦
              let state =
                touched-IsOpen s.cache.hash c.chains c.unchained c.owner key c.hash s.cache.list
                  used (x ∷ free) q c.list c.held (λ j jne other. c.listed j jne jne) apart t in
              let s' = record s { cache = record s.cache { hash = t.result } } in
              let code : pagecache_touch_fn io pagesz s key
                  ≡ load_page io pagesz s' t.result q key =
                rw (missed, t.returns) refl in
              subst (λ z. Loaded n z key content (page_of s)) (sym code)
                (load-Loaded s' used x free q state (held_value s.cache.hash)
                  (λ j jne other. ap value_of (t.touched.others j jne other)) (ap value_of gone) ys
                  y free_stack well.stacked (subst Distinct on_stack well.distinct)
                  (subst (λ z. Owns (Beyond n) (held_value s.cache.hash) (taken z)) on_stack
                    well.owns)
                  r)
          | inr (full, _, _) ↦ absurd (
              let z : some (s.cache.hash, none) ≡ some (hash, some p) = sym full ∙ room in
              let z' : none ≡ some p = cc in ground arith)
        ]
