-- ===== src/Pagecache/Evict.antt =====
-- `pagecache_touch_fn` where the hash has no node for the key: the page of the last key of the list is
-- written, and its memory taken for the new one.
use scroller.Prelude.{
  ℕ, ◌≡◌, ◌≢◌, inl, inr, refl, sym, ap, ◌∙◌, subst, Bool, true, false, Option, none, some, List, [],
  ◌∷◌, ◌++◌, ◌==◌, if◌then◌else◌, arith, All-middle, Distinct,
}
use scroller.Ihash.{Ihash, undef, ihash_get_fn, ihash_touch_fn, ihash_erase_fn}
use scroller.Ihash.Chain.{lookup}
use scroller.Ihash.Outcome.{Touch-IsTouched}
use scroller.Ihash.Erase.{erase-lookup, present}
use scroller.Ilist2.{pop_back, put_back}
use scroller.Ilist2.Ends.{pop_back-IsList}
use scroller.Icache.{Entry, icache_get}
use scroller.Icache.Order.{key_at, Held}
use scroller.Icache.Touch.{Held-apart, touched-IsOpen}
use scroller.Icache.Evict.{without, popped-IsCache}
use scroller.Icache.Members.{held_value, value_of, value_of_either, none_either}
use scroller.Fdcache.Owner.{Owns, Owns-drop}
use scroller.Pagecache.{
  PageFiles, PageCache, open_page, pagecache_write, write_page, load_page, write_answer, evict_page,
  replace_page, pagecache_touch_fn,
}
use scroller.Pagecache.Owned.{
  push-IsStack, values, taken, taken_push, Distinct-append, member, page_at, Beyond, page_of,
  IsPages,
}
use scroller.Pagecache.Loaded.{Reads, Writes, Loaded, load-Loaded}

first_of : (r r' : Ihash (Entry ℕ) × ℕ) → some r ≡ some r' → r.0 ≡ r'.0
first_of r r' e = let e' : r ≡ r' = cc in ap (λ z. z.0) e'

not_member : (vs : List ℕ) (v : ℕ) → taken vs v ≡ true → member v vs ≡ false
not_member vs v h = ground arith

module _ {W P : Type 0} (io : PageFiles W P) (pagesz : ℕ) where
  module _ (n : ℕ) (key : ℕ) (ne : key ≢ undef) (content : P) where
    -- The page of `lru` is written, and its index goes back on the stack.
    write_back :
        (s : PageCache W P) (lru q : ℕ)
        → ihash_get_fn s.cache.hash lru ≡ some (some q)
        → (w : Writes io pagesz s.world s.fdcache lru (s.pages (s.cache.hash.nodes q).value.value))
        → pagecache_write io pagesz s lru
          ≡ some (
            record s {
              world = w.after;
              fdcache = w.files_after;
              stack = (put_back s.stack (s.cache.hash.nodes q).value.value).0;
            },
            (put_back s.stack (s.cache.hash.nodes q).value.value).1,
          )
    unfolding pagecache_write write_page open_page write_answer
    write_back s lru q at w =
        let idx = (s.cache.hash.nodes q).value.value in
        let state = λ (z : W). (record s { world = z; fdcache = w.files_after }) in
        let code : write_page io pagesz s lru ≡ some (state w.after, idx, some w.count) =
          rw (w.opens, at) (ap (λ z. some (state z.0, idx, z.1)) w.writes) in
        rw code refl

    Loaded-pages :
        (r : Option (PageCache W P × ℕ)) (f g : ℕ → Option P)
        → ((j : ℕ) → j ≢ undef → f j ≡ g j)
        → Loaded io pagesz n r key content f
        → Loaded io pagesz n r key content g
    Loaded-pages r f g same l = record {
      state = l.state;
      entry = l.entry;
      returns = l.returns;
      used = l.used;
      free = l.free;
      used_stack = l.used_stack;
      free_stack = l.free_stack;
      well = l.well;
      here = l.here;
      mine = l.mine;
      others = λ j jne other. l.others j jne other ∙ same j jne;
    }

    page_without :
        (b : Bool) (pages : ℕ → P) (o : Option ℕ)
        → page_at pages (if b then none else o) ≡ (if b then none else page_at pages o)
    page_without true pages o = refl
    page_without false pages o = refl

    -- For a key that is not IHASH_UNDEF and not in the cache, where no node of the hash is free for
    -- it, but one is when the last key of the list has left, the page of that key can be written,
    -- that of the new key read, and the stack has a free node: `pagecache_touch_fn` writes the page
    -- of the last key of the list, as it is in memory, to the place of that key in its file, and
    -- returns the entry of the new key, whose page holds what was read. The last key is no longer in
    -- the cache, and the pages of the others hold what they held. Again each index is on the stack
    -- or has one key.
    pub touch_evict-Loaded :
        (s : PageCache W P) (xs : List ℕ) (x : ℕ) (free used_stack : List ℕ) (z : ℕ)
        (free_stack : List ℕ) (q p : ℕ) (rest hash : Ihash (Entry ℕ)) (found : ℕ)
        → IsPages n s (xs ++ x ∷ []) free used_stack (z ∷ free_stack)
        → ihash_get_fn s.cache.hash key ≡ some none
        → ihash_touch_fn s.cache.hash key ≡ some (s.cache.hash, none)
        → ihash_get_fn s.cache.hash (key_at s.cache.list x) ≡ some (some q)
        → ihash_erase_fn s.cache.hash (key_at s.cache.list x) ≡ some (rest, found)
        → ihash_touch_fn rest key ≡ some (hash, some p)
        → (w : Writes io pagesz s.world s.fdcache
            (key_at s.cache.list x)
            (s.pages (s.cache.hash.nodes q).value.value))
        → Reads io pagesz w.after w.files_after key
            (s.pages (s.cache.hash.nodes q).value.value)
            content
        → Loaded io pagesz n
            (pagecache_touch_fn io pagesz s key)
            key
            content
            (λ j. if j == key_at s.cache.list x then none else page_of s j)
    unfolding pagecache_touch_fn icache_get evict_page replace_page
    touch_evict-Loaded s xs x free used_stack z free_stack q p rest hash found well missed full at
          left room w r =
        let c = well.cached in
        let lru = key_at s.cache.list x in
        let old = (s.cache.hash.nodes q).value.value in
        let vs = values s.stack used_stack in
        let (_, popped, _) = pop_back-IsList s.cache.list xs x free c.list in
        let (h, _) = All-middle (Held s.cache.hash s.cache.list) xs [] x c.held in
        let (e, chains, unchained, owner, erased, is, same) =
          erase-lookup s.cache.hash c.chains c.unchained c.owner lru c.hash h.0 in
        let k = popped-IsCache s.cache xs x free c e chains unchained owner is same in
        let room' : ihash_touch_fn e key ≡ some (hash, some p) =
          subst (λ g. ihash_touch_fn g key ≡ some (hash, some p))
            (first_of (rest, found) (e, present (lookup s.cache.hash lru)) (sym left ∙ erased))
            room in
        let gone : lookup e key ≡ none =
          same key ne ∙ none_either (key == lru) (lookup s.cache.hash key) (rw missed refl) in
        let apart = Held-apart e (without s.cache e).list key xs gone k.held in
        let s0 = record s { cache = record s.cache { list = (pop_back s.cache.list).0 } } in
        let held : held_value s.cache.hash lru ≡ some old = rw at refl in
        let pushed = push-IsStack s.stack used_stack z free_stack old well.stacked in
        let owns =
          Owns-drop (Beyond n) (held_value s.cache.hash) (held_value e) (taken vs)
            (taken (vs ++ old ∷ [])) lru old h.0 held
            (λ j jne. ap value_of (same j jne) ∙ value_of_either (j == lru) (lookup s.cache.hash j))
            (λ i. taken_push vs old i) well.owns in
        let distinct =
          Distinct-append vs old well.distinct
            (not_member vs old (well.owns.opened lru old h.0 held).0) in
        elim (Touch-IsTouched e k.chains k.unchained k.owner key k.hash ne) [
          | inl (p', t) ↦
              let state =
                touched-IsOpen e k.chains k.unchained k.owner key k.hash (without s.cache e).list xs
                  (x ∷ free) p' k.list k.held (λ j jne other. k.listed j jne jne) apart t in
              let s1 = record s {
                world = w.after;
                fdcache = w.files_after;
                stack = (put_back s.stack old).0;
                cache = record (without s.cache e) { hash = t.result };
              } in
              let replaced : replace_page io pagesz s0 lru key
                  ≡ load_page io pagesz s1 t.result p' key =
                rw (write_back s0 lru q at w, erased, t.returns) refl in
              let code : pagecache_touch_fn io pagesz s key
                  ≡ load_page io pagesz s1 t.result p' key =
                rw (missed, full) (ap (λ i. replace_page io pagesz s0 i key) popped ∙ replaced) in
              subst
                (λ i.
                  Loaded io pagesz n i key content (λ j. if j == lru then none else page_of s j))
                (sym code)
                (Loaded-pages _ _ _
                  (λ j jne.
                    ap (page_at s.pages) (
                      ap value_of (same j jne) ∙ value_of_either (j == lru) (lookup s.cache.hash j))
                    ∙ page_without (j == lru) s.pages (held_value s.cache.hash j))
                  (load-Loaded io pagesz n key ne content s1 xs x free p' state (held_value e)
                    (λ j jne other. ap value_of (t.touched.others j jne other)) (ap value_of gone)
                    used_stack z free_stack pushed.0 (subst Distinct (sym pushed.1) distinct)
                    (subst (λ i. Owns (Beyond n) (held_value e) (taken i)) (sym pushed.1) owns)
                    (subst (λ i. Reads io pagesz w.after w.files_after key (s.pages i) content)
                      (sym pushed.2) r)))
          | inr (no_room, _, _) ↦ absurd (
              let i : some (e, none) ≡ some (hash, some p) = sym no_room ∙ room' in
              let i' : none ≡ some p = cc in ground arith)
        ]
