-- ===== src/Pagecache/Cleared.antt =====
-- `pagecache_clear` puts every index on the stack.
use scroller.Prelude.{
  ℕ, zero, suc, ◌+◌, ◌≤◌, ◌<◌, ◌≡◌, ◌≢◌, refl, sym, ap, ◌∙◌, subst, Bool, true, false, not, Option,
  none, some, List, [], ◌∷◌, ◌++◌, ◌==◌, if◌then◌else◌, arith, Distinct, ltb, ne→==,
}
use scroller.Ihash.{undef}
use scroller.Ihash.Chain.{lookup}
use scroller.Ilist2.{Ilist2, put_back, clear}
use scroller.Ilist2.Chain.{IsList}
use scroller.Ilist2.Clear.{range, clear-IsList}
use scroller.Icache.Order.{clear-IsCache}
use scroller.Pagecache.{PageCache, fill_stack, pagecache_clear}
use scroller.Pagecache.Owned.{
  values, values-append, member, member-append, Distinct-append, IsPages, push-IsStack,
}

-- A stack of all indices below `n`, in front of those that were there.
record Filled (n : ℕ) (old new : Ilist2 ℕ) (used : List ℕ) : Type 0 where
  used_after : List ℕ
  is_list : IsList new used_after []
  distinct : Distinct (values new used_after)
  on_stack :
      (q : ℕ)
      → member q (values new used_after) ≡ (if ltb q n then true else member q (values old used))

below_suc :
    (n q : ℕ) (a b : Bool)
    → a ≡ (if q == n then true else b)
    → (if ltb q n then true else a) ≡ (if ltb q (suc n) then true else b)
below_suc n q a b e = ground arith

fill_stack-Filled :
    (n : ℕ) (l : Ilist2 ℕ) (used : List ℕ) (i : ℕ)
    → IsList l used (range i n)
    → Distinct (values l used)
    → ((q : ℕ) → q < n → member q (values l used) ≡ false)
    → Filled n l (fill_stack n l) used
unfolding fill_stack range
fill_stack-Filled zero l used i is d low = record {
  used_after = used;
  is_list = is;
  distinct = d;
  on_stack = λ q. ground arith;
}
fill_stack-Filled (suc n) l used i is d low =
    let l' = (put_back l n).0 in
    let (is', stack, _) = push-IsStack l used i (range (i + 1) n) n is in
    let now = values-append l' used i ∙ stack in
    let out = low n (omega arith) in
    let f =
      fill_stack-Filled n l' (used ++ i ∷ []) (i + 1) is'
        (subst Distinct (sym now) (Distinct-append (values l used) n d out))
        (λ q lt.
          ap (member q) now
          ∙ member-append q (values l used) n
          ∙ rw (ne→== q n (λ e. omega (arith, e))) (low q (omega arith))) in
    record {
      used_after = f.used_after;
      is_list = f.is_list;
      distinct = f.distinct;
      on_stack = λ q.
          f.on_stack q ∙ below_suc n q _ _ (ap (member q) now ∙ member-append q (values l used) n);
    }

all_idle :
    (n q : ℕ) (b : Bool) → b ≡ (if ltb q n then true else false) → not b ≡ true → ¬ (n ≤ q) → ⊥
all_idle n q b e h below = ground arith

none_beyond : (n q : ℕ) (b : Bool) → b ≡ (if ltb q n then true else false) → n ≤ q → not b ≡ true
none_beyond n q b e h = ground arith

module _ {W P : Type 0} (s : PageCache W P) (hash_fn : Option (ℕ → ℕ)) where
  -- Of a page cache whose hash has a bucket and whose list and stack have a node for each node of the
  -- hash, `pagecache_clear` leaves a cache without keys and a stack of all its indices, each once, so
  -- that the invariant of the pages holds.
  pub clear-IsPages :
      (n : ℕ)
      → n ≡ s.cache.hash.bucketsz + s.cache.hash.chainsz
      → 1 ≤ s.cache.hash.bucketsz
      → n ≤ undef
      → s.cache.list.listsz ≡ n
      → s.stack.listsz ≡ n
      → ((used_stack : List ℕ) × IsPages n
            (pagecache_clear s hash_fn)
            []
            (range 0 s.cache.list.listsz)
            used_stack
            [])
        × ((j : ℕ) → j ≢ undef → lookup (pagecache_clear s hash_fn).cache.hash j ≡ none)
  unfolding pagecache_clear
  clear-IsPages n total some_bucket small same same' =
      let (cached, empty) = clear-IsCache s.cache hash_fn some_bucket (omega arith) (omega arith) in
      let is = clear-IsList s.stack (omega arith) in
      let f =
        fill_stack-Filled (s.cache.hash.bucketsz + s.cache.hash.chainsz) (clear s.stack) [] 0
          (subst (λ z. IsList (clear s.stack) [] (range 0 z)) (same' ∙ total) is.0) tt
          (λ q lt. refl) in
      (
        (
          f.used_after,
          record {
            cached = cached;
            stacked = f.is_list;
            distinct = f.distinct;
            owns = record {
              opened = λ j q jne e.
                  absurd (let z : none ≡ some q = (rw (empty j jne) at e) in ground arith);
              apart = λ j k q jne kne e e'.
                  absurd (let z : none ≡ some q = (rw (empty j jne) at e) in ground arith);
              no_leak = λ q h mine. absurd (all_idle n q _ (f.on_stack q ∙ same_bound q) h mine);
              others = λ q h. none_beyond n q _ (f.on_stack q ∙ same_bound q) h;
            };
          },
        ),
        empty,
      )
    where
      same_bound :
          (q : ℕ)
          → (if ltb q (s.cache.hash.bucketsz + s.cache.hash.chainsz) then true else false)
            ≡ (if ltb q n then true else false)
      same_bound q = ap (λ z. if ltb q z then true else false) (sym total)
