-- ===== src/Fdcache/Examples.antt =====
-- A system that numbers descriptors as it opens them, a cache of two buckets, and the theorem there.
use scroller.Prelude.{
  ℕ, suc, ◌≡◌, inl, inr, refl, Bool, true, false, not, ◌&&◌, Option, none, some, [], ◌∷◌, ltb,
  arith, update,
}
use scroller.Ihash.{
  Ihash, ihash_get_fn, ihash_touch_fn, ihash_erase_fn, ihash_clear, clear_buckets, clear_chains,
  walk, append_node, erase_bucket, default_hash_fn, ihash_begin, ihash_next,
  ihash_next_occupied_bucket, next_occupied,
}
use scroller.Ihash.Put.{ihash_is_valid}
use scroller.Ilist2.{
  pop_back, pop_back_fn, put_front, touch_front_fn, touch_new_fn, clear, clear_nodes, clear_loop,
}
use scroller.Ilist2.Clear.{range}
use scroller.Icache.{Entry, enter, icache_get, icache_clear}
use scroller.Icache.Order.{clear-IsCache}
use scroller.Fdcache.{
  Files, FdCache, fdcache_touch_fn, touch_opened, evict, enter_or_close, fdcache_open,
  fdcache_close, fdcache_clear, close_from,
}
use scroller.Fdcache.Owner.{IsFiles, Owns}
use scroller.Fdcache.Touch.{fds, Outcome}
use scroller.Fdcache.Owned.{touch-Owns}

-- The next descriptor, and those that were closed.
abbrev System : Type 0
System = ℕ × (ℕ → Bool)

abbrev is_open : System → ℕ → Bool
is_open w q = ltb q w.0 && not (w.1 q)

abbrev numbering : Files System
numbering = record {
  open_file = λ w name. ((suc w.0, update w.1 w.0 false), some w.0);
  close_file = λ w fd. (w.0, update w.1 fd true);
}

numbering-IsFiles : IsFiles numbering is_open
numbering-IsFiles = record {
  opens = λ w name w' fd e.
      let is : w' ≡ (suc w.0, update w.1 w.0 false) = cc in
      let at : fd ≡ w.0 = cc in rw (is, at) (ground arith, λ q. ground arith);
  fails = λ w name w' e. absurd (let z : some w.0 ≡ none = cc in ground arith);
  closes = λ w fd h q. ground arith;
}

-- Descriptor 0 is open, and not by the cache.
abbrev Standard : ℕ → Type 0
Standard fd = fd ≡ 0

abbrev start : System
start = (1, λ _. false)

abbrev memory : FdCache
memory = record {
  hash = record {
    bucketsz = 2;
    chainsz = 0;
    chain_head = 0;
    hash_fn = λ k. k;
    nodes = λ _. record { value = record { value = 0; idx = 0 }; key = 0; next = 0 };
  };
  list = record {
    listsz = 2;
    freelist_head = 0;
    front_idx = 0;
    back_idx = 0;
    nodes = λ _. record { value = 0; prev = 0; next = 0 };
  };
  extrasz = 0;
}

abbrev blank : FdCache
blank = icache_clear memory none

blank-Owns : Owns Standard (fds blank.hash) (is_open start)
blank-Owns =
    let empty = (clear-IsCache memory none (omega arith) (omega arith) (omega arith)).1 in
    record {
      opened =
          λ j fd jne e. absurd (let z : none ≡ some fd = (rw (empty j jne) at e) in ground arith);
      apart = λ j k fd jne kne e e'.
          absurd (let z : none ≡ some fd = (rw (empty j jne) at e) in ground arith);
      no_leak = λ fd h mine. absurd (ground arith);
      others = λ fd e. rw e refl;
    }

abbrev hash_of : Option (Ihash (Entry ℕ) × Option ℕ) → Ihash (Entry ℕ)
hash_of none = memory.hash
hash_of (some r) = r.0

touch-Owns_example : Outcome numbering is_open numbering-IsFiles Standard start blank 3
unfolding range icache_clear ihash_clear clear_buckets clear_chains ihash_get_fn ihash_touch_fn
    default_hash_fn
touch-Owns_example =
    touch-Owns numbering is_open numbering-IsFiles Standard start blank 3 [] (range 0 2)
      (λ e. omega (arith, e))
      (clear-IsCache memory none (omega arith) (omega arith) (omega arith)).0 blank-Owns
      (inr (refl, inl (hash_of (ihash_touch_fn blank.hash 3), 1, 0, 1 ∷ [], refl, refl)))

abbrev world : Option (System × FdCache × Option ℕ) → System
world none = start
world (some r) = r.0

abbrev cache_of : Option (System × FdCache × Option ℕ) → FdCache
cache_of none = blank
cache_of (some r) = r.1

abbrev touch : ℕ → System × FdCache → System × FdCache
touch key s = let r = fdcache_touch_fn numbering s.0 s.1 key in (world r, cache_of r)

-- Keys 3 and 2 get the descriptors 1 and 2. The bucket of key 5 is that of key 3, the key used
-- first, so its file is closed. Clearing the cache closes the other two, and 0 stays.
run :
    (is_open (touch 5 (touch 2 (touch 3 (start, blank)))).0 1 ≡ false)
    × (is_open (touch 5 (touch 2 (touch 3 (start, blank)))).0 2 ≡ true)
    × (is_open (touch 5 (touch 2 (touch 3 (start, blank)))).0 3 ≡ true)
unfolding fdcache_touch_fn touch_opened evict enter_or_close fdcache_open fdcache_close icache_get
    enter icache_clear ihash_clear clear_buckets clear_chains ihash_get_fn ihash_touch_fn
    ihash_erase_fn walk append_node erase_bucket default_hash_fn pop_back pop_back_fn put_front
    touch_front_fn touch_new_fn clear clear_nodes clear_loop
run = (refl, refl, refl)

run_clear :
    (is_open
        (fdcache_clear numbering
          (touch 2 (touch 3 (start, blank))).0
          (touch 2 (touch 3 (start, blank))).1
          none).0
        1
      ≡ false)
    × (is_open
          (fdcache_clear numbering
            (touch 2 (touch 3 (start, blank))).0
            (touch 2 (touch 3 (start, blank))).1
            none).0
          2
        ≡ false)
    × (is_open
          (fdcache_clear numbering
            (touch 2 (touch 3 (start, blank))).0
            (touch 2 (touch 3 (start, blank))).1
            none).0
          0
        ≡ true)
unfolding fdcache_touch_fn touch_opened fdcache_open fdcache_close icache_get enter icache_clear
    ihash_clear clear_buckets clear_chains ihash_get_fn ihash_touch_fn walk append_node
    default_hash_fn put_front touch_front_fn touch_new_fn clear clear_nodes clear_loop fdcache_clear
    close_from ihash_begin ihash_next ihash_next_occupied_bucket next_occupied ihash_is_valid
run_clear = (refl, refl, refl)
