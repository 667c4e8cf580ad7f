-- ===== src/Icache/Examples.antt =====
-- A cache of two buckets without chain nodes, and the theorems at it.
use scroller.Prelude.{
  ℕ, zero, suc, ◌<◌, ◌≡◌, ◌≢◌, inl, inr, refl, sym, ◌∙◌, Option, none, some, List, [], ◌∷◌, ◌++◌,
  ◌==◌, if◌then◌else◌, arith, In, ℕ_discrete, subst, eq→==, ne→==,
}
use scroller.Ihash.{
  Ihash, undef, ihash_get_fn, ihash_touch_fn, ihash_erase_fn, ihash_init_fn, ihash_clear,
  clear_buckets, clear_chains, walk, append_node, erase_chain, erase_bucket, default_hash_fn,
  bucket_of,
}
use scroller.Ihash
use scroller.Ihash.Chain.{lookup, find}
use scroller.Ihash.Map.{IsHash, IsBucket, lookup_bucket, bucket_of-lt, total}
use scroller.Ilist2.{
  Ilist2, pop_back, pop_back_fn, put_front, touch_front_fn, touch_new_fn, move_front_by_idx,
  move_front_from, init, clear, clear_nodes, clear_loop,
}
use scroller.Ilist2
use scroller.Ilist2.Clear.{range}
use scroller.Icache.{Icache, Entry, enter, evict, icache_get, icache_touch_fn, icache_clear}
use scroller.Icache.Order.{key_at, IsCache, clear-IsCache}
use scroller.Icache.Touch.{touch_hit, touch_miss}
use scroller.Icache.Evict.{Evicted, touch_evict}

abbrev entry : ℕ → ℕ → ℕ → Ihash.Node (Entry ℕ)
entry value idx key = record {
  value = record { value = value; idx = idx };
  key = key;
  next = undef;
}

abbrev pair_nodes : ℕ → Ihash.Node (Entry ℕ)
pair_nodes p = if p == 0 then entry 70 0 0 else entry 71 1 1

abbrev pair_list : ℕ → Ilist2.Node ℕ
pair_list i =
    if i == 0
    then record { value = 0; prev = 1; next = undef }
    else record { value = 1; prev = undef; next = 0 }

-- Keys 0 and 1 in their buckets; key 0 was used first.
abbrev pair : Icache ℕ
pair = record {
  hash = record {
    bucketsz = 2;
    chainsz = 0;
    chain_head = undef;
    hash_fn = λ k. k;
    nodes = pair_nodes;
  };
  list = record {
    listsz = 2;
    freelist_head = undef;
    front_idx = 1;
    back_idx = 0;
    nodes = pair_list;
  };
  extrasz = 0;
}

pair_buckets : (b : ℕ) → b < 2 → IsBucket 2 pair_nodes b []
pair_buckets zero lt = record {
  links = refl;
  distinct = tt;
  high = tt;
  keyed = tt;
  empty = λ e. refl;
  unique = (tt, tt);
}
pair_buckets (suc zero) lt = record {
  links = refl;
  distinct = tt;
  high = tt;
  keyed = tt;
  empty = λ e. refl;
  unique = (tt, tt);
}
pair_buckets (suc (suc b)) lt = absurd (omega arith)

pair-IsHash : IsHash pair.hash (λ _. []) [] (λ _. 0)
unfolding total
pair-IsHash = record {
  buckets = pair_buckets;
  owned = λ b lt. tt;
  frees = refl;
  free_distinct = tt;
  unowned = tt;
  free_high = tt;
  count = refl;
  some_bucket = omega arith;
}

some_entry : (a e : Entry ℕ) → some a ≡ some e → a ≡ e
some_entry a e h = cc

pair_found :
    (b j : ℕ)
    → b < 2
    → (e : Entry ℕ) → find pair_nodes j (b ∷ []) ≡ some e
    → In e.idx (1 ∷ 0 ∷ []) × (key_at pair.list e.idx ≡ j)
pair_found zero j lt e h = elim (ℕ_discrete j 0) [
  | yes s ↦
      let h' : some (record { value = 70; idx = 0 }) ≡ some e = rw (eq→== j 0 s) at h in
      subst (λ z. In z.idx (1 ∷ 0 ∷ []) × (key_at pair.list z.idx ≡ j)) (some_entry _ e h')
        (inr (inl refl), sym s)
  | no ne ↦ absurd (let h' : none ≡ some e = rw (ne→== j 0 ne) at h in ground arith)
]
pair_found (suc zero) j lt e h = elim (ℕ_discrete j 1) [
  | yes s ↦
      let h' : some (record { value = 71; idx = 1 }) ≡ some e = rw (eq→== j 1 s) at h in
      subst (λ z. In z.idx (1 ∷ 0 ∷ []) × (key_at pair.list z.idx ≡ j)) (some_entry _ e h')
        (inl refl, sym s)
  | no ne ↦ absurd (let h' : none ≡ some e = rw (ne→== j 1 ne) at h in ground arith)
]
pair_found (suc (suc b)) j lt e h = absurd (omega arith)

pair-IsCache : IsCache pair (1 ∷ 0 ∷ []) []
unfolding ihash_get_fn walk
pair-IsCache = record {
  chains = λ _. [];
  unchained = [];
  owner = λ _. 0;
  hash = pair-IsHash;
  list = record {
    list = (refl, refl, (refl, refl, (refl, refl)));
    frees = refl;
    slots = record {
      inside = (omega arith, (omega arith, tt));
      distinct = ((λ e. omega (arith, e), tt), (tt, tt));
      count = refl;
    };
    small = omega arith;
  };
  held = (((λ e. omega (arith, e)), 71, refl), (((λ e. omega (arith, e)), 70, refl), tt));
  listed = λ j jne other e l.
      pair_found (bucket_of pair.hash j) j (bucket_of-lt pair.hash j (omega arith)) e
        (sym (lookup_bucket pair.hash (λ _. []) [] (λ _. 0) j pair-IsHash jne) ∙ l);
}

abbrev answer_of : Option (Icache ℕ × Option ℕ) → Icache ℕ × Option ℕ
answer_of none = (pair, some 1000)
answer_of (some r) = r

-- Key 3 belongs to the bucket of key 1. The cache gives up key 0, and has still no room.
pair_loses :
    (icache_get (answer_of (icache_touch_fn pair 3)).0 0 ≡ some none)
    × ((answer_of (icache_touch_fn pair 3)).1 ≡ none)
unfolding icache_touch_fn icache_get evict enter ihash_get_fn ihash_touch_fn ihash_erase_fn walk
    append_node erase_bucket pop_back pop_back_fn
pair_loses = (refl, refl)

-- Key 2 takes the bucket of key 0.
pair_evicts :
    (icache_get (answer_of (icache_touch_fn pair 2)).0 0 ≡ some none)
    × ((answer_of (icache_touch_fn pair 2)).1 ≡ some 0)
unfolding icache_touch_fn icache_get evict enter ihash_get_fn ihash_touch_fn ihash_erase_fn walk
    append_node erase_bucket pop_back pop_back_fn put_front touch_front_fn
pair_evicts = (refl, refl)

touch_hit_example :
    (xs : List ℕ) × (x : ℕ) × (ys : List ℕ) × (list : Ilist2 ℕ) × (1 ∷ 0 ∷ [] ≡ xs ++ x ∷ ys)
    × (icache_touch_fn pair 0 ≡ some (record pair { list = list }, some 0))
    × IsCache (record pair { list = list }) (x ∷ xs ++ ys) []
    × (key_at list x ≡ 0)
unfolding ihash_get_fn walk
touch_hit_example = touch_hit pair (1 ∷ 0 ∷ []) [] 0 pair-IsCache (λ e. omega (arith, e)) refl

touch_evict_example :
    (rest : Ihash (Entry ℕ)) × (n : ℕ) × (touched : Ihash (Entry ℕ)) × (entry : Option ℕ)
    × (c : Icache ℕ) × (ihash_erase_fn pair.hash 0 ≡ some (rest, n))
    × (ihash_touch_fn rest 3 ≡ some (touched, entry))
    × (icache_touch_fn pair 3 ≡ some (c, entry))
    × Evicted pair (1 ∷ []) 0 [] 3 c entry
unfolding ihash_get_fn ihash_touch_fn walk append_node
touch_evict_example =
    touch_evict pair (1 ∷ []) 0 [] 3 pair-IsCache (λ e. omega (arith, e)) refl refl

abbrev blank : Icache ℕ
blank = icache_clear pair none

abbrev hash_of : Option (Ihash (Entry ℕ) × Option ℕ) → Ihash (Entry ℕ)
hash_of none = pair.hash
hash_of (some r) = r.0

touch_miss_example :
    (c : Icache ℕ) × (icache_touch_fn blank 3 ≡ some (c, some 1))
    × IsCache c (0 ∷ []) (1 ∷ [])
    × (key_at c.list 0 ≡ 3)
    × ((j : ℕ) → j ≢ undef → j ≢ 3 → lookup c.hash j ≡ lookup blank.hash j)
unfolding range icache_clear ihash_clear clear_buckets clear_chains ihash_get_fn ihash_touch_fn
    default_hash_fn
touch_miss_example =
    touch_miss blank [] (1 ∷ []) 3 {r = hash_of (ihash_touch_fn blank.hash 3)} 0
      (clear-IsCache pair none (omega arith) (omega arith) (omega arith)).0 (λ e. omega (arith, e))
      refl refl
