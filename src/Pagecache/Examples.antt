-- ===== src/Pagecache/Examples.antt =====
-- A page cache of one page over a system with one file, and the theorems at it.
use scroller.Prelude.{
  List, ℕ, zero, suc, ◌<◌, ◌≡◌, ◌≢◌, inl, refl, sym, ap, ◌∙◌, subst, Option, none, some, [], ◌∷◌,
  ◌==◌, if◌then◌else◌, arith, In, ℕ_discrete, eq→==, ne→==, update,
}
use scroller.Gid.{gid_of}
use scroller.Ihash
use scroller.Ihash.{
  Ihash, undef, ihash_get_fn, ihash_touch_fn, ihash_erase_fn, ihash_clear, clear_buckets,
  clear_chains, walk, append_node, erase_bucket, default_hash_fn, bucket_of,
}
use scroller.Ihash.Chain.{lookup, find}
use scroller.Ihash.Map.{IsHash, IsBucket, lookup_bucket, total}
use scroller.Ilist2.{
  pop_back, pop_back_fn, put_back, put_front, touch_front_fn, touch_back_fn, touch_new_fn, clear,
  clear_nodes, clear_loop,
}
use scroller.Ilist2.Clear.{range}
use scroller.Icache.{Icache, Entry, enter, icache_get, icache_clear}
use scroller.Icache.Order.{key_at, IsCache, clear-IsCache}
use scroller.Icache.Members.{held_value, value_of}
use scroller.Fdcache.{FdCache, fdcache_touch_fn, touch_opened, fdcache_open}
use scroller.Pagecache.{
  pagecache_clear, PageFiles, PageCache, fill_stack, pagecache_touch_fn, pagecache_put_page,
  load_page, pagecache_read, read_into, read_answer, open_page, evict_page, replace_page,
  pagecache_write, write_page, write_answer,
}
use scroller.Pagecache.Owned.{IsPages, page_of}
use scroller.Pagecache.Loaded.{Loaded, touch_room-Loaded}
use scroller.Pagecache.Cleared.{clear-IsPages}
use scroller.Pagecache.Evict.{touch_evict-Loaded}

-- What lies at an offset of the only file. A page is a number.
abbrev Disk : Type 0
Disk = ℕ → ℕ

abbrev one_file : PageFiles Disk ℕ
one_file = record {
  files = record { open_file = λ w name. (w, some 7); close_file = λ w fd. w };
  pread = λ w fd old place. (w, some (w place));
  pwrite = λ w fd p place. (update w place p, some 4096);
}

-- At the start every offset holds itself.
abbrev disk : Disk
disk = λ place. place

abbrev memory : ℕ → Icache ℕ
memory n = record {
  hash = record {
    bucketsz = n;
    chainsz = 0;
    chain_head = 0;
    hash_fn = λ k. k;
    nodes = λ _. record { value = record { value = 0; idx = 0 }; key = 0; next = 0 };
  };
  list = record {
    listsz = n;
    freelist_head = 0;
    front_idx = 0;
    back_idx = 0;
    nodes = λ _. record { value = 0; prev = 0; next = 0 };
  };
  extrasz = 0;
}

abbrev files : FdCache
files = icache_clear (memory 2) none

-- One index, and it is on the stack.
abbrev blank : PageCache Disk ℕ
blank = record {
  world = disk;
  fdcache = files;
  cache = icache_clear (memory 1) none;
  stack = record {
    listsz = 1;
    freelist_head = undef;
    front_idx = 0;
    back_idx = 0;
    nodes = λ _. record { value = 0; prev = undef; next = undef };
  };
  pages = λ _. 99;
}

-- The key that the full cache holds, and the one that comes.
abbrev old_key : ℕ
old_key = gid_of 3 1

abbrev new_key : ℕ
new_key = gid_of 4 2

blank-IsPages : IsPages 1 blank [] (range 0 1) (0 ∷ []) []
blank-IsPages =
    let (cached, empty) = clear-IsCache (memory 1) none (omega arith) (omega arith) (omega arith) in
    record {
      cached = cached;
      stacked = record {
        list = (refl, refl, (refl, refl));
        frees = refl;
        slots = record { inside = (omega arith, tt); distinct = (tt, tt); count = refl };
        small = omega arith;
      };
      distinct = (tt, tt);
      owns = record {
        opened =
            λ j q jne e. absurd (let z : none ≡ some q = (rw (empty j jne) at e) in ground arith);
        apart = λ j k q jne kne e e'.
            absurd (let z : none ≡ some q = (rw (empty j jne) at e) in ground arith);
        no_leak = λ q h mine. absurd (ground arith);
        others = λ q h. ground arith;
      };
    }

-- Two buckets, with anything in memory.
abbrev in_use : PageCache Disk ℕ
in_use = record blank { cache = memory 2; stack = (memory 2).list }

clear-IsPages_example :
    ((used_stack : List ℕ) × IsPages 2 (pagecache_clear in_use none) [] (range 0 2) used_stack [])
    × ((j : ℕ) → j ≢ undef → lookup (pagecache_clear in_use none).cache.hash j ≡ none)
clear-IsPages_example = clear-IsPages in_use none 2 refl (omega arith) (omega arith) refl refl

abbrev opened_at : Option (Disk × FdCache × Option ℕ) → FdCache
opened_at none = files
opened_at (some r) = r.1

abbrev file_at : Option (Disk × FdCache × Option ℕ) → ℕ
file_at none = 0
file_at (some r) = elim r.2 [ none ↦ 0 | some e ↦ e ]

abbrev hash_at : Option (Ihash (Entry ℕ) × Option ℕ) → Ihash (Entry ℕ)
hash_at none = blank.cache.hash
hash_at (some r) = r.0

touch_room-Loaded_example :
    Loaded one_file 4096 1
      (pagecache_touch_fn one_file 4096 blank new_key)
      new_key
      8192
      (page_of blank)
unfolding range icache_clear ihash_clear clear_buckets clear_chains ihash_get_fn ihash_touch_fn
    default_hash_fn fdcache_touch_fn icache_get touch_opened fdcache_open enter put_front
    touch_front_fn touch_new_fn clear clear_nodes clear_loop walk append_node
touch_room-Loaded_example =
    let opened = fdcache_touch_fn one_file.files disk files 4 in
    touch_room-Loaded one_file 4096 1 new_key (λ e. omega (arith, e)) 8192 blank [] [] [] 0 0 [] 0
      (hash_at (ihash_touch_fn blank.cache.hash new_key)) blank-IsPages refl refl
      (record {
        opened = disk;
        files_after = opened_at opened;
        file = file_at opened;
        after = disk;
        opens = refl;
        reads = refl;
      })

abbrev full_nodes : ℕ → Ihash.Node (Entry ℕ)
full_nodes p = record { value = record { value = 0; idx = 0 }; key = old_key; next = undef }

-- `old_key` has the only page, which holds 55.
abbrev full : PageCache Disk ℕ
full = record {
  world = disk;
  fdcache = files;
  cache = record {
    hash = record {
      bucketsz = 1;
      chainsz = 0;
      chain_head = undef;
      hash_fn = λ k. k;
      nodes = full_nodes;
    };
    list = record {
      listsz = 1;
      freelist_head = undef;
      front_idx = 0;
      back_idx = 0;
      nodes = λ _. record { value = old_key; prev = undef; next = undef };
    };
    extrasz = 0;
  };
  stack = record {
    listsz = 1;
    freelist_head = 0;
    front_idx = undef;
    back_idx = undef;
    nodes = λ _. record { value = 0; prev = undef; next = undef };
  };
  pages = λ _. 55;
}

full-IsBucket : (b : ℕ) → b < 1 → IsBucket 1 full_nodes b []
full-IsBucket zero lt = record {
  links = refl;
  distinct = tt;
  high = tt;
  keyed = tt;
  empty = λ e. refl;
  unique = (tt, tt);
}
full-IsBucket (suc b) lt = absurd (omega arith)

full-IsHash : IsHash full.cache.hash (λ _. []) [] (λ _. 0)
unfolding total
full-IsHash = record {
  buckets = full-IsBucket;
  owned = λ b lt. tt;
  frees = refl;
  free_distinct = tt;
  unowned = tt;
  free_high = tt;
  count = refl;
  some_bucket = omega arith;
}

-- Only `old_key` is found.
full_found :
    (b j : ℕ) (e : Entry ℕ)
    → find full_nodes j (b ∷ []) ≡ some e
    → (j ≡ old_key) × (e ≡ record { value = 0; idx = 0 })
full_found b j e h = elim (ℕ_discrete j old_key) [
  | yes s ↦
      let h' : some (record { value = 0; idx = 0 }) ≡ some e = rw (eq→== j old_key s) at h in
      (s, same e (record { value = 0; idx = 0 }) h')
  | no ne ↦ absurd (let h' : none ≡ some e = rw (ne→== j old_key ne) at h in ground arith)
]
  where
    same : (a b : Entry ℕ) → some b ≡ some a → a ≡ b
    same a b e = cc

full_lookup :
    (j : ℕ) (e : Entry ℕ)
    → j ≢ undef
    → lookup full.cache.hash j ≡ some e
    → (j ≡ old_key) × (e ≡ record { value = 0; idx = 0 })
full_lookup j e jne l =
    full_found (bucket_of full.cache.hash j) j e
      (sym (lookup_bucket full.cache.hash (λ _. []) [] (λ _. 0) j full-IsHash jne) ∙ l)

full-IsCache : IsCache full.cache (0 ∷ []) []
unfolding ihash_get_fn walk
full-IsCache = record {
  chains = λ _. [];
  unchained = [];
  owner = λ _. 0;
  hash = full-IsHash;
  list = record {
    list = (refl, refl, (refl, refl));
    frees = refl;
    slots = record { inside = (omega arith, tt); distinct = (tt, tt); count = refl };
    small = omega arith;
  };
  held = (((λ e. omega (arith, e)), 0, refl), tt);
  listed = λ j jne other e l.
      let (s, is) = full_lookup j e jne l in
      subst (λ z. In z.idx (0 ∷ []) × (key_at full.cache.list z.idx ≡ j)) (sym is)
        (inl refl, sym s);
}

full-IsPages : IsPages 1 full (0 ∷ []) [] [] (0 ∷ [])
unfolding ihash_get_fn walk
full-IsPages = record {
  cached = full-IsCache;
  stacked = record {
    list = (refl, refl);
    frees = (refl, refl);
    slots = record { inside = (omega arith, tt); distinct = (tt, tt); count = refl };
    small = omega arith;
  };
  distinct = tt;
  owns = record {
    opened = λ j q jne e. let (s, is) = held j q jne e in (refl, omega (arith, is));
    apart = λ j k q jne kne e e'. (held j q jne e).0 ∙ sym (held k q kne e').0;
    no_leak = λ q h mine. (old_key, (λ e. omega (arith, e)), ap some (omega (arith, mine)));
    others = λ q h. refl;
  };
}
  where
    of_value :
        (j q : ℕ) (o : Option (Entry ℕ))
        → j ≢ undef
        → lookup full.cache.hash j ≡ o
        → value_of o ≡ some q
        → (j ≡ old_key) × (q ≡ 0)
    of_value j q none jne l e = absurd (ground arith)
    of_value j q (some v) jne l e =
        let (s, is) = full_lookup j v jne l in
        let e' : some v.value ≡ some q = e in
        let z : v.value ≡ 0 = ap (λ a. a.value) is in let z' : v.value ≡ q = cc in (s, sym z' ∙ z)

    held : (j q : ℕ) → j ≢ undef → held_value full.cache.hash j ≡ some q → (j ≡ old_key) × (q ≡ 0)
    held j q jne e = of_value j q (lookup full.cache.hash j) jne refl e

abbrev erased_at : Option (Ihash (Entry ℕ) × ℕ) → Ihash (Entry ℕ)
erased_at none = full.cache.hash
erased_at (some r) = r.0

-- The page of the old key is written to its place.
abbrev disk_written : Disk
disk_written = update disk 4096 55

touch_evict-Loaded_example :
    Loaded one_file 4096 1
      (pagecache_touch_fn one_file 4096 full new_key)
      new_key
      8192
      (λ j. if j == old_key then none else page_of full j)
unfolding icache_clear ihash_clear clear_buckets clear_chains ihash_get_fn ihash_touch_fn
    ihash_erase_fn erase_bucket default_hash_fn fdcache_touch_fn icache_get touch_opened
    fdcache_open enter put_front touch_front_fn touch_new_fn clear clear_nodes clear_loop walk
    append_node
touch_evict-Loaded_example =
    let first = fdcache_touch_fn one_file.files disk files 3 in
    let second = fdcache_touch_fn one_file.files disk_written (opened_at first) 4 in
    let rest = erased_at (ihash_erase_fn full.cache.hash old_key) in
    touch_evict-Loaded one_file 4096 1 new_key (λ e. omega (arith, e)) 8192 full [] 0 [] [] 0 [] 0 0
      rest (hash_at (ihash_touch_fn rest new_key)) 1 full-IsPages refl refl refl refl refl
      (record {
        opened = disk;
        files_after = opened_at first;
        file = file_at first;
        after = disk_written;
        count = 4096;
        opens = refl;
        writes = refl;
      })
      (record {
        opened = disk_written;
        files_after = opened_at second;
        file = file_at second;
        after = disk_written;
        opens = refl;
        reads = refl;
      })

abbrev disk_of : Option (PageCache Disk ℕ × ℕ) → ℕ → ℕ
disk_of none place = 0
disk_of (some r) place = r.0.world place

abbrev content_of : Option (PageCache Disk ℕ × ℕ) → ℕ
content_of none = 0
content_of (some r) = r.1

-- The new key gets the page of the old one, which is written to its place.
run_put_page :
    (disk_of (pagecache_put_page one_file 4096 full new_key) 4096 ≡ 55)
    × (content_of (pagecache_put_page one_file 4096 full new_key) ≡ 8192)
unfolding icache_clear ihash_clear clear_buckets clear_chains ihash_get_fn ihash_touch_fn
    ihash_erase_fn erase_bucket default_hash_fn fdcache_touch_fn icache_get touch_opened
    fdcache_open enter put_front put_back touch_front_fn touch_back_fn touch_new_fn clear
    clear_nodes clear_loop walk append_node pop_back pop_back_fn pagecache_put_page
    pagecache_touch_fn evict_page replace_page pagecache_write write_page write_answer open_page
    load_page pagecache_read read_into read_answer
run_put_page = (refl, refl)

-- A stack of three indices hands out 0 first.
run_fill : (pop_back (fill_stack 3 (clear (memory 3).list))).1 ≡ 0
unfolding fill_stack clear clear_nodes clear_loop put_back touch_back_fn touch_new_fn pop_back
    pop_back_fn
run_fill = refl
