-- ===== src/Fdcache.antt =====
-- lib/core/src/fdcache.c and fdcache.h: a cache of open files, an icache whose entries hold a file
-- descriptor. The calls of the operating system are the operations of `Files`, over its state; the
-- steps return that state with the cache. `none` says that a walk along a chain of the hash did not
-- finish.
pub mod Owner
pub mod Touch
pub mod Owned
mod Examples
use scroller.Prelude.{
  ℕ, zero, suc, ◌+◌, ◌≡◌, Bool, true, false, Option, none, some, List, ◌>>=◌, ◌==◌, if◌then◌else◌,
}
use scroller.Gid.{gid_of, gid2hex}
use scroller.Ihash.{
  Ihash, ihash_get_fn, ihash_touch_fn, ihash_erase_fn, ihash_begin, ihash_next, Iterator,
}
use scroller.Ihash.Put.{ihash_is_valid}
use scroller.Ilist2.{Ilist2, move_front_by_idx, pop_back}
use scroller.Icache.Members.{set_value}
use scroller.Icache.{Icache, Entry, enter, icache_get, icache_clear}

-- open(2) of a path, where `none` is -1, and close(2).
pub record Files (W : Type 0) : Type 0 where
  pub open_file : W → List ℕ → W × Option ℕ
  pub close_file : W → ℕ → W

-- The member `fd` is the value of an entry; the key is that of the node.
abbrev pub FdCache : Type 0
FdCache = Icache ℕ

module _ {W : Type 0} (files : Files W) where
  unfoldable pub fdcache_open : W → ℕ → W × Option ℕ
  fdcache_open w key = files.open_file w (gid2hex (gid_of key 0))

  unfoldable pub fdcache_close : W → ℕ → W
  fdcache_close w fd = files.close_file w fd

-- `((FdCache *)(e))->fd = fd`
abbrev pub set_fd : Ihash (Entry ℕ) → ℕ → ℕ → Ihash (Entry ℕ)
set_fd hash e fd = set_value hash e fd

-- `ihash_get_member(hash, key, fd)`, which is 0 for a key that is not there.
abbrev pub get_fd : Ihash (Entry ℕ) → Option ℕ → ℕ
get_fd hash got = elim got [ none ↦ 0 | some e ↦ (hash.nodes e).value.value ]

module _ {W : Type 0} (files : Files W) where
  -- The end of the eviction, at the result of the second touch of the hash.
  unfoldable pub enter_or_close :
      W → FdCache → Ilist2 ℕ → Ihash (Entry ℕ) × Option ℕ → ℕ → ℕ → W × FdCache × Option ℕ
  enter_or_close w cache list touched key fd = elim touched.1 [
    | none ↦ (fdcache_close files w fd, record cache { hash = touched.0; list = list }, none)
    | some e ↦ (w, enter cache (set_fd touched.0 e fd) list e key, some e)
  ]

  -- The hash is full: the file of the last key of the list is closed, and the key leaves.
  unfoldable pub evict : W → FdCache → Ihash (Entry ℕ) → ℕ → ℕ → Option (W × FdCache × Option ℕ)
  unfolding enter_or_close
  evict w cache hash key fd =
      let popped = pop_back cache.list in
      do
        got ← ihash_get_fn hash popped.1
        erased ← ihash_erase_fn hash popped.1
        touched ← ihash_touch_fn erased.0 key
        some
            (enter_or_close (fdcache_close files w (get_fd hash got)) cache popped.0 touched key fd)

  -- Behind the call of `fdcache_open`.
  unfoldable pub touch_opened : W → Option ℕ → FdCache → ℕ → Option (W × FdCache × Option ℕ)
  unfolding evict
  touch_opened w none cache key = some (w, cache, none)
  touch_opened w (some fd) cache key = do
    touched ← ihash_touch_fn cache.hash key
    elim touched.1 [
      | some e ↦ some (w, enter cache (set_fd touched.0 e fd) cache.list e key, some e)
      | none ↦ evict w cache touched.0 key fd
    ]

  -- The state of the system and the cache afterwards, and the returned pointer.
  unfoldable pub fdcache_touch_fn : W → FdCache → ℕ → Option (W × FdCache × Option ℕ)
  unfolding touch_opened
  fdcache_touch_fn w cache key = do
    got ← icache_get cache key
    elim got [
      | some e ↦ some (
        w,
        record cache { list = move_front_by_idx cache.list (cache.hash.nodes e).value.idx },
        some e,
      )
      | none ↦ let opened = fdcache_open files w key in touch_opened opened.0 opened.1 cache key
    ]

  -- The loop that `fdcache_clear` and `fdcache_free` share, from the iterator on.
  unfoldable pub close_from : ℕ → W → Ihash (Entry ℕ) → Iterator → W
  close_from zero w hash i = w
  close_from (suc fuel) w hash i =
      let e = elim i.datum as (λ _. ℕ) [ none ↦ 0 | some e ↦ e ] in
      let rest =
        close_from fuel (fdcache_close files w (hash.nodes e).value.value) hash
          (ihash_next hash i.bucket_idx e) in
      if ihash_is_valid hash i then rest else w

  -- There are no more nodes than buckets and chain nodes.
  abbrev pub close_all : W → Ihash (Entry ℕ) → W
  close_all w hash = close_from (hash.bucketsz + hash.chainsz) w hash (ihash_begin hash)

  unfoldable pub fdcache_clear : W → FdCache → Option (ℕ → ℕ) → W × FdCache
  fdcache_clear w cache hash_fn = (close_all w cache.hash, icache_clear cache hash_fn)

  unfoldable pub fdcache_free : W → FdCache → W
  fdcache_free w cache = close_all w cache.hash
