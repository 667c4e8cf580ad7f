-- ===== src/Pagecache.antt =====
-- lib/core/src/pagecache.c and pagecache.h: pages of files in memory, an icache whose entries hold the
-- index of a page, and a stack of the indices that no key has. The descriptors come from the cache of
-- open files. The calls of the operating system are parameters. `none` says that a walk along a chain
-- of a hash did not finish, or that NULL is followed where the asserts are off.
pub mod Owned
pub mod Loaded
pub mod Evict
pub mod Cleared
mod Examples
use scroller.Prelude.{
  ℕ, zero, suc, ◌+◌, ◌*◌, ◌%◌, ◌^◌, Bool, true, false, Option, none, some, List, ◌>>=◌, ◌==◌,
  if◌then◌else◌, update, ℤ, pos, negsuc,
}
use scroller.Gid.{page, file_id}
use scroller.Ihash.{Ihash, Node, undef, ihash_get_fn, ihash_touch_fn, ihash_erase_fn}
use scroller.Ilist2.{Ilist2, move_front_by_idx, pop_back, put_back, init, clear}
use scroller.Ilist2
use scroller.Icache.{Icache, Entry, enter, icache_get, icache_clear, icache_init_fn}
use scroller.Icache.Members.{set_value}
use scroller.Fdcache.{Files, FdCache, fdcache_touch_fn}

-- pread(2) of a page into one that holds the given bytes, and pwrite(2) of a page, at an offset. The
-- first gives what the page holds afterwards, the second the number of bytes; `none` is -1.
pub record PageFiles (W P : Type 0) : Type 0 where
  pub files : Files W
  pub pread : W → ℕ → P → ℕ → W × Option P
  pub pwrite : W → ℕ → P → ℕ → W × Option ℕ

-- With `g_fdcache`, `g_pages` and the state of the operating system. The member `page_idx` is the value
-- of an entry; `stack` is what `icache_get_extra` gives.
pub record PageCache (W P : Type 0) : Type 0 where
  pub world : W
  pub fdcache : FdCache
  pub cache : Icache ℕ
  pub stack : Ilist2 ℕ
  pub pages : ℕ → P

-- The loops of `pagecache_init_fn` and `pagecache_clear`: from `n - 1` down to 0.
unfoldable pub fill_stack : ℕ → Ilist2 ℕ → Ilist2 ℕ
fill_stack zero stack = stack
fill_stack (suc n) stack = fill_stack n (put_back stack n).0

-- Over the memories `f` and `g` of the icache and `k` of the stack; `none` is NULL.
unfoldable pub pagecache_init_fn :
    (ℕ → Node (Entry ℕ))
    → (ℕ → Ilist2.Node ℕ)
    → (ℕ → Ilist2.Node ℕ)
    → ℕ
    → ℕ
    → Option (ℕ → ℕ)
    → ℕ
    → Option (Icache ℕ × Ilist2 ℕ)
pagecache_init_fn f g k bucketsz chainsz hash_fn extrasz = do
  cache ← icache_init_fn f g bucketsz chainsz hash_fn extrasz
  some (cache, fill_stack (bucketsz + chainsz) (init k (bucketsz + chainsz)))

-- `granted` is the answer of malloc.
unfoldable pub pagecache_create_fn :
    Bool
    → (ℕ → Node (Entry ℕ))
    → (ℕ → Ilist2.Node ℕ)
    → (ℕ → Ilist2.Node ℕ)
    → ℕ
    → ℕ
    → Option (ℕ → ℕ)
    → ℕ
    → Option (Icache ℕ × Ilist2 ℕ)
pagecache_create_fn granted f g k bucketsz chainsz hash_fn extrasz =
    if bucketsz == 0
    then none
    else if granted
    then pagecache_init_fn f g k bucketsz chainsz hash_fn extrasz
    else none

module _ {W P : Type 0} where
  unfoldable pub pagecache_clear : PageCache W P → Option (ℕ → ℕ) → PageCache W P
  pagecache_clear s hash_fn = record s {
    cache = icache_clear s.cache hash_fn;
    stack = fill_stack (s.cache.hash.bucketsz + s.cache.hash.chainsz) (clear s.stack);
  }

module _ {W P : Type 0} where
  -- The answer of pread for the index `idx`. PAGECACHE_UNDEF is `undef`.
  unfoldable pub read_answer : PageCache W P → ℕ → W × Option P → PageCache W P × ℕ
  read_answer s idx (w, none) = (record s { world = w }, undef)
  read_answer s idx (w, some p) = (record s { world = w; pages = update s.pages idx p }, idx)

  -- The answer of pwrite for the index `idx`.
  unfoldable pub write_answer : PageCache W P → ℕ → Option ℕ → PageCache W P × ℕ
  write_answer s idx none = (s, undef)
  write_answer s idx (some n) =
      let put = put_back s.stack idx in (record s { stack = put.0 }, put.1)

module _ {W P : Type 0} (io : PageFiles W P) (pagesz : ℕ) where
  -- `key.parts.page * PAGESZ`
  abbrev pub offset : ℕ → ℕ
  offset key = page key * pagesz % 2 ^ 64

  -- `fdcache_put(g_fdcache, key.parts.file_id)`, with the descriptor that is read behind it.
  unfoldable pub open_page : PageCache W P → ℕ → Option (PageCache W P × ℕ)
  open_page s key = do
    touched ← fdcache_touch_fn io.files s.world s.fdcache (file_id key)
    e ← touched.2
    some (record s { world = touched.0; fdcache = touched.1 }, (touched.1.hash.nodes e).value.value)

  -- Behind `ilist2_pop_back` of the index `idx`.
  unfoldable pub read_into : PageCache W P → ℕ → ℕ → Option (PageCache W P × ℕ)
  unfolding open_page read_answer
  read_into s idx key = do
    opened ← open_page s key
    some (
        read_answer opened.0 idx
          (io.pread opened.0.world opened.1 (opened.0.pages idx) (offset key)))

  unfoldable pub pagecache_read : PageCache W P → ℕ → Option (PageCache W P × ℕ)
  unfolding read_into
  pagecache_read s key =
      let popped = pop_back s.stack in read_into (record s { stack = popped.0 }) popped.1 key

  -- The index of the page of a key, where there is one, and the answer of pwrite.
  unfoldable pub write_page : PageCache W P → ℕ → Option (PageCache W P × ℕ × Option ℕ)
  unfolding open_page
  write_page s key = do
    opened ← open_page s key
    got ← ihash_get_fn s.cache.hash key
    e ← got
    let idx = (s.cache.hash.nodes e).value.value in
        let r = io.pwrite opened.0.world opened.1 (opened.0.pages idx) (offset key) in
        some (record opened.0 { world = r.0 }, idx, r.1)

  unfoldable pub pagecache_write : PageCache W P → ℕ → Option (PageCache W P × ℕ)
  unfolding write_page write_answer
  pagecache_write s key = do
    written ← write_page s key
    some (write_answer written.0 written.1 written.2)

  -- Behind the touch of the hash that gave the entry `e`.
  unfoldable pub load_page : PageCache W P → Ihash (Entry ℕ) → ℕ → ℕ → Option (PageCache W P × ℕ)
  unfolding pagecache_read
  load_page s hash e key = do
    read ← pagecache_read s key
    some (
      record read.0 {
        cache = enter read.0.cache (set_value hash e read.1) read.0.cache.list e key;
      },
      e,
    )

  -- The hash is full, and `lru_key` was popped from the list: its page is written, and it leaves.
  unfoldable pub replace_page : PageCache W P → ℕ → ℕ → Option (PageCache W P × ℕ)
  unfolding load_page pagecache_write
  replace_page s lru_key key = do
    written ← pagecache_write s lru_key
    erased ← ihash_erase_fn written.0.cache.hash lru_key
    touched ← ihash_touch_fn erased.0 key
    e ← touched.1
    load_page (record written.0 { cache = record written.0.cache { hash = touched.0 } }) touched.0 e
        key

  unfoldable pub evict_page : PageCache W P → ℕ → Option (PageCache W P × ℕ)
  unfolding replace_page
  evict_page s key =
      let popped = pop_back s.cache.list in
      replace_page (record s { cache = record s.cache { list = popped.0 } }) popped.1 key

  -- The state afterwards and the returned pointer.
  unfoldable pub pagecache_touch_fn : PageCache W P → ℕ → Option (PageCache W P × ℕ)
  unfolding load_page evict_page
  pagecache_touch_fn s key = do
    got ← icache_get s.cache key
    elim got [
      | some e ↦ some (
        record s {
          cache = record s.cache {
            list = move_front_by_idx s.cache.list (s.cache.hash.nodes e).value.idx;
          };
        },
        e,
      )
      | none ↦ do
        touched ← ihash_touch_fn s.cache.hash key
        elim touched.1 [
          | some e ↦
              load_page (record s { cache = record s.cache { hash = touched.0 } }) touched.0 e key
          | none ↦ evict_page (record s { cache = record s.cache { hash = touched.0 } }) key
        ]
    ]

  -- The state afterwards and what the page holds.
  unfoldable pub pagecache_put_page : PageCache W P → ℕ → Option (PageCache W P × P)
  pagecache_put_page s key = do
    touched ← pagecache_touch_fn s key
    some (touched.0, touched.0.pages (touched.0.cache.hash.nodes touched.1).value.value)

  -- The state afterwards and the status: 0, or what pwrite gave.
  unfoldable pub pagecache_flush : PageCache W P → ℕ → Option (PageCache W P × ℤ)
  unfolding write_page
  pagecache_flush s key = do
    written ← write_page s key
    some (
      written.0,
      elim written.2 [ none ↦ negsuc 0 | some n ↦ if n == pagesz then pos 0 else pos n ],
    )
