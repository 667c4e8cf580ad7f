-- ===== src/Icache.antt =====
-- lib/core/src/icache.c and icache.h: a cache over an ihash and an ilist2. Each entry of the hash keeps
-- the index of its node in the list; the list holds the keys, the one used last in front. The offsets
-- of the parts within one piece of memory are left out. `none` says that a walk along a chain of the
-- hash did not finish.
pub mod Order
pub mod Touch
pub mod Evict
pub mod Members
mod Examples
use scroller.Prelude.{ℕ, ◌+◌, Bool, true, false, Option, none, some, ◌>>=◌, ◌==◌, if◌then◌else◌}
use scroller.Ihash.{
  Ihash, ihash_get_fn, ihash_touch_fn, ihash_erase_fn, ihash_init_fn, ihash_clear, Node,
}
use scroller.Ihash.Values.{write_value}
use scroller.Ihash.Put.{ihash_exists}
use scroller.Ilist2.{Ilist2, move_front_by_idx, put_front, pop_back, init, clear}
use scroller.Ilist2

-- User data, and the index behind it.
pub record Entry {ℓ} (A : Type ℓ) : Type ℓ where
  pub value : A
  pub idx : ℕ

pub record Icache {ℓ} (A : Type ℓ) : Type ℓ where
  pub hash : Ihash (Entry A)
  pub list : Ilist2 ℕ
  pub extrasz : ℕ

module _ {ℓ} {A : Type ℓ} where
  -- Over the memories `f` of the hash and `g` of the list; `none` is NULL.
  unfoldable pub icache_init_fn :
      (ℕ → Node (Entry A)) → (ℕ → Ilist2.Node ℕ) → ℕ → ℕ → Option (ℕ → ℕ) → ℕ → Option (Icache A)
  icache_init_fn f g bucketsz chainsz hash_fn extrasz = do
    hash ← ihash_init_fn f bucketsz chainsz hash_fn
    some (record { hash = hash; list = init g (bucketsz + chainsz); extrasz = extrasz })

  unfoldable pub icache_clear : Icache A → Option (ℕ → ℕ) → Icache A
  icache_clear cache hash_fn = record cache {
    hash = ihash_clear cache.hash hash_fn;
    list = clear cache.list;
  }

  unfoldable pub icache_get : Icache A → ℕ → Option (Option ℕ)
  icache_get cache key = ihash_get_fn cache.hash key

  unfoldable pub icache_exists : Icache A → ℕ → Option Bool
  icache_exists cache key = ihash_exists cache.hash key

  -- The key in front of the list, and its index in the entry `e` of the hash.
  unfoldable pub enter : Icache A → Ihash (Entry A) → Ilist2 ℕ → ℕ → ℕ → Icache A
  enter cache hash list e key =
      let put = put_front list key in
      record cache {
        hash = record hash {
          nodes = write_value hash.nodes e (record (hash.nodes e).value { idx = put.1 });
        };
        list = put.0;
      }

  -- The hash is full: the last key of the list leaves.
  unfoldable pub evict : Icache A → Ihash (Entry A) → ℕ → Option (Icache A × Option ℕ)
  unfolding enter
  evict cache hash key =
      let popped = pop_back cache.list in
      do
        erased ← ihash_erase_fn hash popped.1
        touched ← ihash_touch_fn erased.0 key
        some (elim touched.1 [
          | none ↦ (record cache { hash = touched.0; list = popped.0 }, none)
          | some e ↦ (enter cache touched.0 popped.0 e key, some e)
        ])

  -- The cache afterwards and the returned pointer.
  unfoldable pub icache_touch_fn : Icache A → ℕ → Option (Icache A × Option ℕ)
  unfolding enter evict
  icache_touch_fn cache key = do
    got ← icache_get cache key
    elim got [
      | some e ↦ some (
        record cache { list = move_front_by_idx cache.list (cache.hash.nodes e).value.idx },
        some e,
      )
      | none ↦ do
        touched ← ihash_touch_fn cache.hash key
        elim touched.1 [
          | some e ↦ some (enter cache touched.0 cache.list e key, some e)
          | none ↦ evict cache touched.0 key
        ]
    ]

  unfoldable pub icache_put_key : Icache A → ℕ → Option (Icache A × Option ℕ)
  icache_put_key cache key = icache_touch_fn cache key

  unfoldable pub icache_put : Icache A → ℕ → A → Option (Icache A × Option ℕ)
  icache_put cache key value = do
    touched ← icache_touch_fn cache key
    some (elim touched.1 [
      | none ↦ touched
      | some e ↦
          let hash = touched.0.hash in
          (
            record touched.0 {
              hash = record hash {
                nodes = write_value hash.nodes e (record (hash.nodes e).value { value = value });
              };
            },
            some e,
          )
    ])
