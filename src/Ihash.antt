-- ===== src/Ihash.antt =====
-- lib/core/src/ihash.c: a hash over integer keys. The nodes lie side by side: a bucket for each hash
-- value, then the chain nodes, whose indices count from behind the buckets. Keys and indices are
-- 64-bit words, IHASH_UNDEF is the largest. A pointer to a node is its place among all the nodes.
-- The walks along a chain take fuel; `unfinished` and `none` say that it ran out.
pub mod Chain
pub mod Map
pub mod Local
pub mod Values
pub mod Write
pub mod Extend
pub mod Append
pub mod Touch
pub mod Outcome
pub mod Put
pub mod Release
pub mod Unlink
pub mod Split
pub mod Leaving
pub mod Erase
pub mod Clear
pub mod Walk
pub mod Iterate
mod Examples
use scroller.Prelude.{
  ℕ, zero, suc, ◌+◌, ◌-◌, ◌%◌, ◌^◌, Bool, true, false, not, Option, none, some, ltb, ◌==◌,
  if◌then◌else◌, update,
}

-- `IHASH_UNDEF`
abbrev pub undef : ℕ
undef = 2 ^ 64 - 1

-- User data, with the key that lies in it, and the link behind it.
pub record Node {ℓ} (A : Type ℓ) : Type ℓ where
  pub value : A
  pub key : ℕ
  pub next : ℕ

pub record Ihash {ℓ} (A : Type ℓ) : Type ℓ where
  pub bucketsz : ℕ
  pub chainsz : ℕ
  pub chain_head : ℕ
  pub hash_fn : ℕ → ℕ
  pub nodes : ℕ → Node A

-- `ihash_default_hash_fn`
unfoldable pub default_hash_fn : ℕ → ℕ
default_hash_fn key = key

-- A walk ends at the node with the key, or at the last node of the chain.
pub data Search : Type 0 where
  found missing : ℕ → Search
  unfinished : Search

-- `none` where the walk does not finish, else the returned pointer.
abbrev pub answer : Search → Option (Option ℕ)
answer (found e) = some (some e)
answer (missing e) = some none
answer unfinished = none

pub record Iterator : Type 0 where
  pub bucket_idx : ℕ
  pub datum : Option ℕ

module _ {ℓ} {A : Type ℓ} where
  abbrev pub write_key : (ℕ → Node A) → ℕ → ℕ → ℕ → Node A
  write_key f p k = update f p (record (f p) { key = k })

  abbrev pub write_next : (ℕ → Node A) → ℕ → ℕ → ℕ → Node A
  write_next f p k = update f p (record (f p) { next = k })

  -- `idx * nodesz` from the chains on.
  abbrev pub chain_place : Ihash A → ℕ → ℕ
  chain_place h idx = h.bucketsz + idx

  -- The index of the bucket.
  abbrev pub bucket_of : Ihash A → ℕ → ℕ
  bucket_of h key = h.hash_fn key % h.bucketsz

  -- The first loop of `ihash_clear`, from node `e` on.
  unfoldable pub clear_buckets : ℕ → ℕ → (ℕ → Node A) → ℕ → Node A
  clear_buckets zero e f = f
  clear_buckets (suc n) e f = clear_buckets n (e + 1) (write_next (write_key f e undef) e undef)

  -- The second loop, at chain node `i` in place `e`.
  unfoldable pub clear_chains : ℕ → ℕ → ℕ → (ℕ → Node A) → ℕ → Node A
  clear_chains zero i e f = f
  clear_chains (suc n) i e f =
      clear_chains n (i + 1) (e + 1) (write_next (write_key f e undef) e (i + 1))

  unfoldable pub ihash_clear : Ihash A → Option (ℕ → ℕ) → Ihash A
  unfolding clear_buckets clear_chains
  ihash_clear h hash_fn =
      let f = clear_chains h.chainsz 0 h.bucketsz (clear_buckets h.bucketsz 0 h.nodes) in
      let fn = elim hash_fn as (λ _. ℕ → ℕ) [ none ↦ default_hash_fn | some g ↦ g ] in
      if ltb 0 h.chainsz
      then record h {
        hash_fn = fn;
        chain_head = 0;
        nodes = write_next f (h.bucketsz + h.chainsz - 1) undef;
      }
      else record h { hash_fn = fn; chain_head = undef; nodes = f }

  -- Over the memory `f`; `none` is NULL.
  unfoldable pub ihash_init_fn : (ℕ → Node A) → ℕ → ℕ → Option (ℕ → ℕ) → Option (Ihash A)
  unfolding ihash_clear
  ihash_init_fn f bucketsz chainsz hash_fn =
      if bucketsz == 0
      then none
      else some (
          ihash_clear
            (record {
              bucketsz = bucketsz;
              chainsz = chainsz;
              chain_head = 0;
              hash_fn = default_hash_fn;
              nodes = f;
            })
            hash_fn)

  -- The loop that `ihash_get_fn` and `ihash_touch_fn` share, at node `e`.
  unfoldable pub walk : ℕ → Ihash A → ℕ → ℕ → Search
  walk zero h key e = unfinished
  walk (suc fuel) h key e =
      let rest = walk fuel h key (chain_place h (h.nodes e).next) in
      if key == (h.nodes e).key
      then found e
      else if undef == (h.nodes e).next
      then missing e
      else rest

  -- A chain has at most all the chain nodes behind its bucket.
  abbrev pub walk_fuel : Ihash A → ℕ
  walk_fuel h = h.chainsz + 1

  unfoldable pub ihash_get_fn : Ihash A → ℕ → Option (Option ℕ)
  unfolding walk
  ihash_get_fn h key =
      let e = bucket_of h key in
      if undef == (h.nodes e).key then some none else answer (walk (walk_fuel h) h key e)

  -- Case 3 of `ihash_touch_fn`: a node from the freelist behind the last node `e` of the chain.
  unfoldable pub append_node : Ihash A → ℕ → ℕ → Ihash A × Option ℕ
  append_node h key e =
      let new_node = chain_place h h.chain_head in
      let f = write_next h.nodes e h.chain_head in
      if h.chain_head == undef then (h, none) else (
        record h {
          chain_head = (f new_node).next;
          nodes = write_next (write_key f new_node key) new_node undef;
        },
        some new_node,
      )

  -- The hash afterwards and the returned pointer.
  unfoldable pub ihash_touch_fn : Ihash A → ℕ → Option (Ihash A × Option ℕ)
  unfolding walk append_node
  ihash_touch_fn h key =
      let e = bucket_of h key in
      if undef == (h.nodes e).key
      then some (record h { nodes = write_next (write_key h.nodes e key) e undef }, some e)
      else elim (walk (walk_fuel h) h key e) [
        | found p ↦ some (h, some p)
        | missing p ↦ some (append_node h key p)
        | unfinished ↦ none
      ]

  -- Node `idx` in place `e` goes on top of the freelist.
  abbrev pub release : Ihash A → (ℕ → Node A) → ℕ → ℕ → Ihash A
  release h f e idx = record h {
    nodes = write_next (write_key f e undef) e h.chain_head;
    chain_head = idx;
  }

  -- The loop of case 3 of `ihash_erase_fn`.
  unfoldable pub erase_chain : ℕ → Ihash A → ℕ → ℕ → ℕ → Option (Ihash A × ℕ)
  erase_chain zero h key prev cur_idx = none
  erase_chain (suc fuel) h key prev cur_idx =
      let e = chain_place h cur_idx in
      let next_idx = (h.nodes e).next in
      let rest = erase_chain fuel h key e next_idx in
      if undef == cur_idx
      then some (h, 0)
      else if key == (h.nodes e).key
      then some (release h (write_next h.nodes prev next_idx) e cur_idx, 1)
      else rest

  -- Case 2: the key is in the bucket `e`.
  unfoldable pub erase_bucket : Ihash A → ℕ → Ihash A
  erase_bucket h e =
      let next_idx = (h.nodes e).next in
      let first_node = chain_place h next_idx in
      if undef == next_idx
      then record h { nodes = write_next (write_key h.nodes e undef) e undef }
      else release h (update h.nodes e (h.nodes first_node)) first_node next_idx

  unfoldable pub ihash_erase_fn : Ihash A → ℕ → Option (Ihash A × ℕ)
  unfolding erase_chain erase_bucket
  ihash_erase_fn h key =
      let e = bucket_of h key in
      if undef == (h.nodes e).key
      then some (h, 0)
      else if key == (h.nodes e).key
      then some (erase_bucket h e, 1)
      else erase_chain (walk_fuel h) h key e (h.nodes e).next

  -- `n` buckets from `idx` on to look at.
  unfoldable pub next_occupied : ℕ → Ihash A → ℕ → ℕ
  next_occupied zero h idx = idx
  next_occupied (suc n) h idx =
      let rest = next_occupied n h (idx + 1) in
      if not (undef == (h.nodes idx).key) then idx else rest

  unfoldable pub ihash_next_occupied_bucket : Ihash A → ℕ → ℕ
  unfolding next_occupied
  ihash_next_occupied_bucket h idx = next_occupied (h.bucketsz - idx) h idx

  abbrev pub at_bucket : Ihash A → ℕ → Iterator
  at_bucket h idx = record {
    bucket_idx = idx;
    datum = if idx == h.bucketsz then none else some idx;
  }

  unfoldable pub ihash_begin : Ihash A → Iterator
  unfolding ihash_next_occupied_bucket
  ihash_begin h = at_bucket h (ihash_next_occupied_bucket h 0)

  -- At the datum `e` of the iterator.
  unfoldable pub ihash_next : Ihash A → ℕ → ℕ → Iterator
  unfolding ihash_next_occupied_bucket
  ihash_next h bucket_idx e =
      let next_idx = (h.nodes e).next in
      if next_idx == undef
      then at_bucket h (ihash_next_occupied_bucket h (bucket_idx + 1))
      else record { bucket_idx = bucket_idx; datum = some (chain_place h next_idx) }
