-- ===== src/Ihash/Examples.antt =====
-- A hash of two buckets and two chain nodes, and the theorems at it.
use scroller.Prelude.{
  ℕ, ◌≡◌, ◌≢◌, ◌⊎◌, refl, Option, none, some, List, [], ◌∷◌, All, arith, ◌<◌, zero, suc, true,
  false, ◌==◌, if◌then◌else◌,
}
use scroller.Ihash.{
  Ihash, Node, undef, ihash_init_fn, ihash_clear, clear_buckets, clear_chains, ihash_get_fn,
  ihash_touch_fn, ihash_erase_fn, erase_chain, erase_bucket, walk, append_node, default_hash_fn,
  ihash_begin, next_occupied, ihash_next_occupied_bucket,
}
use scroller.Ihash.Chain.{lookup}
use scroller.Ihash.Map.{total, IsHash, IsBucket}
use scroller.Ihash.Put.{ihash_put, ihash_exists, put-lookup, exists-lookup}
use scroller.Ihash.Erase.{present, erase-lookup}

abbrev node : ℕ → ℕ → Node ℕ
node key next = record { value = 0; key = key; next = next }

-- Key 4 in bucket 0, key 6 behind it in chain node 0, bucket 1 empty, and chain node 1 free.
abbrev even_nodes : ℕ → Node ℕ
even_nodes p = if p == 0 then node 4 0 else if p == 2 then node 6 undef else node undef undef

abbrev even : Ihash ℕ
even = record {
  bucketsz = 2;
  chainsz = 2;
  chain_head = 1;
  hash_fn = default_hash_fn;
  nodes = even_nodes;
}

-- The number of a place, 100 for NULL, and 200 for a walk that does not finish.
abbrev number : Option (Option ℕ) → ℕ
number none = 200
number (some none) = 100
number (some (some p)) = p

abbrev touched : Option (Ihash ℕ × Option ℕ) → Ihash ℕ × ℕ
touched none = (even, 200)
touched (some (h, o)) = (h, number (some o))

abbrev erased : Option (Ihash ℕ × ℕ) → Ihash ℕ × ℕ
erased none = (even, 200)
erased (some r) = r

-- Touch three keys of one bucket and one of the other, erase the first, and look them up.
run_results : Ihash ℕ → List ℕ
run_results h0 =
    let (h1, a) = touched (ihash_touch_fn h0 4) in
    let (h2, b) = touched (ihash_touch_fn h1 6) in
    let (h3, c) = touched (ihash_touch_fn h2 8) in
    let (h4, d) = touched (ihash_touch_fn h3 10) in
    let (h5, e) = erased (ihash_erase_fn h4 4) in
    let (h6, f) = erased (ihash_erase_fn h5 8) in
    a
    ∷ b
    ∷ c
    ∷ d
    ∷ e
    ∷ f
    ∷ number (ihash_get_fn h6 4)
    ∷ number (ihash_get_fn h6 6)
    ∷ number (ihash_get_fn h6 8)
    ∷ number (some (ihash_begin h6).datum)
    ∷ h6.chain_head
    ∷ []

fresh : Option (Ihash ℕ)
fresh = ihash_init_fn (λ _. node 1 1) 2 2 none

run_output :
    elim fresh as (λ _. List ℕ) [ none ↦ [] | some h ↦ run_results h ]
    ≡ 0 ∷ 2 ∷ 3 ∷ 100 ∷ 1 ∷ 1 ∷ 100 ∷ 0 ∷ 100 ∷ 0 ∷ 1 ∷ []
unfolding fresh run_results ihash_init_fn ihash_clear clear_buckets clear_chains ihash_get_fn
    ihash_touch_fn ihash_erase_fn erase_chain erase_bucket walk append_node default_hash_fn
    ihash_begin next_occupied ihash_next_occupied_bucket
run_output = refl

abbrev even_chains : ℕ → List ℕ
even_chains b = if b == 0 then 2 ∷ [] else []

abbrev even_owner : ℕ → ℕ
even_owner p = if p == 2 then 1 else 0

even-buckets : (b : ℕ) → b < 2 → IsBucket 2 even_nodes b (even_chains b)
even-buckets zero lt = record {
  links = (λ e. omega (arith, e), refl, refl);
  distinct = (tt, tt);
  high = (omega arith, tt);
  keyed = (λ e. omega (arith, e), tt);
  empty = λ e. absurd (omega (arith, e));
  unique = ((λ e. omega (arith, e), tt), (tt, tt));
}
even-buckets (suc zero) lt = record {
  links = refl;
  distinct = tt;
  high = tt;
  keyed = tt;
  empty = λ e. refl;
  unique = (tt, tt);
}
even-buckets (suc (suc b)) lt = absurd (omega arith)

even-owned : (b : ℕ) → b < 2 → All (λ p. even_owner p ≡ suc b) (even_chains b)
even-owned zero lt = (refl, tt)
even-owned (suc zero) lt = tt
even-owned (suc (suc b)) lt = absurd (omega arith)

even-IsHash : IsHash even even_chains (3 ∷ []) even_owner
unfolding total
even-IsHash = record {
  buckets = even-buckets;
  owned = even-owned;
  frees = (λ e. omega (arith, e), refl, refl);
  free_distinct = (tt, tt);
  unowned = (refl, tt);
  free_high = (omega arith, tt);
  count = refl;
  some_bucket = omega arith;
}

-- Key 8 takes the free chain node.
put-lookup_example :
    ((r : Ihash ℕ) × (p : ℕ) × (chains : ℕ → List ℕ) × (free : List ℕ) × (owner : ℕ → ℕ)
      × (ihash_put even 8 7 ≡ some (r, some p))
      × IsHash r chains free owner
      × ((j : ℕ) → j ≢ undef → lookup r j ≡ (if j == 8 then some 7 else lookup even j)))
    ⊎ ((ihash_put even 8 7 ≡ some (even, none))
        × (lookup even 8 ≡ none)
        × (◌≡◌ {A = List ℕ} (3 ∷ []) []))
put-lookup_example =
    put-lookup even even_chains (3 ∷ []) even_owner 8 even-IsHash 7 (λ e. omega (arith, e))

exists-lookup_example :
    ihash_exists even 6 ≡ some (elim (lookup even 6) [ none ↦ false | some v ↦ true ])
exists-lookup_example =
    exists-lookup even even_chains (3 ∷ []) even_owner 6 even-IsHash (λ e. omega (arith, e))

-- Key 4 is in the bucket, and key 6 moves there.
erase-lookup_example :
    (r : Ihash ℕ) × (chains : ℕ → List ℕ) × (free : List ℕ) × (owner : ℕ → ℕ) × (ihash_erase_fn even
        4
      ≡ some (r, present (lookup even 4)))
    × IsHash r chains free owner
    × ((j : ℕ) → j ≢ undef → lookup r j ≡ (if j == 4 then none else lookup even j))
erase-lookup_example =
    erase-lookup even even_chains (3 ∷ []) even_owner 4 even-IsHash (λ e. omega (arith, e))
