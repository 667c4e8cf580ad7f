-- ===== src/Ihash/Map.antt =====
-- A well-formed ihash: the chains of the buckets and the freelist share out the chain nodes.
use native.Mathlib.Nat.{mod-lt}
use scroller.Prelude.{
  ℕ, zero, suc, ◌+◌, ◌≤◌, ◌<◌, ◌≡◌, ◌≢◌, refl, sym, ap, ◌∙◌, List, [], ◌∷◌, map, length, arith, All,
  Distinct, update, update_self, update_ne, ℕ_discrete, subst,
}
use scroller.Ihash.{Ihash, Node, undef, bucket_of}
use scroller.Ihash.Chain.{Links, find, lookup, lookup-find, Links-agree}

-- The nodes of the chains of the first `n` buckets.
unfoldable pub total : (ℕ → List ℕ) → ℕ → ℕ
total chains zero = 0
total chains (suc n) = total chains n + length (chains n)

length-le-total : (chains : ℕ → List ℕ) (n b : ℕ) → b < n → length (chains b) ≤ total chains n
unfolding total
length-le-total chains zero b h = absurd (omega arith)
length-le-total chains (suc n) b h = elim (ℕ_discrete b n) [
  | yes e ↦ rw e (omega arith)
  | no ne ↦ omega (arith, length-le-total chains n b (omega arith))
]

total_beyond :
    (chains : ℕ → List ℕ) (b : ℕ) (ps : List ℕ) (n : ℕ)
    → n ≤ b
    → total (update chains b ps) n ≡ total chains n
unfolding total
total_beyond chains b ps zero h = refl
total_beyond chains b ps (suc n) h =
    rw (total_beyond chains b ps n (omega arith), update_ne chains b n ps (omega arith))

pub total-update :
    (chains : ℕ → List ℕ) (b : ℕ) (ps : List ℕ) (n : ℕ)
    → b < n
    → total (update chains b ps) n + length (chains b) ≡ total chains n + length ps
unfolding total
total-update chains b ps zero h = absurd (omega arith)
total-update chains b ps (suc n) h = elim (ℕ_discrete b n) [
  | yes e ↦ rw (← e) (
      omega (
        arith,
        total_beyond chains b ps b (omega arith),
        ap (length {0}) (update_self chains b ps),
      ))
  | no ne ↦ omega (
    arith,
    total-update chains b ps n (omega arith),
    ap (length {0}) (update_ne chains b n ps (λ e. ne (sym e))),
  )
]

pub total_nil : (n : ℕ) → total (λ _. []) n ≡ 0
unfolding total
total_nil zero = refl
total_nil (suc n) = omega (arith, total_nil n)

module _ {ℓ} {A : Type ℓ} where
  -- The keys of nodes.
  abbrev pub keys : (ℕ → Node A) → List ℕ → List ℕ
  keys f = map (λ p. (f p).key)

  -- The chain of bucket `b`.
  pub record IsBucket (n : ℕ) (f : ℕ → Node A) (b : ℕ) (ps : List ℕ) : Type 0 where
    pub links : Links n f b ps
    pub distinct : Distinct ps
    pub high : All (λ p. n ≤ p) ps
    pub keyed : All (λ p. (f p).key ≢ undef) ps
    pub empty : (f b).key ≡ undef → ps ≡ []
    pub unique : Distinct (keys f (b ∷ ps))

  -- The freelist from index `head` on.
  abbrev pub Free : ℕ → (ℕ → Node A) → ℕ → List ℕ → Type 0
  Free n f head [] = head ≡ undef
  Free n f head (p ∷ ps) = (head ≢ undef) × (n + head ≡ p) × Free n f (f p).next ps

  -- `owner p` is 0 for a free node and else the successor of its bucket.
  pub record IsHash (h : Ihash A) (chains : ℕ → List ℕ) (free : List ℕ) (owner : ℕ → ℕ)
      : Type 0 where
    pub buckets : (b : ℕ) → b < h.bucketsz → IsBucket h.bucketsz h.nodes b (chains b)
    pub owned : (b : ℕ) → b < h.bucketsz → All (λ p. owner p ≡ suc b) (chains b)
    pub frees : Free h.bucketsz h.nodes h.chain_head free
    pub free_distinct : Distinct free
    pub unowned : All (λ p. owner p ≡ 0) free
    pub free_high : All (λ p. h.bucketsz ≤ p) free
    pub count : total chains h.bucketsz + length free ≡ h.chainsz
    pub some_bucket : 1 ≤ h.bucketsz

  pub Free-agree :
      (n : ℕ) (f g : ℕ → Node A) (head : ℕ) (ps : List ℕ)
      → All (λ p. (g p).next ≡ (f p).next) ps
      → Free n f head ps
      → Free n g head ps
  Free-agree n f g head [] h t = t
  Free-agree n f g head (p ∷ ps) h t = (t.0, t.1, Free-agree n f g (g p).next ps h.1 (rw h.0 t.2))

  pub bucket_of-lt : (h : Ihash A) (key : ℕ) → 1 ≤ h.bucketsz → bucket_of h key < h.bucketsz
  bucket_of-lt h key pos' = mod-lt (h.hash_fn key) (omega arith)

  pub length_chain-le :
      (h : Ihash A) (chains : ℕ → List ℕ) (free : List ℕ) (owner : ℕ → ℕ) (b : ℕ)
      → IsHash h chains free owner
      → b < h.bucketsz
      → length (chains b) + length free ≤ h.chainsz
  length_chain-le h chains free owner b w lt =
      omega (arith, w.count, length-le-total chains h.bucketsz b lt)

  pub lookup_bucket :
      (h : Ihash A) (chains : ℕ → List ℕ) (free : List ℕ) (owner : ℕ → ℕ) (key : ℕ)
      → IsHash h chains free owner
      → key ≢ undef
      → lookup h key ≡ find h.nodes key (bucket_of h key ∷ chains (bucket_of h key))
  lookup_bucket h chains free owner key w ne =
      let b = bucket_of h key in
      let lt = bucket_of-lt h key w.some_bucket in
      let v = w.buckets b lt in
      let le = length-le-total chains h.bucketsz b lt in
      lookup-find h key (chains b) ne v.links (omega (arith, w.count, le)) v.empty

  pub keys-agree :
      (f g : ℕ → Node A) (ps : List ℕ) → All (λ p. g p ≡ f p) ps → keys g ps ≡ keys f ps
  keys-agree f g [] h = refl
  keys-agree f g (p ∷ ps) h = rw (h.0, keys-agree f g ps h.1)

  pub keyed-agree :
      (f g : ℕ → Node A) (ps : List ℕ)
      → All (λ p. g p ≡ f p) ps
      → All (λ p. (f p).key ≢ undef) ps
      → All (λ p. (g p).key ≢ undef) ps
  keyed-agree f g [] h k = tt
  keyed-agree f g (p ∷ ps) h k = (rw h.0 k.0, keyed-agree f g ps h.1 k.1)

  pub IsBucket-agree :
      (n : ℕ) (f g : ℕ → Node A) (b : ℕ) (ps : List ℕ)
      → g b ≡ f b
      → All (λ p. g p ≡ f p) ps
      → IsBucket n f b ps
      → IsBucket n g b ps
  IsBucket-agree n f g b ps h k v = record {
    links = Links-agree n f g b ps h k v.links;
    distinct = v.distinct;
    high = v.high;
    keyed = keyed-agree f g ps k v.keyed;
    empty = λ e. v.empty (sym (ap (λ c. c.key) h) ∙ e);
    unique = subst Distinct (sym (keys-agree f g (b ∷ ps) (h, k))) v.unique;
  }
