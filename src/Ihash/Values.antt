-- ===== src/Ihash/Values.antt =====
-- Writing the user data of the node that `ihash_get_fn` or `ihash_touch_fn` returned.
use scroller.Prelude.{
  ℕ, suc, ◌+◌, ◌≤◌, ◌<◌, ◌≡◌, ◌≢◌, ◌⊎◌, inl, inr, refl, sym, ap, ◌∙◌, some, List, [], ◌∷◌, ◌==◌,
  if◌then◌else◌, Bool, true, false, Bool-cases, arith, All, In, All-at, NotIn, Distinct, update,
  update_self, update_ne, ℕ_discrete, subst, eq-of-==, eq→==, ne→==,
}
use scroller.Ihash.{Node, undef, Search, found, missing, unfinished, answer}
use scroller.Ihash.Chain.{Links, seek, find, find-agree}
use scroller.Ihash.Map.{keys, Free, IsBucket}

-- A test that is made twice, and two tests of which one excludes the other.
again {ℓ} :
    {B : Type ℓ} (t : Bool) (x y z : B)
    → (if t then x else z) ≡ (if t then x else if t then y else z)
again true x y z = refl
again false x y z = refl

swap_tests {ℓ} :
    {B : Type ℓ} (j a b : ℕ) (x y z : B)
    → a ≢ b
    → (if j == a then x else if j == b then y else z)
      ≡ (if j == b then y else if j == a then x else z)
swap_tests j a b x y z ne = elim (ℕ_discrete j a) [
  | yes e ↦ rw (eq→== j a e, ne→== j b (λ q. ne (sym e ∙ q)))
  | no ne' ↦ rw (ne→== j a ne')
]

-- The nodes of bucket `b`: the bucket and its chain.
abbrev pub OfBucket : ℕ → (ℕ → ℕ) → ℕ → ℕ → Type 0
OfBucket n owner b p = (p ≡ b) ⊎ ((n ≤ p) × (owner p ≡ suc b))

pub OfBucket-chain :
    (n : ℕ) (owner : ℕ → ℕ) (b : ℕ) (ps : List ℕ)
    → All (λ p. n ≤ p) ps
    → All (λ p. owner p ≡ suc b) ps
    → All (OfBucket n owner b) ps
OfBucket-chain n owner b [] h k = tt
OfBucket-chain n owner b (p ∷ ps) h k = (inr (h.0, k.0), OfBucket-chain n owner b ps h.1 k.1)

-- A node of another bucket is not this one.
pub OfBucket-low :
    (n : ℕ) (owner : ℕ → ℕ) (b p q : ℕ) → OfBucket n owner b p → q < n → q ≢ b → q ≢ p
OfBucket-low n owner b p q (inl e) lt ne = λ h. ne (h ∙ e)
OfBucket-low n owner b p q (inr h) lt ne = λ e. omega (arith, h.0, e)

pub OfBucket-high :
    (n : ℕ) (owner : ℕ → ℕ) (b p q : ℕ)
    → OfBucket n owner b p
    → b < n
    → n ≤ q
    → owner q ≢ suc b
    → q ≢ p
OfBucket-high n owner b p q (inl e) lt le ne = λ h. omega (arith, h, e)
OfBucket-high n owner b p q (inr h) lt le ne = λ e. ne (ap owner e ∙ h.1)

pub answer-found : (s : Search) {p : ℕ} → answer s ≡ some (some p) → s ≡ found p
answer-found (found q) e = cc
answer-found (missing q) e = absurd (ground arith)
answer-found unfinished e = absurd (ground arith)

module _ {ℓ} {A : Type ℓ} where
  abbrev pub write_value : (ℕ → Node A) → ℕ → A → ℕ → Node A
  write_value f p v = update f p (record (f p) { value = v })

  pub key-write_value :
      (f : ℕ → Node A) (p : ℕ) (v : A) (q : ℕ) → (write_value f p v q).key ≡ (f q).key
  key-write_value f p v q = elim (ℕ_discrete q p) [
    | yes e ↦ rw (e, update_self f p (record (f p) { value = v }))
    | no ne ↦ rw (update_ne f p q (record (f p) { value = v }) ne)
  ]

  pub next-write_value :
      (f : ℕ → Node A) (p : ℕ) (v : A) (q : ℕ) → (write_value f p v q).next ≡ (f q).next
  next-write_value f p v q = elim (ℕ_discrete q p) [
    | yes e ↦ rw (e, update_self f p (record (f p) { value = v }))
    | no ne ↦ rw (update_ne f p q (record (f p) { value = v }) ne)
  ]

  found_here :
      (f : ℕ → Node A) (key e : ℕ) (s : Search) {p : ℕ}
      → (key == (f e).key) ≡ true
      → (if key == (f e).key then found e else s) ≡ found p
      → e ≡ p
  found_here f key e s here h = let h' : found e ≡ found _ = rw here at h in cc

  -- What a search finds has the key and is one of the nodes.
  pub seek-found :
      (P : ℕ → Type 0) (f : ℕ → Node A) (key e : ℕ) (ps : List ℕ) {p : ℕ}
      → seek f key e ps ≡ found p
      → All P (e ∷ ps)
      → P p × ((f p).key ≡ key)
  seek-found P f key e [] s h = elim (Bool-cases (key == (f e).key)) [
    | inl here ↦
        let same = found_here f key e (missing e) here s in
        (subst P same h.0, subst (λ q. (f q).key ≡ key) same (sym (eq-of-== key (f e).key here)))
    | inr other ↦ absurd (let s' : missing e ≡ found _ = rw other at s in ground arith)
  ]
  seek-found P f key e (q ∷ ps) s h = elim (Bool-cases (key == (f e).key)) [
    | inl here ↦
        let same = found_here f key e (seek f key q ps) here s in
        (subst P same h.0, subst (λ q. (f q).key ≡ key) same (sym (eq-of-== key (f e).key here)))
    | inr other ↦ seek-found P f key q ps (rw other at s) h.1
  ]

  pub All-keys :
      (f : ℕ → Node A) (a : ℕ) (ps : List ℕ) → NotIn a (keys f ps) → All (λ q. a ≢ (f q).key) ps
  All-keys f a [] h = tt
  All-keys f a (p ∷ ps) h = (h.0, All-keys f a ps h.1)

  agree_apart :
      (f : ℕ → Node A) (p : ℕ) (v : A) (ps : List ℕ)
      → All (λ q. (f p).key ≢ (f q).key) ps
      → All (λ q. write_value f p v q ≡ f q) ps
  agree_apart f p v [] h = tt
  agree_apart f p v (q ∷ ps) h = (
    update_ne f p q (record (f p) { value = v }) (λ e. h.0 (ap (λ x. (f x).key) (sym e))),
    agree_apart f p v ps h.1,
  )

  find-write_head :
      (f : ℕ → Node A) (q : ℕ) (v : A) (j : ℕ) (ps : List ℕ)
      → Distinct (keys f (q ∷ ps))
      → find (write_value f q v) j (q ∷ ps) ≡ (if j == (f q).key then some v else find f j (q ∷ ps))
  find-write_head f q v j ps d =
      let same = agree_apart f q v ps (All-keys f (f q).key ps d.0) in
      rw (update_self f q (record (f q) { value = v }), find-agree f (write_value f q v) j ps same)
        (again (j == (f q).key) (some v) (some (f q).value) (find f j ps))

  pub find-write_value :
      (f : ℕ → Node A) (p : ℕ) (v : A) (j : ℕ) (ps : List ℕ)
      → Distinct (keys f ps)
      → In p ps
      → find (write_value f p v) j ps ≡ (if j == (f p).key then some v else find f j ps)
  find-write_value f p v j [] d i = absurd i
  find-write_value f p v j (q ∷ ps) d (inl e) =
      subst
        (λ x.
          find (write_value f x v) j (q ∷ ps)
          ≡ (if j == (f x).key then some v else find f j (q ∷ ps)))
        (sym e) (find-write_head f q v j ps d)
  find-write_value f p v j (q ∷ ps) d (inr i) =
      let ne : (f q).key ≢ (f p).key =
        All-at (λ x. (f q).key ≢ (f x).key) ps p (All-keys f (f q).key ps d.0) i in
      rw
        (
          update_ne f p q (record (f p) { value = v }) (λ e. ne (ap (λ x. (f x).key) e)),
          find-write_value f p v j ps d.1 i,
        )
        (swap_tests j (f q).key (f p).key (some (f q).value) (some v) (find f j ps) ne)

  pub Links-next :
      (n : ℕ) (f g : ℕ → Node A) (e : ℕ) (ps : List ℕ)
      → ((q : ℕ) → (g q).next ≡ (f q).next)
      → Links n f e ps
      → Links n g e ps
  Links-next n f g e [] h t = h e ∙ t
  Links-next n f g e (p ∷ ps) h t =
      (λ q. t.0 (sym (h e) ∙ q), ap (λ x. n + x) (h e) ∙ t.1, Links-next n f g p ps h t.2)

  pub keys-same :
      (f g : ℕ → Node A) (ps : List ℕ) → ((q : ℕ) → (g q).key ≡ (f q).key) → keys g ps ≡ keys f ps
  keys-same f g [] h = refl
  keys-same f g (p ∷ ps) h = rw (h p, keys-same f g ps h)

  pub keyed-same :
      (f g : ℕ → Node A) (ps : List ℕ)
      → ((q : ℕ) → (g q).key ≡ (f q).key)
      → All (λ q. (f q).key ≢ undef) ps
      → All (λ q. (g q).key ≢ undef) ps
  keyed-same f g [] h k = tt
  keyed-same f g (p ∷ ps) h k = (λ e. k.0 (sym (h p) ∙ e), keyed-same f g ps h k.1)

  -- A bucket does not depend on the values.
  pub IsBucket-same :
      (n : ℕ) (f g : ℕ → Node A) (b : ℕ) (ps : List ℕ)
      → ((q : ℕ) → (g q).key ≡ (f q).key)
      → ((q : ℕ) → (g q).next ≡ (f q).next)
      → IsBucket n f b ps
      → IsBucket n g b ps
  IsBucket-same n f g b ps hk hn v = record {
    links = Links-next n f g b ps hn v.links;
    distinct = v.distinct;
    high = v.high;
    keyed = keyed-same f g ps hk v.keyed;
    empty = λ e. v.empty (sym (hk b) ∙ e);
    unique = subst Distinct (sym (keys-same f g (b ∷ ps) hk)) v.unique;
  }

  pub Free-same :
      (n : ℕ) (f g : ℕ → Node A) (head : ℕ) (ps : List ℕ)
      → ((q : ℕ) → (g q).next ≡ (f q).next)
      → Free n f head ps
      → Free n g head ps
  Free-same n f g head [] h t = t
  Free-same n f g head (p ∷ ps) h t = (t.0, t.1, Free-same n f g (g p).next ps h (rw (h p) t.2))
