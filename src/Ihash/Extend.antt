-- ===== src/Ihash/Extend.antt =====
-- A chain that gets one more node at its end.
use scroller.Prelude.{
  ℕ, ◌+◌, ◌≡◌, ◌≢◌, sym, ap, ◌∙◌, List, [], ◌∷◌, ◌++◌, ◌==◌, if◌then◌else◌, Bool-cases, arith, All,
  NotIn, Distinct, ne-of-==, eq→==, ne→==, subst, inl, inr,
}
use scroller.Ihash.{Node, undef, Search, found, missing}
use scroller.Ihash.Chain.{Links, seek, find}
use scroller.Ihash.Map.{keys}

abbrev pub last_place : ℕ → List ℕ → ℕ
last_place e [] = e
last_place e (p ∷ ps) = last_place p ps

pub last_place-ne : (a e : ℕ) (ps : List ℕ) → a ≢ e → NotIn a ps → a ≢ last_place e ps
last_place-ne a e [] h k = h
last_place-ne a e (p ∷ ps) h k = last_place-ne a p ps k.0 k.1

pub All-last : (P : ℕ → Type 0) (e : ℕ) (ps : List ℕ) → P e → All P ps → P (last_place e ps)
All-last P e [] h k = h
All-last P e (p ∷ ps) h k = All-last P p ps k.0 k.1

pub Distinct-end :
    (xs : List ℕ) (a : ℕ) → Distinct xs → All (λ x. x ≢ a) xs → Distinct (xs ++ a ∷ [])
Distinct-end [] a d h = (tt, tt)
Distinct-end (x ∷ xs) a d h = (NotIn-end xs a x d.0 h.0, Distinct-end xs a d.1 h.1)
  where
    NotIn-end : (ys : List ℕ) (b y : ℕ) → NotIn y ys → y ≢ b → NotIn y (ys ++ b ∷ [])
    NotIn-end [] b y k ne = (ne, tt)
    NotIn-end (z ∷ ys) b y k ne = (k.0, NotIn-end ys b y k.1 ne)

module _ {ℓ} {A : Type ℓ} where
  missing_here :
      (f : ℕ → Node A) (key e : ℕ) (s : Search) {p : ℕ}
      → (if key == (f e).key then found e else s) ≡ missing p
      → ((f e).key ≢ key) × (s ≡ missing p)
  missing_here f key e s h = elim (Bool-cases (key == (f e).key)) [
    | inl here ↦ absurd (let h' : found e ≡ missing _ = rw here at h in ground arith)
    | inr other ↦ (λ q. ne-of-== key (f e).key other (sym q), rw other at h)
  ]

  -- A search that finds nothing ends at the last node, and no node has the key.
  pub seek-missing :
      (f : ℕ → Node A) (key e : ℕ) (ps : List ℕ) {p : ℕ}
      → seek f key e ps ≡ missing p
      → (p ≡ last_place e ps) × All (λ q. (f q).key ≢ key) (e ∷ ps)
  seek-missing f key e [] s =
      let (ne, h) = missing_here f key e (missing e) s in (let r : e ≡ _ = cc in sym r, (ne, tt))
  seek-missing f key e (q ∷ ps) s =
      let (ne, h) = missing_here f key e (seek f key q ps) s in
      let (last, rest) = seek-missing f key q ps h in (last, (ne, rest))

  -- `g` differs from `f` in the link of `e` and in the node `new`.
  pub record Extends (f g : ℕ → Node A) (n e new key : ℕ) : Type ℓ where
    pub same_key : (q : ℕ) → q ≢ new → (g q).key ≡ (f q).key
    pub same_value : (q : ℕ) → q ≢ new → (g q).value ≡ (f q).value
    pub same_next : (q : ℕ) → q ≢ new → q ≢ e → (g q).next ≡ (f q).next
    pub link : ((g e).next ≢ undef) × (n + (g e).next ≡ new)
    pub new_key : (g new).key ≡ key
    pub new_next : (g new).next ≡ undef

  module _ (f g : ℕ → Node A) (n e new key : ℕ) where
    pub Links-extend :
        (a : ℕ) (ps : List ℕ)
        → Extends f g n e new key
        → Distinct (a ∷ ps)
        → All (λ q. q ≢ new) (a ∷ ps)
        → e ≡ last_place a ps
        → Links n f a ps
        → Links n g a (ps ++ new ∷ [])
    Links-extend a [] x d out last t = (
      subst (λ z. (g z).next ≢ undef) last x.link.0,
      subst (λ z. n + (g z).next ≡ new) last x.link.1,
      x.new_next,
    )
    Links-extend a (p ∷ ps) x d out last t =
        let apart : a ≢ e = λ h. last_place-ne a p ps d.0.0 d.0.1 (h ∙ last) in
        let same = x.same_next a out.0 apart in
        (
          λ h. t.0 (sym same ∙ h),
          ap (λ z. n + z) same ∙ t.1,
          Links-extend p ps x d.1 out.1 last t.2,
        )

    pub keys-extend :
        (ps : List ℕ)
        → Extends f g n e new key
        → All (λ q. q ≢ new) ps
        → keys g (ps ++ new ∷ []) ≡ keys f ps ++ key ∷ []
    keys-extend [] x out = rw x.new_key
    keys-extend (p ∷ ps) x out = rw (x.same_key p out.0, keys-extend ps x out.1)

    pub seek-extend :
        (a : ℕ) (ps : List ℕ)
        → Extends f g n e new key
        → All (λ q. q ≢ new) (a ∷ ps)
        → All (λ q. (f q).key ≢ key) (a ∷ ps)
        → seek g key a (ps ++ new ∷ []) ≡ found new
    seek-extend a [] x out differ = rw (
      ne→== key (g a).key (λ h. differ.0 (sym (x.same_key a out.0) ∙ sym h)),
      eq→== key (g new).key (sym x.new_key),
    )
    seek-extend a (p ∷ ps) x out differ =
        rw (ne→== key (g a).key (λ h. differ.0 (sym (x.same_key a out.0) ∙ sym h)))
          (seek-extend p ps x out.1 differ.1)

    pub find-extend :
        (j : ℕ) (ps : List ℕ)
        → Extends f g n e new key
        → j ≢ key
        → All (λ q. q ≢ new) ps
        → find g j (ps ++ new ∷ []) ≡ find f j ps
    find-extend j [] x ne out = rw (ne→== j (g new).key (λ h. ne (h ∙ x.new_key)))
    find-extend j (p ∷ ps) x ne out =
        rw (x.same_key p out.0, x.same_value p out.0, find-extend j ps x ne out.1)
