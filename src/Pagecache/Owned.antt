-- ===== src/Pagecache/Owned.antt =====
-- Which key has which page: an index is on the stack or has one key, and no two keys share a page.
use scroller.Prelude.{
  ℕ, ◌≤◌, ◌≡◌, ◌≢◌, refl, sym, ap, ◌∙◌, subst, Bool, true, false, not, Option, none, some, List, [],
  ◌∷◌, ◌++◌, ◌==◌, if◌then◌else◌, arith, All, NotIn, Distinct, Distinct-middle_back,
  Distinct-middle, append-nil, ℕ_discrete, eq→==, ne→==, update, update_ne, update_self,
}
use scroller.Ilist2.{Ilist2, put_back}
use scroller.Ilist2.Chain.{IsList}
use scroller.Ilist2.Ends.{slot_facts}
use scroller.Ilist2.Puts.{put_back-IsList}
use scroller.Icache.Order.{key_at, IsCache, kept_keys}
use scroller.Icache.Members.{held_value}
use scroller.Fdcache.Owner.{Owns}
use scroller.Pagecache.{PageCache}

abbrev pub member : ℕ → List ℕ → Bool
member q [] = false
member q (v ∷ vs) = let rest = member q vs in if q == v then true else rest

-- The values of some nodes of a list.
abbrev pub values : Ilist2 ℕ → List ℕ → List ℕ
values l [] = []
values l (x ∷ xs) = key_at l x ∷ values l xs

pub values-append :
    (l : Ilist2 ℕ) (xs : List ℕ) (x : ℕ) → values l (xs ++ x ∷ []) ≡ values l xs ++ key_at l x ∷ []
values-append l [] x = refl
values-append l (y ∷ xs) x = ap (λ z. key_at l y ∷ z) (values-append l xs x)

pub values_kept :
    (l l' : Ilist2 ℕ) (xs : List ℕ)
    → All (λ i. key_at l' i ≡ key_at l i) xs
    → values l' xs ≡ values l xs
values_kept l l' [] h = refl
values_kept l l' (x ∷ xs) h = let ih = values_kept l l' xs h.1 in rw (h.0, ih) refl

pub member-append :
    (q : ℕ) (vs : List ℕ) (v : ℕ) → member q (vs ++ v ∷ []) ≡ (if q == v then true else member q vs)
member-append q [] v = refl
member-append q (w ∷ vs) v = let ih = member-append q vs v in ground arith

pub member-NotIn : (q : ℕ) (vs : List ℕ) → NotIn q vs → member q vs ≡ false
member-NotIn q [] h = refl
member-NotIn q (v ∷ vs) h = rw (ne→== q v h.0) (member-NotIn q vs h.1)

pub NotIn-member : (q : ℕ) (vs : List ℕ) → member q vs ≡ false → NotIn q vs
NotIn-member q [] h = tt
NotIn-member q (v ∷ vs) h = elim (ℕ_discrete q v) [
  | yes e ↦ absurd (let z : true ≡ false = sym (rw (eq→== q v e) refl) ∙ h in ground arith)
  | no ne ↦ (ne, NotIn-member q vs (sym (rw (ne→== q v ne) refl) ∙ h))
]

-- The last value of distinct ones is not among the others.
pub last-apart : (vs : List ℕ) (v : ℕ) → Distinct (vs ++ v ∷ []) → member v vs ≡ false
last-apart vs v d =
    member-NotIn v vs (subst (λ z. NotIn v z) (append-nil vs) (Distinct-middle vs [] v d).0)

pub Distinct-append :
    (vs : List ℕ) (v : ℕ) → Distinct vs → member v vs ≡ false → Distinct (vs ++ v ∷ [])
Distinct-append vs v d out =
    Distinct-middle_back vs [] v
      (subst (λ z. NotIn v z × Distinct z) (sym (append-nil vs)) (NotIn-member v vs out, d))

-- The indices that are not on the stack.
abbrev pub taken : List ℕ → ℕ → Bool
taken idle q = not (member q idle)

-- The last index is taken from the stack, and put there.
pub taken_pop :
    (vs : List ℕ) (v q : ℕ)
    → Distinct (vs ++ v ∷ [])
    → taken vs q ≡ (if q == v then true else taken (vs ++ v ∷ []) q)
taken_pop vs v q d = elim (ℕ_discrete q v) [
  | yes e ↦ rw (eq→== q v e) (ap (λ z. not (member z vs)) e ∙ ap not (last-apart vs v d))
  | no ne ↦ rw (member-append q vs v, ne→== q v ne) refl
]

pub taken_push :
    (vs : List ℕ) (v q : ℕ) → taken (vs ++ v ∷ []) q ≡ (if q == v then false else taken vs q)
taken_push vs v q = elim (ℕ_discrete q v) [
  | yes e ↦ rw (member-append q vs v, eq→== q v e) refl
  | no ne ↦ rw (member-append q vs v, ne→== q v ne) refl
]

-- What the page of an index holds, where there is one.
abbrev pub page_at : {P : Type 0} → (ℕ → P) → Option ℕ → Option P
page_at pages none = none
page_at pages (some q) = some (pages q)

-- A page that no key has can be written.
pub page_at-update :
    {P : Type 0} (pages : ℕ → P) (o : Option ℕ) (v : ℕ) (p : P)
    → ((q : ℕ) → o ≡ some q → q ≢ v)
    → page_at (update pages v p) o ≡ page_at pages o
page_at-update pages none v p h = refl
page_at-update pages (some q) v p h = ap some (update_ne pages v q p (h q refl))

-- Beyond the pages of `g_pages` there are no indices to give.
abbrev pub Beyond : ℕ → ℕ → Type 0
Beyond n q = n ≤ q

module _ {W P : Type 0} where
  -- What the page of a key holds, where the key is in the cache.
  abbrev pub page_of : PageCache W P → ℕ → Option P
  page_of s j = page_at s.pages (held_value s.cache.hash j)

  -- The cache and the stack are well-formed, and each of the `n` indices either is on the stack,
  -- once, or has one key.
  pub record IsPages (n : ℕ) (s : PageCache W P) (used free used_stack free_stack : List ℕ)
      : Type 0 where
    pub cached : IsCache s.cache used free
    pub stacked : IsList s.stack used_stack free_stack
    pub distinct : Distinct (values s.stack used_stack)
    pub owns : Owns (Beyond n) (held_value s.cache.hash) (taken (values s.stack used_stack))

-- A stack with one more index.
pub push-IsStack :
    (l : Ilist2 ℕ) (used : List ℕ) (z : ℕ) (free : List ℕ) (v : ℕ)
    → IsList l used (z ∷ free)
    → IsList (put_back l v).0 (used ++ z ∷ []) free
      × (values (put_back l v).0 used ++ key_at (put_back l v).0 z ∷ [] ≡ values l used ++ v ∷ [])
      × (key_at (put_back l v).0 z ≡ v)
push-IsStack l used z free v well =
    let l' = (put_back l v).0 in
    let (is_list, _, puts) = put_back-IsList l used z free v well in
    let (_, out, _) = slot_facts l.listsz used free z well.slots in
    let kept = values_kept l l' used (kept_keys l l' z v used puts out) in
    let mine : key_at l' z ≡ v = puts z ∙ update_self (key_at l) z v in
    (is_list, rw (kept, mine) refl, mine)
