-- ===== src/Prelude/Lists.antt =====
-- Lists measured by native numbers, under the names of the library, and membership of numbers as
-- predicates by recursion.
use Prim.Native.Nat.{ℕ, zero, suc, ◌+◌, ◌-◌, ◌≤◌, ◌<◌, min}
use mathlib.Core.Path.{◌≡◌, refl, sym}
use mathlib.Core.Logic.{◌≢◌, ◌⊎◌, inl, inr}
use mathlib.Core.List.{List, [], ◌∷◌, ◌++◌}
use mathlib.Core.Option.{Option, none, some}
use native.Mathlib.Nat.{zero-add, suc-add}
use native.Mathlib.Omega.{arith}

module _ {ℓ} {A : Type ℓ} where
  abbrev pub length : List A → ℕ
  length [] = 0
  length (x ∷ xs) = suc (length xs)

  pub length-append : (xs ys : List A) → length (xs ++ ys) ≡ length xs + length ys
  length-append [] ys = omega arith
  length-append (x ∷ xs) ys = omega (arith, length-append xs ys)

  abbrev pub replicate : ℕ → A → List A
  replicate zero a = []
  replicate (suc n) a = a ∷ replicate n a

  pub length-replicate : (n : ℕ) (a : A) → length (replicate n a) ≡ n
  length-replicate zero a = omega arith
  length-replicate (suc n) a = omega (arith, length-replicate n a)

module _ {ℓ} {A : Type ℓ} where
  abbrev pub take : ℕ → List A → List A
  take zero xs = []
  take (suc n) [] = []
  take (suc n) (x ∷ xs) = x ∷ take n xs

  abbrev pub drop : ℕ → List A → List A
  drop zero xs = xs
  drop (suc n) [] = []
  drop (suc n) (x ∷ xs) = drop n xs

  abbrev pub get_elem? : List A → ℕ → Option A
  get_elem? [] i = none
  get_elem? (x ∷ xs) zero = some x
  get_elem? (x ∷ xs) (suc i) = get_elem? xs i

  pub take-append-drop : (n : ℕ) (xs : List A) → take n xs ++ drop n xs ≡ xs
  take-append-drop zero xs = refl
  take-append-drop (suc n) [] = refl
  take-append-drop (suc n) (x ∷ xs) = rw (take-append-drop n xs)

  pub take-add : (m n : ℕ) (xs : List A) → take m xs ++ take n (drop m xs) ≡ take (m + n) xs
  take-add zero n xs = rw zero-add
  take-add (suc m) zero [] = rw suc-add
  take-add (suc m) (suc n) [] = rw suc-add
  take-add (suc m) n (x ∷ xs) = rw (suc-add, take-add m n xs)

  pub drop-drop : (m n : ℕ) (xs : List A) → drop n (drop m xs) ≡ drop (m + n) xs
  drop-drop zero n xs = rw zero-add
  drop-drop (suc m) zero [] = rw suc-add
  drop-drop (suc m) (suc n) [] = rw suc-add
  drop-drop (suc m) n (x ∷ xs) = rw (suc-add, drop-drop m n xs)

  pub length-drop : (n : ℕ) (xs : List A) → length (drop n xs) ≡ length xs - n
  length-drop zero xs = omega arith
  length-drop (suc n) [] = omega arith
  length-drop (suc n) (x ∷ xs) = omega (arith, length-drop n xs)

  pub length-take : (n : ℕ) (xs : List A) → length (take n xs) ≡ min n (length xs)
  length-take zero xs = omega arith
  length-take (suc n) [] = omega arith
  length-take (suc n) (x ∷ xs) = omega (arith, length-take n xs)

  pub take_of_length-le : (n : ℕ) (xs : List A) → length xs ≤ n → take n xs ≡ xs
  take_of_length-le zero [] h = refl
  take_of_length-le (suc n) [] h = refl
  take_of_length-le zero (x ∷ xs) h = absurd (omega arith)
  take_of_length-le (suc n) (x ∷ xs) h = let ih = take_of_length-le n xs (omega arith) in rw ih

  pub drop_of_length-le : (n : ℕ) (xs : List A) → length xs ≤ n → drop n xs ≡ []
  drop_of_length-le zero [] h = refl
  drop_of_length-le zero (x ∷ xs) h = absurd (omega arith)
  drop_of_length-le (suc n) [] h = refl
  drop_of_length-le (suc n) (x ∷ xs) h = drop_of_length-le n xs (omega arith)

abbrev pub All {ℓ κ} : {A : Type ℓ} → (A → Type κ) → List A → Type κ
All P [] = Unit
All P (x ∷ xs) = P x × All P xs

-- `a` is none of the numbers of the list.
abbrev pub NotIn : ℕ → List ℕ → Type 0
NotIn a xs = All (λ x. a ≢ x) xs

abbrev pub Distinct : List ℕ → Type 0
Distinct [] = Unit
Distinct (x ∷ xs) = NotIn x xs × Distinct xs

module _ {ℓ κ} {A : Type ℓ} (P : A → Type κ) where
  pub All-append : (xs ys : List A) → All P xs → All P ys → All P (xs ++ ys)
  All-append [] ys h k = k
  All-append (x ∷ xs) ys h k = (h.0, All-append xs ys h.1 k)

  pub All-append_left : (xs ys : List A) → All P (xs ++ ys) → All P xs
  All-append_left [] ys h = tt
  All-append_left (x ∷ xs) ys h = (h.0, All-append_left xs ys h.1)

  pub All-append_right : (xs ys : List A) → All P (xs ++ ys) → All P ys
  All-append_right [] ys h = h
  All-append_right (x ∷ xs) ys h = All-append_right xs ys h.1

  pub All-middle : (xs ys : List A) (x : A) → All P (xs ++ x ∷ ys) → P x × All P (xs ++ ys)
  All-middle [] ys x h = h
  All-middle (y ∷ xs) ys x h = let (p, k) = All-middle xs ys x h.1 in (p, (h.0, k))

  pub All-middle_back : (xs ys : List A) (x : A) → P x → All P (xs ++ ys) → All P (xs ++ x ∷ ys)
  All-middle_back [] ys x p h = (p, h)
  All-middle_back (y ∷ xs) ys x p h = (h.0, All-middle_back xs ys x p h.1)

pub Distinct-middle : (xs ys : List ℕ) (x : ℕ) → Distinct (xs ++ x ∷ ys) → Distinct (x ∷ xs ++ ys)
Distinct-middle [] ys x h = h
Distinct-middle (y ∷ xs) ys x h =
    let (ne, apart) = All-middle (λ z. y ≢ z) xs ys x h.0 in
    let (out, d) = Distinct-middle xs ys x h.1 in ((λ e. ne (sym e), out), (apart, d))

pub Distinct-middle_back :
    (xs ys : List ℕ) (x : ℕ) → Distinct (x ∷ xs ++ ys) → Distinct (xs ++ x ∷ ys)
Distinct-middle_back [] ys x h = h
Distinct-middle_back (y ∷ xs) ys x h = (
  All-middle_back (λ z. y ≢ z) xs ys x (λ e. h.0.0 (sym e)) h.1.0,
  Distinct-middle_back xs ys x (h.0.1, h.1.1),
)

pub Distinct-append_left : (xs ys : List ℕ) → Distinct (xs ++ ys) → Distinct xs
Distinct-append_left [] ys h = tt
Distinct-append_left (x ∷ xs) ys h =
    (All-append_left (λ z. x ≢ z) xs ys h.0, Distinct-append_left xs ys h.1)

pub Distinct-append_right : (xs ys : List ℕ) → Distinct (xs ++ ys) → Distinct ys
Distinct-append_right [] ys h = h
Distinct-append_right (x ∷ xs) ys h = Distinct-append_right xs ys h.1

-- No number of the first part is in the second.
pub Distinct-apart : (xs ys : List ℕ) → Distinct (xs ++ ys) → All (λ z. All (λ y. z ≢ y) ys) xs
Distinct-apart [] ys h = tt
Distinct-apart (x ∷ xs) ys h = (All-append_right (λ z. x ≢ z) xs ys h.0, Distinct-apart xs ys h.1)

-- The numbers below `n`, each once: the slots of a table of `n` slots, in some order.
pub record Slots (n : ℕ) (xs : List ℕ) : Type 0 where
  pub inside : All (λ x. x < n) xs
  pub distinct : Distinct xs
  pub count : length xs ≡ n

module _ (xs ys : List ℕ) (n x : ℕ) where
  pub Slots-middle : Slots n (xs ++ x ∷ ys) → Slots n (x ∷ xs ++ ys)
  Slots-middle s = record {
    inside = All-middle (λ z. z < n) xs ys x s.inside;
    distinct = Distinct-middle xs ys x s.distinct;
    count = omega (arith, s.count, length-append {0} xs (x ∷ ys), length-append {0} xs ys);
  }

  pub Slots-middle_back : Slots n (x ∷ xs ++ ys) → Slots n (xs ++ x ∷ ys)
  Slots-middle_back s = record {
    inside = All-middle_back (λ z. z < n) xs ys x s.inside.0 s.inside.1;
    distinct = Distinct-middle_back xs ys x s.distinct;
    count = omega (arith, s.count, length-append {0} xs (x ∷ ys), length-append {0} xs ys);
  }

-- `p` is one of the numbers of the list.
abbrev pub In : ℕ → List ℕ → Type 0
In p [] = ⊥
In p (q ∷ qs) = (p ≡ q) ⊎ In p qs

pub In-self : (ps qs : List ℕ) → All (λ q. In q ps) qs → (a : ℕ) → All (λ q. In q (a ∷ ps)) qs
In-self ps [] h a = tt
In-self ps (q ∷ qs) h a = (inr h.0, In-self ps qs h.1 a)

pub All-In : (ps : List ℕ) → All (λ q. In q ps) ps
All-In [] = tt
All-In (p ∷ ps) = (inl refl, In-self ps ps (All-In ps) p)

pub All-at : (P : ℕ → Type 0) (ps : List ℕ) (p : ℕ) → All P ps → In p ps → P p
All-at P [] p h i = absurd i
All-at P (q ∷ qs) p h (inl e) = rw e h.0
All-at P (q ∷ qs) p h (inr i) = All-at P qs p h.1 i

-- The next step where there is a result.
infixl 5 ◌>>=◌
abbrev pub ◌>>=◌ {ℓ κ} : {A : Type ℓ} {B : Type κ} → Option A → (A → Option B) → Option B
none >>= f = none
some a >>= f = f a
