-- ===== src/Grid/Bytes.antt =====
-- The bytes of a row, and the values in them: lib/core/src/cell.h and cell.c. Integers lie with the
-- low byte first, in two's complement.
use scroller.Prelude.{
  inr, Option, none, some, ◌>>=◌, sym, ne→==, NotIn, ℕ, zero, suc, ◌+◌, ◌-◌, ◌*◌, ◌/◌, ◌%◌, ◌^◌,
  ◌≤◌, ◌<◌, ◌≡◌, ◌⊎◌, inl, refl, ◌∙◌, List, [], ◌∷◌, ◌++◌, length, length-append, ltb, ◌==◌,
  if◌then◌else◌, ℤ, pos, negsuc, pos_part, neg_part, arith, update, update_self, update_ne, pow-suc,
}
use scroller.Datum.Text.{spaces}

-- From the pointer `c` on.
abbrev pub Bytes : Type 0
Bytes = ℕ → ℕ

unfoldable pub store : ℕ → ℕ → Bytes → ℕ → Bytes
store zero n f c = f
store (suc w) n f c = store w (n / 256) (update f c (n % 256)) (c + 1)

unfoldable pub load : ℕ → Bytes → ℕ → ℕ
load zero f c = 0
load (suc w) f c = f c + 256 * load w f (c + 1)

-- A number in `w` bytes, and the number that they hold.
unfoldable pub word_of : ℕ → ℤ → ℕ
word_of w v = (pos_part v % 2 ^ (8 * w) + 2 ^ (8 * w) - neg_part v % 2 ^ (8 * w)) % 2 ^ (8 * w)

unfoldable pub signed : ℕ → ℕ → ℤ
signed w n = if ltb n (2 ^ (8 * w - 1)) then pos n else negsuc (2 ^ (8 * w) - n - 1)

unfoldable pub put_smallint : Bytes → ℕ → ℤ → Bytes
put_smallint f c v = store 2 (word_of 2 v) f c

unfoldable pub put_integer : Bytes → ℕ → ℤ → Bytes
put_integer f c v = store 4 (word_of 4 v) f c

unfoldable pub put_bigint : Bytes → ℕ → ℤ → Bytes
put_bigint f c v = store 8 (word_of 8 v) f c

unfoldable pub get_smallint : Bytes → ℕ → ℤ
get_smallint f c = signed 2 (load 2 f c)

unfoldable pub get_integer : Bytes → ℕ → ℤ
get_integer f c = signed 4 (load 4 f c)

unfoldable pub get_bigint : Bytes → ℕ → ℤ
get_bigint f c = signed 8 (load 8 f c)

unfoldable pub store_bytes : List ℕ → Bytes → ℕ → Bytes
store_bytes [] f c = f
store_bytes (b ∷ bs) f c = store_bytes bs (update f c b) (c + 1)

unfoldable pub load_bytes : ℕ → Bytes → ℕ → List ℕ
load_bytes zero f c = []
load_bytes (suc n) f c = f c ∷ load_bytes n f (c + 1)

-- The bytes of `src` that `strnlen` counts: up to a zero, and no more than `n`. It is `none` where
-- the bytes that are known of `src` end before: there the source reads on in memory.
unfoldable pub text_of : ℕ → List ℕ → Option (List ℕ)
text_of zero src = some []
text_of (suc n) [] = none
text_of (suc n) (b ∷ src) =
    let rest = text_of n src in if b == 0 then some [] else rest >>= λ text. some (b ∷ text)

unfoldable pub put_char : Bytes → ℕ → List ℕ → ℕ → Option Bytes
put_char f dst src dsize = do
  text ← text_of dsize src
  some (store_bytes (text ++ spaces (dsize - length text)) f dst)

-- A text without zeros that ends at `n` bytes, or before at a zero.
abbrev pub Ends : ℕ → List ℕ → List ℕ → Type 0
Ends n text rest =
    NotIn 0 text
    × ((length text ≡ n) ⊎ ((length text < n) × (behind : List ℕ) × (rest ≡ 0 ∷ behind)))

pub text_of-append :
    (n : ℕ) (text rest : List ℕ) → Ends n text rest → text_of n (text ++ rest) ≡ some text
unfolding text_of
text_of-append zero [] rest (out, e) = refl
text_of-append (suc n) [] rest (out, inl e) = absurd (omega arith)
text_of-append (suc n) [] rest (out, inr (lt, behind, e)) = rw e refl
text_of-append zero (b ∷ text) rest (out, inl e) = absurd (omega arith)
text_of-append zero (b ∷ text) rest (out, inr (lt, behind, e)) = absurd (omega arith)
text_of-append (suc n) (b ∷ text) rest ((ne, out), inl e) =
    let ih = text_of-append n text rest (out, inl (omega arith)) in
    rw (ne→== b 0 (λ z. ne (sym z)), ih) refl
text_of-append (suc n) (b ∷ text) rest ((ne, out), inr (lt, behind, e)) =
    let ih = text_of-append n text rest (out, inr (omega arith, behind, e)) in
    rw (ne→== b 0 (λ z. ne (sym z)), ih) refl

length-spaces : (k : ℕ) → length (spaces k) ≡ k
unfolding spaces
length-spaces zero = refl
length-spaces (suc k) = omega (arith, length-spaces k)

pub length_filled :
    (n : ℕ) (text : List ℕ) → length text ≤ n → length (text ++ spaces (n - length text)) ≡ n
length_filled n text h =
    let k = n - length text in omega (arith, length-append {0} text (spaces k), length-spaces k, h)

-- Only the bytes that are written change.
pub store_outside : (w n : ℕ) (f : Bytes) (c q : ℕ) → (q < c) ⊎ (c + w ≤ q) → store w n f c q ≡ f q
unfolding store
store_outside zero n f c q out = refl
store_outside (suc w) n f c q out =
    store_outside w (n / 256) (update f c (n % 256)) (c + 1) q (ground arith)
    ∙ update_ne f c q (n % 256) (ground arith)

pub store_bytes_outside :
    (bs : List ℕ) (f : Bytes) (c q : ℕ) → (q < c) ⊎ (c + length bs ≤ q) → store_bytes bs f c q ≡ f q
unfolding store_bytes
store_bytes_outside [] f c q out = refl
store_bytes_outside (b ∷ bs) f c q out =
    store_bytes_outside bs (update f c b) (c + 1) q (ground arith)
    ∙ update_ne f c q b (ground arith)

-- What is read depends on the bytes that are read.
pub load_agree :
    (w : ℕ) (f g : Bytes) (c : ℕ)
    → ((q : ℕ) → c ≤ q → q < c + w → g q ≡ f q)
    → load w g c ≡ load w f c
unfolding load
load_agree zero f g c h = refl
load_agree (suc w) f g c h =
    let e = h c (omega arith) (omega arith) in
    let ih = load_agree w f g (c + 1) (λ q a b. h q (omega arith) (omega arith)) in omega arith

pub load_bytes_agree :
    (n : ℕ) (f g : Bytes) (c : ℕ)
    → ((q : ℕ) → c ≤ q → q < c + n → g q ≡ f q)
    → load_bytes n g c ≡ load_bytes n f c
unfolding load_bytes
load_bytes_agree zero f g c h = refl
load_bytes_agree (suc n) f g c h =
    let e = h c (omega arith) (omega arith) in
    let ih = load_bytes_agree n f g (c + 1) (λ q a b. h q (omega arith) (omega arith)) in cc

pub load-store : (w n : ℕ) (f : Bytes) (c : ℕ) → n < 256 ^ w → load w (store w n f c) c ≡ n
unfolding load store
load-store zero n f c h = omega arith
load-store (suc w) n f c h =
    let p = pow-suc 256 w in
    let ih = load-store w (n / 256) (update f c (n % 256)) (c + 1) (omega (arith, p)) in
    let low = store_outside w (n / 256) (update f c (n % 256)) (c + 1) c (inl (omega arith)) in
    let self = update_self f c (n % 256) in omega arith

pub load_bytes-store_bytes :
    (bs : List ℕ) (f : Bytes) (c : ℕ) → load_bytes (length bs) (store_bytes bs f c) c ≡ bs
unfolding load_bytes store_bytes
load_bytes-store_bytes [] f c = refl
load_bytes-store_bytes (b ∷ bs) f c =
    let ih = load_bytes-store_bytes bs (update f c b) (c + 1) in
    let low = store_bytes_outside bs (update f c b) (c + 1) c (inl (omega arith)) in
    let self = update_self f c b in cc
