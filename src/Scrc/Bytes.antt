-- ===== src/Scrc/Bytes.antt =====
-- Blocks of bytes in a buffer.
use scroller.Prelude.{
  ℕ, zero, suc, ◌+◌, ◌*◌, ◌≤◌, ◌≡◌, refl, ap, ◌∙◌, List, [], ◌∷◌, ◌++◌, length, take, drop, update,
  update_self, update_ne, arith,
}

abbrev pub bytes_at : (ℕ → ℕ) → ℕ → ℕ → List ℕ
bytes_at f p zero = []
bytes_at f p (suc n) = f p ∷ bytes_at f (p + 1) n

-- The bytes written from place `p` on.
abbrev pub write_at : (ℕ → ℕ) → ℕ → List ℕ → ℕ → ℕ
write_at f p [] = f
write_at f p (b ∷ bs) = update (write_at f (p + 1) bs) p b

-- The number that bytes stand for, the lowest first.
abbrev pub word : List ℕ → ℕ
word [] = 0
word (b ∷ bs) = b + 256 * word bs

pub length-bytes_at : (f : ℕ → ℕ) (p n : ℕ) → length (bytes_at f p n) ≡ n
length-bytes_at f p zero = refl
length-bytes_at f p (suc n) = omega (arith, length-bytes_at f (p + 1) n)

pub bytes_at-add :
    (f : ℕ → ℕ) (p m n : ℕ) → bytes_at f p (m + n) ≡ bytes_at f p m ++ bytes_at f (p + m) n
bytes_at-add f p zero n =
    let e : zero + n ≡ n = omega arith in let e' : p + zero ≡ p = omega arith in rw (e, e') refl
bytes_at-add f p (suc m) n =
    let e : suc m + n ≡ suc (m + n) = omega arith in
    let e' : p + 1 + m ≡ p + suc m = omega arith in
    rw e (
      ap (λ z. f p ∷ z)
        (bytes_at-add f (p + 1) m n ∙ ap (λ z. bytes_at f (p + 1) m ++ bytes_at f z n) e'))

write_at-below : (f : ℕ → ℕ) (p q : ℕ) (bs : List ℕ) → suc q ≤ p → write_at f p bs q ≡ f q
write_at-below f p q [] le = refl
write_at-below f p q (b ∷ bs) le =
    update_ne (write_at f (p + 1) bs) p q b (λ e. omega (arith, e, le))
    ∙ write_at-below f (p + 1) q bs (omega arith)

-- Bytes before the written ones stay.
pub bytes_at-below :
    (f : ℕ → ℕ) (p q n : ℕ) (bs : List ℕ)
    → q + n ≤ p
    → bytes_at (write_at f p bs) q n ≡ bytes_at f q n
bytes_at-below f p q zero bs le = refl
bytes_at-below f p q (suc n) bs le =
    rw (write_at-below f p q bs (omega arith), bytes_at-below f p (q + 1) n bs (omega arith)) refl

bytes_at-update :
    (f : ℕ → ℕ) (p b q n : ℕ) → suc p ≤ q → bytes_at (update f p b) q n ≡ bytes_at f q n
bytes_at-update f p b q zero le = refl
bytes_at-update f p b q (suc n) le =
    rw
      (update_ne f p q b (λ e. omega (arith, e, le)), bytes_at-update f p b (q + 1) n (omega arith))
      refl

pub bytes_at-write_at :
    (f : ℕ → ℕ) (p : ℕ) (bs : List ℕ) → bytes_at (write_at f p bs) p (length bs) ≡ bs
bytes_at-write_at f p [] = refl
bytes_at-write_at f p (b ∷ bs) =
    let g = write_at f (p + 1) bs in
    rw
      (
        update_self g p b,
        bytes_at-update g p b (p + 1) (length bs) (omega arith),
        bytes_at-write_at f (p + 1) bs,
      )
      refl

pub take-bytes_at :
    (f : ℕ → ℕ) (p n k : ℕ) (ys : List ℕ) → n ≤ k → take n (bytes_at f p k ++ ys) ≡ bytes_at f p n
take-bytes_at f p zero k ys le = refl
take-bytes_at f p (suc n) zero ys le = absurd (omega arith)
take-bytes_at f p (suc n) (suc k) ys le =
    ap (λ z. f p ∷ z) (take-bytes_at f (p + 1) n k ys (omega arith))

pub drop-bytes_at :
    (f : ℕ → ℕ) (p n k m : ℕ) (ys : List ℕ)
    → n + m ≡ k
    → drop n (bytes_at f p k ++ ys) ≡ bytes_at f (p + n) m ++ ys
drop-bytes_at f p zero k m ys e =
    let e' : p + zero ≡ p = omega arith in let e'' : m ≡ k = omega (arith, e) in rw (e', e'') refl
drop-bytes_at f p (suc n) zero m ys e = absurd (omega (arith, e))
drop-bytes_at f p (suc n) (suc k) m ys e =
    let e' : p + 1 + n ≡ p + suc n = omega arith in
    drop-bytes_at f (p + 1) n k m ys (omega (arith, e)) ∙ ap (λ z. bytes_at f z m ++ ys) e'
