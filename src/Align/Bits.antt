-- ===== src/Align/Bits.antt =====
-- What `align_up` needs of the bitwise "and".
use Prim.Native.Nat.{digits, bit_and-bitwise}
use scroller.Prelude.{ℕ, zero, suc, ◌+◌, ◌*◌, ◌/◌, ◌%◌, ◌^◌, ◌≤◌, ◌<◌, min, ◌≡◌, refl, arith}
use scroller.Align.{align_up, align_max}

-- `bit_and` with `n` digits to go.
abbrev and_on : ℕ → ℕ → ℕ → ℕ
and_on = digits (λ b. zero) min

and_on-le_left : (n a b : ℕ) → and_on n a b ≤ a
and_on-le_left zero a b = omega arith
and_on-le_left (suc n) zero b = omega arith
and_on-le_left (suc n) (suc a) b = omega (arith, and_on-le_left n (suc a / 2) (b / 2))

and_on-le_right : (n a b : ℕ) → and_on n a b ≤ b
and_on-le_right zero a b = omega arith
and_on-le_right (suc n) zero b = omega arith
and_on-le_right (suc n) (suc a) b = omega (arith, and_on-le_right n (suc a / 2) (b / 2))

and_on-zero : (n a : ℕ) → and_on n a 0 ≡ 0
and_on-zero n a = omega (arith, and_on-le_right n a 0)

and_on-one : (n a : ℕ) → a ≤ n → and_on n a 1 ≡ a % 2
and_on-one zero zero h = refl
and_on-one zero (suc a) h = absurd (omega arith)
and_on-one (suc n) zero h = refl
and_on-one (suc n) (suc a) h = omega (arith, and_on-zero n (suc a / 2))

and_on-three : (n a : ℕ) → a ≤ n → and_on n a 3 ≡ a % 4
and_on-three zero zero h = refl
and_on-three zero (suc a) h = absurd (omega arith)
and_on-three (suc n) zero h = refl
and_on-three (suc n) (suc a) h = omega (arith, and_on-one n (suc a / 2) (omega arith))

and_on-seven : (n a : ℕ) → a ≤ n → and_on n a 7 ≡ a % 8
and_on-seven zero zero h = refl
and_on-seven zero (suc a) h = absurd (omega arith)
and_on-seven (suc n) zero h = refl
and_on-seven (suc n) (suc a) h = omega (arith, and_on-three n (suc a / 2) (omega arith))

and_on-fifteen : (n a : ℕ) → a ≤ n → and_on n a 15 ≡ a % 16
and_on-fifteen zero zero h = refl
and_on-fifteen zero (suc a) h = absurd (omega arith)
and_on-fifteen (suc n) zero h = refl
and_on-fifteen (suc n) (suc a) h = omega (arith, and_on-seven n (suc a / 2) (omega arith))

-- Where the sum fits 64 bits, `align_up` goes up by less than the alignment, which need not be a
-- power of two here.
pub align_up_bounds :
    (sz align : ℕ)
    → 1 ≤ align
    → sz + align ≤ 2 ^ 64
    → (sz ≤ align_up sz align) × (align_up sz align < sz + align)
unfolding align_up
align_up_bounds sz zero h fits = absurd (omega arith)
align_up_bounds sz (suc m) h fits =
    let x = (sz + m) % 2 ^ 64 in
    let e : x ≡ sz + m = omega arith in
    let le = and_on-le_right x x m in let b = bit_and-bitwise x m in (omega arith, omega arith)

-- Up to a multiple of 2, 4 or 8.
pub align_up_multiple :
    (sz : ℕ)
    → sz + 8 ≤ 2 ^ 64
    → (align_up sz 2 % 2 ≡ 0) × (align_up sz 4 % 4 ≡ 0) × (align_up sz 8 % 8 ≡ 0)
unfolding align_up
align_up_multiple sz fits =
    let x = (sz + 1) % 2 ^ 64 in
    let y = (sz + 3) % 2 ^ 64 in
    let z = (sz + 7) % 2 ^ 64 in
    let b = bit_and-bitwise x 1 in
    let c = bit_and-bitwise y 3 in
    let d = bit_and-bitwise z 7 in
    (
      omega (arith, and_on-one x x (omega arith)),
      omega (arith, and_on-three y y (omega arith)),
      omega (arith, and_on-seven z z (omega arith)),
    )

-- `align_max` gives a multiple of 16; the sum with 15 wraps at 2^64.
pub align_max_value : (sz : ℕ) → align_max sz ≡ (sz + 15) % 2 ^ 64 / 16 * 16
unfolding align_up
align_max_value sz =
    let x = (sz + 15) % 2 ^ 64 in
    let b = bit_and-bitwise x 15 in omega (arith, and_on-fifteen x x (omega arith))
