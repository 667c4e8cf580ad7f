-- ===== src/Datum/Sdup.antt =====
-- `datum_sdup` of lib/core/src/type.c, which makes text of a datum: the bytes in front of the
-- terminating zero. The allocation is taken to succeed.
use Prim.Native.Char.{code}
use Prim.Native.String.{String}
use scroller.Prelude.{
  ℕ, zero, suc, ◌+◌, ◌-◌, ◌*◌, ◌/◌, ◌%◌, ◌^◌, ◌≤◌, ◌<◌, ◌≡◌, ◌⊎◌, inl, inr, refl, ◌∙◌, ap, List, [],
  ◌∷◌, ◌++◌, length, take, Option, none, some, false, ◌&&◌, leb, ◌==◌, if◌then◌else◌, ℤ, pos,
  pos_part, ◌+ℤ◌, quot, rem, eqb_ℤ, arith, pow-suc, ℕ_discrete, ◌≢◌, length-append,
}
use scroller.Datum.{
  Datum, SqlType, t_char, t_unknown, t_name, t_smallint, t_integer, t_bigint, t_varchar, bytes,
  to_base_type, get_type_group, integer_group,
}
use scroller.Datum.Compare.{number-to_base_type}

abbrev codes : String → List ℕ
codes String.[] = []
codes (String.◌∷◌ c s) = code c ∷ codes s

-- The first loop: the digits of `v`. A number of 64 bits has at most 19.
unfoldable pub digit_count : ℕ → ℤ → ℕ
digit_count zero v = 1
digit_count (suc fuel) v =
    let w = quot v (pos 10) in
    let rest = digit_count fuel w in if eqb_ℤ w (pos 0) then 1 else suc rest

-- The second loop, which writes the last character first.
unfoldable pub write_digits : ℕ → ℤ → List ℕ
write_digits zero v = []
write_digits (suc cnt) v =
    write_digits cnt (quot v (pos 10)) ++ pos_part (pos b'0' +ℤ rem v (pos 10)) ∷ []

unfoldable pub sdup_number : Datum → List ℕ
unfolding digit_count write_digits
sdup_number src = let v = (to_base_type src).number in write_digits (digit_count 20 v) v

unfoldable pub sdup_character : Datum → List ℕ
sdup_character src = let b = to_base_type src in take b.size (bytes b)

unfoldable pub datum_sdup : Datum → List ℕ
unfolding sdup_number sdup_character
datum_sdup src = elim src.type [
  | t_unknown ↦ codes "<Unknown type>"
  | t_smallint ↦ sdup_number src
  | t_integer ↦ sdup_number src
  | t_bigint ↦ sdup_number src
  | t_char ↦ sdup_character src
  | t_varchar ↦ codes "<varchar type not implemented>"
  | t_name ↦ codes "<Not implemented type>"
]

-- The number that decimal digits write, `acc` being that of those in front.
unfoldable pub parse : ℕ → List ℕ → Option ℕ
parse acc [] = some acc
parse acc (c ∷ cs) =
    let rest = parse (10 * acc + (c - b'0')) cs in if leb b'0' c && leb c b'9' then rest else none

parse-append_digit :
    (acc n d : ℕ) (cs : List ℕ)
    → d < 10
    → parse acc cs ≡ some n
    → parse acc (cs ++ (b'0' + d) ∷ []) ≡ some (10 * n + d)
unfolding parse
parse-append_digit acc n d [] h e = ground arith
parse-append_digit acc n d (c ∷ cs) h e =
    let ih = parse-append_digit (10 * acc + (c - b'0')) n d cs h in ground arith

digit_char : (n : ℕ) → pos_part (pos b'0' +ℤ rem (pos n) (pos 10)) ≡ b'0' + n % 10
unfolding rem ◌+ℤ◌
digit_char n = ground arith

parse-write_digits : (cnt n : ℕ) → n < 10 ^ cnt → parse 0 (write_digits cnt (pos n)) ≡ some n
unfolding write_digits parse quot
parse-write_digits zero n h = ap some (omega arith)
parse-write_digits (suc cnt) n h =
    let p = pow-suc 10 cnt in
    let ih = parse-write_digits cnt (n / 10) (omega (arith, p)) in
    ap (λ c. parse 0 (write_digits cnt (pos (n / 10)) ++ c ∷ [])) (digit_char n)
    ∙ parse-append_digit 0 (n / 10) (n % 10) (write_digits cnt (pos (n / 10))) (omega arith) ih
    ∙ ap some (omega arith)

length-write_digits : (cnt n : ℕ) → length (write_digits cnt (pos n)) ≡ cnt
unfolding write_digits quot
length-write_digits zero n = refl
length-write_digits (suc cnt) n =
    length-append {0} (write_digits cnt (pos (n / 10))) (_ ∷ [])
    ∙ omega (arith, length-write_digits cnt (n / 10))

count_bounds :
    (n k : ℕ)
    → n / 10 ≢ 0
    → n / 10 < 10 ^ k
    → (k ≡ 1) ⊎ (10 ^ (k - 1) ≤ n / 10)
    → (n < 10 ^ suc k) × (10 ^ k ≤ n)
count_bounds n zero some_digits h e = absurd (omega arith)
count_bounds n (suc zero) some_digits h e = (omega arith, omega arith)
count_bounds n (suc (suc j)) some_digits h (inl e) = absurd (omega arith)
count_bounds n (suc (suc j)) some_digits h (inr e) =
    let p = pow-suc 10 (suc j) in
    let q = pow-suc 10 (suc (suc j)) in
    let same : suc (suc j) - 1 ≡ suc j = omega arith in
    let e' : 10 ^ suc j ≤ n / 10 = rw same at e in (omega arith, omega arith)

digit_count-bounds :
    (fuel n : ℕ)
    → n < 10 ^ fuel
    → (n < 10 ^ digit_count fuel (pos n))
      × ((digit_count fuel (pos n) ≡ 1) ⊎ (10 ^ (digit_count fuel (pos n) - 1) ≤ n))
unfolding digit_count quot
digit_count-bounds zero n h = (omega arith, inl refl)
digit_count-bounds (suc fuel) n h =
    let p = pow-suc 10 fuel in
    let (below, above) = digit_count-bounds fuel (n / 10) (omega (arith, p)) in
    elim (ℕ_discrete (n / 10) 0) [
      | yes e ↦ rw (e) (omega arith, inl refl)
      | no ne ↦
          let k = digit_count fuel (pos (n / 10)) in
          let (lt, le) = count_bounds n k ne below above in
          let less : suc k - 1 ≡ k = omega arith in
          let differ : (n / 10 + 0 == 0) ≡ false = ground arith in rw (differ, less) (lt, inr le)
    ]

datum_sdup_integer :
    (t : SqlType) (d : Datum)
    → get_type_group t ≡ integer_group
    → datum_sdup (record d { type = t }) ≡ sdup_number (record d { type = t })
unfolding datum_sdup
datum_sdup_integer t_smallint d g = refl
datum_sdup_integer t_integer d g = refl
datum_sdup_integer t_bigint d g = refl
datum_sdup_integer t_unknown d g = ground arith
datum_sdup_integer t_name d g = ground arith
datum_sdup_integer t_char d g = ground arith
datum_sdup_integer t_varchar d g = ground arith

sdup_number-write_digits :
    (d : Datum) (n : ℕ)
    → d.number ≡ pos n
    → sdup_number d ≡ write_digits (digit_count 20 (pos n)) (pos n)
unfolding sdup_number
sdup_number-write_digits d n e = rw (number-to_base_type d, e) refl

-- The text that `datum_sdup` makes of an integer from 0 to 2^63 - 1 consists of decimal digits
-- and reads as the number, with no leading zero: its length is 1, or the number is at least the power
-- of ten that stands at the first place.
pub parse-datum_sdup :
    (d : Datum) (n : ℕ)
    → get_type_group d.type ≡ integer_group
    → d.number ≡ pos n
    → n < 2 ^ 63
    → (parse 0 (datum_sdup d) ≡ some n)
      × ((length (datum_sdup d) ≡ 1) ⊎ (10 ^ (length (datum_sdup d) - 1) ≤ n))
parse-datum_sdup d n g e h =
    let k = digit_count 20 (pos n) in
    let (below, above) = digit_count-bounds 20 n (omega arith) in
    rw (datum_sdup_integer d.type d g, sdup_number-write_digits d n e, length-write_digits k n)
      (parse-write_digits k n below, above)
