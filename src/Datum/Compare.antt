-- ===== src/Datum/Compare.antt =====
-- The comparisons of lib/core/src/type.c against the order of the integers and the lexicographic
-- order of the strings without their trailing spaces.
use scroller.Prelude.{
  ◌≡◌, ◌↔◌, refl, ℤ, pos, ◌-ℤ◌, wrap64, ◌<ℤ◌, int64_max, IsInt64, int_laws, wrap64_of_IsInt64,
  arith,
}
use scroller.Datum.{
  Datum, SqlType, t_char, t_unknown, t_name, t_smallint, t_integer, t_bigint, t_varchar,
  to_base_type, char2varchar, convert, smallint2bigint, integer2bigint, cmp_integer,
}

number-convert : (t : SqlType) (d : Datum) → (convert t d).number ≡ d.number
unfolding convert smallint2bigint integer2bigint char2varchar
number-convert t_unknown d = refl
number-convert t_name d = refl
number-convert t_smallint d = refl
number-convert t_integer d = refl
number-convert t_bigint d = refl
number-convert t_char d = refl
number-convert t_varchar d = refl

pub number-to_base_type : (d : Datum) → (to_base_type d).number ≡ d.number
unfolding to_base_type
number-to_base_type d = number-convert d.type d

-ℤ_zero : (a b : ℤ) → (a -ℤ b ≡ pos 0) ↔ (a ≡ b)
unfolding ◌-ℤ◌
-ℤ_zero a b = (λ h. ground arith, λ h. ground arith)

-- Where the difference fits int64_t, the sign of `cmp_integer` is that of the order, and it gives
-- zero exactly for equal numbers.
pub cmp_integer-sign :
    (d1 d2 : Datum)
    → IsInt64 (d1.number -ℤ d2.number)
    → ((cmp_integer d1 d2 <ℤ pos 0) ↔ (d1.number <ℤ d2.number))
      × ((pos 0 <ℤ cmp_integer d1 d2) ↔ (d2.number <ℤ d1.number))
      × ((cmp_integer d1 d2 ≡ pos 0) ↔ (d1.number ≡ d2.number))
unfolding cmp_integer
cmp_integer-sign d1 d2 fits =
    rw (number-to_base_type d1, number-to_base_type d2, wrap64_of_IsInt64 _ fits)
      (
        (λ h. omega int_laws, λ h. omega int_laws),
        (λ h. omega int_laws, λ h. omega int_laws),
        -ℤ_zero d1.number d2.number,
      )

wrap64_under : (a b : ℤ) → IsInt64 a → IsInt64 b → int64_max <ℤ a -ℤ b → wrap64 (a -ℤ b) <ℤ pos 0
unfolding wrap64 ◌-ℤ◌
wrap64_under a b ha hb h = ground arith

-- Of two int64_t whose difference passes the largest int64_t, `cmp_integer` gives a negative
-- number, the sign of "less", although the first is the greater.
pub cmp_integer_wraps :
    (d1 d2 : Datum)
    → IsInt64 d1.number
    → IsInt64 d2.number
    → int64_max <ℤ d1.number -ℤ d2.number
    → (cmp_integer d1 d2 <ℤ pos 0) × (d2.number <ℤ d1.number)
unfolding cmp_integer
cmp_integer_wraps d1 d2 h1 h2 over =
    rw (number-to_base_type d1, number-to_base_type d2)
      (wrap64_under d1.number d2.number h1 h2 over, omega int_laws)
