-- ===== src/Datum/Examples.antt =====
-- Data at work, and the theorems at them.
use scroller.Prelude.{
  ℕ, ◌⊎◌, ◌≤◌, ◌^◌, length, ◌-◌, ◌≡◌, ◌↔◌, refl, true, false, Option, none, some, List, [], ◌∷◌,
  arith, ℤ, pos, negsuc, int64_max, int64_min, wrap64, ◌-ℤ◌, ◌+ℤ◌, ◌*ℤ◌, quot, rem,
}
use scroller.Datum.{
  Datum, SqlType, t_char, t_smallint, t_integer, t_bigint, t_varchar, bytes, cmp_integer,
  cmp_character, cmp_data, memcmp, char2varchar, trimmed_size, to_base_type, convert,
  integer2bigint, smallint2bigint, add_data, div_data, mod_data, dispatch, add_integer, div_integer,
  mod_integer, data_comparable, datum_zeroed, cat_data, mul_data, sub_data, sub_integer,
  mul_integer,
}
use scroller.Datum.Like.{like_data, like, like_loop, turn, skip_percents}
use scroller.Datum.Like.Pattern.{Matches}
use scroller.Datum.Like.Loop.{like_data-Matches}
use scroller.Datum.Sdup.{
  datum_sdup, sdup_number, sdup_character, digit_count, write_digits, parse, parse-datum_sdup,
}
use scroller.Datum.Text.{IsText, lex, text, cmp_character-lex}

abbrev number : SqlType → ℤ → Datum
number t v = record { type = t; size = 8; number = v; character = none }

abbrev string : SqlType → List ℕ → ℕ → Datum
string t bs n = record { type = t; size = n; number = pos 0; character = some bs }

-- "ab" as CHAR(4), as VARCHAR, and "b".
abbrev padded : Datum
padded = string t_char (b'a' ∷ b'b' ∷ b' ' ∷ b' ' ∷ []) 4

abbrev plain : Datum
plain = string t_varchar (b'a' ∷ b'b' ∷ []) 2

abbrev other : Datum
other = string t_char (b'b' ∷ []) 1

run_compare :
    (cmp_data padded plain ≡ pos 0)
    × (cmp_data padded other ≡ negsuc 0)
    × (cmp_data (number t_smallint (negsuc 4)) (number t_bigint (pos 3)) ≡ negsuc 7)
    × (cmp_data plain (number t_bigint (pos 3)) ≡ pos 0)
unfolding cmp_data data_comparable cmp_integer cmp_character to_base_type convert char2varchar
    trimmed_size integer2bigint smallint2bigint memcmp wrap64 ◌-ℤ◌
run_compare = (refl, refl, refl, refl)

abbrev result : Option Datum → ℤ
result none = negsuc 99
result (some d) = d.number

run_arithmetic :
    (result (div_data (number t_bigint (negsuc 6)) (number t_integer (pos 2))) ≡ negsuc 2)
    × (result (mod_data (number t_bigint (negsuc 6)) (number t_integer (pos 2))) ≡ negsuc 0)
    × (div_data (number t_bigint (pos 1)) (number t_integer (pos 0)) ≡ none)
    × (result (add_data (number t_bigint int64_max) (number t_integer (pos 1))) ≡ int64_min)
    × (result (mul_data (number t_bigint (negsuc 2)) (number t_integer (pos 5))) ≡ negsuc 14)
    × (result (sub_data (number t_bigint (pos 2)) (number t_integer (pos 5))) ≡ negsuc 2)
    × (bytes (cat_data plain other) ≡ b'a' ∷ b'b' ∷ b'b' ∷ [])
    × (datum_zeroed (number t_bigint (pos 0)) ≡ true)
unfolding div_data mod_data add_data mul_data sub_data dispatch data_comparable add_integer
    mul_integer sub_integer div_integer mod_integer to_base_type convert integer2bigint wrap64 ◌-ℤ◌
    ◌+ℤ◌ ◌*ℤ◌ quot rem cat_data datum_zeroed
run_arithmetic = (refl, refl, refl, refl, refl, refl, refl, refl)

padded-IsText : IsText padded
padded-IsText = record { lexical = refl; held = omega arith }

plain-IsText : IsText plain
plain-IsText = record { lexical = refl; held = omega arith }

other-IsText : IsText other
other-IsText = record { lexical = refl; held = omega arith }

cmp_character-lex_example : cmp_character padded other ≡ lex (text padded) (text other)
cmp_character-lex_example = cmp_character-lex padded other padded-IsText other-IsText

-- "a_b%" against "axb" and as CHAR(6) with trailing spaces, and a run that goes back to a '%'.
run_like :
    (like_data
        (string t_varchar (b'a' ∷ b'x' ∷ b'b' ∷ []) 3)
        (string t_char (b'a' ∷ b'_' ∷ b'b' ∷ b'%' ∷ b' ' ∷ b' ' ∷ []) 6)
      ≡ true)
    × (like_data
          (string t_varchar (b'a' ∷ b'b' ∷ b'a' ∷ b'b' ∷ b'c' ∷ []) 5)
          (string t_varchar (b'%' ∷ b'a' ∷ b'b' ∷ b'c' ∷ []) 4)
        ≡ true)
    × (like_data plain other ≡ false)
    × (like_data (string t_char (b' ' ∷ []) 1) (string t_varchar [] 0) ≡ true)
unfolding like_data like like_loop turn skip_percents to_base_type convert char2varchar trimmed_size
run_like = (refl, refl, refl, refl)

like_data-Matches_example : (like_data padded plain ≡ true) ↔ Matches (text plain) (text padded)
like_data-Matches_example = like_data-Matches padded plain padded-IsText plain-IsText

-- A negative number comes out as no digits: -5 as "+".
run_sdup :
    (datum_sdup (number t_bigint (pos 907)) ≡ b'9' ∷ b'0' ∷ b'7' ∷ [])
    × (datum_sdup (number t_integer (pos 0)) ≡ b'0' ∷ [])
    × (datum_sdup (number t_integer (negsuc 4)) ≡ b'+' ∷ [])
    × (datum_sdup padded ≡ b'a' ∷ b'b' ∷ [])
unfolding datum_sdup sdup_number sdup_character digit_count write_digits quot rem ◌+ℤ◌ to_base_type
    convert char2varchar trimmed_size integer2bigint
run_sdup = (refl, refl, refl, refl)

parse-datum_sdup_example :
    (parse 0 (datum_sdup (number t_bigint (pos 907))) ≡ some 907)
    × ((length (datum_sdup (number t_bigint (pos 907))) ≡ 1)
        ⊎ (10 ^ (length (datum_sdup (number t_bigint (pos 907))) - 1) ≤ 907))
parse-datum_sdup_example = parse-datum_sdup (number t_bigint (pos 907)) 907 refl refl (omega arith)
