-- ===== src/Datum.antt =====
-- lib/core/src/type.c and type.h: SQL types and data. The asserts are off, as in a release build:
-- a call that an assert forbids goes on as the code behind the assert does.
pub mod Compare
pub mod Text
pub mod Like
pub mod Sdup
mod Examples
use scroller.Prelude.{
  ℕ, zero, suc, ◌+◌, ◌-◌, ◌*◌, ◌/◌, ◌%◌, Bool, true, false, not, ◌&&◌, ◌||◌, Option, none, some,
  List, [], ◌∷◌, ◌++◌, length, take, drop, get_elem?, ltb, leb, ◌==◌, if◌then◌else◌, ℤ, pos, negsuc,
  pos_part, neg_part, neg, ◌-ℤ◌, ◌+ℤ◌, ◌*ℤ◌, quot, rem, wrap64, eqb_ℤ, int64_min, min,
}

pub data TypeGroup : Type 0 where
  unknown_group integer_group character_group : TypeGroup

-- Without T_MAX, which counts the types and is the type of no datum.
pub data SqlType : Type 0 where
  t_unknown t_name t_smallint t_integer t_bigint t_char t_varchar : SqlType

pub data SizeMeaning : Type 0 where
  typesz columnsz : SizeMeaning

-- `number` is the member of the union that an integer type selects and `character` the bytes from
-- the pointer on, or `none` for NULL.
pub record Datum : Type 0 where
  pub type : SqlType
  pub size : ℕ
  pub number : ℤ
  pub character : Option (List ℕ)

-- The columns `group`, `size_meaning` and `size` of `g_types`.
abbrev pub get_type_group : SqlType → TypeGroup
get_type_group t_unknown = unknown_group
get_type_group t_name = unknown_group
get_type_group t_smallint = integer_group
get_type_group t_integer = integer_group
get_type_group t_bigint = integer_group
get_type_group t_char = character_group
get_type_group t_varchar = character_group

abbrev pub size_meaning : SqlType → SizeMeaning
size_meaning t_char = columnsz
size_meaning _ = typesz

abbrev pub type_size : SqlType → ℕ
type_size t_unknown = 0
type_size t_name = 0
type_size t_smallint = 2
type_size t_integer = 4
type_size t_bigint = 8
type_size t_char = 0
type_size t_varchar = 2

abbrev pub same_group : TypeGroup → TypeGroup → Bool
same_group unknown_group unknown_group = true
same_group integer_group integer_group = true
same_group character_group character_group = true
same_group _ _ = false

-- The bytes behind `character`.
abbrev pub bytes : Datum → List ℕ
bytes d = elim d.character [ none ↦ [] | some bs ↦ bs ]

-- `character[i] == ' '`
abbrev pub is_space_at : List ℕ → ℕ → Bool
is_space_at bs i = elim (get_elem? bs i) [ none ↦ false | some c ↦ c == b' ' ]

unfoldable pub smallint2bigint : Datum → Datum
smallint2bigint src = record src { type = t_bigint; size = 8 }

unfoldable pub integer2bigint : Datum → Datum
integer2bigint src = record src { type = t_bigint; size = 8 }

-- The loop of `char2varchar`.
unfoldable pub trimmed_size : ℕ → List ℕ → ℕ
trimmed_size zero bs = 0
trimmed_size (suc n) bs = if is_space_at bs n then trimmed_size n bs else suc n

unfoldable pub char2varchar : Datum → Datum
char2varchar src = record src { type = t_varchar; size = trimmed_size src.size (bytes src) }

unfoldable pub convert : SqlType → Datum → Datum
unfolding smallint2bigint integer2bigint char2varchar
convert t_smallint src = smallint2bigint src
convert t_integer src = integer2bigint src
convert t_char src = char2varchar src
convert _ src = src

unfoldable pub to_base_type : Datum → Datum
unfolding convert
to_base_type src = convert src.type src

unfoldable pub datum_zeroed : Datum → Bool
datum_zeroed d = zeroed d.type
  where
    text_zeroed : Bool
    text_zeroed = elim d.character [
      | none ↦ true
      | some bs ↦ elim bs [ [] ↦ true | c ∷ cs ↦ c == 0 ]
    ]

    zeroed : SqlType → Bool
    zeroed t_unknown = false
    zeroed t_smallint = eqb_ℤ d.number (pos 0)
    zeroed t_integer = eqb_ℤ d.number (pos 0)
    zeroed t_bigint = eqb_ℤ d.number (pos 0)
    zeroed t_name = text_zeroed
    zeroed t_char = text_zeroed
    zeroed t_varchar = text_zeroed

unfoldable pub data_comparable : Datum → Datum → Bool
data_comparable d1 d2 =
    same_group (get_type_group d1.type) (get_type_group d2.type)
    && not (same_group (get_type_group d1.type) unknown_group)

unfoldable pub cmp_integer : Datum → Datum → ℤ
cmp_integer d1 d2 = wrap64 ((to_base_type d1).number -ℤ (to_base_type d2).number)

-- The result of an operation on the numbers of two data, in the first of them.
abbrev pub combine : (ℤ → ℤ → ℤ) → Datum → Datum → Datum
combine op d1 d2 =
    let b1 = to_base_type d1 in
    record b1 { number = wrap64 (op b1.number (to_base_type d2).number) }

unfoldable pub add_integer : Datum → Datum → Datum
add_integer = combine ◌+ℤ◌

unfoldable pub sub_integer : Datum → Datum → Datum
sub_integer = combine ◌-ℤ◌

unfoldable pub mul_integer : Datum → Datum → Datum
mul_integer = combine ◌*ℤ◌

-- The division faults at a divisor 0 and at the quotient 2^63: `none`.
abbrev pub faults : Datum → Datum → Bool
faults d1 d2 =
    let a = (to_base_type d1).number in
    let b = (to_base_type d2).number in eqb_ℤ b (pos 0) || (eqb_ℤ a int64_min && eqb_ℤ b (negsuc 0))

unfoldable pub div_integer : Datum → Datum → Option Datum
div_integer d1 d2 = if faults d1 d2 then none else some (combine quot d1 d2)

unfoldable pub mod_integer : Datum → Datum → Option Datum
mod_integer d1 d2 = if faults d1 d2 then none else some (combine rem d1 d2)

-- The first difference of the first `n` bytes decides. The C library promises only the sign.
unfoldable pub memcmp : List ℕ → List ℕ → ℕ → ℤ
memcmp a b zero = pos 0
memcmp [] [] (suc n) = pos 0
memcmp [] (y ∷ b) (suc n) = negsuc 0
memcmp (x ∷ a) [] (suc n) = pos 1
memcmp (x ∷ a) (y ∷ b) (suc n) =
    if x == y then memcmp a b n else if ltb x y then negsuc 0 else pos 1

unfoldable pub cmp_character : Datum → Datum → ℤ
cmp_character d1 d2 =
    let b1 = to_base_type d1 in
    let b2 = to_base_type d2 in
    let ret = memcmp (bytes b1) (bytes b2) (if ltb b1.size b2.size then b1.size else b2.size) in
    if eqb_ℤ ret (pos 0)
    then (if ltb b1.size b2.size then negsuc 0 else if ltb b2.size b1.size then pos 1 else pos 0)
    else ret

unfoldable pub cmp_data : Datum → Datum → ℤ
cmp_data d1 d2 =
    if data_comparable d1 d2
    then elim (get_type_group d1.type) [
      | integer_group ↦ cmp_integer d1 d2
      | character_group ↦ cmp_character d1 d2
      | unknown_group ↦ pos 0
    ]
    else pos 0

-- The dispatch of `add_data` and its four kin.
unfoldable pub dispatch : (Datum → Datum → Option Datum) → Datum → Datum → Option Datum
dispatch op d1 d2 =
    if data_comparable d1 d2
    then elim (get_type_group d1.type) [ integer_group ↦ op d1 d2 | _ ↦ some d1 ]
    else some d1

unfoldable pub add_data : Datum → Datum → Option Datum
add_data = dispatch (λ a b. some (add_integer a b))

unfoldable pub sub_data : Datum → Datum → Option Datum
sub_data = dispatch (λ a b. some (sub_integer a b))

unfoldable pub mul_data : Datum → Datum → Option Datum
mul_data = dispatch (λ a b. some (mul_integer a b))

unfoldable pub div_data : Datum → Datum → Option Datum
div_data = dispatch div_integer

unfoldable pub mod_data : Datum → Datum → Option Datum
mod_data = dispatch mod_integer

-- The caller has checked that both data are lexical; `salloc` is taken to succeed.
unfoldable pub cat_data : Datum → Datum → Datum
cat_data d1 d2 =
    if same_group (get_type_group d1.type) character_group
      && same_group (get_type_group d2.type) character_group
    then record {
      type = t_char;
      size = d1.size + d2.size;
      number = pos 0;
      character = some (take d1.size (bytes d1) ++ take d2.size (bytes d2));
    }
    else d1
