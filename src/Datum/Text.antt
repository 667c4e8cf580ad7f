-- ===== src/Datum/Text.antt =====
-- Strings without their trailing spaces: `char2varchar`, and `cmp_character` against the
-- lexicographic order.
use scroller.Prelude.{
  ℕ, zero, suc, ◌≤◌, ◌<◌, Bool, ◌&&◌, ◌≡◌, ◌↔◌, inl, inr, refl, sym, ◌∙◌, ap, true, false, List, [],
  ◌∷◌, ◌++◌, length, take, ltb, ◌==◌, if◌then◌else◌, ℤ, pos, negsuc, eqb_ℤ, ◌<ℤ◌, arith, Bool-cases,
  neg,
}
use scroller.Datum.{
  Datum, SqlType, t_char, t_unknown, t_name, t_smallint, t_integer, t_bigint, t_varchar, bytes,
  to_base_type, trimmed_size, char2varchar, get_type_group, character_group, memcmp, convert,
  smallint2bigint, integer2bigint, cmp_character, is_space_at,
}

-- The lexicographic order of strings, as a sign.
unfoldable pub lex : List ℕ → List ℕ → ℤ
lex [] [] = pos 0
lex [] (y ∷ b) = negsuc 0
lex (x ∷ a) [] = pos 1
lex (x ∷ a) (y ∷ b) = if x == y then lex a b else if ltb x y then negsuc 0 else pos 1

by_length : ℤ → ℕ → ℕ → ℤ
by_length ret n m =
    if eqb_ℤ ret (pos 0)
    then (if ltb n m then negsuc 0 else if ltb m n then pos 1 else pos 0)
    else ret

memcmp-lex :
    (a b : List ℕ) (n m : ℕ)
    → n ≤ length a
    → m ≤ length b
    → by_length (memcmp a b (if ltb n m then n else m)) n m ≡ lex (take n a) (take m b)
unfolding memcmp lex by_length
memcmp-lex a b zero zero h k = ground arith
memcmp-lex a [] zero (suc m) h k = absurd (omega arith)
memcmp-lex a (y ∷ b) zero (suc m) h k = ground arith
memcmp-lex [] b (suc n) m h k = absurd (omega arith)
memcmp-lex (x ∷ a) b (suc n) zero h k = ground arith
memcmp-lex (x ∷ a) [] (suc n) (suc m) h k = absurd (omega arith)
memcmp-lex (x ∷ a) (y ∷ b) (suc n) (suc m) h k =
    let ih = memcmp-lex a b n m (omega arith) (omega arith) in ground arith

trimmed_size-le : (n : ℕ) (bs : List ℕ) → trimmed_size n bs ≤ n
unfolding trimmed_size
trimmed_size-le zero bs = omega arith
trimmed_size-le (suc n) bs = let ih = trimmed_size-le n bs in ground arith

abbrev pub space : ℕ
space = b' '

abbrev pub one_space : List ℕ
one_space = space ∷ []

-- `k` spaces.
unfoldable pub spaces : ℕ → List ℕ
spaces zero = []
spaces (suc k) = space ∷ spaces k

spaces_end : (k : ℕ) → spaces k ++ one_space ≡ space ∷ spaces k
unfolding spaces
spaces_end zero = refl
spaces_end (suc k) = ap (λ l. space ∷ l) (spaces_end k)

take_space :
    (n : ℕ) (bs : List ℕ) → is_space_at bs n ≡ true → take (suc n) bs ≡ take n bs ++ one_space
take_space zero [] h = ground arith
take_space zero (x ∷ bs) h = ground arith
take_space (suc n) [] h = ground arith
take_space (suc n) (x ∷ bs) h = ap (λ l. x ∷ l) (take_space n bs h)

-- A string without its trailing spaces.
abbrev is_empty : List ℕ → Bool
is_empty [] = true
is_empty (b ∷ bs) = false

unfoldable pub strip : List ℕ → List ℕ
strip [] = []
strip (b ∷ bs) = let rest = strip bs in if b == space && is_empty rest then [] else b ∷ rest

strip-space : (bs : List ℕ) → strip (bs ++ one_space) ≡ strip bs
unfolding strip
strip-space [] = refl
strip-space (b ∷ bs) = rw (strip-space bs) refl

strip_other : (bs : List ℕ) (c : ℕ) → (c == space) ≡ false → strip (bs ++ c ∷ []) ≡ bs ++ c ∷ []
unfolding strip
strip_other [] c h = rw h refl
strip_other (b ∷ []) c h = rw h (ground arith)
strip_other (b ∷ d ∷ bs) c h = let ih = strip_other (d ∷ bs) c h in rw ih (ground arith)

take_other :
    (n : ℕ) (bs : List ℕ)
    → n < length bs
    → is_space_at bs n ≡ false
    → (c : ℕ) × (take (suc n) bs ≡ take n bs ++ c ∷ []) × ((c == space) ≡ false)
take_other n [] h other = absurd (omega arith)
take_other zero (x ∷ bs) h other = (x, refl, other)
take_other (suc n) (x ∷ bs) h other =
    let (c, split, ne) = take_other n bs (omega arith) other in (c, ap (λ l. x ∷ l) split, ne)

take-trimmed_size :
    (n : ℕ) (bs : List ℕ) → n ≤ length bs → take (trimmed_size n bs) bs ≡ strip (take n bs)
unfolding trimmed_size strip
take-trimmed_size zero bs h = refl
take-trimmed_size (suc n) bs h = elim (Bool-cases (is_space_at bs n)) [
  | inl blank ↦ rw blank (
      take-trimmed_size n bs (omega arith)
      ∙ sym (strip-space (take n bs))
      ∙ ap strip (sym (take_space n bs blank)))
  | inr other ↦
      let (c, split, ne) = take_other n bs (omega arith) other in
      rw other (split ∙ sym (strip_other (take n bs) c ne) ∙ ap strip (sym split))
]

lex_refl : (a : List ℕ) → lex a a ≡ pos 0
unfolding lex
lex_refl [] = refl
lex_refl (x ∷ a) = let ih = lex_refl a in ground arith

pub lex-zero : (a b : List ℕ) → lex a b ≡ pos 0 → a ≡ b
unfolding lex
lex-zero [] [] e = refl
lex-zero [] (y ∷ b) e = ground arith
lex-zero (x ∷ a) [] e = ground arith
lex-zero (x ∷ a) (y ∷ b) e = let ih = lex-zero a b in ground arith

pub lex-neg : (a b : List ℕ) → lex b a ≡ neg (lex a b)
unfolding lex
lex-neg [] [] = refl
lex-neg [] (y ∷ b) = refl
lex-neg (x ∷ a) [] = refl
lex-neg (x ∷ a) (y ∷ b) = let ih = lex-neg a b in ground arith

pub lex_trans : (a b c : List ℕ) → lex a b <ℤ pos 0 → lex b c <ℤ pos 0 → lex a c <ℤ pos 0
unfolding lex
lex_trans [] [] [] h k = h
lex_trans [] (y ∷ b) [] h k = ground arith
lex_trans [] b (z ∷ c) h k = ground arith
lex_trans (x ∷ a) [] c h k = ground arith
lex_trans (x ∷ a) (y ∷ b) [] h k = ground arith
lex_trans (x ∷ a) (y ∷ b) (z ∷ c) h k = let ih = lex_trans a b c in ground arith

pub bytes-convert : (t : SqlType) (d : Datum) → bytes (convert t d) ≡ bytes d
unfolding convert smallint2bigint integer2bigint char2varchar
bytes-convert t_unknown d = refl
bytes-convert t_name d = refl
bytes-convert t_smallint d = refl
bytes-convert t_integer d = refl
bytes-convert t_bigint d = refl
bytes-convert t_char d = refl
bytes-convert t_varchar d = refl

-- What a string of a type counts as: that of a CHAR, without its trailing spaces.
abbrev pub counted : SqlType → List ℕ → List ℕ
counted t_char bs = strip bs
counted t_varchar bs = bs
counted t_unknown bs = bs
counted t_name bs = bs
counted t_smallint bs = bs
counted t_integer bs = bs
counted t_bigint bs = bs

-- The string of a datum: as many bytes as it says.
abbrev pub text : Datum → List ℕ
text d = counted d.type (take d.size (bytes d))

-- A datum of a character type that points to as many bytes as it says.
pub record IsText (d : Datum) : Type 0 where
  pub lexical : get_type_group d.type ≡ character_group
  pub held : d.size ≤ length (bytes d)

pub size-convert :
    (t : SqlType) (d : Datum) → get_type_group t ≡ character_group → (convert t d).size ≤ d.size
unfolding convert smallint2bigint integer2bigint char2varchar
size-convert t_char d e = trimmed_size-le d.size (bytes d)
size-convert t_varchar d e = omega arith
size-convert t_unknown d e = ground arith
size-convert t_name d e = ground arith
size-convert t_smallint d e = ground arith
size-convert t_integer d e = ground arith
size-convert t_bigint d e = ground arith

take-convert :
    (t : SqlType) (d : Datum)
    → get_type_group t ≡ character_group
    → d.size ≤ length (bytes d)
    → take (convert t d).size (bytes d) ≡ counted t (take d.size (bytes d))
unfolding convert smallint2bigint integer2bigint char2varchar
take-convert t_char d e h = take-trimmed_size d.size (bytes d) h
take-convert t_varchar d e h = refl
take-convert t_unknown d e h = refl
take-convert t_name d e h = refl
take-convert t_smallint d e h = ground arith
take-convert t_integer d e h = ground arith
take-convert t_bigint d e h = ground arith

pub text_lem : (d : Datum) → IsText d → take (to_base_type d).size (bytes d) ≡ text d
unfolding to_base_type
text_lem d t = take-convert d.type d t.lexical t.held

-- Of two data of a character type with as many bytes as they say, `cmp_character` is the
-- lexicographic order of the strings, of which those of type CHAR count without their trailing
-- spaces.
pub cmp_character-lex :
    (d1 d2 : Datum) → IsText d1 → IsText d2 → cmp_character d1 d2 ≡ lex (text d1) (text d2)
unfolding cmp_character to_base_type by_length
cmp_character-lex d1 d2 t1 t2 =
    let e1 = bytes-convert d1.type d1 in
    let e2 = bytes-convert d2.type d2 in
    let h1 = size-convert d1.type d1 t1.lexical in
    let h2 = size-convert d2.type d2 t2.lexical in
    let k1 = t1.held in
    let k2 = t2.held in
    let same1 = text_lem d1 t1 in
    let same2 = text_lem d2 t2 in
    rw (e1, e2)
      (memcmp-lex (bytes d1) (bytes d2) (to_base_type d1).size (to_base_type d2).size (omega arith)
          (omega arith)
        ∙ ap (λ z. lex z (take (to_base_type d2).size (bytes d2))) same1
        ∙ ap (lex (text d1)) same2)

-- Of data of a character type with as many bytes as they say, `cmp_character` gives zero exactly
-- for strings that are equal up to the trailing spaces of a CHAR, turns its sign with the order of
-- its arguments, and "less" is transitive.
pub cmp_character_order :
    (d1 d2 d3 : Datum)
    → IsText d1
    → IsText d2
    → IsText d3
    → ((cmp_character d1 d2 ≡ pos 0) ↔ (text d1 ≡ text d2))
      × (cmp_character d2 d1 ≡ neg (cmp_character d1 d2))
      × (cmp_character d1 d2 <ℤ pos 0 → cmp_character d2 d3 <ℤ pos 0 → cmp_character d1 d3 <ℤ pos 0)
cmp_character_order d1 d2 d3 t1 t2 t3 =
    rw
      (
        cmp_character-lex d1 d2 t1 t2,
        cmp_character-lex d2 d1 t2 t1,
        cmp_character-lex d2 d3 t2 t3,
        cmp_character-lex d1 d3 t1 t3,
      )
      (
        (lex-zero (text d1) (text d2), λ e. rw e (lex_refl (text d2))),
        lex-neg (text d1) (text d2),
        lex_trans (text d1) (text d2) (text d3),
      )
