-- ===== src/Datum/Like.antt =====
-- The pattern matching of lib/core/src/type.c: `like` and `like_data`. Strings are the bytes from
-- the pointer on; the loops read no byte outside the lengths that they are given.
pub mod Pattern
mod Percents
pub mod Loop
use scroller.Prelude.{
  ℕ, zero, suc, ◌+◌, ◌-◌, ◌*◌, Bool, true, false, ◌&&◌, ◌||◌, Option, none, some, List, get_elem?,
  ltb, ◌==◌, if◌then◌else◌,
}
use scroller.Datum.{Datum, bytes, to_base_type}

-- The local variables of `like`; a `star` of SIZE_MAX is `none`.
pub record Cursor : Type 0 where
  pub si : ℕ
  pub pi : ℕ
  pub star : Option ℕ
  pub ss : ℕ

-- What a turn of the first loop comes to: another turn, or the result.
pub data Turn : Type 0 where
  again : Cursor → Turn
  stop : Bool → Turn

abbrev pub char_at : List ℕ → ℕ → ℕ
char_at bs i = elim (get_elem? bs i) [ none ↦ 0 | some c ↦ c ]

module _ (pattern_bytes : List ℕ) (pat_len : ℕ) where
  abbrev pub is_percent : ℕ → Bool
  is_percent pi = ltb pi pat_len && char_at pattern_bytes pi == b'%'

  -- The second loop, of at most `n` turns.
  unfoldable pub skip_percents : ℕ → ℕ → ℕ
  skip_percents zero pi = pi
  skip_percents (suc n) pi =
      let rest = skip_percents n (suc pi) in if is_percent pi then rest else pi

  abbrev pub end_of_src : ℕ → Bool
  end_of_src pi = skip_percents (pat_len - pi) pi == pat_len

-- The last two branches of the first loop: back to the last '%', if there was one.
abbrev pub retry : Cursor → Turn
retry c = elim c.star [
  | some at ↦ again (record { si = suc c.ss; pi = suc at; star = some at; ss = suc c.ss })
  | none ↦ stop false
]

module _ (src : List ℕ) (src_len : ℕ) (pattern_bytes : List ℕ) (pat_len : ℕ) where
  abbrev pub fits : Cursor → Bool
  fits c =
      ltb c.pi pat_len
      && (char_at pattern_bytes c.pi == b'_' || char_at pattern_bytes c.pi == char_at src c.si)

  unfoldable pub turn : Cursor → Turn
  turn c =
      if ltb c.si src_len
      then (if is_percent pattern_bytes pat_len c.pi
          then again (record { si = c.si; pi = suc c.pi; star = some c.pi; ss = c.si })
          else if fits c
          then again (record { si = suc c.si; pi = suc c.pi; star = c.star; ss = c.ss })
          else retry c)
      else stop (end_of_src pattern_bytes pat_len c.pi)

  unfoldable pub like_loop : ℕ → Cursor → Bool
  like_loop zero c = false
  like_loop (suc fuel) c = elim (turn c) [ again next ↦ like_loop fuel next | stop b ↦ b ]

  -- The fuel is one more than the turns that the loop can take.
  unfoldable pub like : Bool
  like =
      like_loop (suc ((src_len + pat_len + 1) * suc pat_len + pat_len))
        (record { si = 0; pi = 0; star = none; ss = 0 })

unfoldable pub like_data : Datum → Datum → Bool
like_data d1 d2 =
    let b1 = to_base_type d1 in
    let b2 = to_base_type d2 in like (bytes b1) b1.size (bytes b2) b2.size
