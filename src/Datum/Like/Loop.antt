-- ===== src/Datum/Like/Loop.antt =====
-- The loop of `like` decides whether the string matches the pattern.
use scroller.Prelude.{
  ℕ, zero, suc, ◌+◌, ◌-◌, ◌*◌, ◌≤◌, ◌<◌, ◌≡◌, ◌↔◌, ◌⊎◌, inl, inr, refl, sym, subst, true, false,
  Option, none, some, List, [], ◌∷◌, length, take, ltb, arith, Bool-cases, ltb→lt, ap, ◌∙◌, dec_lt,
  suc-mul,
}
use scroller.Datum.{Datum, bytes, to_base_type}
use scroller.Datum.Text.{bytes-convert, size-convert, IsText, text, text_lem}
use scroller.Datum.Like.{
  Cursor, Turn, again, stop, char_at, is_percent, end_of_src, retry, fits, turn, like_loop, like,
  like_data,
}
use scroller.Datum.Like.Percents.{
  rest, rest-step, rest_end, is_percent-true, is_percent-false, skip_percents-Matches,
}
use scroller.Datum.Like.Pattern.{
  Matches, one, leave, take_one, one_inv, percent_at_end, must_take, nothing_left, two_percents,
  drop_one,
}

module _ (src : List ℕ) (src_len : ℕ) (pattern_bytes : List ℕ) (pat_len : ℕ)
    (hs : src_len ≤ length src) (hp : pat_len ≤ length pattern_bytes) where
  abbrev S : ℕ → List ℕ
  S = rest src src_len

  abbrev P : ℕ → List ℕ
  P = rest pattern_bytes pat_len

  S-step : (i : ℕ) → i < src_len → S i ≡ char_at src i ∷ S (suc i)
  S-step i h = rest-step src src_len i h hs

  P-step : (i : ℕ) → i < pat_len → P i ≡ char_at pattern_bytes i ∷ P (suc i)
  P-step i h = rest-step pattern_bytes pat_len i h hp

  P_end : P pat_len ≡ []
  P_end = rest_end pattern_bytes pat_len pat_len (omega arith)

  module _ (G : Type 0) where
    -- What the last '%' means for the question `G`. `a` bounds the turns that go back to a '%' or
    -- find another one.
    abbrev Saved : ℕ → ℕ → ℕ → Option ℕ → ℕ → Type 0
    Saved a si pi none ss = (G → Matches (P pi) (S si)) × (ss ≤ si) × (src_len + pat_len ≤ a + ss)
    Saved a si pi (some at) ss =
        (G ↔ Matches (b'%' ∷ P (suc at)) (S ss))
        × (Matches (P (suc at)) (S ss) → Matches (P pi) (S si))
        × (suc at ≤ pi)
        × (ss ≤ si)
        × (src_len + pat_len ≤ a + ss + suc at)

    record Inv (f a : ℕ) (c : Cursor) : Type 0 where
      now : Matches (P c.pi) (S c.si) → G
      later : G → Matches (b'%' ∷ P c.pi) (S c.si)
      saved : Saved a c.si c.pi c.star c.ss
      src_bound : c.si ≤ src_len
      pattern_bound : c.pi ≤ pat_len
      fuel : a * suc pat_len + (pat_len - c.pi) < f

    -- A fresh start after a '%' that stands before place `pi`.
    Inv-restart :
        (f a at ss : ℕ)
        → G ↔ Matches (b'%' ∷ P (suc at)) (S ss)
        → ss ≤ src_len
        → suc at ≤ pat_len
        → src_len + pat_len ≤ a + ss + suc at
        → suc a * suc pat_len ≤ f
        → Inv f a (record { si = ss; pi = suc at; star = some at; ss = ss })
    Inv-restart f a at ss e h k m b = record {
      now = λ d. e.1 (leave refl d);
      later = e.0;
      saved = (e, λ d. d, omega arith, omega arith, m);
      src_bound = h;
      pattern_bound = k;
      fuel = omega (arith, suc-mul a (suc pat_len));
    }

    abbrev Decides : ℕ → Turn → Type 0
    Decides f (again c) = (a : ℕ) × Inv f a c
    Decides f (stop b) = (b ≡ true) ↔ G

    retry-Decides :
        (f a : ℕ) (c : Cursor)
        → Inv (suc f) a c
        → c.si < src_len
        → ¬ Matches (P c.pi) (S c.si)
        → Decides f (retry c)
    retry-Decides f a c i inside off = by_star a c.star (i.saved) i.fuel
      where
        by_star :
            (a : ℕ) (star : Option ℕ)
            → Saved a c.si c.pi star c.ss
            → a * suc pat_len + (pat_len - c.pi) < suc f
            → Decides f (retry (record c { star = star }))
        by_star a none s b = (λ e. ground arith, λ g. absurd (off (s.0 g)))
        by_star zero (some at) (e, exact, first, order, m) b =
            absurd (omega (arith, i.pattern_bound))
        by_star (suc a) (some at) (e, exact, first, order, m) b =
            let step = S-step c.ss (omega arith) in
            (
              a,
              Inv-restart f a at (suc c.ss)
                  (
                    λ g.
                        must_take refl (subst (λ z. Matches (b'%' ∷ P (suc at)) z) step (e.0 g))
                          (λ d. off (exact (subst (λ z. Matches (P (suc at)) z) (sym step) d))),
                    λ d.
                        e.1
                          (subst (λ z. Matches (b'%' ∷ P (suc at)) z) (sym step) (take_one refl d)),
                  )
                  (omega arith) (omega (arith, i.pattern_bound)) (omega arith) (omega arith),
            )

    Saved-budget :
        (a si pi ss : ℕ) (star : Option ℕ) → Saved a si pi star ss → src_len + pat_len ≤ a + si + pi
    Saved-budget a si pi ss none s = omega arith
    Saved-budget a si pi ss (some at) s = omega arith

    percent-Inv :
        (f a : ℕ) (c : Cursor)
        → Inv (suc f) a c
        → c.si < src_len
        → is_percent pattern_bytes pat_len c.pi ≡ true
        → (b : ℕ) × Inv f b (record { si = c.si; pi = suc c.pi; star = some c.pi; ss = c.si })
    percent-Inv f zero c i inside percent =
        let m = Saved-budget 0 c.si c.pi c.ss c.star i.saved in
        absurd (
          omega (arith, i.pattern_bound, (is_percent-true pattern_bytes pat_len hp c.pi percent).0))
    percent-Inv f (suc a) c i inside percent =
        let m = Saved-budget (suc a) c.si c.pi c.ss c.star i.saved in
        let (first, is) = is_percent-true pattern_bytes pat_len hp c.pi percent in
        let step : P c.pi ≡ b'%' ∷ P (suc c.pi) =
          P-step c.pi first ∙ ap (λ x. x ∷ P (suc c.pi)) is in
        (
          a,
          Inv-restart f a c.pi c.si
              (
                λ g.
                    two_percents refl refl
                      (subst (λ z. Matches (b'%' ∷ z) (S c.si)) step (i.later g)),
                λ d. i.now (subst (λ z. Matches z (S c.si)) (sym step) d),
              )
              (omega arith) (omega arith) (omega arith) (omega (arith, i.fuel)),
        )

    fits_true :
        (c : Cursor)
        → fits src src_len pattern_bytes pat_len c ≡ true
        → (c.pi < pat_len)
          × ((char_at pattern_bytes c.pi ≡ b'_') ⊎ (char_at pattern_bytes c.pi ≡ char_at src c.si))
    fits_true c h = ground arith

    fits_false :
        (c : Cursor)
        → fits src src_len pattern_bytes pat_len c ≡ false
        → c.pi < pat_len
        → ¬ ((char_at pattern_bytes c.pi ≡ b'_') ⊎ (char_at pattern_bytes c.pi ≡ char_at src c.si))
    fits_false c h k = λ e. ground arith

    fits-Inv :
        (f a : ℕ) (c : Cursor)
        → Inv (suc f) a c
        → c.si < src_len
        → is_percent pattern_bytes pat_len c.pi ≡ false
        → fits src src_len pattern_bytes pat_len c ≡ true
        → Inv f a (record { si = suc c.si; pi = suc c.pi; star = c.star; ss = c.ss })
    fits-Inv f a c i inside other fit =
        let (first, h) = fits_true c fit in
        let isnt = is_percent-false pattern_bytes pat_len hp c.pi other first in
        let p = P-step c.pi first in
        let s = S-step c.si inside in
        let onward : Matches (P c.pi) (S c.si) → Matches (P (suc c.pi)) (S (suc c.si)) =
          λ d. (one_inv isnt (rw (p, s) at d)).1 in
        record {
          now = λ d. i.now (rw (p, s) (one isnt h d));
          later = λ g. drop_one _ refl isnt (rw (p, s) at (i.later g));
          saved = saved_on c.star onward i.saved;
          src_bound = omega arith;
          pattern_bound = omega arith;
          fuel = omega (arith, i.fuel);
        }
      where
        saved_on :
            (star : Option ℕ)
            → (Matches (P c.pi) (S c.si) → Matches (P (suc c.pi)) (S (suc c.si)))
            → Saved a c.si c.pi star c.ss
            → Saved a (suc c.si) (suc c.pi) star c.ss
        saved_on none on (e, order, m) = (λ g. on (e g), omega arith, m)
        saved_on (some at) on (e, exact, first, order, m) =
            (e, λ d. on (exact d), omega arith, omega arith, m)

    off-Matches :
        (c : Cursor)
        → c.si < src_len
        → is_percent pattern_bytes pat_len c.pi ≡ false
        → fits src src_len pattern_bytes pat_len c ≡ false
        → c.pi ≤ pat_len
        → ¬ Matches (P c.pi) (S c.si)
    off-Matches c inside other off bound d = elim (dec_lt c.pi pat_len) [
      | yes first ↦
          fits_false c off first
            (one_inv (is_percent-false pattern_bytes pat_len hp c.pi other first)
              (rw (P-step c.pi first, S-step c.si inside) at d)).0
      | no past ↦
          let end : c.pi ≡ pat_len = omega arith in
          let bare : Matches [] (S c.si) = subst (λ z. Matches z (S c.si)) (ap P end ∙ P_end) d in
          nothing_left (rw (S-step c.si inside) at bare)
    ]

    end_of_src-Decides :
        (f a : ℕ) (c : Cursor)
        → Inv (suc f) a c
        → src_len ≤ c.si
        → (end_of_src pattern_bytes pat_len c.pi ≡ true) ↔ G
    end_of_src-Decides f a c i outside =
        let e =
          skip_percents-Matches pattern_bytes pat_len hp (pat_len - c.pi) c.pi
            (omega (arith, i.pattern_bound)) in
        let over = rest_end src src_len c.si outside in
        (λ h. i.now (rw over (e.0 h)), λ g. e.1 (percent_at_end refl (rw over at (i.later g))))

    turn-Decides :
        (f a : ℕ) (c : Cursor)
        → Inv (suc f) a c
        → Decides f (turn src src_len pattern_bytes pat_len c)
    unfolding turn
    turn-Decides f a c i = elim (Bool-cases (ltb c.si src_len)) [
      | inl within ↦
          let inside = ltb→lt c.si src_len within in
          rw within (elim (Bool-cases (is_percent pattern_bytes pat_len c.pi)) [
            | inl percent ↦ rw percent (percent-Inv f a c i inside percent)
            | inr other ↦ rw other (elim (Bool-cases (fits src src_len pattern_bytes pat_len c)) [
              | inl fit ↦ rw fit (a, fits-Inv f a c i inside other fit)
              | inr off ↦
                  rw off
                    (retry-Decides f a c i inside (off-Matches c inside other off i.pattern_bound))
            ])
          ])
      | inr outside ↦ rw outside (end_of_src-Decides f a c i (ground arith))
    ]

    by_turn :
        (f : ℕ) (t : Turn)
        → Decides f t
        → ((next : Cursor) (b : ℕ)
            → Inv f b next
            → (like_loop src src_len pattern_bytes pat_len f next ≡ true) ↔ G)
        → (elim t [ again next ↦ like_loop src src_len pattern_bytes pat_len f next | stop b ↦ b ]
            ≡ true)
          ↔ G
    by_turn f (again next) (a, j) loop = loop next a j
    by_turn f (stop b) e loop = e

    like_loop-Decides :
        (f a : ℕ) (c : Cursor)
        → Inv f a c
        → (like_loop src src_len pattern_bytes pat_len f c ≡ true) ↔ G
    unfolding like_loop
    like_loop-Decides zero a c i = absurd (omega (arith, i.fuel))
    like_loop-Decides (suc f) a c i =
        by_turn f (turn src src_len pattern_bytes pat_len c) (turn-Decides f a c i)
          λ next b j. like_loop-Decides f b next j

-- Of strings with as many bytes as their lengths say, `like` answers true exactly if the whole
-- string matches the pattern: '_' stands for any character, '%' for any number of any characters,
-- and any other character for itself.
pub like_iff :
    (src : List ℕ) (src_len : ℕ) (pattern_bytes : List ℕ) (pat_len : ℕ)
    → src_len ≤ length src
    → pat_len ≤ length pattern_bytes
    → (like src src_len pattern_bytes pat_len ≡ true)
      ↔ Matches (take pat_len pattern_bytes) (take src_len src)
unfolding like rest
like_iff src src_len pattern_bytes pat_len hs hp =
    like_loop-Decides src src_len pattern_bytes pat_len hs hp
      (Matches (take pat_len pattern_bytes) (take src_len src)) _ (src_len + pat_len) _
      (record {
        now = λ d. d;
        later = leave refl;
        saved = (λ d. d, omega arith, omega arith);
        src_bound = omega arith;
        pattern_bound = omega arith;
        fuel = omega (arith, suc-mul (src_len + pat_len) (suc pat_len));
      })

-- On two data of a character type with as many bytes as they say, `like_data` answers true exactly
-- if the string of the first matches the second as a pattern, where the trailing spaces of a CHAR
-- are part of neither.
pub like_data-Matches :
    (d1 d2 : Datum) → IsText d1 → IsText d2 → (like_data d1 d2 ≡ true) ↔ Matches (text d2) (text d1)
unfolding like_data to_base_type
like_data-Matches d1 d2 t1 t2 =
    let e1 = bytes-convert d1.type d1 in
    let e2 = bytes-convert d2.type d2 in
    let h1 = size-convert d1.type d1 t1.lexical in
    let h2 = size-convert d2.type d2 t2.lexical in
    let same1 = text_lem d1 t1 in
    let same2 = text_lem d2 t2 in
    let found = like (bytes d1) (to_base_type d1).size (bytes d2) (to_base_type d2).size in
    rw (e1, e2)
      (subst (λ z. (found ≡ true) ↔ Matches z (text d1)) same2
        (subst (λ z. (found ≡ true) ↔ Matches (take (to_base_type d2).size (bytes d2)) z) same1
          (like_iff (bytes d1) _ (bytes d2) _ (omega (arith, t1.held)) (omega (arith, t2.held)))))
