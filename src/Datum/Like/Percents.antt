-- ===== src/Datum/Like/Percents.antt =====
-- The bytes of a string from a place on, and the second loop of `like`.
use scroller.Prelude.{
  ℕ, zero, suc, ◌+◌, ◌≤◌, ◌<◌, ◌≡◌, ◌≢◌, ◌↔◌, inl, inr, refl, true, false, List, [], ◌∷◌, length,
  take, drop, ◌==◌, arith, Bool-cases, drop_of_length-le, length-take,
}
use scroller.Datum.Like.{char_at, is_percent, skip_percents}
use scroller.Datum.Like.Pattern.{Matches, empty, leave, percent_at_end, not_at_end}

-- The first `n` bytes from place `i` on.
unfoldable pub rest : List ℕ → ℕ → ℕ → List ℕ
rest bs n i = drop i (take n bs)

pub rest-step :
    (bs : List ℕ) (n i : ℕ) → i < n → n ≤ length bs → rest bs n i ≡ char_at bs i ∷ rest bs n (suc i)
unfolding rest
rest-step [] n i h k = absurd (omega arith)
rest-step (b ∷ bs) zero i h k = absurd (omega arith)
rest-step (b ∷ bs) (suc n) zero h k = refl
rest-step (b ∷ bs) (suc n) (suc i) h k = rest-step bs n i (omega arith) (omega arith)

pub rest_end : (bs : List ℕ) (n i : ℕ) → n ≤ i → rest bs n i ≡ []
unfolding rest
rest_end bs n i h = let e = length-take n bs in drop_of_length-le i (take n bs) (omega arith)

module _ (pattern_bytes : List ℕ) (pat_len : ℕ) (hp : pat_len ≤ length pattern_bytes) where
  pub is_percent-true :
      (i : ℕ)
      → is_percent pattern_bytes pat_len i ≡ true
      → (i < pat_len) × (char_at pattern_bytes i ≡ b'%')
  is_percent-true i h = ground arith

  pub is_percent-false :
      (i : ℕ)
      → is_percent pattern_bytes pat_len i ≡ false
      → i < pat_len
      → char_at pattern_bytes i ≢ b'%'
  is_percent-false i h k = ground arith

  pub skip_percents-Matches :
      (n i : ℕ)
      → i + n ≡ pat_len
      → ((skip_percents pattern_bytes pat_len n i == pat_len) ≡ true)
        ↔ Matches (rest pattern_bytes pat_len i) []
  unfolding skip_percents
  skip_percents-Matches zero i e =
      let here : i ≡ pat_len = omega arith in
      rw (here, rest_end pattern_bytes pat_len pat_len (omega arith))
        (λ h. empty, λ d. ground arith)
  skip_percents-Matches (suc n) i e =
      let inside : i < pat_len = omega arith in
      let ih = skip_percents-Matches n (suc i) (omega arith) in
      elim (Bool-cases (is_percent pattern_bytes pat_len i)) [
        | inl percent ↦
            let is = (is_percent-true i percent).1 in
            rw (percent, rest-step pattern_bytes pat_len i inside hp)
              (λ h. leave is (ih.0 h), λ d. ih.1 (percent_at_end is d))
        | inr other ↦
            let isnt = is_percent-false i other inside in
            rw (other, rest-step pattern_bytes pat_len i inside hp)
              (λ h. ground arith, λ d. absurd (not_at_end isnt d))
      ]
