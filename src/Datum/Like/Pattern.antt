-- ===== src/Datum/Like/Pattern.antt =====
-- What it means that a string matches a pattern of LIKE, with no order of search in it.
use scroller.Prelude.{ℕ, ◌≡◌, ◌≢◌, ◌⊎◌, List, [], ◌∷◌}

pub data Matches : List ℕ → List ℕ → Type 0 where
  empty : Matches [] []
  -- '_' stands for any character, and a character other than '%' for itself.
  one :
      {p c : ℕ} {ps cs : List ℕ}
      → p ≢ b'%'
      → (p ≡ b'_') ⊎ (p ≡ c)
      → Matches ps cs
      → Matches (p ∷ ps) (c ∷ cs)
  -- '%' stands for no character, or for one and then again for any number of them.
  leave : {p : ℕ} {ps cs : List ℕ} → p ≡ b'%' → Matches ps cs → Matches (p ∷ ps) cs
  take_one : {p c : ℕ} {ps cs : List ℕ} → p ≡ b'%' → Matches (p ∷ ps) cs → Matches (p ∷ ps) (c ∷ cs)

pub nothing_left : {c : ℕ} {cs : List ℕ} → ¬ Matches [] (c ∷ cs)
nothing_left d = elim d [ ]

module _ {p : ℕ} {ps : List ℕ} where
  pub one_inv :
      {c : ℕ} {cs : List ℕ}
      → p ≢ b'%'
      → Matches (p ∷ ps) (c ∷ cs)
      → ((p ≡ b'_') ⊎ (p ≡ c)) × Matches ps cs
  one_inv n (one _ h d) = (h, d)
  one_inv n (leave e d) = absurd (n e)
  one_inv n (take_one e d) = absurd (n e)

  pub percent_at_end : p ≡ b'%' → Matches (p ∷ ps) [] → Matches ps []
  percent_at_end e (leave _ d) = d

  pub not_at_end : p ≢ b'%' → ¬ Matches (p ∷ ps) []
  not_at_end n (leave e d) = n e

  -- A '%' that cannot stand for nothing takes a character.
  pub must_take :
      {c : ℕ} {cs : List ℕ}
      → p ≡ b'%'
      → Matches (p ∷ ps) (c ∷ cs)
      → ¬ Matches ps (c ∷ cs)
      → Matches (p ∷ ps) cs
  must_take e (one n _ _) other = absurd (n e)
  must_take e (leave _ d) other = absurd (other d)
  must_take e (take_one _ d) other = d

module _ {p q : ℕ} {ps : List ℕ} where
  pub two_percents :
      {cs : List ℕ} → p ≡ b'%' → q ≡ b'%' → Matches (q ∷ p ∷ ps) cs → Matches (p ∷ ps) cs
  two_percents e k (one n _ _) = absurd (n k)
  two_percents e k (leave _ d) = d
  two_percents e k (take_one _ d) = take_one e (two_percents e k d)

  -- Why the first place where the rest of the pattern fits loses nothing: wherever it fits, its
  -- tail begins after the first character.
  pub drop_one :
      {c : ℕ} (cs : List ℕ)
      → q ≡ b'%'
      → p ≢ b'%'
      → Matches (q ∷ p ∷ ps) (c ∷ cs)
      → Matches (q ∷ ps) cs
  drop_one cs e n (one k _ _) = absurd (k e)
  drop_one cs e n (leave _ d) = leave e (one_inv n d).1
  drop_one [] e n (take_one _ d) = absurd (not_at_end n (percent_at_end e d))
  drop_one (c ∷ cs) e n (take_one _ d) = take_one e (drop_one cs e n d)
