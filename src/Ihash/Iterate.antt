-- ===== src/Ihash/Iterate.antt =====
-- The iterator of an ihash: where it begins, and where it goes at the end of a chain.
use scroller.Prelude.{
  ℕ, zero, suc, ◌+◌, ◌-◌, ◌≤◌, ◌<◌, ◌≡◌, ◌≢◌, ◌⊎◌, inl, inr, sym, none, some, ◌==◌, arith,
  Bool-cases, eq-of-==, ne-of-==, eq→==, ne→==, ℕ_discrete,
}
use scroller.Ihash.{
  Ihash, Iterator, undef, next_occupied, ihash_next_occupied_bucket, at_bucket, ihash_begin,
  ihash_next,
}

module _ {ℓ} {A : Type ℓ} where
  abbrev pub Empty : Ihash A → ℕ → Type 0
  Empty h b = (h.nodes b).key ≡ undef

  next_occupied-first :
      (n : ℕ) (h : Ihash A) (idx : ℕ)
      → (idx ≤ next_occupied n h idx)
        × (next_occupied n h idx ≤ idx + n)
        × ((b : ℕ) → idx ≤ b → b < next_occupied n h idx → Empty h b)
        × ((next_occupied n h idx < idx + n) → (h.nodes (next_occupied n h idx)).key ≢ undef)
  unfolding next_occupied
  next_occupied-first zero h idx =
      (omega arith, omega arith, λ b le lt. absurd (omega arith), λ lt. absurd (omega arith))
  next_occupied-first (suc n) h idx =
      let (low, high, before, at) = next_occupied-first n h (idx + 1) in
      elim (Bool-cases (undef == (h.nodes idx).key)) [
        | inr taken ↦ rw taken (
          omega arith,
          omega arith,
          λ b le lt. absurd (omega arith),
          λ lt q. ne-of-== undef (h.nodes idx).key taken (sym q),
        )
        | inl empty ↦
            let e : Empty h idx = sym (eq-of-== undef (h.nodes idx).key empty) in
            rw empty (
              omega arith,
              omega arith,
              λ b le lt. elim (ℕ_discrete b idx) [
                | yes q ↦ rw q e
                | no ne ↦ before b (omega arith) lt
              ],
              λ lt. at (omega arith),
            )
      ]

  -- An iterator that stands on the first bucket from `idx` on that is not empty, or at the end.
  abbrev pub Stands : Ihash A → ℕ → Iterator → Type 0
  Stands h idx i =
      ((b : ℕ) → idx ≤ b → b < i.bucket_idx → Empty h b)
      × (((i.bucket_idx ≡ h.bucketsz) × (i.datum ≡ none))
          ⊎ ((i.bucket_idx < h.bucketsz)
              × (i.datum ≡ some i.bucket_idx)
              × ((h.nodes i.bucket_idx).key ≢ undef)))

  at_bucket-Stands :
      (h : Ihash A) (idx : ℕ)
      → idx ≤ h.bucketsz
      → Stands h idx (at_bucket h (ihash_next_occupied_bucket h idx))
  unfolding ihash_next_occupied_bucket
  at_bucket-Stands h idx le =
      let (low, high, before, at) = next_occupied-first (h.bucketsz - idx) h idx in
      (
        before,
        elim (ℕ_discrete (next_occupied (h.bucketsz - idx) h idx) h.bucketsz) [
          | yes e ↦ inl (e, rw (eq→== _ h.bucketsz e))
          | no ne ↦ inr (omega arith, rw (ne→== _ h.bucketsz ne), at (omega arith))
        ],
      )

  -- `ihash_begin` stands on the first bucket that is not empty. At a node of a bucket whose chain
  -- ends there, `ihash_next` stands on the next such bucket. Where there is none, `datum` is NULL
  -- and the bucket is the one past the last.
  pub iterator-Stands :
      (h : Ihash A) (bucket_idx e : ℕ)
      → bucket_idx < h.bucketsz
      → (h.nodes e).next ≡ undef
      → Stands h 0 (ihash_begin h) × Stands h (bucket_idx + 1) (ihash_next h bucket_idx e)
  unfolding ihash_begin ihash_next
  iterator-Stands h bucket_idx e lt last = (
    at_bucket-Stands h 0 (omega arith),
    rw (eq→== (h.nodes e).next undef last) (at_bucket-Stands h (bucket_idx + 1) (omega arith)),
  )
