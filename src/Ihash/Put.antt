-- ===== src/Ihash/Put.antt =====
-- lib/core/src/ihash.h: `ihash_put`, `ihash_put_key`, `ihash_exists`, `ihash_is_valid`.
-- A well-formed ihash is a finite map, and `ihash_put` stores in it.
use scroller.Prelude.{
  ℕ, ◌≡◌, ◌≢◌, ◌⊎◌, inl, inr, refl, ◌∙◌, Option, none, some, List, [], ◌==◌, if◌then◌else◌, Bool,
  true, false, not, ◌>>=◌, update, ℕ_discrete, eq→==, ne→==,
}
use scroller.Ihash.{
  Ihash, undef, bucket_of, Iterator, ihash_get_fn, ihash_touch_fn, Search, found, missing,
  unfinished, answer,
}
use scroller.Ihash.Chain.{lookup, seek, value_at}
use scroller.Ihash.Map.{IsHash}
use scroller.Ihash.Values.{write_value}
use scroller.Ihash.Write.{get-seek, get-empty, write_value-lookup}
use scroller.Ihash.Outcome.{seek_finishes, Touch-IsTouched}

module _ {ℓ} {A : Type ℓ} where
  -- `none` where the walk does not finish.
  unfoldable pub ihash_exists : Ihash A → ℕ → Option Bool
  ihash_exists h key = do e ← ihash_get_fn h key; some (elim e [ none ↦ false | some p ↦ true ])

  unfoldable pub ihash_put_key : Ihash A → ℕ → Option (Ihash A × Option ℕ)
  ihash_put_key h key = ihash_touch_fn h key

  -- The member `value` of the touched node.
  unfoldable pub ihash_put : Ihash A → ℕ → A → Option (Ihash A × Option ℕ)
  ihash_put h key value = do
    touched ← ihash_touch_fn h key
    some (elim touched.1 [
      | none ↦ touched
      | some e ↦ (record touched.0 { nodes = write_value touched.0.nodes e value }, some e)
    ])

  unfoldable pub ihash_is_valid : Ihash A → Iterator → Bool
  ihash_is_valid h i = not (i.bucket_idx == h.bucketsz)

  module _ (h : Ihash A) (chains : ℕ → List ℕ) (free : List ℕ) (owner : ℕ → ℕ) (key : ℕ)
      (w : IsHash h chains free owner) where
    answer_finishes :
        (s : Search)
        → s ≢ unfinished
        → ((answer s >>= λ e. some (elim e as (λ _. Bool) [ none ↦ false | some p ↦ true ]))
            ≡ some (elim (value_at h.nodes (answer s)) [ none ↦ false | some v ↦ true ]))
    answer_finishes (found p) ne = refl
    answer_finishes (missing p) ne = refl
    answer_finishes unfinished ne = absurd (ne refl)

    -- On a well-formed ihash, the search of `ihash_exists` ends for every key but IHASH_UNDEF, and the
    -- answer is whether there is a value under the key.
    pub exists-lookup :
        key ≢ undef
        → ihash_exists h key ≡ some (elim (lookup h key) [ none ↦ false | some v ↦ true ])
    unfolding ihash_exists
    exists-lookup ne =
        let b = bucket_of h key in
        elim (ℕ_discrete (h.nodes b).key undef) [
          | yes e ↦ rw (get-empty h key e) refl
          | no taken ↦ rw (get-seek h chains free owner key w taken) (
              answer_finishes (seek h.nodes key b (chains b))
                (seek_finishes h.nodes key b (chains b)))
        ]

    -- On a well-formed ihash and for a key that is not IHASH_UNDEF, `ihash_put` terminates. Either it
    -- stores the value, the ihash stays well-formed, and afterwards the value is found under the key,
    -- and under every other key what was found before; or it returns NULL and the ihash stays the
    -- same: then the key is not found and no chain node is free.
    pub put-lookup :
        (v : A)
        → key ≢ undef
        → ((r : Ihash A) × (p : ℕ) × (chains' : ℕ → List ℕ) × (free' : List ℕ) × (owner' : ℕ → ℕ)
            × (ihash_put h key v ≡ some (r, some p))
            × IsHash r chains' free' owner'
            × ((j : ℕ) → j ≢ undef → lookup r j ≡ (if j == key then some v else lookup h j)))
          ⊎ ((ihash_put h key v ≡ some (h, none)) × (lookup h key ≡ none) × (free ≡ []))
    unfolding ihash_put
    put-lookup v ne = elim (Touch-IsTouched h chains free owner key w ne) [
      | inl (p, t) ↦
          let (hash, stored) =
            write_value-lookup t.result t.chains_after t.free_after t.owner_after key t.touched.hash
              v ne t.touched.here in
          inl (
            record t.result { nodes = write_value t.result.nodes p v },
            p,
            update t.chains_after (bucket_of t.result key)
                (t.chains_after (bucket_of t.result key)),
            t.free_after,
            t.owner_after,
            rw t.returns refl,
            hash,
            λ j jne. stored j jne ∙ elim (ℕ_discrete j key) [
              | yes e ↦ rw (eq→== j key e) refl
              | no other ↦ rw (ne→== j key other) (t.touched.others j jne other)
            ],
          )
      | inr (code, missed, split) ↦ inr (rw code refl, rw missed refl, split)
    ]
