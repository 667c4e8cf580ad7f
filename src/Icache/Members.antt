-- ===== src/Icache/Members.antt =====
-- Writing the user data of the entry that a touch of the hash returned, before the key enters the
-- list, as the caches built over an icache do.
use scroller.Prelude.{
  ℕ, zero, suc, ◌≡◌, ◌≢◌, refl, sym, ap, ◌∙◌, Option, none, some, Bool, true, false, if◌then◌else◌,
  ◌==◌, List, [], ◌∷◌, All, update_self, ne→==, eq→==, ℕ_discrete,
}
use scroller.Ihash.{Ihash, undef, walk, walk_fuel, bucket_of, ihash_get_fn}
use scroller.Ihash.Chain.{lookup}
use scroller.Ihash.Values.{write_value, key-write_value, next-write_value}
use scroller.Ihash.Write.{write_value-lookup}
use scroller.Ilist2.{Ilist2, put_front}
use scroller.Icache.{Icache, Entry, enter}
use scroller.Icache.Order.{key_at, Held-kept, IsOpen, IsCache, kept_lookups, enter-IsCache}

module _ {ℓ} {A : Type ℓ} where
  walk-write_value :
      (fuel : ℕ) (h : Ihash A) (p : ℕ) (v : A) (key e : ℕ)
      → walk fuel (record h { nodes = write_value h.nodes p v }) key e ≡ walk fuel h key e
  unfolding walk
  walk-write_value zero h p v key e = refl
  walk-write_value (suc fuel) h p v key e =
      rw
        (
          key-write_value h.nodes p v e,
          next-write_value h.nodes p v e,
          walk-write_value fuel h p v key,
        )
        refl

  -- The user data does not matter to a search.
  pub get-write_value :
      (h : Ihash A) (p : ℕ) (v : A) (key : ℕ)
      → ihash_get_fn (record h { nodes = write_value h.nodes p v }) key ≡ ihash_get_fn h key
  unfolding ihash_get_fn
  get-write_value h p v key =
      let b = bucket_of h key in
      rw (key-write_value h.nodes p v b, walk-write_value (walk_fuel h) h p v key b) refl

module _ {ℓ} {A : Type ℓ} where
  -- `e->member = v` for the entry at `e`.
  abbrev pub set_value : Ihash (Entry A) → ℕ → A → Ihash (Entry A)
  set_value hash e v = record hash {
    nodes = write_value hash.nodes e (record (hash.nodes e).value { value = v });
  }

  module _ (hash : Ihash (Entry A)) (list : Ilist2 ℕ) (used free : List ℕ) (key p : ℕ)
      (ne : key ≢ undef) (w : IsOpen hash list used free key p) where
    pub set_value-IsOpen :
        (v : A)
        → IsOpen (set_value hash p v) list used free key p
          × ((j : ℕ) → j ≢ undef → j ≢ key → lookup (set_value hash p v) j ≡ lookup hash j)
    set_value-IsOpen v =
        let e = record (hash.nodes p).value { value = v } in
        let (is, stored) =
          write_value-lookup hash w.chains w.unchained w.owner key w.is_hash e ne w.here in
        let others : (j : ℕ) → j ≢ undef → j ≢ key → lookup (set_value hash p v) j ≡ lookup hash j =
          λ j jne other. stored j jne ∙ rw (ne→== j key other) refl in
        (
          record {
            chains = _;
            unchained = w.unchained;
            owner = w.owner;
            is_hash = is;
            is_list = w.is_list;
            held =
                Held-kept hash (set_value hash p v) list list used (same_keys used)
                  (kept_lookups hash (set_value hash p v) list key e used stored w.apart w.held)
                  w.held;
            listed = λ j jne other e' l. w.listed j jne other e' (sym (others j jne other) ∙ l);
            apart = w.apart;
            here = get-write_value hash p e key ∙ w.here;
          },
          others,
        )
      where
        same_keys : (ps : List ℕ) → All (λ i. key_at list i ≡ key_at list i) ps
        same_keys [] = tt
        same_keys (i ∷ ps) = (refl, same_keys ps)

    -- The key that enters the list keeps its node in the hash and the user data there.
    pub enter-here :
        (cache : Icache A)
        → (ihash_get_fn (enter cache hash list p key).hash key ≡ some (some p))
          × (((enter cache hash list p key).hash.nodes p).value.value ≡ (hash.nodes p).value.value)
    unfolding enter
    enter-here cache =
        let e = record (hash.nodes p).value { idx = (put_front list key).1 } in
        (
          get-write_value hash p e key ∙ w.here,
          ap (λ n. n.value.value) (update_self hash.nodes p (record (hash.nodes p) { value = e })),
        )

module _ {ℓ} {A : Type ℓ} where
  abbrev pub value_of : Option (Entry A) → Option A
  value_of none = none
  value_of (some e) = some e.value

  pub value_of_either :
      (b : Bool) (o : Option (Entry A))
      → value_of (if b then none else o) ≡ (if b then none else value_of o)
  value_of_either true o = refl
  value_of_either false o = refl

  pub none_either : (b : Bool) (o : Option (Entry A)) → o ≡ none → (if b then none else o) ≡ none
  none_either true o e = refl
  none_either false o e = e

  -- The user data of a key.
  abbrev pub held_value : Ihash (Entry A) → ℕ → Option A
  held_value hash j = value_of (lookup hash j)

  module _ (hash : Ihash (Entry A)) (list : Ilist2 ℕ) (used : List ℕ) (x : ℕ) (free : List ℕ)
      (key p : ℕ) (ne : key ≢ undef) (cache : Icache A) where
    -- What is held after the user data is written and the key entered, where `hash` holds what
    -- `held` says.
    pub entered :
        (v : A) (held : ℕ → Option A)
        → ((j : ℕ) → j ≢ undef → j ≢ key → held_value hash j ≡ held j)
        → IsOpen hash list used (x ∷ free) key p
        → IsCache (enter cache (set_value hash p v) list p key) (x ∷ used) free
          × (ihash_get_fn (enter cache (set_value hash p v) list p key).hash key ≡ some (some p))
          × ((j : ℕ)
              → j ≢ undef
              → held_value (enter cache (set_value hash p v) list p key).hash j
                ≡ (if j == key then some v else held j))
    entered v held before state =
        let (state', others) = set_value-IsOpen hash list used (x ∷ free) key p ne state v in
        let set = set_value hash p v in
        let c = enter cache set list p key in
        let (is, others', _) = enter-IsCache cache set list used x free key p ne state' in
        let (at, value) = enter-here set list used (x ∷ free) key p ne state' cache in
        let mine : (set.nodes p).value.value ≡ v =
          ap (λ n. n.value.value)
            (update_self hash.nodes p
              (record (hash.nodes p) { value = record (hash.nodes p).value { value = v } })) in
        (
          is,
          at,
          λ j jne. elim (ℕ_discrete j key) [
            | yes e ↦ ap (held_value c.hash) e ∙ rw (at, eq→== j key e) (ap some (value ∙ mine))
            | no other ↦
                ap value_of (others' j jne other ∙ others j jne other)
                ∙ before j jne other
                ∙ rw (ne→== j key other) refl
          ],
        )
