-- ===== src/Fdcache/Owner.antt =====
-- Whose the open descriptors are. `Files` is taken to behave as open(2) and close(2) do.
use scroller.Prelude.{
  ℕ, ◌≡◌, ◌≢◌, ◌⊎◌, inl, inr, refl, sym, ap, ◌∙◌, subst, Bool, true, false, Option, none, some,
  List, ◌==◌, if◌then◌else◌, arith, ℕ_discrete, eq→==, ne→==,
}
use scroller.Ihash.{undef}
use scroller.Fdcache.{Files}

-- A new descriptor is one that was not open, and a call concerns no other one.
pub record IsFiles {W : Type 0} (files : Files W) (is_open : W → ℕ → Bool) : Type 0 where
  pub opens :
      (w : W) (name : List ℕ) (w' : W) (fd : ℕ)
      → files.open_file w name ≡ (w', some fd)
      → (is_open w fd ≡ false) × ((q : ℕ) → is_open w' q ≡ (if q == fd then true else is_open w q))
  pub fails :
      (w : W) (name : List ℕ) (w' : W)
      → files.open_file w name ≡ (w', none)
      → (q : ℕ) → is_open w' q ≡ is_open w q
  pub closes :
      (w : W) (fd : ℕ)
      → is_open w fd ≡ true
      → (q : ℕ) → is_open (files.close_file w fd) q ≡ (if q == fd then false else is_open w q)

-- The open descriptors are those that `fds` has under a key, each under one, and the `Other` ones,
-- which the cache did not open.
pub record Owns (Other : ℕ → Type 0) (fds : ℕ → Option ℕ) (is_open : ℕ → Bool) : Type 0 where
  pub opened : (j fd : ℕ) → j ≢ undef → fds j ≡ some fd → (is_open fd ≡ true) × ¬ Other fd
  pub apart : (j k fd : ℕ) → j ≢ undef → k ≢ undef → fds j ≡ some fd → fds k ≡ some fd → j ≡ k
  pub no_leak :
      (fd : ℕ) → is_open fd ≡ true → ¬ Other fd → (j : ℕ) × (j ≢ undef) × (fds j ≡ some fd)
  pub others : (fd : ℕ) → Other fd → is_open fd ≡ true

module _ (Other : ℕ → Type 0) (fds fds' : ℕ → Option ℕ) (is_open is_open' : ℕ → Bool) where
  pub Owns-same :
      ((j : ℕ) → j ≢ undef → fds' j ≡ fds j)
      → ((q : ℕ) → is_open' q ≡ is_open q)
      → Owns Other fds is_open
      → Owns Other fds' is_open'
  Owns-same same still o = record {
    opened = λ j fd jne e.
        let (yes_open, mine) = o.opened j fd jne (sym (same j jne) ∙ e) in
        (still fd ∙ yes_open, mine);
    apart = λ j k fd jne kne e e'.
        o.apart j k fd jne kne (sym (same j jne) ∙ e) (sym (same k kne) ∙ e');
    no_leak = λ fd h mine.
        let (j, jne, e) = o.no_leak fd (sym (still fd) ∙ h) mine in (j, jne, same j jne ∙ e);
    others = λ fd h. still fd ∙ o.others fd h;
  }

  module _ (key new : ℕ) (ne : key ≢ undef) (missed : fds key ≡ none) (closed : is_open new ≡ false)
      (stored : (j : ℕ) → j ≢ undef → fds' j ≡ (if j == key then some new else fds j))
      (now : (q : ℕ) → is_open' q ≡ (if q == new then true else is_open q))
      (o : Owns Other fds is_open) where
    found :
        (j fd : ℕ)
        → j ≢ undef
        → fds' j ≡ some fd
        → ((j ≡ key) × (fd ≡ new)) ⊎ ((j ≢ key) × (fds j ≡ some fd))
    found j fd jne e = elim (ℕ_discrete j key) [
      | yes s ↦
          let z : some new ≡ some fd = sym (stored j jne ∙ rw (eq→== j key s) refl) ∙ e in
          inl (s, cc)
      | no other ↦ inr (other, sym (stored j jne ∙ rw (ne→== j key other) refl) ∙ e)
    ]

    not_new : (fd : ℕ) → is_open fd ≡ true → fd ≢ new
    not_new fd h is = let z : true ≡ false = sym h ∙ ap is_open is ∙ closed in ground arith

    still : (fd : ℕ) → is_open fd ≡ true → is_open' fd ≡ true
    still fd h = now fd ∙ rw (ne→== fd new (not_new fd h)) h

    -- A new descriptor under a key that had none.
    pub Owns-add : Owns Other fds' is_open'
    Owns-add = record {
      opened = λ j fd jne e. elim (found j fd jne e) [
        | inl (_, is) ↦ (now fd ∙ rw (eq→== fd new is) refl, λ h. not_new fd (o.others fd h) is)
        | inr (_, e') ↦ let (was, mine) = o.opened j fd jne e' in (still fd was, mine)
      ];
      apart = λ j k fd jne kne e e'. elim (found j fd jne e) [
        | inl (is, here) ↦ elim (found k fd kne e') [
          | inl (is', _) ↦ is ∙ sym is'
          | inr (_, held) ↦ absurd (not_new fd (o.opened k fd kne held).0 here)
        ]
        | inr (_, held) ↦ elim (found k fd kne e') [
          | inl (_, here) ↦ absurd (not_new fd (o.opened j fd jne held).0 here)
          | inr (_, held') ↦ o.apart j k fd jne kne held held'
        ]
      ];
      no_leak = λ fd h mine. elim (ℕ_discrete fd new) [
        | yes is ↦ (key, ne, stored key ne ∙ rw (eq→== key key refl, is) refl)
        | no other ↦
            let was : is_open fd ≡ true = sym (now fd ∙ rw (ne→== fd new other) refl) ∙ h in
            let (j, jne, e) = o.no_leak fd was mine in
            let apart : j ≢ key = λ s.
              absurd (let z : none ≡ some fd = sym missed ∙ ap fds (sym s) ∙ e in ground arith) in
            (j, jne, stored j jne ∙ rw (ne→== j key apart) e)
      ];
      others = λ fd h. still fd (o.others fd h);
    }

  module _ (key old : ℕ) (ne : key ≢ undef) (held : fds key ≡ some old)
      (gone : (j : ℕ) → j ≢ undef → fds' j ≡ (if j == key then none else fds j))
      (now : (q : ℕ) → is_open' q ≡ (if q == old then false else is_open q))
      (o : Owns Other fds is_open) where
    kept : (j fd : ℕ) → j ≢ undef → fds' j ≡ some fd → (j ≢ key) × (fds j ≡ some fd)
    kept j fd jne e = elim (ℕ_discrete j key) [
      | yes s ↦
          absurd (
            let z : none ≡ some fd = sym (gone j jne ∙ rw (eq→== j key s) refl) ∙ e in ground arith)
      | no other ↦ (other, sym (gone j jne ∙ rw (ne→== j key other) refl) ∙ e)
    ]

    -- The descriptor of a key is closed and the key leaves.
    pub Owns-drop : Owns Other fds' is_open'
    Owns-drop = record {
      opened = λ j fd jne e.
          let (other, e') = kept j fd jne e in
          let (was, mine) = o.opened j fd jne e' in
          let differ : fd ≢ old =
            λ s. other (o.apart j key fd jne ne e' (held ∙ ap some (sym s))) in
          (now fd ∙ rw (ne→== fd old differ) was, mine);
      apart =
          λ j k fd jne kne e e'. o.apart j k fd jne kne (kept j fd jne e).1 (kept k fd kne e').1;
      no_leak = λ fd h mine.
          let differ : fd ≢ old = λ s.
            absurd (
              let z : false ≡ true = sym (now fd ∙ rw (eq→== fd old s) refl) ∙ h in ground arith) in
          let was : is_open fd ≡ true = sym (now fd ∙ rw (ne→== fd old differ) refl) ∙ h in
          let (j, jne, e) = o.no_leak fd was mine in
          let other : j ≢ key = λ s. differ (some_inj (sym e ∙ ap fds s ∙ held)) in
          (j, jne, gone j jne ∙ rw (ne→== j key other) e);
      others = λ fd h.
          let differ : fd ≢ old = λ s. (o.opened key old ne held).1 (subst Other s h) in
          now fd ∙ rw (ne→== fd old differ) (o.others fd h);
    }
      where
        some_inj : {a b : ℕ} → some a ≡ some b → a ≡ b
        some_inj e = cc

-- A descriptor `fd` is opened, then the descriptor `old` closed: the same as the other way round.
-- And if then `fd` is closed as well, `old` alone was.
module _ (was opened closed : ℕ → Bool) (fd old : ℕ) (up : was old ≡ true) (down : was fd ≡ false)
    (now : (q : ℕ) → opened q ≡ (if q == fd then true else was q))
    (then_closed : (q : ℕ) → closed q ≡ (if q == old then false else opened q)) where
  abbrev pub without_old : ℕ → Bool
  without_old q = if q == old then false else was q

  pub differ : fd ≢ old
  differ e = let z : false ≡ true = sym down ∙ ap was e ∙ up in ground arith

  pub without_old_down : without_old fd ≡ false
  without_old_down = rw (ne→== fd old differ) down

  pub open_close : (q : ℕ) → closed q ≡ (if q == fd then true else without_old q)
  open_close q = elim (ℕ_discrete q fd) [
    | yes e ↦
        then_closed q
        ∙ rw (ne→== q old (λ s. differ (sym e ∙ s)), eq→== q fd e) (now q ∙ rw (eq→== q fd e) refl)
    | no other ↦
        then_closed q
        ∙ rw (ne→== q fd other)
            (ap (λ z. if q == old then false else z) (now q ∙ rw (ne→== q fd other) refl))
  ]

  pub closed_too :
      (last : ℕ → Bool)
      → ((q : ℕ) → last q ≡ (if q == fd then false else closed q))
      → (q : ℕ) → last q ≡ without_old q
  closed_too last end q = elim (ℕ_discrete q fd) [
    | yes e ↦ end q ∙ rw (eq→== q fd e) (sym without_old_down ∙ ap without_old (sym e))
    | no other ↦ end q ∙ rw (ne→== q fd other) (open_close q ∙ rw (ne→== q fd other) refl)
  ]
