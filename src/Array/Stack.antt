-- ===== src/Array/Stack.antt =====
-- The array as a stack, while the allocator grants what is asked, and what a refusal leaves behind.
use scroller.Prelude.{
  ℕ, zero, suc, ◌+◌, ◌-◌, ◌*◌, ◌/◌, ◌^◌, ◌≤◌, ◌<◌, ◌≡◌, inl, inr, refl, Bool, true, false, some,
  List, [], ◌∷◌, ◌++◌, ◌==◌, update, update_self, update_ne, arith, Bool-cases, eq-of-==, ne-of-==,
  eq→==, ne→==,
}
use scroller.Array.{
  Array, header_size, block_of, grown, shrinks, array_raise_fn, array_reduce_fn, array_put,
  array_pop, put_to,
}

-- The block holds the items that the capacity promises.
pub record IsArray {ℓ} {A : Type ℓ} (a : Array A) : Type 0 where
  pub within : a.size ≤ a.capacity
  pub held : header_size + a.usersz * a.capacity ≤ a.block
  pub fits : a.block < 2 ^ 64
  pub small : a.capacity < 2 ^ 63

-- The items in order.
unfoldable pub first_items {ℓ} : {A : Type ℓ} → ℕ → (ℕ → A) → List A
first_items zero f = []
first_items (suc n) f = first_items n f ++ f n ∷ []

abbrev pub contents {ℓ} : {A : Type ℓ} → Array A → List A
contents a = first_items a.size a.items

mul_mono : (u c d : ℕ) → c ≤ d → u * c ≤ u * d
mul_mono zero c d h = omega arith
mul_mono (suc u) c d h = omega (arith, mul_mono u c d h)

block_exact : (u c : ℕ) → header_size + u * c < 2 ^ 64 → block_of u c ≡ header_size + u * c
block_exact u c h = omega arith

module _ {ℓ} {A : Type ℓ} where
  first_items-update :
      (n k : ℕ) (f : ℕ → A) (v : A) → n ≤ k → first_items n (update f k v) ≡ first_items n f
  unfolding first_items
  first_items-update zero k f v h = refl
  first_items-update (suc n) k f v h =
      rw (first_items-update n k f v (omega arith), update_ne f k n v (omega arith))

  first_items-put :
      (n k : ℕ) (f : ℕ → A) (v : A)
      → k ≡ n + 1
      → first_items k (update f (k - 1) v) ≡ first_items n f ++ v ∷ []
  unfolding first_items
  first_items-put n k f v e =
      let e' : k ≡ suc n = omega arith in
      let e'' : suc n - 1 ≡ n = omega arith in
      rw (e', e'') (rw (first_items-update n n f v (omega arith), update_self f n v))

  raise_ok :
      (a : Array A)
      → IsArray a
      → a.capacity < 2 ^ 62
      → header_size + a.usersz * grown a < 2 ^ 64
      → (b : Array A) × (array_raise_fn true a ≡ (b, true))
        × IsArray b
        × (b.size ≡ a.size + 1)
        × (b.items ≡ a.items)
  unfolding array_raise_fn
  raise_ok a w short few =
      let held = w.held in
      let within = w.within in
      let small = w.small in
      elim (Bool-cases (a.size == a.capacity)) [
        | inl full ↦
            let e = eq-of-== _ _ full in
            rw full (
              _,
              refl,
              record {
                within = ground arith;
                held = omega (arith, block_exact a.usersz (grown a) few);
                fits = omega (arith, block_exact a.usersz (grown a) few);
                small = ground arith;
              },
              refl,
              refl,
            )
        | inr left ↦
            let e = ne-of-== _ _ left in
            rw left (
              _,
              refl,
              record { within = omega arith; held = w.held; fits = w.fits; small = w.small },
              refl,
              refl,
            )
      ]

  -- Of an array whose block holds its capacity, below 2^62 items, and where a block of twice the
  -- capacity would fit a size_t: if the allocator grants what is asked, `array_put` appends the
  -- item, and the block holds the new capacity.
  pub put-contents :
      (created : Bool) (fresh : ℕ → A) (usersz : ℕ) (a : Array A) (v : A)
      → IsArray a
      → a.capacity < 2 ^ 62
      → header_size + a.usersz * grown a < 2 ^ 64
      → (b : Array A) × (array_put created true fresh usersz (some a) v ≡ (some b, true))
        × IsArray b
        × (contents b ≡ contents a ++ v ∷ [])
  unfolding array_put put_to
  put-contents created fresh usersz a v w short few =
      let (b, e, good, one_more, same) = raise_ok a w short few in
      (
        record b { items = update b.items (b.size - 1) v },
        rw e,
        record { within = good.within; held = good.held; fits = good.fits; small = good.small },
        rw same (first_items-put a.size b.size a.items v one_more),
      )

  reduce_ok :
      (granted : Bool) (a : Array A)
      → IsArray a
      → 1 ≤ a.size
      → (b : Array A) × (array_reduce_fn granted a ≡ (b, true))
        × IsArray b
        × (a.size ≡ b.size + 1)
        × (b.items ≡ a.items)
  unfolding array_reduce_fn
  reduce_ok granted a w one =
      let held = w.held in
      let within = w.within in
      let small = w.small in
      let fits = w.fits in
      let half : a.capacity / 2 ≤ a.capacity = omega arith in
      let less = mul_mono a.usersz (a.capacity / 2) a.capacity half in
      let exact = block_exact a.usersz (a.capacity / 2) (omega arith) in
      elim (Bool-cases (shrinks a)) [
        | inr stays ↦
            rw (ne→== a.size 0 (omega arith), stays)
              (
                _,
                refl,
                record { within = omega arith; held = w.held; fits = w.fits; small = w.small },
                omega arith,
                refl,
              )
        | inl smaller ↦
            let e : a.size - 1 ≡ a.capacity / 2 = ground arith in
            rw (ne→== a.size 0 (omega arith), smaller)
              (elim (Bool-cases granted) [
                | inl yes_block ↦ rw yes_block (
                  _,
                  refl,
                  record {
                    within = omega arith;
                    held = omega arith;
                    fits = omega arith;
                    small = omega arith;
                  },
                  omega arith,
                  refl,
                )
                | inr no_block ↦ rw no_block (
                  _,
                  refl,
                  record {
                    within = omega arith;
                    held = omega arith;
                    fits = w.fits;
                    small = omega arith;
                  },
                  omega arith,
                  refl,
                )
              ])
      ]

  -- Of an array that is not empty and whose block holds its capacity, `array_pop` gives the last
  -- item and leaves the others, in an array whose block still holds its capacity, whatever the
  -- allocator answers.
  pub pop-contents :
      (granted : Bool) (a : Array A)
      → IsArray a
      → 1 ≤ a.size
      → (b : Array A) × (v : A) × (array_pop granted a ≡ (some b, some v))
        × IsArray b
        × (contents a ≡ contents b ++ v ∷ [])
  unfolding array_pop first_items
  pop-contents granted a w one =
      let (b, e, good, less, same) = reduce_ok granted a w one in
      let size : a.size ≡ suc b.size = omega arith in
      let back : suc b.size - 1 ≡ b.size = omega arith in
      (
        b,
        a.items b.size,
        rw (e, size, back) (rw (ne→== (suc b.size) 0 (omega arith))),
        good,
        rw (size, same),
      )

  -- Of a full array with items of at least a byte, a capacity from 1 to below 2^62, and a block of
  -- exactly that size: `array_put` whose block is refused returns NULL and leaves the doubled
  -- capacity behind, so that the next `array_put` succeeds, whatever the allocator would say, and
  -- counts an item that ends behind the block.
  pub put_after_refusal :
      (created granted : Bool) (fresh : ℕ → A) (usersz : ℕ) (a : Array A) (v u : A)
      → 1 ≤ a.usersz
      → 1 ≤ a.capacity
      → a.capacity < 2 ^ 62
      → a.size ≡ a.capacity
      → a.block ≡ header_size + a.usersz * a.capacity
      → (b c : Array A) × (array_put created false fresh usersz (some a) v ≡ (some b, false))
        × (array_put created granted fresh usersz (some b) u ≡ (some c, true))
        × (c.block < header_size + c.usersz * c.size)
  unfolding array_put put_to array_raise_fn
  put_after_refusal created granted fresh usersz a v u wide some_items short full exact =
      let b = record a { capacity = grown a } in
      let more : a.capacity < grown a = ground arith in
      let wider = mul_mono a.usersz (a.capacity + 1) (a.size + 1) (omega arith) in
      let c = record b { size = a.size + 1; items = update a.items (a.size + 1 - 1) u } in
      (
        b,
        c,
        rw (eq→== a.size a.capacity full),
        rw (ne→== a.size (grown a) (omega arith)),
        omega (arith, exact, wider),
      )
