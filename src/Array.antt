-- ===== src/Array.antt =====
-- lib/core/src/array.c and array.h. The allocator is a parameter, as `my_alloc` is a macro: each
-- call takes its answer, whether the block was granted. A pointer to an array is an `Option`.
pub mod Stack
mod Examples
use scroller.Prelude.{
  ℕ, ◌+◌, ◌-◌, ◌*◌, ◌/◌, ◌%◌, ◌^◌, Bool, true, false, Option, none, some, ltb, ◌==◌, if◌then◌else◌,
  ◌&&◌, update,
}

abbrev pub header_size : ℕ
header_size = 24

abbrev pub default_capacity : ℕ
default_capacity = 128

-- `block` counts the bytes of the block that the allocator gave, and `items` is what lies in it.
pub record Array {ℓ} (A : Type ℓ) : Type ℓ where
  pub size : ℕ
  pub usersz : ℕ
  pub capacity : ℕ
  pub block : ℕ
  pub items : ℕ → A

-- `sizeof(Array) + usersz * capacity` as a size_t
abbrev pub block_of : ℕ → ℕ → ℕ
block_of usersz capacity = (header_size + usersz * capacity) % 2 ^ 64

module _ {ℓ} {A : Type ℓ} where
  -- `fresh` is what the new block holds.
  unfoldable pub array_create_fn : Bool → (ℕ → A) → ℕ → ℕ → Option (Array A)
  array_create_fn granted fresh usersz capacity =
      if granted
      then some (record {
        size = 0;
        usersz = usersz;
        capacity = capacity;
        block = block_of usersz capacity;
        items = fresh;
      })
      else none

  abbrev pub array_size : Option (Array A) → ℕ
  array_size none = 0
  array_size (some a) = a.size

  unfoldable pub array_clear : Option (Array A) → Option (Array A)
  array_clear none = none
  array_clear (some a) = some (record a { size = 0 })

  abbrev pub grown : Array A → ℕ
  grown a = if a.capacity == 0 then 1 else a.capacity * 2 % 2 ^ 64

  -- The array behind the pointer afterwards, and whether the call returned a pointer to it: the new
  -- capacity is written before the block is asked for.
  unfoldable pub array_raise_fn : Bool → Array A → Array A × Bool
  array_raise_fn granted a =
      if a.size == a.capacity
      then (let cap = grown a in
          if granted
          then (record a { size = a.size + 1; capacity = cap; block = block_of a.usersz cap }, true)
          else (record a { capacity = cap }, false))
      else (record a { size = a.size + 1 }, true)

  abbrev pub shrinks : Array A → Bool
  shrinks a = ((a.size - 1) == (a.capacity / 2)) && ltb 4 a.capacity

  unfoldable pub array_reduce_fn : Bool → Array A → Array A × Bool
  array_reduce_fn granted a =
      if a.size == 0
      then (a, false)
      else if shrinks a
      then (if granted
          then (
            record a {
              size = a.size - 1;
              capacity = a.capacity / 2;
              block = block_of a.usersz (a.capacity / 2);
            },
            true,
          )
          else (record a { size = a.size - 1; capacity = a.capacity / 2 }, true))
      else (record a { size = a.size - 1 }, true)

  -- `array_back_ref(a) = v` on the pointer that `array_raise_fn` returned; on NULL nothing is written.
  abbrev pub written : Array A × Bool → A → Array A × Bool
  written (a, true) v = (record a { items = update a.items (a.size - 1) v }, true)
  written (a, false) v = (a, false)

  -- On a pointer that is not NULL.
  unfoldable pub put_to : Bool → Array A → A → Array A × Bool
  unfolding array_raise_fn
  put_to granted a v = written (array_raise_fn granted a) v

  -- The variable `a` afterwards, and whether the macro's value is a pointer.
  unfoldable pub array_put :
      Bool → Bool → (ℕ → A) → ℕ → Option (Array A) → A → Option (Array A) × Bool
  unfolding array_create_fn put_to
  array_put created granted fresh usersz none v =
      elim (array_create_fn created fresh usersz default_capacity) [
        | none ↦ (none, false)
        | some a ↦ let r = put_to granted a v in (some r.0, r.1)
      ]
  array_put created granted fresh usersz (some a) v = let r = put_to granted a v in (some r.0, r.1)

  -- The variable `a` afterwards, which is NULL on an empty array, and the value; on an empty array
  -- it is read outside of the items, `none`.
  unfoldable pub array_pop : Bool → Array A → Option (Array A) × Option A
  unfolding array_reduce_fn
  array_pop granted a =
      let r = array_reduce_fn granted a in
      (if r.1 then some r.0 else none, if a.size == 0 then none else some (a.items (a.size - 1)))
