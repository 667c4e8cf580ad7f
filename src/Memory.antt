-- ===== src/Memory.antt =====
-- lib/core/src/memory.c, memory.h: the bump context and the linear context. Offsets count
-- from the start of the context; the sizes are those of a 64-bit machine (
-- `BumpContextHeader` 16 bytes, `BumpContext` 96 without the debug field, aligned 96). The asserts are off.
-- The children and the parent of a context, and the mapping of its pages, are left out.
pub mod Blocks
pub mod Realloc
mod Examples
use scroller.Prelude.{
  ℕ, ◌+◌, ◌-◌, ◌*◌, ◌/◌, ◌%◌, ◌^◌, Bool, true, false, Option, none, some, ltb, leb, ◌==◌,
  if◌then◌else◌, update, ◌&&◌, ◌≤◌,
}
use scroller.Align.{align_up, align_max}

abbrev pub header_size : ℕ
header_size = 16

abbrev pub context_size : ℕ
context_size = 96

-- size_t: sums and differences wrap.
abbrev pub add64 : ℕ → ℕ → ℕ
add64 a b = (a + b) % 2 ^ 64

abbrev pub sub64 : ℕ → ℕ → ℕ
sub64 a b = (a + 2 ^ 64 - b) % 2 ^ 64

-- `block_size p` is the member `size` of the header in front of the offset `p`, and `cells` the
-- bytes of the blocks.
pub record BumpContext : Type 0 where
  pub size : ℕ
  pub current : ℕ
  pub block_size : ℕ → ℕ
  pub cells : ℕ → ℕ

-- The mapping of fresh pages is all zeros.
abbrev pub fresh_context : ℕ → BumpContext
fresh_context size = record {
  size = size;
  current = align_max context_size;
  block_size = λ p. 0;
  cells = λ p. 0;
}

-- `none` is NULL. `linear_context_create` differs in the virtual table alone.
unfoldable pub bump_context_create : ℕ → Option BumpContext
bump_context_create size = if size == 0 then none else some (fresh_context size)

unfoldable pub bump_context_reset : BumpContext → BumpContext
bump_context_reset c = record c { current = align_max context_size }

-- The branch of `bump_context_alloc` that finds room for `sz` bytes.
abbrev pub place : BumpContext → ℕ → BumpContext
place c sz = record c {
  block_size = update c.block_size (c.current + header_size) sz;
  current = add64 c.current (add64 sz header_size);
}

unfoldable pub bump_context_alloc : BumpContext → ℕ → BumpContext × Option ℕ
bump_context_alloc c sz =
    let asz = align_max sz in
    if sz == 0
    then (c, none)
    else if ltb (sub64 c.size c.current) (add64 asz header_size)
    then (c, none)
    else (place c asz, some (c.current + header_size))

-- The rewind of `current` that `bump_context_free` and `bump_context_realloc` share.
unfoldable pub rewind : BumpContext → ℕ → BumpContext
rewind c p = if (p + c.block_size p) == c.current then record c { current = p - header_size } else c

unfoldable pub bump_context_free : BumpContext → Option ℕ → BumpContext
unfolding rewind
bump_context_free c none = c
bump_context_free c (some p) = rewind c p

-- `memcpy(np, p, n)`
unfoldable pub copy : (ℕ → ℕ) → ℕ → ℕ → ℕ → ℕ → ℕ
copy f np p n q = if leb np q && ltb q (np + n) then f (p + (q - np)) else f q

-- `memcpy(np, p, header->size)`, where `header` is the one in front of `p`.
unfoldable pub moved : BumpContext × Option ℕ → ℕ → BumpContext × Option ℕ
unfolding copy
moved (c, none) p = (c, none)
moved (c, some np) p =
    if np == p
    then (c, some np)
    else (record c { cells = copy c.cells np p (c.block_size p) }, some np)

unfoldable pub bump_context_realloc : BumpContext → Option ℕ → ℕ → BumpContext × Option ℕ
unfolding bump_context_alloc bump_context_free rewind moved
bump_context_realloc c none sz = bump_context_alloc c sz
bump_context_realloc c (some p) sz =
    let asz = align_max sz in
    if sz == 0
    then (bump_context_free c (some p), none)
    else if ltb (c.block_size p) asz
    then moved (bump_context_alloc (rewind c p) asz) p
    else (c, some p)

unfoldable pub linear_context_alloc : BumpContext → ℕ → BumpContext × Option ℕ
linear_context_alloc c sz =
    let asz = align_max sz in
    if sz == 0
    then (c, none)
    else if ltb (sub64 c.size c.current) asz
    then (c, none)
    else (record c { current = add64 c.current asz }, some c.current)
