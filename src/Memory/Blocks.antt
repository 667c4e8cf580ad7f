-- ===== src/Memory/Blocks.antt =====
-- The blocks of a bump context: they lie side by side from the context's header on, up to `current`.
use scroller.Prelude.{
  ℕ, ◌+◌, ◌-◌, ◌%◌, ◌^◌, ◌≤◌, ◌<◌, ◌≡◌, ◌⊎◌, inl, inr, refl, false, none, some, List, [], ◌∷◌,
  arith, ltb, ◌==◌, update, update_self, update_ne, Bool-cases, ltb→lt, ne-of-==, ne→==,
}
use scroller.Align.{align_max}
use scroller.Align.Bits.{align_max_value}
use scroller.Memory.{
  BumpContext, header_size, context_size, bump_context_alloc, place, bump_context_reset,
  bump_context_create, add64, sub64, fresh_context,
}

-- `Blocks c end ps`: the blocks at the offsets `ps`, the latest first, fill the context up to `end`.
abbrev pub Blocks : BumpContext → ℕ → List ℕ → Type 0
Blocks c end [] = align_max context_size ≤ end
Blocks c end (p ∷ ps) =
    (end ≡ p + c.block_size p)
    × (1 ≤ c.block_size p)
    × (header_size ≤ p)
    × Blocks c (p - header_size) ps

pub record IsBump (c : BumpContext) (ps : List ℕ) : Type 0 where
  pub blocks : Blocks c c.current ps
  pub room : c.current ≤ c.size
  pub small : c.size < 2 ^ 63

Blocks-above : (c : BumpContext) (end : ℕ) (ps : List ℕ) → Blocks c end ps → context_size ≤ end
Blocks-above c end [] h = omega (arith, align_max_value context_size, h)
Blocks-above c end (p ∷ ps) h =
    let ih = Blocks-above c (p - header_size) ps h.3 in omega (arith, h.0, h.2)

-- A header that lies behind the blocks does not change them.
Blocks-frame :
    (c : BumpContext) (end : ℕ) (ps : List ℕ) (q v : ℕ) (cur : ℕ) (g : ℕ → ℕ)
    → end < q
    → Blocks c end ps
    → Blocks (record c { block_size = update c.block_size q v; current = cur; cells = g }) end ps
Blocks-frame c end [] q v cur g below h = h
Blocks-frame c end (p ∷ ps) q v cur g below h =
    let e : update c.block_size q v p ≡ c.block_size p =
      update_ne c.block_size q p v (omega (arith, h.0)) in
    (
      rw e h.0,
      rw e h.1,
      h.2,
      Blocks-frame c (p - header_size) ps q v cur g (omega (arith, h.0)) h.3,
    )

place-IsBump :
    (c : BumpContext) (ps : List ℕ) (sz : ℕ)
    → IsBump c ps
    → 1 ≤ sz
    → c.current + (sz + header_size) ≤ c.size
    → IsBump (place c sz) ((c.current + header_size) ∷ ps)
place-IsBump c ps sz w pos' fits =
    let small = w.small in
    let at = update_self c.block_size (c.current + header_size) sz in
    let back : c.current + header_size - header_size ≡ c.current = omega arith in
    let next : (c.current + (sz + header_size) % 2 ^ 64) % 2 ^ 64 ≡ c.current + header_size + sz =
      omega arith in
    record {
      blocks = (
        rw at next,
        rw at pos',
        omega arith,
        rw back (
            Blocks-frame c c.current ps (c.current + header_size) sz (place c sz).current c.cells
              (omega arith) w.blocks),
      );
      room = omega arith;
      small = w.small;
    }

-- Of a request that `align_max` does not wrap, `bump_context_alloc` fails exactly on 0 bytes and
-- where the room is short, and then changes nothing. Otherwise the new block is the latest of the
-- context, holds what was asked for, and the others stay as they were.
pub alloc-IsBump :
    (c : BumpContext) (ps : List ℕ) (sz : ℕ)
    → IsBump c ps
    → sz ≤ 2 ^ 63
    → ((bump_context_alloc c sz ≡ (c, none))
        × ((sz ≡ 0) ⊎ (c.size < c.current + (align_max sz + header_size))))
      ⊎ ((bump_context_alloc c sz ≡ (place c (align_max sz), some (c.current + header_size)))
          × IsBump (place c (align_max sz)) ((c.current + header_size) ∷ ps)
          × (sz ≤ align_max sz))
unfolding bump_context_alloc
alloc-IsBump c ps sz w fits =
    let small = w.small in
    let room = w.room in
    let a = align_max_value sz in
    elim (Bool-cases (sz == 0)) [
      | inl empty ↦ inl (rw empty (refl, inl (ground arith)))
      | inr some_bytes ↦
          elim (Bool-cases (ltb (sub64 c.size c.current) (add64 (align_max sz) header_size))) [
            | inl short ↦
                inl (rw (some_bytes, short) (refl, inr (let h = ltb→lt _ _ short in omega arith)))
            | inr long ↦
                let h : c.current + (align_max sz + header_size) ≤ c.size = ground arith in
                let ne = ne-of-== sz 0 some_bytes in
                inr (
                  rw (some_bytes, long)
                    (refl, place-IsBump c ps (align_max sz) w (omega arith) h, omega arith))
          ]
    ]

reset-IsBump :
    (c : BumpContext) → context_size ≤ c.size → c.size < 2 ^ 63 → IsBump (bump_context_reset c) []
unfolding bump_context_reset
reset-IsBump c large small = record {
  blocks = omega arith;
  room = omega (arith, align_max_value context_size);
  small = small;
}

-- A context of at least the size of its header starts without blocks.
pub create-IsBump :
    (size : ℕ)
    → context_size ≤ size
    → size < 2 ^ 63
    → (c : BumpContext) × (bump_context_create size ≡ some c) × IsBump c []
unfolding bump_context_create
create-IsBump size large small =
    let v = align_max_value context_size in
    let start : align_max context_size ≤ size = omega arith in
    (
      fresh_context size,
      rw (ne→== size 0 (omega arith)),
      record { blocks = omega arith; room = start; small = small },
    )

-- In a well-formed context with room for a header, a request within 15 bytes of the largest size_t
-- wraps in `align_max` to no bytes: it gets a block of size 0.
pub alloc_wraps :
    (c : BumpContext) (ps : List ℕ) (sz : ℕ)
    → IsBump c ps
    → c.current + header_size ≤ c.size
    → 2 ^ 64 - 15 ≤ sz
    → sz < 2 ^ 64
    → (bump_context_alloc c sz ≡ (place c 0, some (c.current + header_size)))
      × ((place c 0).block_size (c.current + header_size) ≡ 0)
unfolding bump_context_alloc
alloc_wraps c ps sz w room' large fits =
    let small = w.small in
    let v : align_max sz ≡ 0 = omega (arith, align_max_value sz) in
    let long : ltb (sub64 c.size c.current) (add64 0 header_size) ≡ false = ground arith in
    (rw (ne→== sz 0 (omega arith), v, long), update_self c.block_size (c.current + header_size) 0)
