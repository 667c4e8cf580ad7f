-- ===== src/Memory/Realloc.antt =====
-- `bump_context_free` and `bump_context_realloc` on the blocks of a context.
use scroller.Prelude.{
  ℕ, ◌+◌, ◌-◌, ◌^◌, ◌≤◌, ◌<◌, ◌≡◌, ◌⊎◌, inl, inr, refl, sym, ap, subst, Option, none, some, List,
  [], ◌∷◌, arith, update_self, update_ne, lt→ltb, le→leb, eq→==, ne→==, All, ◌∙◌,
}
use scroller.Align.{align_max}
use scroller.Align.Bits.{align_max_value}
use scroller.Memory.{
  BumpContext, header_size, bump_context_alloc, bump_context_free, bump_context_realloc, rewind,
  moved, copy, place,
}
use scroller.Memory.Blocks.{Blocks, IsBump, alloc-IsBump}

rewind_last :
    (c : BumpContext) (p : ℕ) (ps : List ℕ)
    → IsBump c (p ∷ ps)
    → rewind c p ≡ record c { current = p - header_size }
unfolding rewind
rewind_last c p ps w = rw (eq→== (p + c.block_size p) c.current (sym w.blocks.0))

-- The blocks below do not read `current`.
Blocks-current :
    (c : BumpContext) (end cur : ℕ) (ps : List ℕ)
    → Blocks c end ps
    → Blocks (record c { current = cur }) end ps
Blocks-current c end cur [] h = h
Blocks-current c end cur (p ∷ ps) h = (h.0, h.1, h.2, Blocks-current c (p - header_size) cur ps h.3)

rewound-IsBump :
    (c : BumpContext) (p : ℕ) (ps : List ℕ)
    → IsBump c (p ∷ ps)
    → IsBump (record c { current = p - header_size }) ps
rewound-IsBump c p ps w = record {
  blocks = Blocks-current c (p - header_size) (p - header_size) ps w.blocks.3;
  room = omega (arith, w.blocks.0, w.room);
  small = w.small;
}

Blocks-below :
    (c : BumpContext) (end bound : ℕ) (ps : List ℕ)
    → end < bound
    → Blocks c end ps
    → All (λ p. p + c.block_size p < bound) ps
Blocks-below c end bound [] lt h = tt
Blocks-below c end bound (p ∷ ps) lt h =
    (omega (arith, h.0), Blocks-below c (p - header_size) bound ps (omega (arith, h.0)) h.3)

rewind_inner : (c : BumpContext) (p : ℕ) → p + c.block_size p < c.current → rewind c p ≡ c
unfolding rewind
rewind_inner c p h = rw (ne→== (p + c.block_size p) c.current (omega arith))

below_last :
    (c : BumpContext) (q : ℕ) (ps : List ℕ)
    → IsBump c (q ∷ ps)
    → All (λ p. p + c.block_size p < c.current) ps
below_last c q ps w =
    Blocks-below c (q - header_size) c.current ps (omega (arith, w.blocks.0, w.blocks.1)) w.blocks.3

All-imp : {P Q : ℕ → Type 0} → ((p : ℕ) → P p → Q p) → (ps : List ℕ) → All P ps → All Q ps
All-imp f [] h = tt
All-imp f (p ∷ ps) h = (f p h.0, All-imp f ps h.1)

-- In a well-formed context, `bump_context_free` of the latest block gives its room and its
-- header's back and leaves the others, and the context is well-formed; of an earlier block, and of
-- NULL, it changes nothing.
pub free-IsBump :
    (c : BumpContext) (p : ℕ) (ps : List ℕ)
    → IsBump c (p ∷ ps)
    → (bump_context_free c (some p) ≡ record c { current = p - header_size })
      × IsBump (bump_context_free c (some p)) ps
      × All (λ q. bump_context_free c (some q) ≡ c) ps
      × (bump_context_free c none ≡ c)
unfolding bump_context_free
free-IsBump c p ps w = (
  rewind_last c p ps w,
  subst (λ d. IsBump d ps) (sym (rewind_last c p ps w)) (rewound-IsBump c p ps w),
  All-imp (rewind_inner c) ps (below_last c p ps w),
  refl,
)

align_max_twice : (sz : ℕ) → sz ≤ 2 ^ 62 → align_max (align_max sz) ≡ align_max sz
align_max_twice sz fits = omega (arith, align_max_value sz, align_max_value (align_max sz))

Blocks-cells :
    (c : BumpContext) (g : ℕ → ℕ) (end : ℕ) (ps : List ℕ)
    → Blocks c end ps
    → Blocks (record c { cells = g }) end ps
Blocks-cells c g end [] h = h
Blocks-cells c g end (p ∷ ps) h = (h.0, h.1, h.2, Blocks-cells c g (p - header_size) ps h.3)

Copied-IsBump :
    (c : BumpContext) (g : ℕ → ℕ) (ps : List ℕ) → IsBump c ps → IsBump (record c { cells = g }) ps
Copied-IsBump c g ps w = record {
  blocks = Blocks-cells c g c.current ps w.blocks;
  room = w.room;
  small = w.small;
}

placed_size :
    (d : BumpContext) (p sz : ℕ) → d.current + header_size ≡ p → (place d sz).block_size p ≡ sz
placed_size d p sz at = rw (sym at) (update_self d.block_size (d.current + header_size) sz)

realloc_grows :
    (c : BumpContext) (p sz : ℕ)
    → 1 ≤ sz
    → c.block_size p < align_max sz
    → bump_context_realloc c (some p) sz ≡ moved (bump_context_alloc (rewind c p) (align_max sz)) p
unfolding bump_context_realloc
realloc_grows c p sz pos' grows =
    rw (ne→== sz 0 (omega arith), lt→ltb (c.block_size p) (align_max sz) grows)

-- In a well-formed context, `bump_context_realloc` of the latest block to at most 2^62 bytes,
-- which it is too small for: where the context has the room, the block grows where it is, and the
-- other blocks and all the bytes stay. Where the room is short the result is NULL and the block is
-- no longer one of the context's, although its owner still holds it.
pub realloc_last :
    (c : BumpContext) (p sz : ℕ) (ps : List ℕ)
    → IsBump c (p ∷ ps)
    → 1 ≤ sz
    → sz ≤ 2 ^ 62
    → c.block_size p < align_max sz
    → (r : BumpContext × Option ℕ) × (bump_context_realloc c (some p) sz ≡ r)
      × (((p + align_max sz ≤ c.size)
            × (r.1 ≡ some p)
            × IsBump r.0 (p ∷ ps)
            × (r.0.cells ≡ c.cells)
            × (r.0.block_size p ≡ align_max sz))
          ⊎ ((c.size < p + align_max sz) × (r.1 ≡ none) × IsBump r.0 ps))
unfolding moved
realloc_last c p sz ps w pos' fits grows =
    let d = record c { current = p - header_size } in
    let e =
      realloc_grows c p sz pos' grows
      ∙ ap (λ x. moved (bump_context_alloc x (align_max sz)) p) (rewind_last c p ps w) in
    let v = align_max_value sz in
    let twice = align_max_twice sz fits in
    let at : p - header_size + header_size ≡ p = omega (arith, w.blocks.2) in
    elim (alloc-IsBump d ps (align_max sz) (rewound-IsBump c p ps w) (omega arith)) [
      | inl (same, short) ↦ (
        (d, none),
        e ∙ ap (λ x. moved x p) same,
        inr (
          elim short [ inl z ↦ absurd (omega arith) | inr l ↦ omega arith ],
          refl,
          rewound-IsBump c p ps w,
        ),
      )
      | inr (new, good, _) ↦
          let r = place d (align_max sz) in
          let good' : IsBump r (p ∷ ps) = subst (λ q. IsBump r (q ∷ ps)) at (rw twice at good) in
          let new' : bump_context_alloc d (align_max sz) ≡ (r, some p) =
            rw twice at new ∙ ap (λ q. (r, some q)) at in
          (
            (r, some p),
            e ∙ ap (λ x. moved x p) new' ∙ rw (eq→== p p refl),
            inl (
              omega (arith, good'.room, good'.blocks.0, placed_size d p (align_max sz) at),
              refl,
              good',
              refl,
              placed_size d p (align_max sz) at,
            ),
          )
    ]

copied : (f : ℕ → ℕ) (np p n i : ℕ) → i < n → copy f np p n (np + i) ≡ f (p + i)
unfolding copy
copied f np p n i h =
    let e : np + i - np ≡ i = omega arith in
    rw (e, le→leb np (np + i) (omega arith), lt→ltb (np + i) (np + n) (omega arith))

uncopied : (f : ℕ → ℕ) (np p n q : ℕ) → q < np → copy f np p n q ≡ f q
unfolding copy
uncopied f np p n q h = ground arith

-- In a well-formed context, `bump_context_realloc` of a block that ends below the end of the
-- blocks, to at most 2^62 bytes, which it is too small for: where the context has the room, the
-- bytes of the block are copied to a new, latest block, and all the bytes below stay, those of the
-- old block included. Where the room is short the result is NULL and nothing changes.
pub realloc_inner :
    (c : BumpContext) (p sz : ℕ) (ps : List ℕ)
    → IsBump c ps
    → p + c.block_size p < c.current
    → 1 ≤ sz
    → sz ≤ 2 ^ 62
    → c.block_size p < align_max sz
    → ((bump_context_realloc c (some p) sz ≡ (c, none))
        × (c.size < c.current + (align_max sz + header_size)))
      ⊎ ((r : BumpContext) × (bump_context_realloc c (some p) sz
            ≡ (r, some (c.current + header_size)))
          × IsBump r ((c.current + header_size) ∷ ps)
          × (r.block_size (c.current + header_size) ≡ align_max sz)
          × ((i : ℕ) → i < c.block_size p → r.cells (c.current + header_size + i) ≡ c.cells (p + i))
          × ((q : ℕ) → q < c.current + header_size → r.cells q ≡ c.cells q))
unfolding moved copy
realloc_inner c p sz ps w inner pos' fits grows =
    let e =
      realloc_grows c p sz pos' grows
      ∙ ap (λ x. moved (bump_context_alloc x (align_max sz)) p) (rewind_inner c p inner) in
    let v = align_max_value sz in
    let twice = align_max_twice sz fits in
    let np = c.current + header_size in
    elim (alloc-IsBump c ps (align_max sz) w (omega arith)) [
      | inl (same, short) ↦ inl (
        e ∙ ap (λ x. moved x p) same,
        elim short [ inl z ↦ absurd (omega arith) | inr l ↦ omega arith ],
      )
      | inr (new, good, _) ↦
          let r = place c (align_max sz) in
          let good' : IsBump r (np ∷ ps) = rw twice at good in
          let new' : bump_context_alloc c (align_max sz) ≡ (r, some np) = rw twice at new in
          let kept : r.block_size p ≡ c.block_size p =
            update_ne c.block_size np p (align_max sz) (omega arith) in
          inr (
            record r { cells = copy c.cells np p (r.block_size p) },
            e ∙ ap (λ x. moved x p) new' ∙ rw (ne→== np p (omega arith)),
            Copied-IsBump r _ (np ∷ ps) good',
            placed_size c np (align_max sz) refl,
            λ i h. copied c.cells np p (r.block_size p) i (omega arith),
            λ q h. uncopied c.cells np p (r.block_size p) q h,
          )
    ]
