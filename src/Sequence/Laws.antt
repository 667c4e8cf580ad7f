-- ===== src/Sequence/Laws.antt =====
-- The invariant of a sequence under every operation of lib/core/src/sequence.c, and what a step
-- does at the bounds and at the end of int64_t.
use scroller.Prelude.{
  ◌≡◌, ◌≢◌, ◌↔◌, ◌⊎◌, Bool, true, false, none, some, arith, ℤ, pos, ◌+ℤ◌, ◌≤ℤ◌, ◌<ℤ◌, wrap64, inl,
  inr, wrap64_of_IsInt64, int64_min, int64_max, IsInt64, int_laws, Bool-cases, Option-cases,
}
use scroller.Sequence.{
  Sequence, is_set, init, currval, bounded, nextval, setval, set_minval, set_maxval, set_increment,
  set_cycle,
}

pub record IsValid (s : Sequence) : Type 0 where
  pub low : int64_min ≤ℤ s.min_val
  pub ordered : s.min_val <ℤ s.max_val
  pub high : s.max_val ≤ℤ int64_max
  pub above : s.min_val ≤ℤ s.last_val
  pub below : s.last_val ≤ℤ s.max_val
  pub moves : s.increment ≢ pos 0
  pub step : IsInt64 s.increment

-- `sequence_init` refuses exactly the four kinds of arguments that it tests for.
pub init-none_iff :
    (minval maxval startval increment : ℤ) (cycle : Bool)
    → (init minval maxval startval increment cycle ≡ none)
      ↔ ((maxval ≤ℤ minval) ⊎ (startval <ℤ minval) ⊎ (maxval <ℤ startval) ⊎ (increment ≡ pos 0))
unfolding init
init-none_iff minval maxval startval increment cycle = (λ e. ground arith, λ h. ground arith)

-- From int64_t arguments, what `sequence_init` lets through is a valid sequence that has no current
-- value yet and whose first `sequence_nextval` gives the start value.
pub init-IsValid :
    (minval maxval startval increment : ℤ) (cycle : Bool) {s : Sequence}
    → IsInt64 minval
    → IsInt64 maxval
    → IsInt64 increment
    → init minval maxval startval increment cycle ≡ some s
    → IsValid s × (currval s ≡ none) × ((nextval s).1 ≡ some startval)
unfolding init currval nextval
init-IsValid minval maxval startval increment cycle hmin hmax hinc e = ground arith

-- What `bounded` lets through lies between the bounds.
bounded-some :
    {s : Sequence} (newval : ℤ) {w : ℤ}
    → IsValid s
    → (s.increment ≢ pos 0)
    → (pos 0 ≤ℤ s.increment → s.min_val ≤ℤ newval)
    → (s.increment ≤ℤ pos 0 → newval ≤ℤ s.max_val)
    → bounded s newval ≡ some w
    → (s.min_val ≤ℤ w) × (w ≤ℤ s.max_val)
unfolding bounded
bounded-some newval v ne up down e = ground arith

next_above :
    {s : Sequence} → IsValid s → pos 0 ≤ℤ s.increment → s.min_val ≤ℤ s.last_val +ℤ s.increment
next_above v h = omega int_laws

next_below :
    {s : Sequence} → IsValid s → s.increment ≤ℤ pos 0 → s.last_val +ℤ s.increment ≤ℤ s.max_val
next_below v h = omega int_laws

pub with_last-IsValid :
    {s : Sequence} (w : ℤ)
    → IsValid s
    → (s.min_val ≤ℤ w) × (w ≤ℤ s.max_val)
    → IsValid (record s { last_val = w })
with_last-IsValid w v h = record {
  low = v.low;
  ordered = v.ordered;
  high = v.high;
  above = h.0;
  below = h.1;
  moves = v.moves;
  step = v.step;
}

-- A valid sequence whose next sum fits int64_t stays valid under `sequence_nextval`, and a value
-- that is returned lies between the bounds.
pub nextval-IsValid :
    {s : Sequence}
    → IsValid s
    → IsInt64 (s.last_val +ℤ s.increment)
    → IsValid (nextval s).0
      × ((v : ℤ) → (nextval s).1 ≡ some v → (s.min_val ≤ℤ v) × (v ≤ℤ s.max_val))
unfolding nextval
nextval-IsValid {s} v fits = rw (wrap64_of_IsInt64 _ fits) (elim (Bool-cases (is_set s.is_called)) [
  | inr first ↦ rw first (ground arith, ground arith)
  | inl called ↦ rw called (elim (Option-cases (bounded s (s.last_val +ℤ s.increment))) [
    | inl out ↦ rw out (v, λ w e. cc)
    | inr (w, e) ↦
        let h = bounded-some _ v v.moves (next_above v) (next_below v) e in
        rw e (with_last-IsValid w v h, λ u q. ground arith)
  ])
])

-- Where the sum fits int64_t, `sequence_nextval` refuses exactly a called sequence that does not
-- cycle and whose step leaves the bound it moves towards.
pub nextval-none_iff :
    {s : Sequence}
    → IsValid s
    → IsInt64 (s.last_val +ℤ s.increment)
    → ((nextval s).1 ≡ none) ↔ (
        (is_set s.is_called ≡ true)
        × (is_set s.cycle ≡ false)
        × ((s.max_val <ℤ s.last_val +ℤ s.increment) ⊎ (s.last_val +ℤ s.increment <ℤ s.min_val)))
unfolding nextval bounded
nextval-none_iff {s} v fits =
    let up = next_above v in
    let down = next_below v in rw (wrap64_of_IsInt64 _ fits) (λ e. ground arith, λ h. ground arith)

wrap64_over :
    (a b : ℤ) → a ≤ℤ int64_max → b ≤ℤ int64_max → int64_max <ℤ a +ℤ b → wrap64 (a +ℤ b) <ℤ pos 0
unfolding wrap64 ◌+ℤ◌
wrap64_over a b ha hb h = ground arith

-- At the end of int64_t the sum wraps: a valid, called sequence over non-negative values whose sum
-- passes the largest int64_t returns success with a value below its minimum, and stores it, whether
-- it cycles or not.
pub nextval_wraps :
    {s : Sequence}
    → IsValid s
    → pos 0 ≤ℤ s.min_val
    → is_set s.is_called ≡ true
    → int64_max <ℤ s.last_val +ℤ s.increment
    → (v : ℤ) × (nextval s ≡ (record s { last_val = v }, some v)) × (v <ℤ s.min_val)
unfolding nextval bounded
nextval_wraps {s} v nonneg called over =
    let w = wrap64 (s.last_val +ℤ s.increment) in
    let below : w <ℤ pos 0 = wrap64_over s.last_val s.increment (omega arith) (omega arith) over in
    let up : pos 0 <ℤ s.increment = omega int_laws in (w, ground arith, omega arith)

-- The setters keep a valid sequence valid, for every argument within int64_t.
pub setters-IsValid :
    {s : Sequence} (val : ℤ) (b : Bool)
    → IsValid s
    → IsInt64 val
    → IsValid (setval s val b).0
      × IsValid (set_minval s val).0
      × IsValid (set_maxval s val).0
      × IsValid (set_increment s val).0
      × IsValid (set_cycle s b).0
unfolding setval set_minval set_maxval set_increment set_cycle
setters-IsValid val b v fits =
    (ground arith, ground arith, ground arith, ground arith, ground arith)

-- A setter refuses exactly the values outside its range, and then changes nothing.
pub setters_status :
    (s : Sequence) (val : ℤ) (b : Bool)
    → (((setval s val b).1 ≡ 0) ↔ ((s.min_val ≤ℤ val) × (val ≤ℤ s.max_val)))
      × (((set_minval s val).1 ≡ 0) ↔ ((val <ℤ s.max_val) × (val ≤ℤ s.last_val)))
      × (((set_maxval s val).1 ≡ 0) ↔ ((s.min_val <ℤ val) × (s.last_val ≤ℤ val)))
      × (((set_increment s val).1 ≡ 0) ↔ (val ≢ pos 0))
unfolding setval set_minval set_maxval set_increment
setters_status s val b = (
  (λ e. ground arith, λ h. ground arith),
  (λ e. ground arith, λ h. ground arith),
  (λ e. ground arith, λ h. ground arith),
  (λ e. ground arith, λ h. ground arith),
)

-- After a successful `sequence_setval` to a value, `sequence_currval` gives the value if the
-- sequence was marked as called, and `sequence_nextval` gives it if it was not.
pub setval-read :
    (s : Sequence) (val : ℤ) {t : Sequence} (b : Bool)
    → setval s val b ≡ (t, 0)
    → (b ≡ true → currval t ≡ some val)
      × (b ≡ false → (currval t ≡ none) × ((nextval t).1 ≡ some val))
unfolding setval currval nextval
setval-read s val b e = (λ q. ground arith, λ q. (ground arith, ground arith))
