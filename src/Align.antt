-- ===== src/Align.antt =====
-- lib/core/src/align.c.
pub mod Bits
use Prim.Native.Nat.{bit_and}
use scroller.Prelude.{ℕ, zero, suc, ◌+◌, ◌-◌, ◌%◌, ◌^◌}

-- `_Alignof(max_align_t)` of a 64-bit machine.
abbrev pub max_align : ℕ
max_align = 16

-- `x & ~m` clears the bits of `m`: it is `x - (x & m)`. The mask of alignment 0 is `~-1`, no bits.
unfoldable pub align_up : ℕ → ℕ → ℕ
align_up sz zero = 0
align_up sz (suc m) = let x = (sz + m) % 2 ^ 64 in x - bit_and x m

abbrev pub align_max : ℕ → ℕ
align_max sz = align_up sz max_align
