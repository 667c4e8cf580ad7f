-- ===== src/Tran.antt =====
-- lib/core/src/tran.c and tran.h: the flags of the transactions, a bit for each, and the visibility of
-- a row. The page of the flags is passed on, where the source takes it from the page cache. Neither
-- function tests in a release build that the bit of a number lies in the page: a read elsewhere
-- gives what a parameter says, and a write elsewhere is `none`.
pub mod Flags
mod Examples
use Prim.Native.Nat.{bit_and, bit_or}
use scroller.Prelude.{
  ℕ, ◌+◌, ◌-◌, ◌*◌, ◌/◌, ◌%◌, ◌^◌, Bool, true, false, not, Option, none, some, ◌&&◌, ltb, leb, ◌==◌,
  if◌then◌else◌, update,
}

pub data TranFlag : Type 0 where
  tf_aborted tf_commited : TranFlag

-- `TRAN_INVALID_ID`
abbrev pub invalid_id : ℕ
invalid_id = 0

-- The `size` bytes of `datum` up to the end of the page, PAGESZ without the 8 of `tid_start`. `outside` is what is read for
-- a number below `tid_start` or behind the page; nothing is known of it.
pub record TranPage : Type 0 where
  pub tid_start : ℕ
  pub size : ℕ
  pub datum : ℕ → ℕ
  pub outside : ℕ → TranFlag

-- `(byte >> k) & 1`
abbrev pub bit_at : ℕ → ℕ → ℕ
bit_at byte k = bit_and (byte / 2 ^ k) 1

-- `byte &= ~(1 << k)` on an unsigned char, and `byte |= 1 << k`.
abbrev pub clear_bit : ℕ → ℕ → ℕ
clear_bit byte k = bit_and byte (255 - 2 ^ k)

abbrev pub set_bit : ℕ → ℕ → ℕ
set_bit byte k = bit_or byte (2 ^ k)

abbrev pub to_flag : ℕ → TranFlag
to_flag n = if n == 0 then tf_aborted else tf_commited

-- The byte of a number that is not below `tid_start` lies in the page.
abbrev pub in_page : TranPage → ℕ → Bool
in_page page tid = ltb ((tid - page.tid_start) / 8) page.size

unfoldable pub tran_flag_get : TranPage → ℕ → TranFlag
tran_flag_get page tid =
    let i = tid - page.tid_start in
    if leb page.tid_start tid && in_page page tid
    then to_flag (bit_at (page.datum (i / 8)) (i % 8))
    else page.outside tid

abbrev pub put_bit : TranFlag → ℕ → ℕ → ℕ
put_bit tf_aborted byte k = clear_bit byte k
put_bit tf_commited byte k = set_bit byte k

-- `none` where the assert refuses the number, which must be above `tid_start`, or the byte that is
-- written is not one of the page.
unfoldable pub tran_flag_put : TranPage → ℕ → TranFlag → Option TranPage
tran_flag_put page tid flag =
    let i = tid - page.tid_start in
    if ltb page.tid_start tid && in_page page tid
    then some (record page {
      datum = update page.datum (i / 8) (put_bit flag (page.datum (i / 8)) (i % 8));
    })
    else none

abbrev pub is_commited : TranFlag → Bool
is_commited tf_aborted = false
is_commited tf_commited = true

-- For the transaction with the number `tid`.
unfoldable pub tran_row_is_visible : TranPage → ℕ → ℕ → ℕ → Bool
tran_row_is_visible page tid tmin tmax =
    if tid == tmin
    then not (tid == tmax)
    else if tid == tmax
    then false
    else if is_commited (tran_flag_get page tmin)
    then not (is_commited (tran_flag_get page tmax))
    else false
