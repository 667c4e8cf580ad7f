-- ===== src/Scrc/Header.antt =====
-- lib/core/src/scrc.c: `trim` and `recv_header_line`, on strings that lie in the receive buffer and end
-- with a zero. `none` says that a call of recv() waits, or that `trim` goes over an end of the buffer.
use scroller.Prelude.{
  ℕ, zero, suc, ◌+◌, ◌-◌, ◌/◌, Bool, true, false, not, ◌&&◌, ◌||◌, Option, none, some, leb, ◌==◌,
  if◌then◌else◌, ◌>>=◌, update,
}
use scroller.Scrc.{ScrcConnection, recv_block, bufsz, fullsz, scrc_ok}

abbrev pub scrc_header_error : ℕ
scrc_header_error = 13

abbrev pub scrc_header_too_large : ℕ
scrc_header_too_large = 14

-- The bytes that isspace() takes for spaces.
abbrev pub is_space : ℕ → Bool
is_space b = b == 32 || (leb 9 b && leb b 13)

-- The first loop of `trim`.
unfoldable pub skip_spaces : ℕ → (ℕ → ℕ) → ℕ → Option ℕ
skip_spaces zero f src = none
skip_spaces (suc fuel) f src =
    let rest = skip_spaces fuel f (src + 1) in
    if not (f src == 0) && is_space (f src) then rest else some src

-- The second: up to a zero or a newline.
unfoldable pub line_end : ℕ → (ℕ → ℕ) → ℕ → Option ℕ
line_end zero f c = none
line_end (suc fuel) f c =
    let rest = line_end fuel f (c + 1) in if not (f c == 0) && not (f c == 10) then rest else some c

-- The third, backwards to `src`.
unfoldable pub last_char : (ℕ → ℕ) → ℕ → ℕ → Option ℕ
last_char f src zero = if not (zero == src) && is_space (f zero) then none else some zero
last_char f src (suc c) =
    let rest = last_char f src c in
    if not (suc c == src) && is_space (f (suc c)) then rest else some (suc c)

-- The buffer afterwards and the returned pointer.
unfoldable pub trim : (ℕ → ℕ) → ℕ → Option ((ℕ → ℕ) × ℕ)
trim f src = if f src == 0 then some (f, src) else do
  begin ← skip_spaces fullsz f src
  end ← line_end fullsz f begin
  c ← last_char f begin (end - 1)
  some (update f (c + 1) 0, begin)

abbrev pub header_max : ℕ
header_max = bufsz / 2

-- `none` is NULL, and also a member that is not written.
pub record HeaderLine : Type 0 where
  pub name : Option ℕ
  pub value : Option ℕ

-- The loop of `recv_header_line`, for `k` more bytes of the line.
unfoldable pub header_loop :
    ℕ → ScrcConnection → ℕ → Bool → HeaderLine → Option (ℕ × ScrcConnection × HeaderLine)
header_loop zero conn begin delim hl = some (scrc_header_too_large, conn, hl)
header_loop (suc k) conn begin delim hl = do
  (ret, after, got) ← recv_block conn 1
  elim got as (λ _. Option (ℕ × ScrcConnection × HeaderLine)) [
    | none ↦ some (ret, after, hl)
    | some p ↦
        let f = update after.rbuf p 0 in
        let at_colon = (do
          (g, name) ← trim f begin
          header_loop k (record after { rbuf = g }) (p + 1) true
              (record hl { name = some name })) in
        let at_end = (do
          (g, text) ← trim f begin
          some (
            scrc_ok,
            record after { rbuf = g },
            if delim
                then record hl { value = some text }
                else record { name = some text; value = none },
          )) in
        let rest = header_loop k after begin delim hl in
        if after.rbuf p == b':' then at_colon else if after.rbuf p == 10 then at_end else rest
  ]

-- The line may have HEADER_MAX - 1 bytes: one before the loop, and one for each round.
unfoldable pub recv_header_line : ScrcConnection → Option (ℕ × ScrcConnection × HeaderLine)
recv_header_line conn = do
  (ret, after, got) ← recv_block conn 1
  elim got as (λ _. Option (ℕ × ScrcConnection × HeaderLine)) [
    | none ↦ some (ret, after, record { name = none; value = none })
    | some begin ↦
        if after.rbuf begin == b':' || after.rbuf begin == 10
        then some (scrc_header_error, after, record { name = none; value = none })
        else header_loop (header_max - 2) after begin false (record { name = none; value = none })
  ]
