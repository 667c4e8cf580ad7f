-- ===== src/Scrc/Parsed.antt =====
-- `recv_header_line` on a whole line of the receive buffer.
use scroller.Prelude.{
  ℕ, suc, ◌+◌, ◌-◌, ◌<◌, ◌≡◌, ◌≢◌, refl, ap, ◌∙◌, none, some, true, false, arith, subst, update,
  update_self, update_ne, ne→==, ℕ_discrete,
}
use scroller.Scrc.{ScrcConnection, fullsz, scrc_ok}
use scroller.Scrc.Header.{trim, header_max, HeaderLine, header_loop, recv_header_line}
use scroller.Scrc.Lines.{
  Plain, Text, Text-agree, trim_at, recv_one, header_loop-Plain, header_loop_colon, header_loop_end,
}

-- A line in a buffer: a name of `n` bytes from `b` on, a colon at `c`, a space, a value of `m` bytes,
-- and a newline at `e`.
pub record Line (f : ℕ → ℕ) (b n c m e : ℕ) : Type 0 where
  pub name : Text f b n
  pub colon : f c ≡ b':'
  pub space : f (c + 1) ≡ 32
  pub value : Text f (c + 2) m
  pub newline : f e ≡ 10
  pub colon_place : c ≡ b + n
  pub end_place : e ≡ c + 2 + m
  pub short : n + m + 3 < header_max

-- A zero written twice at one place, as the loop and `trim` do.
abbrev cut : (ℕ → ℕ) → ℕ → ℕ → ℕ
cut f c = update (update f c 0) c 0

cut-ne : (f : ℕ → ℕ) (c q : ℕ) → q ≢ c → cut f c q ≡ f q
cut-ne f c q ne = update_ne (update f c 0) c q 0 ne ∙ update_ne f c q 0 ne

-- The end of the line, from the value on.
value_end :
    (k t : ℕ) (conn : ScrcConnection) (c m e : ℕ) (hl : HeaderLine)
    → t ≡ m + 1 + suc k
    → conn.rpos ≡ c + 1
    → e ≡ c + 2 + m
    → e < conn.rlen
    → m + 1 < fullsz
    → conn.rbuf (c + 1) ≡ 32
    → Text conn.rbuf (c + 2) m
    → conn.rbuf e ≡ 10
    → header_loop t conn (c + 1) true hl
      ≡ some (
        scrc_ok,
        record conn { rpos = e + 1; rbuf = cut conn.rbuf e },
        record hl { value = some (c + 2) },
      )
value_end k t conn c m e hl et er ee inside small space v newline =
    let f = conn.rbuf in
    let g = update f e 0 in
    let spaces : (i : ℕ) → i < 1 → g (c + 1 + i) ≡ 32 = λ i lt.
      let s : c + 1 + i ≡ c + 1 = omega arith in
      rw s (update_ne f e (c + 1) 0 (λ q. omega (arith, q, ee)) ∙ space) in
    let text : Text g (c + 2) m =
      Text-agree f g (c + 2) m (λ i lt. update_ne f e (c + 2 + i) 0 (λ q. omega (arith, q, ee, lt)))
        v in
    let trimmed : trim g (c + 1) ≡ some (update g e 0, c + 2) =
      trim_at g (c + 1) 1 m (c + 2) e (omega arith) ee spaces text (update_self f e 0)
        (omega arith) in
    header_loop-Plain (m + 1) (suc k) t conn e (c + 1) true hl et (omega (arith, er, ee))
      (omega arith)
      (λ j lt. elim (ℕ_discrete j 0) [
        | yes z ↦
            let s : conn.rpos + j ≡ c + 1 = omega (arith, z, er) in
            let b : f (conn.rpos + j) ≡ 32 = ap f s ∙ space in
            (λ q. omega (arith, b, q), (λ q. omega (arith, b, q)), (λ q. omega (arith, b, q)))
        | no nz ↦
            let s : c + 2 + (j - 1) ≡ conn.rpos + j = omega (arith, nz, er) in
            subst (λ z. Plain (f z)) s (v.plain (j - 1) (omega (arith, nz)))
      ])
    ∙ header_loop_end k (record conn { rpos = e }) (c + 1) hl (update g e 0) (c + 2) inside newline
        trimmed

-- Where a whole line of fewer than HEADER_MAX bytes lies in the receive buffer, which is a name, a
-- colon, a space, a value and a newline, and the name and the value are not empty, have no zero,
-- colon or newline, and no space at either end: `recv_header_line` succeeds with the places of the
-- name and of the value. Zeros end both, the other bytes of the buffer stay, and the read position
-- is behind the line.
pub recv_header_line-Line :
    (conn : ScrcConnection) (n c m e : ℕ)
    → Line conn.rbuf conn.rpos n c m e
    → e < conn.rlen
    → (after : ScrcConnection) × (recv_header_line conn
        ≡ some (scrc_ok, after, record { name = some conn.rpos; value = some (c + 2) }))
      × (after.rbuf c ≡ 0)
      × (after.rbuf e ≡ 0)
      × ((q : ℕ) → q ≢ c → q ≢ e → after.rbuf q ≡ conn.rbuf q)
      × (after.rpos ≡ e + 1)
      × (after.rlen ≡ conn.rlen)
unfolding recv_header_line
recv_header_line-Line conn n c m e l inside =
    let f = conn.rbuf in
    let b = conn.rpos in
    let g = cut f c in
    let hl : HeaderLine = record { name = none; value = none } in
    let k = header_max - 2 - (n + m + 2) in
    let n1 = l.name.some_byte in
    let m1 = l.value.some_byte in
    let ec = l.colon_place in
    let ee = l.end_place in
    let small = l.short in
    let s : b + 0 ≡ b = omega arith in
    let first : Plain (f b) = subst (λ z. Plain (f z)) s (l.name.plain 0 (omega arith)) in
    let name : Text (update f c 0) b n =
      Text-agree f (update f c 0) b n
        (λ i lt. update_ne f c (b + i) 0 (λ q. omega (arith, q, ec, lt))) l.name in
    let trimmed : trim (update f c 0) b ≡ some (g, b) =
      trim_at (update f c 0) b 0 n b c (omega arith) ec (λ i lt. absurd (omega arith)) name
        (update_self f c 0) (omega arith) in
    let same : (q : ℕ) → q ≢ c → g q ≡ f q = cut-ne f c in
    let value : Text g (c + 2) m =
      Text-agree f g (c + 2) m (λ i lt. same (c + 2 + i) (λ q. omega (arith, q))) l.value in
    let start = record conn { rpos = b + 1 } in
    let at_colon = record conn { rpos = c } in
    let at_value = record conn { rpos = c + 1; rbuf = g } in
    let loop1 =
      header_loop-Plain (n - 1) (suc (m + 1 + suc k)) (header_max - 2) start c b false hl
        (omega arith) (omega (arith, ec)) (omega arith)
        (λ j lt.
          let u : b + suc j ≡ b + 1 + j = omega arith in
          subst (λ z. Plain (f z)) u (l.name.plain (suc j) (omega arith))) in
    let loop2 = header_loop_colon (m + 1 + suc k) at_colon b hl g b (omega arith) l.colon trimmed in
    let loop3 =
      value_end k (m + 1 + suc k) at_value c m e (record hl { name = some b }) refl refl ee inside
        (omega arith) (same (c + 1) (λ q. omega (arith, q)) ∙ l.space) value
        (same e (λ q. omega (arith, q, ee)) ∙ l.newline) in
    (
      record conn { rpos = e + 1; rbuf = cut g e },
      rw (recv_one conn (omega (arith, ec, ee)), ne→== (f b) b':' first.2, ne→== (f b) 10 first.1)
          (loop1 ∙ loop2 ∙ loop3),
      cut-ne g e c (λ q. omega (arith, q, ee)) ∙ update_self (update f c 0) c 0,
      update_self (update g e 0) e 0,
      λ q qc qe. cut-ne g e q qe ∙ same q qc,
      refl,
      refl,
    )
