-- ===== src/Scrc/Block.antt =====
-- `recv_block`: the client gets the bytes of the stream in their order, however they come in.
use scroller.Prelude.{
  ℕ, zero, suc, ◌+◌, ◌-◌, ◌≤◌, ◌<◌, ◌≡◌, ◌⊎◌, inl, inr, refl, sym, ap, ◌∙◌, Option, none, some, [],
  length, length-append, take, drop, ltb, ◌==◌, if◌then◌else◌, true, false, Bool-cases, ltb→lt,
  arith,
}
use scroller.Scrc.{ScrcConnection, recv_until, recv_block, bufsz, scrc_ok, scrc_buffer_overflow}
use scroller.Scrc.Bytes.{bytes_at, length-bytes_at, take-bytes_at, drop-bytes_at}
use scroller.Scrc.Refill.{incoming, valid, unread, IsBuffer, IsFailure, recv_refill-Refilled}

length-unread :
    (conn : ScrcConnection) → length (unread conn) ≡ valid conn + length (incoming conn.answers)
length-unread conn = omega (
  arith,
  length-append {0} (bytes_at conn.rbuf conn.rpos (valid conn)) (incoming conn.answers),
  length-bytes_at conn.rbuf conn.rpos (valid conn),
)

length-dry :
    (conn : ScrcConnection) → incoming conn.answers ≡ [] → length (unread conn) ≡ valid conn
length-dry conn e = omega (arith, length-unread conn, ap (length {0}) e)

-- The loop ends with enough bytes in the buffer where the stream has them.
recv_until-fills :
    (fuel : ℕ) (conn : ScrcConnection) (size : ℕ)
    → IsBuffer conn
    → size ≤ bufsz
    → size ≤ length (unread conn)
    → size ≤ fuel + valid conn
    → (filled : ScrcConnection) × (recv_until (suc fuel) conn size ≡ some (scrc_ok, filled))
      × IsBuffer filled
      × (size ≤ valid filled)
      × (unread filled ≡ unread conn)
      × (filled.body ≡ conn.body)
unfolding recv_until
recv_until-fills zero conn size w small enough fed = elim (Bool-cases (ltb (valid conn) size)) [
  | inr e ↦ (conn, rw e refl, w, ground arith, refl, refl)
  | inl e ↦ absurd (ground arith)
]
recv_until-fills (suc fuel) conn size w small enough fed =
    elim (Bool-cases (ltb (valid conn) size)) [
      | inr e ↦ (conn, rw e refl, w, ground arith, refl, refl)
      | inl e ↦
          let lt : valid conn < size = ltb→lt (valid conn) size e in
          elim (recv_refill-Refilled conn w (omega arith)) [
            | inl (code, dry) ↦ absurd (omega (arith, length-dry conn dry))
            | inr (inl (status, failed, code, bad, dry)) ↦
                absurd (omega (arith, length-dry conn dry))
            | inr (inr (next, code, f)) ↦
                let (filled, code', w', full, same, kept) =
                  recv_until-fills fuel next size f.buffer small
                    (omega (arith, enough, ap (length {0}) f.same)) (omega (arith, f.more)) in
                (filled, rw (e, code) code', w', full, same ∙ f.same, kept ∙ f.same_body)
          ]
    ]

-- On a well-formed buffer, `recv_block` of at most BUFSZ bytes that the stream still holds succeeds,
-- however the socket splits the stream and whatever calls are interrupted. The pointer leads to the
-- next `size` bytes of the stream, those behind them stay unread, the buffer stays well-formed, and
-- the body flag stays.
pub recv_block-stream :
    (conn : ScrcConnection) (size : ℕ)
    → IsBuffer conn
    → size ≤ bufsz
    → size ≤ length (unread conn)
    → (after : ScrcConnection) × (p : ℕ) × (recv_block conn size ≡ some (scrc_ok, after, some p))
      × (bytes_at after.rbuf p size ≡ take size (unread conn))
      × (unread after ≡ drop size (unread conn))
      × IsBuffer after
      × (after.body ≡ conn.body)
unfolding recv_block
recv_block-stream conn size w small enough =
    let (c, code, w', full, same, kept) =
      recv_until-fills size conn size w small enough (omega arith) in
    let step : size + 1 ≡ suc size = omega arith in
    let fits : ltb bufsz size ≡ false = ground arith in
    let w1 = w'.inside in
    let w2 = w'.fits in
    let split : size + (c.rlen - (c.rpos + size)) ≡ valid c = omega arith in
    (
      record c { rpos = c.rpos + size },
      c.rpos,
      rw (fits, step, code) refl,
      sym (take-bytes_at c.rbuf c.rpos size (valid c) (incoming c.answers) full)
          ∙ ap (take size) same,
      sym (
            drop-bytes_at c.rbuf c.rpos size (valid c) (c.rlen - (c.rpos + size))
              (incoming c.answers) split)
          ∙ ap (drop size) same,
      record { inside = omega arith; fits = w2 },
      kept,
    )

-- It never succeeds beyond the end of the stream.
recv_until-short :
    (fuel : ℕ) (conn : ScrcConnection) (size : ℕ)
    → IsBuffer conn
    → size ≤ bufsz
    → length (unread conn) < size
    → (recv_until fuel conn size ≡ none)
      ⊎ ((status : ℕ) × (failed : ScrcConnection) × (recv_until fuel conn size
            ≡ some (status, failed))
          × IsFailure status)
unfolding recv_until
recv_until-short zero conn size w small short = inl refl
recv_until-short (suc fuel) conn size w small short =
    let few : valid conn < size = omega (arith, length-unread conn) in
    let e : ltb (valid conn) size ≡ true = ground arith in
    elim (recv_refill-Refilled conn w (omega arith)) [
      | inl (code, dry) ↦ inl (rw (e, code) refl)
      | inr (inl (status, failed, code, bad, dry)) ↦
          inr (status, failed, rw (e, code) (stops status failed _ bad), bad)
      | inr (inr (next, code, f)) ↦
          rw (e, code)
            (recv_until-short fuel next size f.buffer small (omega (arith, ap (length {0}) f.same)))
    ]
  where
    stops :
        (status : ℕ) (failed : ScrcConnection) (other : Option (ℕ × ScrcConnection))
        → IsFailure status
        → (if status == scrc_ok then other else some (status, failed)) ≡ some (status, failed)
    stops status failed other (inl b) = rw b refl
    stops status failed other (inr b) = rw b refl

-- On a well-formed buffer, `recv_block` of more than BUFSZ bytes is refused at once, with nothing
-- read. Of fewer, the stream holds enough; or `recv_block` does not succeed: it waits, or it
-- returns NULL with the status of a receive error or of a closed connection.
pub recv_block_short :
    (conn : ScrcConnection) (size : ℕ)
    → IsBuffer conn
    → ((bufsz < size) × (recv_block conn size ≡ some (scrc_buffer_overflow, conn, none)))
      ⊎ ((size ≤ bufsz) × (size ≤ length (unread conn)))
      ⊎ ((length (unread conn) < size)
          × ((recv_block conn size ≡ none)
              ⊎ ((status : ℕ) × (failed : ScrcConnection) × (recv_block conn size
                    ≡ some (status, failed, none))
                  × IsFailure status)))
unfolding recv_block
recv_block_short conn size w = elim (Bool-cases (ltb bufsz size)) [
  | inl e ↦ inl (ground arith, rw e refl)
  | inr e ↦ elim (Bool-cases (ltb (length (unread conn)) size)) [
    | inr k ↦ inr (inl (ground arith, ground arith))
    | inl k ↦
        let short : length (unread conn) < size = ground arith in
        elim (recv_until-short (size + 1) conn size w (ground arith) short) [
          | inl code ↦ inr (inr (short, inl (rw (e, code) refl)))
          | inr (status, failed, code, bad) ↦ inr (
              inr (
                short,
                inr (status, failed, rw (e, code) (ap some (stays status failed _ bad)), bad),
              ))
        ]
  ]
]
  where
    stays :
        (status : ℕ) (failed : ScrcConnection) (x : ℕ × ScrcConnection × Option ℕ)
        → IsFailure status
        → (if status == scrc_ok then x else (status, failed, none)) ≡ (status, failed, none)
    stays status failed x (inl b) = rw b refl
    stays status failed x (inr b) = rw b refl
