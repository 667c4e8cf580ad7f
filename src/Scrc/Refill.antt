-- ===== src/Scrc/Refill.antt =====
-- `recv_refill`: whatever the socket does, the unread bytes of the buffer and the bytes that are still
-- to come are one stream.
use scroller.Prelude.{
  ℕ, ◌+◌, ◌-◌, ◌≤◌, ◌<◌, ◌≡◌, ◌⊎◌, inl, inr, refl, sym, ap, ◌∙◌, Option, none, some, List, [], ◌∷◌,
  ◌++◌, length, take, drop, append_assoc, take-append-drop, length-take, ltb, Bool-cases, arith,
  min,
}
use scroller.Scrc.{
  ScrcConnection, Answer, received, interrupted, broken, put_back, recv_into, compact, recv_refill,
  fullsz, bufsz, reservesz, scrc_ok, scrc_recv_error, scrc_connection_closed,
}
use scroller.Scrc.Bytes.{
  bytes_at, write_at, length-bytes_at, bytes_at-add, bytes_at-below, bytes_at-write_at,
}

-- The bytes that come in before the stream ends or breaks.
abbrev pub incoming : List Answer → List ℕ
incoming [] = []
incoming (interrupted ∷ answers) = incoming answers
incoming (broken ∷ answers) = []
incoming (received [] ∷ answers) = []
incoming (received (b ∷ bs) ∷ answers) = (b ∷ bs) ++ incoming answers

abbrev pub valid : ScrcConnection → ℕ
valid conn = conn.rlen - conn.rpos

-- The bytes that the client has not read yet.
abbrev pub unread : ScrcConnection → List ℕ
unread conn = bytes_at conn.rbuf conn.rpos (valid conn) ++ incoming conn.answers

pub record IsBuffer (conn : ScrcConnection) : Type 0 where
  pub inside : conn.rpos ≤ conn.rlen
  pub fits : conn.rlen ≤ fullsz

-- Bytes came in, and the stream is the same.
pub record Fed (conn fed : ScrcConnection) (ahead : List ℕ) : Type 0 where
  pub buffer : IsBuffer fed
  pub more : valid conn < valid fed
  pub same_body : fed.body ≡ conn.body
  pub same : unread fed ≡ bytes_at conn.rbuf conn.rpos (valid conn) ++ ahead

abbrev pub IsFailure : ℕ → Type 0
IsFailure status = (status ≡ scrc_recv_error) ⊎ (status ≡ scrc_connection_closed)

-- How a call ends: it waits, it fails, or it succeeds.
abbrev pub Refilled : ScrcConnection → List ℕ → Option (ℕ × ScrcConnection) → Type 0
Refilled conn ahead result =
    ((result ≡ none) × (ahead ≡ []))
    ⊎ ((status : ℕ) × (failed : ScrcConnection) × (result ≡ some (status, failed))
        × IsFailure status
        × (ahead ≡ []))
    ⊎ ((fed : ScrcConnection) × (result ≡ some (scrc_ok, fed)) × Fed conn fed ahead)

incoming-put_back :
    (bs : List ℕ) (answers : List Answer) → incoming (put_back bs answers) ≡ bs ++ incoming answers
incoming-put_back [] answers = refl
incoming-put_back (b ∷ bs) answers = refl

recv_into-Refilled :
    (conn : ScrcConnection) (space : ℕ) (answers : List Answer)
    → IsBuffer conn
    → 1 ≤ space
    → conn.rlen + space ≤ fullsz
    → Refilled conn (incoming answers) (recv_into conn space answers)
unfolding recv_into
recv_into-Refilled conn space [] w pos room = inl (refl, refl)
recv_into-Refilled conn space (interrupted ∷ answers) w pos room =
    recv_into-Refilled conn space answers w pos room
recv_into-Refilled conn space (broken ∷ answers) w pos room =
    inr (inl (scrc_recv_error, record conn { answers = answers }, refl, inl refl, refl))
recv_into-Refilled conn space (received [] ∷ answers) w pos room =
    inr (inl (scrc_connection_closed, record conn { answers = answers }, refl, inr refl, refl))
recv_into-Refilled conn space (received (b ∷ bs) ∷ answers) w pos room =
    let block = take space (b ∷ bs) in
    let rest = drop space (b ∷ bs) in
    let f = write_at conn.rbuf conn.rlen block in
    let len : length block ≡ min space (length (b ∷ bs)) = length-take {0} space (b ∷ bs) in
    let w1 = w.inside in
    let w2 = w.fits in
    let amount : conn.rlen + length block - conn.rpos ≡ valid conn + length block = omega arith in
    let end : conn.rpos + valid conn ≡ conn.rlen = omega arith in
    let old : bytes_at f conn.rpos (valid conn) ≡ bytes_at conn.rbuf conn.rpos (valid conn) =
      bytes_at-below conn.rbuf conn.rlen conn.rpos (valid conn) block (omega arith) in
    let new : bytes_at f (conn.rpos + valid conn) (length block) ≡ block =
      ap (λ z. bytes_at f z (length block)) end ∙ bytes_at-write_at conn.rbuf conn.rlen block in
    let all : bytes_at f conn.rpos (conn.rlen + length block - conn.rpos)
        ≡ bytes_at conn.rbuf conn.rpos (valid conn) ++ block =
      ap (bytes_at f conn.rpos) amount
      ∙ bytes_at-add f conn.rpos (valid conn) (length block)
      ∙ rw (old, new) refl in
    let stream : block ++ incoming (put_back rest answers) ≡ (b ∷ bs) ++ incoming answers =
      ap (λ z. block ++ z) (incoming-put_back rest answers)
      ∙ sym (append_assoc block rest (incoming answers))
      ∙ ap (λ z. z ++ incoming answers) (take-append-drop space (b ∷ bs)) in
    inr (
      inr (
        _,
        refl,
        record {
          buffer = record { inside = omega arith; fits = omega arith };
          more = omega arith;
          same_body = refl;
          same =
              ap (λ z. z ++ incoming (put_back rest answers)) all
              ∙ append_assoc (bytes_at conn.rbuf conn.rpos (valid conn)) block
                  (incoming (put_back rest answers))
              ∙ ap (λ z. bytes_at conn.rbuf conn.rpos (valid conn) ++ z) stream;
        },
      ))

-- Compaction keeps the unread bytes.
compact-bytes :
    (conn : ScrcConnection)
    → bytes_at (compact conn).rbuf 0 (valid conn) ≡ bytes_at conn.rbuf conn.rpos (valid conn)
unfolding compact
compact-bytes conn =
    let bs = bytes_at conn.rbuf conn.rpos (valid conn) in
    elim (Bool-cases (ltb 0 (valid conn))) [
      | inr e ↦ let z : valid conn ≡ 0 = ground arith in rw z refl
      | inl e ↦ elim (Bool-cases (ltb 0 conn.rpos)) [
        | inr e' ↦
            let z : conn.rpos ≡ 0 = ground arith in
            rw (e, e') (ap (λ p. bytes_at conn.rbuf p (valid conn)) (sym z))
        | inl e' ↦
            rw (e, e')
              (ap (bytes_at (write_at conn.rbuf 0 bs) 0)
                  (sym (length-bytes_at conn.rbuf conn.rpos (valid conn)))
                ∙ bytes_at-write_at conn.rbuf 0 bs)
      ]
    ]

-- On a buffer with fewer than BUFSZ unread bytes, `recv_refill` waits or fails only where nothing more
-- comes in; else it adds a byte or more to the unread ones, inside the buffer.
pub recv_refill-Refilled :
    (conn : ScrcConnection)
    → IsBuffer conn
    → valid conn < bufsz
    → Refilled conn (incoming conn.answers) (recv_refill conn)
unfolding recv_refill compact
recv_refill-Refilled conn w few =
    let w1 = w.inside in
    let w2 = w.fits in
    elim (Bool-cases (ltb (fullsz - conn.rlen) reservesz)) [
      | inr e ↦
          rw e (
            recv_into-Refilled conn (fullsz - conn.rlen) conn.answers w (ground arith)
              (omega arith))
      | inl e ↦
          let at_begin : valid (compact conn) ≡ valid conn = omega arith in
          rw e (
            through (compact conn) at_begin refl (compact-bytes conn)
              (recv_into (compact conn) (fullsz - valid conn) conn.answers)
              (recv_into-Refilled (compact conn) (fullsz - valid conn) conn.answers
                (record { inside = omega arith; fits = omega arith }) (omega arith) (omega arith)))
    ]
  where
    through :
        (c : ScrcConnection)
        → valid c ≡ valid conn
        → c.body ≡ conn.body
        → bytes_at c.rbuf c.rpos (valid conn) ≡ bytes_at conn.rbuf conn.rpos (valid conn)
        → (result : Option (ℕ × ScrcConnection)) → Refilled c (incoming conn.answers) result
        → Refilled conn (incoming conn.answers) result
    through c v b bytes result (inl h) = inl h
    through c v b bytes result (inr (inl h)) = inr (inl h)
    through c v b bytes result (inr (inr (fed, code, f))) = inr (
        inr (
          fed,
          code,
          record {
            buffer = f.buffer;
            more = omega (arith, v, f.more);
            same_body = f.same_body ∙ b;
            same =
                f.same
                ∙ ap (λ z. z ++ incoming conn.answers) (ap (bytes_at c.rbuf c.rpos) v ∙ bytes);
          },
        ))
