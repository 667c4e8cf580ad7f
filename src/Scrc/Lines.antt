-- ===== src/Scrc/Lines.antt =====
-- A header line that lies in the receive buffer as a whole is taken apart into its name and its value.
use scroller.Prelude.{
  ℕ, zero, suc, ◌+◌, ◌-◌, ◌≤◌, ◌<◌, ◌≡◌, ◌≢◌, refl, sym, ap, ◌∙◌, Option, none, some, Bool, true,
  false, not, ◌&&◌, ltb, ◌==◌, if◌then◌else◌, arith, subst, update, eq→==, ne→==,
}
use scroller.Scrc.{ScrcConnection, recv_block, fullsz, scrc_ok}
use scroller.Scrc.Header.{is_space, skip_spaces, line_end, last_char, trim, HeaderLine, header_loop}

-- A byte that is no part of the syntax of a line.
abbrev pub Plain : ℕ → Type 0
Plain b = (b ≢ 0) × (b ≢ 10) × (b ≢ b':')

-- `n` bytes from place `p` on that hold no syntax and neither begin nor end with a space.
pub record Text (f : ℕ → ℕ) (p n : ℕ) : Type 0 where
  pub some_byte : 1 ≤ n
  pub plain : (i : ℕ) → i < n → Plain (f (p + i))
  pub first : is_space (f p) ≡ false
  pub last : is_space (f (p + n - 1)) ≡ false

-- `k` spaces, and then no space.
skip_spaces-end :
    (k fuel : ℕ) (f : ℕ → ℕ) (p : ℕ)
    → k < fuel
    → ((i : ℕ) → i < k → f (p + i) ≡ 32)
    → is_space (f (p + k)) ≡ false
    → skip_spaces fuel f p ≡ some (p + k)
unfolding skip_spaces
skip_spaces-end k zero f p lt h e = absurd (omega arith)
skip_spaces-end zero (suc fuel) f p lt h e =
    let s : p + zero ≡ p = omega arith in
    let e' : is_space (f p) ≡ false = subst (λ z. is_space (f z) ≡ false) s e in
    stay _ _ (f p == 0) (is_space (f p)) e' ∙ ap some (sym s)
  where
    stay :
        (x : Option ℕ) (y : ℕ) (a b : Bool)
        → b ≡ false
        → (if not a && b then x else some y) ≡ some y
    stay x y a true z = absurd (ground arith)
    stay x y true false z = refl
    stay x y false false z = refl
skip_spaces-end (suc k) (suc fuel) f p lt h e =
    let s : p + zero ≡ p = omega arith in
    let here : f p ≡ 32 = subst (λ z. f z ≡ 32) s (h zero (omega arith)) in
    let t : p + 1 + k ≡ p + suc k = omega arith in
    rw here (
      skip_spaces-end k fuel f (p + 1) (omega arith)
        (λ i il.
          let u : p + suc i ≡ p + 1 + i = omega arith in
          subst (λ z. f z ≡ 32) u (h (suc i) (omega arith)))
        (subst (λ z. is_space (f z) ≡ false) (sym t) e)
      ∙ ap some t)

line_end-zero :
    (n fuel : ℕ) (f : ℕ → ℕ) (p : ℕ)
    → n < fuel
    → ((i : ℕ) → i < n → Plain (f (p + i)))
    → f (p + n) ≡ 0
    → line_end fuel f p ≡ some (p + n)
unfolding line_end
line_end-zero n zero f p lt h e = absurd (omega arith)
line_end-zero zero (suc fuel) f p lt h e =
    let s : p + zero ≡ p = omega arith in
    let here : f p ≡ 0 = subst (λ z. f z ≡ 0) s e in rw here (ap some (sym s))
line_end-zero (suc n) (suc fuel) f p lt h e =
    let s : p + zero ≡ p = omega arith in
    let here : Plain (f p) = subst (λ z. Plain (f z)) s (h zero (omega arith)) in
    let t : p + 1 + n ≡ p + suc n = omega arith in
    rw (ne→== (f p) 0 here.0, ne→== (f p) 10 here.1)
      (line_end-zero n fuel f (p + 1) (omega arith)
          (λ i il.
            let u : p + suc i ≡ p + 1 + i = omega arith in
            subst (λ z. Plain (f z)) u (h (suc i) (omega arith)))
          (subst (λ z. f z ≡ 0) (sym t) e)
        ∙ ap some t)

last_char-here : (f : ℕ → ℕ) (src c : ℕ) → is_space (f c) ≡ false → last_char f src c ≡ some c
unfolding last_char
last_char-here f src zero e = go _ (zero == src) (is_space (f zero)) e
  where
    go : (y : ℕ) (a b : Bool) → b ≡ false → (if not a && b then none else some y) ≡ some y
    go y a true z = absurd (ground arith)
    go y true false z = refl
    go y false false z = refl
last_char-here f src (suc c) e = go _ _ (suc c == src) (is_space (f (suc c))) e
  where
    go :
        (x : Option ℕ) (y : ℕ) (a b : Bool)
        → b ≡ false
        → (if not a && b then x else some y) ≡ some y
    go x y a true z = absurd (ground arith)
    go x y true false z = refl
    go x y false false z = refl

-- `trim` of `k` spaces and a text that ends with a zero.
trim-Text :
    (f : ℕ → ℕ) (p k n : ℕ)
    → ((i : ℕ) → i < k → f (p + i) ≡ 32)
    → Text f (p + k) n
    → f (p + k + n) ≡ 0
    → k + n < fullsz
    → trim f p ≡ some (update f (p + k + n) 0, p + k)
unfolding trim
trim-Text f p k n spaces t e short =
    let pos = t.some_byte in
    let back : p + k + n - 1 + 1 ≡ p + k + n = omega arith in
    let start : f p ≢ 0 = not_end k spaces t in
    rw
      (
        ne→== (f p) 0 start,
        skip_spaces-end k fullsz f p (omega arith) spaces t.first,
        line_end-zero n fullsz f (p + k) (omega arith) t.plain e,
        last_char-here f (p + k) (p + k + n - 1) t.last,
        back,
      )
      refl
  where
    not_end : (k : ℕ) → ((i : ℕ) → i < k → f (p + i) ≡ 32) → Text f (p + k) n → f p ≢ 0
    not_end zero spaces t z =
        let s : p + zero + zero ≡ p = omega arith in
        let pos = t.some_byte in (subst (λ y. Plain (f y)) s (t.plain zero (omega arith))).0 z
    not_end (suc k) spaces t z =
        let s : p + zero ≡ p = omega arith in
        let b : f p ≡ 32 = subst (λ y. f y ≡ 32) s (spaces zero (omega arith)) in
        omega (arith, b, z)

pub trim_at :
    (f : ℕ → ℕ) (p k n s c : ℕ)
    → s ≡ p + k
    → c ≡ s + n
    → ((i : ℕ) → i < k → f (p + i) ≡ 32)
    → Text f s n
    → f c ≡ 0
    → k + n < fullsz
    → trim f p ≡ some (update f c 0, s)
trim_at f p k n s c es ec spaces t z short =
    let place : c ≡ p + k + n = omega (arith, es, ec) in
    trim-Text f p k n spaces (subst (λ y. Text f y n) es t) (subst (λ y. f y ≡ 0) place z) short
    ∙ ap (λ y. some (update f y 0, p + k)) (sym place)
    ∙ ap (λ y. some (update f c 0, y)) (sym es)

pub Text-agree :
    (f g : ℕ → ℕ) (p n : ℕ) → ((i : ℕ) → i < n → g (p + i) ≡ f (p + i)) → Text f p n → Text g p n
Text-agree f g p n same t =
    let pos = t.some_byte in
    let s : p + 0 ≡ p = omega arith in
    let e : p + (n - 1) ≡ p + n - 1 = omega arith in
    let head : g p ≡ f p = subst (λ z. g z ≡ f z) s (same 0 (omega arith)) in
    let tail : g (p + n - 1) ≡ f (p + n - 1) =
      subst (λ z. g z ≡ f z) e (same (n - 1) (omega arith)) in
    record {
      some_byte = pos;
      plain = λ i lt. subst Plain (sym (same i lt)) (t.plain i lt);
      first = ap is_space head ∙ t.first;
      last = ap is_space tail ∙ t.last;
    }

pub recv_one :
    (conn : ScrcConnection)
    → conn.rpos < conn.rlen
    → recv_block conn 1 ≡ some (scrc_ok, record conn { rpos = conn.rpos + 1 }, some conn.rpos)
unfolding recv_block
recv_one conn lt =
    let enough : ltb (conn.rlen - conn.rpos) 1 ≡ false = ground arith in rw enough refl

-- Bytes without syntax are read over.
pub header_loop-Plain :
    (i k t : ℕ) (conn : ScrcConnection) (r begin : ℕ) (delim : Bool) (hl : HeaderLine)
    → t ≡ i + k
    → r ≡ conn.rpos + i
    → r ≤ conn.rlen
    → ((j : ℕ) → j < i → Plain (conn.rbuf (conn.rpos + j)))
    → header_loop t conn begin delim hl ≡ header_loop k (record conn { rpos = r }) begin delim hl
unfolding header_loop
header_loop-Plain zero k t conn r begin delim hl et er le h =
    let e : t ≡ k = omega (arith, et) in
    let e' : r ≡ conn.rpos = omega (arith, er) in
    ap (λ z. header_loop z conn begin delim hl) e
    ∙ ap (λ z. header_loop k (record conn { rpos = z }) begin delim hl) (sym e')
header_loop-Plain (suc i) k zero conn r begin delim hl et er le h = absurd (omega (arith, et))
header_loop-Plain (suc i) k (suc t) conn r begin delim hl et er le h =
    let s : conn.rpos + 0 ≡ conn.rpos = omega arith in
    let b : Plain (conn.rbuf conn.rpos) = subst (λ z. Plain (conn.rbuf z)) s (h 0 (omega arith)) in
    rw
      (
        recv_one conn (omega (arith, er)),
        ne→== (conn.rbuf conn.rpos) b':' b.2,
        ne→== (conn.rbuf conn.rpos) 10 b.1,
      )
      (header_loop-Plain i k t (record conn { rpos = conn.rpos + 1 }) r begin delim hl
        (omega (arith, et)) (omega (arith, er)) le
        (λ j lt.
          let u : conn.rpos + suc j ≡ conn.rpos + 1 + j = omega arith in
          subst (λ z. Plain (conn.rbuf z)) u (h (suc j) (omega arith))))

pub header_loop_colon :
    (k : ℕ) (conn : ScrcConnection) (begin : ℕ) (hl : HeaderLine) (g : ℕ → ℕ) (name : ℕ)
    → conn.rpos < conn.rlen
    → conn.rbuf conn.rpos ≡ b':'
    → trim (update conn.rbuf conn.rpos 0) begin ≡ some (g, name)
    → header_loop (suc k) conn begin false hl
      ≡ header_loop k
          (record conn { rpos = conn.rpos + 1; rbuf = g })
          (conn.rpos + 1)
          true
          (record hl { name = some name })
unfolding header_loop
header_loop_colon k conn begin hl g name lt e t =
    rw (recv_one conn lt, eq→== (conn.rbuf conn.rpos) b':' e, t) refl

pub header_loop_end :
    (k : ℕ) (conn : ScrcConnection) (begin : ℕ) (hl : HeaderLine) (g : ℕ → ℕ) (value : ℕ)
    → conn.rpos < conn.rlen
    → conn.rbuf conn.rpos ≡ 10
    → trim (update conn.rbuf conn.rpos 0) begin ≡ some (g, value)
    → header_loop (suc k) conn begin true hl
      ≡ some (
        scrc_ok,
        record conn { rpos = conn.rpos + 1; rbuf = g },
        record hl { value = some value },
      )
unfolding header_loop
header_loop_end k conn begin hl g value lt e t =
    let ne : (conn.rbuf conn.rpos == b':') ≡ false =
      ne→== (conn.rbuf conn.rpos) b':' (λ s. omega (arith, s, e)) in
    rw (recv_one conn lt, ne, eq→== (conn.rbuf conn.rpos) 10 e, t) refl
